-- ===== src/Cache.antt =====
-- internal/cache/cache.go: a map with expiry times and, if a maximum is set, eviction of the
-- oldest key. A `time.Time` is a number with 0 for Go's zero time, and so are the durations
-- (0 stands for those that are not positive). The clock's reading is the argument `now`, and the
-- mutex makes each method one step.
pub mod Keys
pub mod Validity
pub mod Laws
use package_firewall.Common.{
  ℕ, suc, ◌+◌, Bool, true, false, ◌&&◌, not, Option, none, some, List, [], ◌∷◌, ◌++◌, ltb, ◌==◌,
  if◌then◌else◌,
}
use package_firewall.Common.Text.{Text, text_eq}
use package_firewall.Common.Lists.{length}
use package_firewall.Common.Dict.{lookup, insert, delete}

-- `entry[T]`
pub record Entry (T : Type 0) : Type 0 where
  pub value : T
  pub expires_at : ℕ

-- `Cache[T]`
pub record Cache (T : Type 0) : Type 0 where
  pub items : List (Text × Entry T)
  pub order : List Text
  pub max_entries : ℕ

-- The loop of `delete` over `c.order`.
unfoldable pub remove : Text → List Text → List Text
remove key [] = []
remove key (k ∷ ks) = if text_eq k key then remove key ks else k ∷ remove key ks

-- The loop of `enforceMaxEntries`.
unfoldable pub evict :
    {T : Type 0} → ℕ → List Text → List (Text × Entry T) → List Text × List (Text × Entry T)
evict max [] items = ([], items)
evict max (key ∷ order) items =
    let rest = evict max order (delete key items) in
    if ltb max (length items) then rest else (key ∷ order, items)

module _ {T : Type 0} where
  unfoldable pub new_with_max_entries : ℕ → Cache T
  new_with_max_entries max = record { items = []; order = []; max_entries = max }

  unfoldable pub new : Cache T
  unfolding new_with_max_entries
  new = new_with_max_entries 0

  -- `delete`, which the exported `Delete` calls under the lock
  unfoldable pub delete_key : Text → Cache T → Cache T
  delete_key key c = record c { items = delete key c.items; order = remove key c.order }

  unfoldable pub purge : Cache T → Cache T
  purge c = record c { items = []; order = [] }

  unfoldable pub enforce_max_entries : Cache T → Cache T
  enforce_max_entries c =
      if c.max_entries == 0
      then c
      else (let (order, items) = evict c.max_entries c.order c.items in
          record c { items = items; order = order })

  -- `!item.expiresAt.IsZero() && time.Now().After(item.expiresAt)`
  unfoldable pub expired : ℕ → Entry T → Bool
  expired now item = not (item.expires_at == 0) && ltb item.expires_at now

  get_found : Text → Cache T → ℕ → Option (Entry T) → Option T × Cache T
  get_found key c now none = (none, c)
  get_found key c now (some item) =
      if expired now item then (none, delete_key key c) else (some item.value, c)

  unfoldable pub get : ℕ → Text → Cache T → Option T × Cache T
  unfolding get_found
  get now key c = get_found key c now (lookup key c.items)

  unfoldable pub is_present : Option (Entry T) → Bool
  is_present none = false
  is_present (some _) = true

  -- The fields of the cache before `enforceMaxEntries`.
  unfoldable pub put : ℕ → Text → T → ℕ → Cache T → Cache T
  unfolding is_present
  put now key value ttl c = record c {
    items =
        insert key (record { value = value; expires_at = if ltb 0 ttl then now + ttl else 0 })
          c.items;
    order = if is_present (lookup key c.items) then c.order else c.order ++ key ∷ [];
  }

  unfoldable pub set : ℕ → Text → T → ℕ → Cache T → Cache T
  unfolding put enforce_max_entries
  set now key value ttl c = enforce_max_entries (put now key value ttl c)
