-- ===== src/Cache/Laws.antt =====
-- What a reader of the cache sees after a write, and which entry a full cache gives up.
use package_firewall.Common.{
  ℕ, suc, ◌+◌, ◌-◌, ◌≤◌, ◌<◌, ◌≡◌, refl, ap, false, ◌&&◌, not, ◌⊎◌, none, some, List, [], ◌∷◌, ◌++◌,
  ◌==◌, ltb, if◌then◌else◌, arith, Bool-cases, inl, inr,
}
use native.Mathlib.Numerals.{add-one}
use package_firewall.Common.Text.{Text, text_eq, text_eq_refl}
use package_firewall.Common.Lists.{length, length-append, drop}
use package_firewall.Common.Dict.{lookup, insert, keys, length-keys, lookup-insert, lookup-delete}
use package_firewall.Cache.{
  Cache, delete_key, enforce_max_entries, get, put, set, expired, get_found,
}
use package_firewall.Cache.Keys.{contains, keys-drop, evict_lem}
use package_firewall.Cache.Validity.{IsValid, HasPut, put-HasPut, order-put, max_entries-put}

-- What `Set` leaves in `order`: a key that is there keeps its place, a new key goes to the end, and
-- the oldest key leaves a cache that is full.
abbrev pub order_after : ℕ → Text → List Text → List Text
order_after max key order =
    if contains key order
    then order
    else if not (max == 0) && ltb max (suc (length order))
    then drop 1 (order ++ key ∷ [])
    else order ++ key ∷ []

sub_old : (n max : ℕ) → n ≤ max → n - max ≡ 0
sub_old n max h = omega arith

sub_full : (n max : ℕ) → n ≤ max → max < suc n → suc n - max ≡ 1
sub_full n max h k = omega arith

sub_room : (n max : ℕ) → n < max → suc n - max ≡ 0
sub_room n max h = omega arith

trim-added :
    (max : ℕ) (key : Text) (order : List Text)
    → (max ≡ 0) ⊎ (length order ≤ max)
    → (if max == 0
        then (if contains key order then order else order ++ key ∷ [])
        else drop
            (length (if contains key order then order else order ++ key ∷ []) - max)
            (if contains key order then order else order ++ key ∷ []))
      ≡ order_after max key order
trim-added max key order h = elim (Bool-cases (contains key order)) [
  | inl old ↦ rw old (elim (Bool-cases (max == 0)) [
    | inl free ↦ rw free
    | inr limited ↦ rw (limited, sub_old (length order) max (ground arith))
  ])
  | inr fresh ↦
      rw (fresh, length-append, add-one)
        (elim (Bool-cases (max == 0)) [
          | inl free ↦ rw free
          | inr limited ↦ rw limited (elim (Bool-cases (ltb max (suc (length order)))) [
            | inl full ↦ rw (full, sub_full (length order) max (ground arith) (ground arith))
            | inr room ↦ rw (room, sub_room (length order) max (ground arith))
          ])
        ])
]

module _ {V : Type 0} where
  length-insert :
      (k : Text) (v : V) (m : List (Text × V))
      → length (insert k v m) ≡ (if contains k (keys m) then length m else suc (length m))
  unfolding insert keys contains
  length-insert k v [] = refl
  length-insert k v ((j, w) ∷ m) = ground (arith, length-insert k v m)

  lookup-insert_self : (k : Text) (v : V) (m : List (Text × V)) → lookup k (insert k v m) ≡ some v
  lookup-insert_self k v m = rw (lookup-insert k k v m, text_eq_refl k)

  lookup-drop_one :
      (k : Text) (v : V) (m : List (Text × V))
      → contains k (keys m) ≡ false
      → 0 < length m
      → lookup k (drop 1 (insert k v m)) ≡ some v
  unfolding insert keys contains
  lookup-drop_one k v [] h p = elim p [ ]
  lookup-drop_one k v ((j, w) ∷ m) h p = elim (Bool-cases (text_eq j k)) [
    | inl same ↦ ground arith
    | inr other ↦ rw other (lookup-insert_self k v m)
  ]

  -- The loop that enforces the maximum never drops the entry that was just written.
  lookup-drop-insert :
      (max : ℕ) (k : Text) (v : V) (m : List (Text × V))
      → 0 < max
      → length m ≤ max
      → lookup k (drop (length (insert k v m) - max) (insert k v m)) ≡ some v
  lookup-drop-insert max k v m p h = rw length-insert (elim (Bool-cases (contains k (keys m))) [
    | inl old ↦ rw (old, sub_old (length m) max h) (lookup-insert_self k v m)
    | inr fresh ↦ rw fresh (elim (Bool-cases (ltb max (suc (length m)))) [
      | inl full ↦
          rw (sub_full (length m) max h (ground arith)) (lookup-drop_one k v m fresh (ground arith))
      | inr room ↦ rw (sub_room (length m) max (ground arith)) (lookup-insert_self k v m)
    ])
  ])

module _ {T : Type 0} where
  -- The entries that `enforceMaxEntries` leaves.
  items-enforce :
      (c : Cache T)
      → HasPut c
      → (enforce_max_entries c).items
        ≡ (if c.max_entries == 0 then c.items else drop (length c.items - c.max_entries) c.items)
  unfolding enforce_max_entries
  items-enforce c h = elim (Bool-cases (c.max_entries == 0)) [
    | inl free ↦ rw free
    | inr limited ↦
        rw (limited, h.aligned, evict_lem c.max_entries c.items (rw h.aligned at h.distinct))
  ]

  order-enforce :
      (c : Cache T)
      → HasPut c
      → (enforce_max_entries c).order
        ≡ (if c.max_entries == 0 then c.order else drop (length c.order - c.max_entries) c.order)
  unfolding enforce_max_entries
  order-enforce c h = elim (Bool-cases (c.max_entries == 0)) [
    | inl free ↦ rw free
    | inr limited ↦ rw (
      limited,
      h.aligned,
      evict_lem c.max_entries c.items (rw h.aligned at h.distinct),
      keys-drop,
      length-keys,
    )
  ]

  -- `Set` keeps the place of a key that is there, appends a new one, and drops exactly the oldest
  -- key when that makes one too many.
  pub order-set :
      (now : ℕ) (key : Text) (value : T) (ttl : ℕ) (c : Cache T)
      → IsValid c
      → (set now key value ttl c).order ≡ order_after c.max_entries key c.order
  unfolding set
  order-set now key value ttl c v =
      rw
        (
          order-enforce (put now key value ttl c) (put-HasPut now key value ttl c v),
          max_entries-put now key value ttl c,
          order-put now key value ttl c v,
        )
        (trim-added c.max_entries key c.order v.bounded)

  items-put :
      (now : ℕ) (key : Text) (value : T) (ttl : ℕ) (c : Cache T)
      → (put now key value ttl c).items
        ≡ insert key
            (record { value = value; expires_at = if ltb 0 ttl then now + ttl else 0 })
            c.items
  unfolding put
  items-put now key value ttl c = refl

  lookup-set :
      (now : ℕ) (key : Text) (value : T) (ttl : ℕ) (c : Cache T)
      → IsValid c
      → lookup key (set now key value ttl c).items
        ≡ some (record { value = value; expires_at = if ltb 0 ttl then now + ttl else 0 })
  unfolding set
  lookup-set now key value ttl c v =
      rw
        (
          items-enforce (put now key value ttl c) (put-HasPut now key value ttl c v),
          max_entries-put now key value ttl c,
          items-put now key value ttl c,
        )
        (elim (Bool-cases (c.max_entries == 0)) [
          | inl free ↦ rw free (lookup-insert_self key _ c.items)
          | inr limited ↦ rw limited (
              lookup-drop-insert c.max_entries key _ c.items (ground arith)
                (ground (arith, v.bounded, length-keys c.items, ap length v.aligned)))
        ])

  get_found-some :
      (key : Text) (c : Cache T) (later : ℕ) (now ttl : ℕ) (value : T)
      → (get_found key c later
          (some (record { value = value; expires_at = if ltb 0 ttl then now + ttl else 0 }))).0
        ≡ (if ltb 0 ttl && ltb (now + ttl) later then none else some value)
  unfolding get_found expired
  get_found-some key c later now ttl value = ground arith

  -- A read after a write returns the written value until its lifetime, if it has one, is over.
  pub get-set :
      (now later : ℕ) (key : Text) (value : T) (ttl : ℕ) (c : Cache T)
      → IsValid c
      → (get later key (set now key value ttl c)).0
        ≡ (if ltb 0 ttl && ltb (now + ttl) later then none else some value)
  unfolding get
  get-set now later key value ttl c v =
      rw (lookup-set now key value ttl c v) (get_found-some key _ later now ttl value)

  -- A deleted key is not found.
  pub get-delete_key :
      (now : ℕ) (key : Text) (c : Cache T) → (get now key (delete_key key c)).0 ≡ none
  unfolding get get_found delete_key
  get-delete_key now key c = rw (lookup-delete key key c.items, text_eq_refl key)
