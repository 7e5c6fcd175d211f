-- ===== src/Cache/Validity.antt =====
-- The invariant of a cache, kept by each of its methods.
use package_firewall.Common.{
  ℕ, zero, suc, ◌-◌, ◌≤◌, ◌≡◌, refl, sym, ◌∙◌, ◌⊎◌, Option, none, some, List, [], ◌∷◌, ◌++◌, ◌==◌,
  if◌then◌else◌, arith, Bool-cases, inl, inr,
}
use package_firewall.Common.Text.{Text}
use package_firewall.Common.Lists.{length, length-append, length-drop, drop}
use package_firewall.Common.Dict.{lookup, keys, length-keys}
use package_firewall.Cache.{
  Entry, Cache, new_with_max_entries, delete_key, purge, enforce_max_entries, get, put, set,
  expired, get_found, is_present,
}
use package_firewall.Cache.Keys.{
  contains, Distinct, Distinct-remove, Distinct-append, length-remove-le, keys-delete, keys-insert,
  keys-drop, evict_lem,
}

-- `order` lists the keys of `items`, each once and the oldest first, and a maximum other than 0
-- bounds their number. (The association list of the model keeps its keys in the order in which
-- they were first inserted.)
pub record IsValid {T : Type 0} (c : Cache T) : Type 0 where
  pub aligned : c.order ≡ keys c.items
  pub distinct : Distinct c.order
  pub bounded : (c.max_entries ≡ 0) ⊎ (length c.order ≤ c.max_entries)

Distinct-added :
    (key : Text) (ks : List Text)
    → Distinct ks
    → Distinct (if contains key ks then ks else ks ++ key ∷ [])
Distinct-added key ks h = elim (Bool-cases (contains key ks)) [
  | inl old ↦ rw old h
  | inr fresh ↦ rw fresh (Distinct-append key ks h fresh)
]

pub length-added-le :
    (key : Text) (ks : List Text)
    → length (if contains key ks then ks else ks ++ key ∷ []) ≤ suc (length ks)
length-added-le key ks = ground (arith, length-append ks (key ∷ []))

Distinct-drop : (n : ℕ) (ks : List Text) → Distinct ks → Distinct (drop n ks)
Distinct-drop zero ks h = h
Distinct-drop (suc n) [] h = h
Distinct-drop (suc n) (j ∷ ks) h = Distinct-drop n ks h.1

module _ {T : Type 0} where
  pub new-IsValid : (max : ℕ) → IsValid (new_with_max_entries {T = T} max)
  unfolding new_with_max_entries keys
  new-IsValid max = record { aligned = refl; distinct = tt; bounded = inr (omega arith) }

  pub purge-IsValid : (c : Cache T) → IsValid (purge c)
  unfolding purge keys
  purge-IsValid c = record { aligned = refl; distinct = tt; bounded = inr (omega arith) }

  pub delete_key-IsValid : (key : Text) (c : Cache T) → IsValid c → IsValid (delete_key key c)
  unfolding delete_key
  delete_key-IsValid key c v = record {
    aligned = rw v.aligned (sym (keys-delete key c.items));
    distinct = Distinct-remove key c.order v.distinct;
    bounded = ground (arith, length-remove-le key c.order, v.bounded);
  }

  get_found-IsValid :
      (key : Text) (c : Cache T) (now : ℕ) (o : Option (Entry T))
      → IsValid c
      → IsValid (get_found key c now o).1
  unfolding get_found
  get_found-IsValid key c now none v = v
  get_found-IsValid key c now (some item) v = elim (Bool-cases (expired now item)) [
    | inl e ↦ rw e (delete_key-IsValid key c v)
    | inr e ↦ rw e v
  ]

  pub get-IsValid : (now : ℕ) (key : Text) (c : Cache T) → IsValid c → IsValid (get now key c).1
  unfolding get
  get-IsValid now key c v = get_found-IsValid key c now (lookup key c.items) v

  pub is_present-lookup :
      (key : Text) (m : List (Text × Entry T)) → is_present (lookup key m) ≡ contains key (keys m)
  unfolding is_present lookup contains keys
  is_present-lookup key [] = refl
  is_present-lookup key ((j, e) ∷ m) = ground (arith, is_present-lookup key m)

  -- The cache between the writes of `Set` and the loop that enforces the maximum.
  pub record HasPut (c : Cache T) : Type 0 where
    pub aligned : c.order ≡ keys c.items
    pub distinct : Distinct c.order
    pub bounded : (c.max_entries ≡ 0) ⊎ (length c.order ≤ suc c.max_entries)

  pub order-put :
      (now : ℕ) (key : Text) (value : T) (ttl : ℕ) (c : Cache T)
      → IsValid c
      → (put now key value ttl c).order
        ≡ (if contains key c.order then c.order else c.order ++ key ∷ [])
  unfolding put
  order-put now key value ttl c v = rw (is_present-lookup key c.items, v.aligned)

  aligned-put :
      (now : ℕ) (key : Text) (value : T) (ttl : ℕ) (c : Cache T)
      → IsValid c
      → (put now key value ttl c).order ≡ keys (put now key value ttl c).items
  unfolding put
  aligned-put now key value ttl c v =
      order-put now key value ttl c v ∙ rw v.aligned (sym (keys-insert key _ c.items))

  pub max_entries-put :
      (now : ℕ) (key : Text) (value : T) (ttl : ℕ) (c : Cache T)
      → (put now key value ttl c).max_entries ≡ c.max_entries
  unfolding put
  max_entries-put now key value ttl c = refl

  pub put-HasPut :
      (now : ℕ) (key : Text) (value : T) (ttl : ℕ) (c : Cache T)
      → IsValid c
      → HasPut (put now key value ttl c)
  put-HasPut now key value ttl c v = record {
    aligned = aligned-put now key value ttl c v;
    distinct = rw (order-put now key value ttl c v) (Distinct-added key c.order v.distinct);
    bounded =
        rw (order-put now key value ttl c v, max_entries-put now key value ttl c) ground
          (arith, length-added-le key c.order, v.bounded);
  }

  pub enforce_max_entries-IsValid : (c : Cache T) → HasPut c → IsValid (enforce_max_entries c)
  unfolding enforce_max_entries
  enforce_max_entries-IsValid c h = elim (Bool-cases (c.max_entries == 0)) [
    | inl free ↦
        rw free
          (record { aligned = h.aligned; distinct = h.distinct; bounded = inl (ground arith) })
    | inr limited ↦
        rw (limited, h.aligned, evict_lem c.max_entries c.items (rw h.aligned at h.distinct))
          (record {
            aligned = refl;
            distinct = rw keys-drop (Distinct-drop _ _ (rw h.aligned at h.distinct));
            bounded = inr (
                ground (
                  arith,
                  length-keys (drop (length c.items - c.max_entries) c.items),
                  length-drop (length c.items - c.max_entries) c.items,
                  length-keys c.items,
                ));
          })
  ]

  pub set-IsValid :
      (now : ℕ) (key : Text) (value : T) (ttl : ℕ) (c : Cache T)
      → IsValid c
      → IsValid (set now key value ttl c)
  unfolding set
  set-IsValid now key value ttl c v =
      enforce_max_entries-IsValid (put now key value ttl c) (put-HasPut now key value ttl c v)

-- One call of a method, with the clock's reading where the method reads it.
pub data Call (T : Type 0) : Type 0 where
  reads : ℕ → Text → Call T
  writes : ℕ → Text → T → ℕ → Call T
  deletes : Text → Call T
  purges : Call T

module _ {T : Type 0} where
  unfoldable pub call : Call T → Cache T → Cache T
  call (reads now key) c = (get now key c).1
  call (writes now key value ttl) c = set now key value ttl c
  call (deletes key) c = delete_key key c
  call purges c = purge c

  -- Any sequence of calls.
  unfoldable pub calls : List (Call T) → Cache T → Cache T
  unfolding call
  calls [] c = c
  calls (o ∷ os) c = calls os (call o c)

  call-IsValid : (o : Call T) (c : Cache T) → IsValid c → IsValid (call o c)
  unfolding call
  call-IsValid (reads now key) c v = get-IsValid now key c v
  call-IsValid (writes now key value ttl) c v = set-IsValid now key value ttl c v
  call-IsValid (deletes key) c v = delete_key-IsValid key c v
  call-IsValid purges c v = purge-IsValid c

  -- After any sequence of calls on a valid cache, `order` lists the keys of the map, each once, and a
  -- maximum other than 0 bounds their number.
  pub calls-IsValid : (os : List (Call T)) (c : Cache T) → IsValid c → IsValid (calls os c)
  unfolding calls
  calls-IsValid [] c v = v
  calls-IsValid (o ∷ os) c v = calls-IsValid os (call o c) (call-IsValid o c v)
