-- ===== src/Proxy/Fill/Requests.antt =====
-- The requests at the group of the fills, each with its own number.
use package_firewall.Common.{
  ◌⊎◌, inl, inr, ℕ, ◌≡◌, ◌≢◌, refl, Bool, true, false, Option, none, some, List, [], ◌==◌, ==_iff,
  Bool-cases, if◌then◌else◌,
}
use package_firewall.Common.Text.{Text, text_eq, text_eq_iff}
use package_firewall.Common.Lists.{any}
use package_firewall.Common.Dict.{lookup, insert, delete, lookup-insert, lookup-delete}
use package_firewall.Proxy.Fill.{FillGroup, begin, finish}

-- The group and the requests at it, by number: the key and the call that each leads, and those that
-- each waits for.
pub record Fills : Type 0 where
  pub group : FillGroup
  pub leads : ℕ → Option (Text × ℕ)
  pub waits : ℕ → Option (Text × ℕ)

abbrev pub at_request : ℕ → Option (Text × ℕ) → (ℕ → Option (Text × ℕ)) → ℕ → Option (Text × ℕ)
at_request who entry p other = if who == other then entry else p other

abbrev pub empty_fills : Fills
empty_fills = record {
  group = record { calls = []; next = 0; closed = [] };
  leads = (λ who. none);
  waits = (λ who. none);
}

-- What happens to the group, in any order: a request that is not at it begins, as a leader or to
-- wait, a leader finishes its call, and one that waits goes on or gives up.
pub data Reached : Fills → Type 0 where
  at_start : Reached empty_fills
  led :
      {s : Fills} (who : ℕ) (key : Text) (call : ℕ) (g : FillGroup)
      → Reached s
      → s.leads who ≡ none
      → s.waits who ≡ none
      → begin key s.group ≡ ((call, true), g)
      → Reached
          (record { group = g; leads = at_request who (some (key, call)) s.leads; waits = s.waits })
  joined :
      {s : Fills} (who : ℕ) (key : Text) (call : ℕ) (g : FillGroup)
      → Reached s
      → s.leads who ≡ none
      → s.waits who ≡ none
      → begin key s.group ≡ ((call, false), g)
      → Reached
          (record { group = g; leads = s.leads; waits = at_request who (some (key, call)) s.waits })
  finished :
      {s : Fills} (who : ℕ) (key : Text) (call : ℕ)
      → Reached s
      → s.leads who ≡ some (key, call)
      → Reached (record {
        group = finish key call s.group;
        leads = at_request who none s.leads;
        waits = s.waits;
      })
  woken :
      {s : Fills} (who : ℕ)
      → Reached s
      → Reached (record { group = s.group; leads = s.leads; waits = at_request who none s.waits })

abbrev pub is_closed : FillGroup → ℕ → Bool
is_closed g call = any (λ c. c == call) g.closed

-- Some request leads this call for this key.
abbrev pub HasLeader : (ℕ → Option (Text × ℕ)) → Text → ℕ → Type 0
HasLeader leads key call = (who : ℕ) × (leads who ≡ some (key, call))

pub same_pair :
    {key k : Text} {call c : ℕ}
    → ◌≡◌ {A = Option (Text × ℕ)} (some (key, call)) (some (k, c))
    → (key ≡ k) × (call ≡ c)
same_pair h = (cc, cc)

-- The entry of a request after one request's entry has changed.
pub at_request-cases :
    (who other : ℕ) (entry : Option (Text × ℕ)) (p : ℕ → Option (Text × ℕ)) (o : Option (Text × ℕ))
    → at_request who entry p other ≡ o
    → ((who ≡ other) × (entry ≡ o)) ⊎ ((who ≢ other) × (p other ≡ o))
at_request-cases who other entry p o h = elim (Bool-cases (who == other)) [
  | inl same ↦ inl ((==_iff who other).0 same, rw same at h)
  | inr apart ↦
      inr ((λ e. let same : (who == other) ≡ true = (==_iff who other).1 e in cc), rw apart at h)
]

pub at_request-other :
    (who other : ℕ) (entry : Option (Text × ℕ)) (p : ℕ → Option (Text × ℕ))
    → who ≢ other
    → at_request who entry p other ≡ p other
at_request-other who other entry p apart = elim (Bool-cases (who == other)) [
  | inl same ↦ absurd (apart ((==_iff who other).0 same))
  | inr e ↦ rw e refl
]

pub at_request-same :
    (who : ℕ) (entry : Option (Text × ℕ)) (p : ℕ → Option (Text × ℕ))
    → at_request who entry p who ≡ entry
at_request-same who entry p = rw ((==_iff who who).1 refl) refl

pub lookup-insert_cases :
    (key k : Text) (call c : ℕ) (calls : List (Text × ℕ))
    → lookup k (insert key call calls) ≡ some c
    → ((key ≡ k) × (call ≡ c)) ⊎ (lookup k calls ≡ some c)
lookup-insert_cases key k call c calls h = elim (Bool-cases (text_eq key k)) [
  | inl same ↦
      let e : ◌≡◌ {A = Option ℕ} (some call) (some c) =
        rw (lookup-insert key k call calls, same) at h in
      inl ((text_eq_iff key k).0 same, cc)
  | inr apart ↦ inr (rw (lookup-insert key k call calls, apart) at h)
]

-- A key that is absent keeps what the others have.
pub lookup-insert_absent :
    (key k : Text) (call c : ℕ) (calls : List (Text × ℕ))
    → lookup key calls ≡ none
    → lookup k calls ≡ some c
    → lookup k (insert key call calls) ≡ some c
lookup-insert_absent key k call c calls absent h = elim (Bool-cases (text_eq key k)) [
  | inl same ↦
      let gone : lookup k calls ≡ none = rw ((text_eq_iff key k).0 same) at absent in
      let never : ⊥ = cc in absurd never
  | inr apart ↦ rw (lookup-insert key k call calls, apart) h
]

pub lookup-insert_same :
    (key : Text) (call : ℕ) (calls : List (Text × ℕ))
    → lookup key (insert key call calls) ≡ some call
lookup-insert_same key call calls =
    rw (lookup-insert key key call calls, (text_eq_iff key key).1 refl) refl

pub lookup-delete_cases :
    (key k : Text) (c : ℕ) (calls : List (Text × ℕ))
    → lookup k (delete key calls) ≡ some c
    → (key ≢ k) × (lookup k calls ≡ some c)
lookup-delete_cases key k c calls h = elim (Bool-cases (text_eq key k)) [
  | inl same ↦
      let e : ◌≡◌ {A = Option ℕ} none (some c) = rw (lookup-delete key k calls, same) at h in
      let never : ⊥ = cc in absurd never
  | inr apart ↦ (
    (λ e. let same : text_eq key k ≡ true = (text_eq_iff key k).1 e in cc),
    rw (lookup-delete key k calls, apart) at h,
  )
]

pub lookup-delete_other :
    (key k : Text) (calls : List (Text × ℕ))
    → key ≢ k
    → lookup k (delete key calls) ≡ lookup k calls
lookup-delete_other key k calls apart = elim (Bool-cases (text_eq key k)) [
  | inl same ↦ absurd (apart ((text_eq_iff key k).0 same))
  | inr e ↦ rw (lookup-delete key k calls, e) refl
]
