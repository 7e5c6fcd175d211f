-- ===== src/Cache/Keys.antt =====
-- The keys of a map and the list of keys in insertion order, under the operations of the cache.
use package_firewall.Common.{
  ℕ, zero, suc, ◌-◌, ◌≤◌, ◌≡◌, refl, Bool, true, false, none, List, [], ◌∷◌, ◌++◌, ltb,
  if◌then◌else◌, arith, Bool-cases, inl, inr,
}
use native.Mathlib.Nat.{zero-sub}
use package_firewall.Common.Text.{Text, text_eq, text_eq_iff, text_eq_refl}
use package_firewall.Common.Lists.{length, drop}
use package_firewall.Common.Dict.{lookup, insert, delete, keys}
use package_firewall.Cache.{Entry, remove, evict}

unfoldable pub contains : Text → List Text → Bool
contains k [] = false
contains k (j ∷ ks) = if text_eq j k then true else contains k ks

abbrev pub Distinct : List Text → Type 0
Distinct [] = Unit
Distinct (k ∷ ks) = (contains k ks ≡ false) × Distinct ks

pub remove_absent : (k : Text) (ks : List Text) → contains k ks ≡ false → remove k ks ≡ ks
unfolding contains remove
remove_absent k [] h = refl
remove_absent k (j ∷ ks) h = ground (arith, remove_absent k ks)

pub contains-remove :
    (j k : Text) (ks : List Text)
    → contains j (remove k ks) ≡ (if text_eq k j then false else contains j ks)
unfolding contains remove
contains-remove j k [] = ground arith
contains-remove j k (i ∷ ks) =
    ground (arith, text_eq_iff k j, text_eq_iff i k, text_eq_iff i j, contains-remove j k ks)

pub Distinct-remove : (k : Text) (ks : List Text) → Distinct ks → Distinct (remove k ks)
unfolding remove
Distinct-remove k [] h = tt
Distinct-remove k (j ∷ ks) (absent, h) = elim (Bool-cases (text_eq j k)) [
  | inl same ↦ rw same (Distinct-remove k ks h)
  | inr other ↦ rw other (ground (arith, contains-remove j k ks), Distinct-remove k ks h)
]

pub length-remove-le : (k : Text) (ks : List Text) → length (remove k ks) ≤ length ks
unfolding remove
length-remove-le k [] = omega arith
length-remove-le k (j ∷ ks) = ground (arith, length-remove-le k ks)

pub contains-append :
    (j k : Text) (ks : List Text)
    → contains j (ks ++ k ∷ []) ≡ (if text_eq k j then true else contains j ks)
unfolding contains
contains-append j k [] = refl
contains-append j k (i ∷ ks) = ground (arith, contains-append j k ks)

pub Distinct-append :
    (k : Text) (ks : List Text) → Distinct ks → contains k ks ≡ false → Distinct (ks ++ k ∷ [])
unfolding contains
Distinct-append k [] h e = (refl, tt)
Distinct-append k (j ∷ ks) (absent, h) e = (
  ground (arith, contains-append j k ks, text_eq_iff j k, text_eq_iff k j),
  Distinct-append k ks h (ground arith),
)

module _ {V : Type 0} where
  pub keys-delete : (k : Text) (m : List (Text × V)) → keys (delete k m) ≡ remove k (keys m)
  unfolding keys delete remove
  keys-delete k [] = refl
  keys-delete k ((j, v) ∷ m) = ground (arith, keys-delete k m)

  pub keys-insert :
      (k : Text) (v : V) (m : List (Text × V))
      → keys (insert k v m) ≡ (if contains k (keys m) then keys m else keys m ++ k ∷ [])
  unfolding keys insert contains
  keys-insert k v [] = refl
  keys-insert k v ((j, w) ∷ m) = ground (arith, keys-insert k v m)

  pub delete_absent :
      (k : Text) (m : List (Text × V)) → contains k (keys m) ≡ false → delete k m ≡ m
  unfolding keys delete contains
  delete_absent k [] h = refl
  delete_absent k ((j, v) ∷ m) h = ground (arith, delete_absent k m)

  pub lookup_absent :
      (k : Text) (m : List (Text × V)) → contains k (keys m) ≡ false → lookup k m ≡ none
  unfolding keys lookup contains
  lookup_absent k [] h = refl
  lookup_absent k ((j, v) ∷ m) h = ground (arith, lookup_absent k m)

  pub keys-drop : (n : ℕ) (m : List (Text × V)) → keys (drop n m) ≡ drop n (keys m)
  unfolding keys
  keys-drop zero m = refl
  keys-drop (suc n) [] = refl
  keys-drop (suc n) (_ ∷ m) = keys-drop n m

sub_over : (n max : ℕ) → ltb max (suc n) ≡ true → suc n - max ≡ suc (n - max)
sub_over n max h = ground arith

sub_fits : (n max : ℕ) → ltb max (suc n) ≡ false → suc n - max ≡ 0
sub_fits n max h = ground arith

-- The loop that enforces the maximum drops the oldest entries, as many as are too many.
pub evict_lem :
    {T : Type 0} (max : ℕ) (m : List (Text × Entry T))
    → Distinct (keys m)
    → evict max (keys m) m ≡ (keys (drop (length m - max) m), drop (length m - max) m)
unfolding evict keys delete
evict_lem max [] h = rw zero-sub
evict_lem max ((k, v) ∷ m) (absent, h) = elim (Bool-cases (ltb max (suc (length m)))) [
  | inl over ↦
      rw (over, text_eq_refl k, delete_absent k m absent, sub_over (length m) max over)
        (evict_lem max m h)
  | inr fits ↦ rw (fits, sub_fits (length m) max fits)
]
