-- ===== src/Proxy/Rewrite/Slots.antt =====
-- The entries of `next`, and that picking among them finds the first match.
use mathlib.Core.List.{Memᴰ}
use native.Mathlib.Nat.{add-zero}
use package_firewall.Common.{
  ℕ, zero, suc, ◌+◌, ◌-◌, ◌≤◌, ◌≡◌, refl, ◌∙◌, ap, ◌⊎◌, inl, inr, true, false, Option, none, some,
  List, [], ◌∷◌, map, arith, Bool-cases, Option-cases, ltb, if◌then◌else◌,
}
use package_firewall.Common.Text.{Text, has_prefix, is_empty}
use package_firewall.Common.Lists.{drop}
use package_firewall.Proxy.Rewrite.{
  Replacement, Slot, shift, index, index_from, is_earlier, pick_from, refresh,
}
use package_firewall.Proxy.Rewrite.Scan.{match_at, later, earliest, earliest-none, earliest-some}

-- The rules with the places, `k` further on, of their first occurrences in `s`.
abbrev pub slots : ℕ → Text → List Replacement → List Slot
slots k s [] = []
slots k s (r ∷ rules) = (r, shift k (index s r.old)) ∷ slots k s rules

abbrev pub Full : List Replacement → Type 0
Full rules = (q : Replacement) → Memᴰ q rules → is_empty q.old ≡ false

abbrev pub shifted : ℕ → Option (Replacement × ℕ) → Option (Replacement × ℕ)
shifted k none = none
shifted k (some (r, at)) = some (r, k + at)

has_prefix_empty : (o : Text) → is_empty o ≡ false → has_prefix [] o ≡ false
unfolding has_prefix
has_prefix_empty [] h = cc
has_prefix_empty (_ ∷ o) h = refl

index_empty : (o : Text) → is_empty o ≡ false → index [] o ≡ none
unfolding index
index_empty o h = rw (has_prefix_empty o h) refl

index_here : (c : ℕ) (s o : Text) → has_prefix (c ∷ s) o ≡ true → index (c ∷ s) o ≡ some 0
unfolding index
index_here c s o h = rw h refl

index_past :
    (c : ℕ) (s o : Text) → has_prefix (c ∷ s) o ≡ false → index (c ∷ s) o ≡ shift 1 (index s o)
unfolding index
index_past c s o h = rw h refl

pick_empty :
    (k : ℕ) (rules : List Replacement) → Full rules → pick_from none (slots k [] rules) ≡ none
unfolding pick_from
pick_empty k [] full = refl
pick_empty k (r ∷ rules) full =
    rw (index_empty r.old (full r (Memᴰ.head refl)))
      (pick_empty k rules (λ q m. full q (Memᴰ.tail m)))

pick-keep :
    (k : ℕ) (s : Text) (r : Replacement) (rules : List Replacement)
    → pick_from (some (r, k)) (slots k s rules) ≡ some (r, k)
unfolding pick_from
pick-keep k s r [] = refl
pick-keep k s r (q ∷ rules) = elim (Option-cases (index s q.old)) [
  | inl absent ↦ rw absent (pick-keep k s r rules)
  | inr (j, found) ↦
      let not_before : ltb (k + j) k ≡ false = ground arith in
      rw (found, not_before) (pick-keep k s r rules)
]

still_late :
    (k j : ℕ) (q : Replacement) (best : Option (Replacement × ℕ))
    → is_earlier k best ≡ true
    → is_earlier k (if is_earlier (k + (1 + j)) best then some (q, k + (1 + j)) else best) ≡ true
still_late k j q none late = ground arith
still_late k j q (some (r, at)) late = ground arith

pick_first :
    (k c : ℕ) (s : Text) (r : Replacement) (rules : List Replacement)
    (best : Option (Replacement × ℕ))
    → is_earlier k best ≡ true
    → match_at rules (c ∷ s) ≡ some r
    → pick_from best (slots k (c ∷ s) rules) ≡ some (r, k)
unfolding pick_from match_at
pick_first k c s r [] best late h = cc
pick_first k c s r (q ∷ rules) best late h = elim (Bool-cases (has_prefix (c ∷ s) q.old)) [
  | inl here ↦
      let e : some q ≡ some r = rw here at h in
      let same : q ≡ r = cc in
      rw (index_here c s q.old here, add-zero, late)
        (pick-keep k (c ∷ s) q rules ∙ ap (λ x. some (x, k)) same)
  | inr past ↦ elim (Option-cases (index s q.old)) [
    | inl absent ↦
        rw (index_past c s q.old past, absent) (pick_first k c s r rules best late (rw past at h))
    | inr (j, found) ↦
        rw (index_past c s q.old past, found)
          (pick_first k c s r rules _ (still_late k j q best late) (rw past at h))
  ]
]

shift-shift : (k : ℕ) (o : Option ℕ) → shift k (shift 1 o) ≡ shift (suc k) o
shift-shift k none = refl
shift-shift k (some j) = ap some (omega arith)

shifted_later : (k : ℕ) (o : Option (Replacement × ℕ)) → shifted (suc k) o ≡ shifted k (later o)
shifted_later k none = refl
shifted_later k (some (r, at)) = ap (λ (n : ℕ). some (r, n)) (omega arith)

slots_past :
    (k c : ℕ) (s : Text) (rules : List Replacement)
    → match_at rules (c ∷ s) ≡ none
    → slots k (c ∷ s) rules ≡ slots (suc k) s rules
unfolding match_at
slots_past k c s [] h = refl
slots_past k c s (q ∷ rules) h = elim (Bool-cases (has_prefix (c ∷ s) q.old)) [
  | inl here ↦ let e : some q ≡ none = rw here at h in let no_match : ⊥ = cc in absurd no_match
  | inr past ↦
      let move : shift k (shift 1 (index s q.old)) ≡ shift (suc k) (index s q.old) =
        shift-shift k (index s q.old) in
      rw (index_past c s q.old past, move, slots_past k c s rules (rw past at h)) refl
]

-- Picking among the entries finds the first match of the rules.
pub pick_from-earliest :
    (k : ℕ) (s : Text) (rules : List Replacement)
    → Full rules
    → pick_from none (slots k s rules) ≡ shifted k (earliest rules s)
unfolding earliest
pick_from-earliest k [] rules full = pick_empty k rules full
pick_from-earliest k (c ∷ s) rules full = elim (Option-cases (match_at rules (c ∷ s))) [
  | inr (r, here) ↦
      rw (earliest-some rules c s r here, add-zero) (pick_first k c s r rules none refl here)
  | inl past ↦
      rw (slots_past k c s rules past, earliest-none rules c s past)
        (pick_from-earliest (suc k) s rules full ∙ shifted_later k (earliest rules s))
]

-- An occurrence that is not dropped stays the first one.
index-drop :
    (d : ℕ) (s o : Text)
    → is_empty o ≡ false
    → ((index s o ≡ none) × (index (drop d s) o ≡ none))
      ⊎ ((j : ℕ) × (index s o ≡ some j) × (d ≤ j → index (drop d s) o ≡ some (j - d)))
index-drop zero s o full = elim (Option-cases (index s o)) [
  | inl absent ↦ inl (absent, absent)
  | inr (j, found) ↦ inr (j, found, λ _. found ∙ ap some (omega arith))
]
index-drop (suc d) [] o full = inl (index_empty o full, index_empty o full)
index-drop (suc d) (c ∷ s) o full = elim (Bool-cases (has_prefix (c ∷ s) o)) [
  | inl here ↦ inr (0, index_here c s o here, λ le. absurd (omega (arith, le)))
  | inr past ↦ elim (index-drop d s o full) [
    | inl (absent, still) ↦ inl (index_past c s o past ∙ ap (shift 1) absent, still)
    | inr (j, found, kept) ↦ inr (
      1 + j,
      index_past c s o past ∙ ap (shift 1) found,
      λ le. kept (omega (arith, le)) ∙ ap some (omega arith),
    )
  ]
]

refresh-slot :
    (data_text : Text) (from to : ℕ) (r : Replacement)
    → is_empty r.old ≡ false
    → from ≤ to
    → drop to data_text ≡ drop (to - from) (drop from data_text)
    → refresh data_text to (r, shift from (index (drop from data_text) r.old))
      ≡ (r, shift to (index (drop to data_text) r.old))
unfolding refresh index_from
refresh-slot data_text from to r full le split =
    elim (index-drop (to - from) (drop from data_text) r.old full) [
      | inl (absent, still) ↦ rw (absent, split, still) refl
      | inr (j, found, kept) ↦ elim (Bool-cases (ltb (from + j) to)) [
        | inl passed ↦ rw (found, passed) refl
        | inr ahead ↦
            let far : to - from ≤ j = ground arith in
            let same : from + j ≡ to + (j - (to - from)) = omega (arith, far, le) in
            rw (found, ahead, split, kept far) (ap (λ (n : ℕ). (r, some n)) same)
      ]
    ]

-- Bringing the entries up to date gives the entries of the new place.
pub refresh-slots :
    (data_text : Text) (from to : ℕ) (rules : List Replacement)
    → Full rules
    → from ≤ to
    → drop to data_text ≡ drop (to - from) (drop from data_text)
    → map (refresh data_text to) (slots from (drop from data_text) rules)
      ≡ slots to (drop to data_text) rules
refresh-slots data_text from to [] full le split = refl
refresh-slots data_text from to (r ∷ rules) full le split =
    rw
      (
        refresh-slot data_text from to r (full r (Memᴰ.head refl)) le split,
        refresh-slots data_text from to rules (λ q m. full q (Memᴰ.tail m)) le split,
      )
      refl
