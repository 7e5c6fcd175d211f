-- ===== src/Proxy/Rewrite/Matches.antt =====
-- The scan of a text that is followed by more: matches inside the text stay what they are, and what
-- is far enough from its end is settled.
use mathlib.Core.List.{Memᴰ}
use package_firewall.Common.{
  ℕ, suc, ◌+◌, ◌≤◌, ◌≡◌, refl, sym, ◌∙◌, ◌⊎◌, inl, inr, Bool, true, false, Option, none, some, List,
  [], ◌∷◌, ◌++◌, arith, Bool-cases, Option-cases,
}
use package_firewall.Common.Text.{Text, has_prefix, is_empty}
use package_firewall.Common.Lists.{length}
use package_firewall.Proxy.Rewrite.{Replacement}
use package_firewall.Proxy.Rewrite.Scan.{
  match_at, later, earliest, occurs, tail_of, is_apart, Apart, earliest-none, earliest-some,
  match_at_sound, has_prefix-length, has_prefix_longer, has_prefix_past, has_prefix_trans,
}

-- What `is_apart` tests.
pub record ApartBy (q r : Replacement) : Type 0 where
  pub full : is_empty q.old ≡ false
  pub disjoint : occurs (tail_of q.old) r.old ≡ false
  pub longest : has_prefix q.old r.old ≡ true → length q.old ≤ length r.old

pub is_apart-ApartBy : (q r : Replacement) → is_apart q r ≡ true → ApartBy q r
unfolding is_apart
is_apart-ApartBy q r h = record {
  full = ground arith;
  disjoint = ground arith;
  longest = λ p. ground arith;
}

occurs_prefix : (p s o : Text) → has_prefix p s ≡ true → occurs s o ≡ true → occurs p o ≡ true
unfolding occurs has_prefix
occurs_prefix p [] o h k = cc
occurs_prefix [] (c ∷ s) o h k = cc
occurs_prefix (b ∷ p) (c ∷ s) o h k =
    ground (arith, occurs_prefix p s o, has_prefix_trans (b ∷ p) (c ∷ s) o)

occurs_in_tail :
    (p : Text) (c : ℕ) (s o : Text)
    → has_prefix p (c ∷ s) ≡ true
    → occurs s o ≡ true
    → occurs (tail_of p) o ≡ true
unfolding has_prefix
occurs_in_tail [] c s o h k = cc
occurs_in_tail (b ∷ p) c s o h k =
    let rest : has_prefix p s ≡ true = ground arith in occurs_prefix p s o rest k

pub clash : {b : Bool} → b ≡ true → b ≡ false → ⊥
clash h k = cc

-- What a first match says.
pub record First (rules : List Replacement) (s : Text) (r : Replacement) (at : ℕ) : Type 0 where
  pub listed : Memᴰ r rules
  pub inside : occurs s r.old ≡ true
  pub fits : at + length r.old ≤ length s

-- A first match is here, or it is a first match of the rest.
pub earliest-cases :
    (rules : List Replacement) (c : ℕ) (s : Text) (r : Replacement) (at : ℕ)
    → earliest rules (c ∷ s) ≡ some (r, at)
    → ((match_at rules (c ∷ s) ≡ some r) × (at ≡ 0))
      ⊎ ((before : ℕ) × (match_at rules (c ∷ s) ≡ none)
          × (earliest rules s ≡ some (r, before))
          × (at ≡ suc before))
earliest-cases rules c s r at h = elim (Option-cases (match_at rules (c ∷ s))) [
  | inr (q, here) ↦
      let e : ◌≡◌ {A = Option (Replacement × ℕ)} (some (q, 0)) (some (r, at)) =
        sym (earliest-some rules c s q here) ∙ h in
      let same : q ≡ r = cc in inl (rw same at here, cc)
  | inl past ↦
      let e : later (earliest rules s) ≡ some (r, at) = sym (earliest-none rules c s past) ∙ h in
      elim (Option-cases (earliest rules s)) [
        | inl never ↦
            let k : ◌≡◌ {A = Option (Replacement × ℕ)} none (some (r, at)) = rw never at e in
            let no_match : ⊥ = cc in absurd no_match
        | inr ((q, n), found) ↦
            let k : ◌≡◌ {A = Option (Replacement × ℕ)} (some (q, suc n)) (some (r, at)) =
              rw found at e in
            let same : q ≡ r = cc in inr (n, past, rw same at found, cc)
      ]
]

pub earliest-First :
    (rules : List Replacement) (s : Text) (r : Replacement) (at : ℕ)
    → earliest rules s ≡ some (r, at)
    → First rules s r at
unfolding occurs earliest
earliest-First rules [] r at h = cc
earliest-First rules (c ∷ s) r at h = elim (earliest-cases rules c s r at h) [
  | inl (here, start) ↦
      let (m, p) = match_at_sound rules (c ∷ s) r here in
      record {
        listed = m;
        inside = ground arith;
        fits = omega (arith, start, has_prefix-length (c ∷ s) r.old p);
      }
  | inr (n, _, found, next) ↦
      let first = earliest-First rules s r n found in
      record {
        listed = first.listed;
        inside = ground (arith, first.inside);
        fits = omega (arith, next, first.fits);
      }
]

-- The rule that matches in a text is the one that matches in a longer text.
pub match_at-append :
    (rules : List Replacement) (s t : Text) (r : Replacement)
    → Apart rules
    → match_at rules s ≡ some r
    → match_at rules (s ++ t) ≡ some r
unfolding match_at
match_at-append [] s t r apart h = cc
match_at-append (q ∷ rules) s t r apart h = elim (Bool-cases (has_prefix s q.old)) [
  | inl here ↦ rw (has_prefix_longer s t q.old here) (rw here at h)
  | inr past ↦
      let found = rw past at h in
      let (m, p) = match_at_sound rules s r found in
      let by = is_apart-ApartBy q r (apart q r (Memᴰ.head refl) (Memᴰ.tail m)) in
      elim (Bool-cases (has_prefix (s ++ t) q.old)) [
        | inl longer ↦
            let (start, len) = has_prefix_past s t q.old longer past in
            let short = by.longest (has_prefix_trans q.old s r.old start p) in
            absurd (omega (arith, len, short, has_prefix-length s r.old p))
        | inr neither ↦ rw neither (
            match_at-append rules s t r (λ x y mx my. apart x y (Memᴰ.tail mx) (Memᴰ.tail my))
              found)
      ]
]

-- Where no rule matches and one occurs later, none matches in a longer text.
pub match_at-none-occurs :
    (rules : List Replacement) (c : ℕ) (s t : Text) (r : Replacement)
    → ((q : Replacement) → Memᴰ q rules → ApartBy q r)
    → occurs s r.old ≡ true
    → match_at rules (c ∷ s) ≡ none
    → match_at rules (c ∷ (s ++ t)) ≡ none
unfolding match_at
match_at-none-occurs [] c s t r by inside h = refl
match_at-none-occurs (q ∷ rules) c s t r by inside h =
    elim (Bool-cases (has_prefix (c ∷ s) q.old)) [
      | inl here ↦ let k : some q ≡ none = rw here at h in let no_match : ⊥ = cc in absurd no_match
      | inr past ↦ elim (Bool-cases (has_prefix (c ∷ (s ++ t)) q.old)) [
        | inl longer ↦
            let (start, _) = has_prefix_past (c ∷ s) t q.old longer past in
            absurd
              (clash (occurs_in_tail q.old c s r.old start inside) (by q (Memᴰ.head refl)).disjoint)
        | inr neither ↦
            rw neither
              (match_at-none-occurs rules c s t r (λ x m. by x (Memᴰ.tail m)) inside (rw past at h))
      ]
    ]

-- Where no rule matches in a text that is long enough, none matches in a longer text.
pub match_at-none-fits :
    (rules : List Replacement) (s t : Text)
    → ((q : Replacement) → Memᴰ q rules → length q.old ≤ length s)
    → match_at rules s ≡ none
    → match_at rules (s ++ t) ≡ none
unfolding match_at
match_at-none-fits [] s t fits h = refl
match_at-none-fits (q ∷ rules) s t fits h = elim (Bool-cases (has_prefix s q.old)) [
  | inl here ↦ let k : some q ≡ none = rw here at h in let no_match : ⊥ = cc in absurd no_match
  | inr past ↦ elim (Bool-cases (has_prefix (s ++ t) q.old)) [
    | inl longer ↦
        let (_, len) = has_prefix_past s t q.old longer past in
        absurd (omega (arith, len, fits q (Memᴰ.head refl)))
    | inr neither ↦
        rw neither (match_at-none-fits rules s t (λ x m. fits x (Memᴰ.tail m)) (rw past at h))
  ]
]
