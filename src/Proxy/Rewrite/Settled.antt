-- ===== src/Proxy/Rewrite/Settled.antt =====
-- What the scan of a text writes before more of it is read.
use mathlib.Core.List.{Memᴰ}
use package_firewall.Common.{
  ℕ, zero, suc, ◌+◌, ◌-◌, ◌≤◌, ◌≡◌, refl, sym, ◌∙◌, ap, inl, inr, false, Option, none, some, List,
  [], ◌∷◌, ◌++◌, arith, Bool-cases, Option-cases, ltb, ltb→lt,
}
use native.Mathlib.Nat.{zero-add, zero-sub}
use package_firewall.Common.Text.{Text, is_empty}
use package_firewall.Common.Lists.{length, take, drop}
use package_firewall.Proxy.Rewrite.{Replacement}
use package_firewall.Proxy.Rewrite.Scan.{
  match_at, rewritten, later, earliest, Apart, scan, scan-none, scan-some, earliest-none,
  earliest-some, match_at_sound, has_prefix-length,
}
use package_firewall.Proxy.Rewrite.Matches.{
  is_apart-ApartBy, earliest-cases, earliest-First, match_at-append, match_at-none-occurs,
  match_at-none-fits,
}

drop-append : (n : ℕ) (s t : Text) → n ≤ length s → drop n (s ++ t) ≡ drop n s ++ t
drop-append zero s t h = refl
drop-append (suc n) [] t h = absurd (omega (arith, h))
drop-append (suc n) (c ∷ s) t h = drop-append n s t (omega (arith, h))

later_none : (o : Option (Replacement × ℕ)) → later o ≡ none → o ≡ none
later_none none h = refl
later_none (some _) h = cc

earliest-none_cases :
    (rules : List Replacement) (c : ℕ) (s : Text)
    → earliest rules (c ∷ s) ≡ none
    → (match_at rules (c ∷ s) ≡ none) × (earliest rules s ≡ none)
earliest-none_cases rules c s h = elim (Option-cases (match_at rules (c ∷ s))) [
  | inr (q, here) ↦
      let e : ◌≡◌ {A = Option (Replacement × ℕ)} (some (q, 0)) none =
        sym (earliest-some rules c s q here) ∙ h in
      let no_match : ⊥ = cc in absurd no_match
  | inl past ↦
      let e : later (earliest rules s) ≡ none = sym (earliest-none rules c s past) ∙ h in
      (past, later_none (earliest rules s) e)
]

module _ (rules : List Replacement) (apart : Apart rules) where
  full : (r : Replacement) → Memᴰ r rules → is_empty r.old ≡ false
  full r m = (is_apart-ApartBy r r (apart r r m m)).full

  -- Up to its first match, and over it, a text is rewritten whatever follows.
  pub rewritten-earliest :
      (s t : Text) (r : Replacement) (at : ℕ)
      → earliest rules s ≡ some (r, at)
      → rewritten rules (s ++ t)
        ≡ take at s ++ (r.new ++ rewritten rules (drop (at + length r.old) s ++ t))
  unfolding earliest
  rewritten-earliest [] t r at h = cc
  rewritten-earliest (c ∷ s) t r at h = elim (earliest-cases rules c s r at h) [
    | inl (here, start) ↦
        let (m, p) = match_at_sound rules (c ∷ s) r here in
        rw
          (
            start,
            zero-add,
            scan-some rules c (s ++ t) r (match_at-append rules (c ∷ s) t r apart here) (full r m),
            drop-append (length r.old) (c ∷ s) t (has_prefix-length (c ∷ s) r.old p),
          )
          refl
    | inr (n, past, found, next) ↦
        let first = earliest-First rules s r n found in
        let step : suc n + length r.old ≡ suc (n + length r.old) = omega arith in
        rw
          (
            next,
            step,
            scan-none rules c (s ++ t) (
                match_at-none-occurs rules c s t r
                  (λ q m. is_apart-ApartBy q r (apart q r m first.listed)) first.inside past),
            rewritten-earliest s t r n found,
          )
          refl
  ]

  -- A text without a match is kept.
  pub rewritten-none : (s : Text) → earliest rules s ≡ none → rewritten rules s ≡ s
  unfolding scan
  rewritten-none [] h = refl
  rewritten-none (c ∷ s) h =
      let (past, rest) = earliest-none_cases rules c s h in
      scan-none rules c s past ∙ ap (λ (t : Text). c ∷ t) (rewritten-none s rest)

  -- A text without a match, but for its last `keep` characters, is kept whatever follows.
  pub rewritten-held :
      (keep : ℕ)
      → ((q : Replacement) → Memᴰ q rules → length q.old ≤ suc keep)
      → (s t : Text) → earliest rules s ≡ none
      → rewritten rules (s ++ t)
        ≡ take (length s - keep) s ++ rewritten rules (drop (length s - keep) s ++ t)
  rewritten-held keep short [] t h = rw zero-sub refl
  rewritten-held keep short (c ∷ s) t h = elim (Bool-cases (ltb keep (suc (length s)))) [
    | inl settled ↦
        let (past, rest) = earliest-none_cases rules c s h in
        let long = ltb→lt keep (suc (length s)) settled in
        let step : suc (length s) - keep ≡ suc (length s - keep) = omega (arith, long) in
        rw
          (
            step,
            scan-none rules c (s ++ t)
                (match_at-none-fits rules (c ∷ s) t (λ q m. omega (arith, long, short q m)) past),
            rewritten-held keep short s t rest,
          )
          refl
    | inr open_end ↦
        let none_settled : suc (length s) - keep ≡ 0 = ground arith in rw none_settled refl
  ]
