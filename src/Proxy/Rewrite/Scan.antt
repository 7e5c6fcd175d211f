-- ===== src/Proxy/Rewrite/Scan.antt =====
-- The reference for rewriting: one scan from left to right, in which the first rule that matches at
-- a position replaces its text there.
use mathlib.Core.List.{Memᴰ}
use package_firewall.Common.{
  ℕ, zero, suc, ◌-◌, ◌≤◌, ◌<◌, ◌≡◌, refl, sym, ◌∙◌, ap, inl, inr, Bool, true, false, ◌&&◌, ◌||◌,
  not, Option, none, some, List, [], ◌∷◌, ◌++◌, leb, if◌then◌else◌, arith, Bool-cases,
}
use package_firewall.Common.Text.{Text, has_prefix, is_empty}
use package_firewall.Common.Lists.{length, drop}
use package_firewall.Proxy.Rewrite.{Replacement}

unfoldable pub match_at : List Replacement → Text → Option Replacement
match_at [] s = none
match_at (rule ∷ rules) s = if has_prefix s rule.old then some rule else match_at rules s

-- The first argument counts the characters of a replaced text that are still to be left out.
unfoldable pub scan : List Replacement → ℕ → Text → Text
scan rules skip [] = []
scan rules (suc skip) (c ∷ s) = scan rules skip s
scan rules zero (c ∷ s) = elim (match_at rules (c ∷ s)) [
  | none ↦ c ∷ scan rules zero s
  | some rule ↦ rule.new ++ scan rules (length rule.old - 1) s
]

-- Every occurrence of `rule` is replaced.
abbrev pub rewritten : List Replacement → Text → Text
rewritten rules s = scan rules zero s

-- The first match of a rule, and where it is.
abbrev pub later : Option (Replacement × ℕ) → Option (Replacement × ℕ)
later none = none
later (some (rule, at)) = some (rule, suc at)

unfoldable pub earliest : List Replacement → Text → Option (Replacement × ℕ)
earliest rules [] = none
earliest rules (c ∷ s) = elim (match_at rules (c ∷ s)) [
  | none ↦ later (earliest rules s)
  | some rule ↦ some (rule, 0)
]

unfoldable pub occurs : Text → Text → Bool
occurs [] sep = false
occurs (c ∷ s) sep = has_prefix (c ∷ s) sep || occurs s sep

abbrev pub tail_of : Text → Text
tail_of [] = []
tail_of (_ ∷ s) = s

-- No text that is replaced is empty, lies in another one past its start, or starts a longer one.
unfoldable pub is_apart : Replacement → Replacement → Bool
unfolding occurs
is_apart q r =
    not (is_empty q.old)
    && not (occurs (tail_of q.old) r.old)
    && (not (has_prefix q.old r.old) || leb (length q.old) (length r.old))

abbrev pub Apart : List Replacement → Type 0
Apart rules = (q r : Replacement) → Memᴰ q rules → Memᴰ r rules → is_apart q r ≡ true

drop-pred :
    (c : ℕ) (old s : Text)
    → is_empty old ≡ false
    → drop (length old - 1) s ≡ drop (length old) (c ∷ s)
drop-pred c [] s h = cc
drop-pred c (_ ∷ old) s h = ap (λ (n : ℕ). drop n s) (omega arith)

module _ (rules : List Replacement) where
  scan-skip : (k : ℕ) (s : Text) → scan rules k s ≡ rewritten rules (drop k s)
  unfolding scan
  scan-skip zero s = refl
  scan-skip (suc k) [] = refl
  scan-skip (suc k) (c ∷ s) = scan-skip k s

  -- The equations of the scan, with what matches at the start as a hypothesis.
  pub scan-none :
      (c : ℕ) (s : Text)
      → match_at rules (c ∷ s) ≡ none
      → rewritten rules (c ∷ s) ≡ c ∷ rewritten rules s
  unfolding scan
  scan-none c s h = rw (h, scan)

  pub scan-some :
      (c : ℕ) (s : Text) (rule : Replacement)
      → match_at rules (c ∷ s) ≡ some rule
      → is_empty rule.old ≡ false
      → rewritten rules (c ∷ s) ≡ rule.new ++ rewritten rules (drop (length rule.old) (c ∷ s))
  unfolding scan
  scan-some c s rule h full =
      rw (h, scan)
        (ap (λ rest. rule.new ++ rest)
          (scan-skip (length rule.old - 1) s ∙ ap (scan rules zero) (drop-pred c rule.old s full)))

  pub earliest-none :
      (c : ℕ) (s : Text)
      → match_at rules (c ∷ s) ≡ none
      → earliest rules (c ∷ s) ≡ later (earliest rules s)
  unfolding earliest
  earliest-none c s h = rw (h, earliest)

  pub earliest-some :
      (c : ℕ) (s : Text) (rule : Replacement)
      → match_at rules (c ∷ s) ≡ some rule
      → earliest rules (c ∷ s) ≡ some (rule, 0)
  unfolding earliest
  earliest-some c s rule h = rw (h, earliest)

pub match_at_sound :
    (rules : List Replacement) (s : Text) (rule : Replacement)
    → match_at rules s ≡ some rule
    → Memᴰ rule rules × (has_prefix s rule.old ≡ true)
unfolding match_at
match_at_sound [] s rule h = cc
match_at_sound (q ∷ rules) s rule h = elim (Bool-cases (has_prefix s q.old)) [
  | inl here ↦
      let e : some q ≡ some rule = rw here at h in
      let same : q ≡ rule = cc in (Memᴰ.head (sym same), rw same at here)
  | inr past ↦ let (m, p) = match_at_sound rules s rule (rw past at h) in (Memᴰ.tail m, p)
]

pub has_prefix-length : (s p : Text) → has_prefix s p ≡ true → length p ≤ length s
unfolding has_prefix
has_prefix-length s [] h = omega arith
has_prefix-length [] (b ∷ p) h = cc
has_prefix-length (a ∷ s) (b ∷ p) h = ground (arith, has_prefix-length s p)

pub has_prefix_longer : (s t p : Text) → has_prefix s p ≡ true → has_prefix (s ++ t) p ≡ true
unfolding has_prefix
has_prefix_longer s t [] h = refl
has_prefix_longer [] t (b ∷ p) h = cc
has_prefix_longer (a ∷ s) t (b ∷ p) h = ground (arith, has_prefix_longer s t p)

-- A prefix of `s ++ t` that is no prefix of `s` goes past the end of `s`.
pub has_prefix_past :
    (s t p : Text)
    → has_prefix (s ++ t) p ≡ true
    → has_prefix s p ≡ false
    → (has_prefix p s ≡ true) × (length s < length p)
unfolding has_prefix
has_prefix_past s t [] h k = cc
has_prefix_past [] t (b ∷ p) h k = (refl, omega arith)
has_prefix_past (a ∷ s) t (b ∷ p) h k = ground (arith, has_prefix_past s t p)

pub has_prefix_trans :
    (s p q : Text) → has_prefix s p ≡ true → has_prefix p q ≡ true → has_prefix s q ≡ true
unfolding has_prefix
has_prefix_trans s p [] h k = refl
has_prefix_trans s [] (c ∷ q) h k = cc
has_prefix_trans [] (b ∷ p) (c ∷ q) h k = cc
has_prefix_trans (a ∷ s) (b ∷ p) (c ∷ q) h k = ground (arith, has_prefix_trans s p q)
