-- ===== src/Common/Cut.antt =====
-- Functions of package strings that take texts apart.
use Prim.Native.Nat.{ℕ}
use mathlib.Core.Bool.{Bool, true, false, ◌&&◌}
use mathlib.Core.Option.{Option, none, some}
use mathlib.Core.List.{List, [], ◌∷◌}
use package_firewall.Common.Tests.{◌==◌, if◌then◌else◌}
use package_firewall.Common.Text.{Text, is_empty}

-- strings.CutPrefix
unfoldable pub cut_prefix : Text → Text → Option Text
cut_prefix s [] = some s
cut_prefix [] (b ∷ p) = none
cut_prefix (a ∷ s) (b ∷ p) = if a == b then cut_prefix s p else none

-- strings.TrimPrefix
unfoldable pub trim_prefix : Text → Text → Text
unfolding cut_prefix
trim_prefix s p = elim (cut_prefix s p) [ none ↦ s | some rest ↦ rest ]

-- strings.CutSuffix
unfoldable pub cut_suffix : Text → Text → Option Text
cut_suffix s [] = some s
cut_suffix [] (b ∷ p) = none
cut_suffix (a ∷ s) (b ∷ p) =
    let rest = cut_suffix s (b ∷ p) in
    elim rest [
      | some start ↦ some (a ∷ start)
      | none ↦ elim (cut_prefix (a ∷ s) (b ∷ p)) [ some [] ↦ some [] | _ ↦ none ]
    ]

-- strings.HasSuffix
unfoldable pub has_suffix : Text → Text → Bool
unfolding cut_suffix
has_suffix s p = elim (cut_suffix s p) [ none ↦ false | some _ ↦ true ]

-- strings.TrimSuffix
unfoldable pub trim_suffix : Text → Text → Text
unfolding cut_suffix
trim_suffix s p = elim (cut_suffix s p) [ none ↦ s | some start ↦ start ]

-- One step of a search for a separator: what is cut here, and what is cut later.
abbrev pub cut_step : ℕ → Option Text → Option (Text × Text) → Option (Text × Text)
cut_step c (some rest) later = some ([], rest)
cut_step c none none = none
cut_step c none (some (before, after)) = some (c ∷ before, after)

-- strings.Cut at the first `sep`, which is not empty; `none` where it is not found
unfoldable pub cut : Text → Text → Option (Text × Text)
unfolding cut_prefix
cut [] sep = none
cut (c ∷ s) sep = cut_step c (cut_prefix (c ∷ s) sep) (cut s sep)

-- strings.Contains
unfoldable pub contains_text : Text → Text → Bool
unfolding cut
contains_text s sub = elim (cut s sub) [ none ↦ false | some _ ↦ true ]

-- strings.Split at one character
unfoldable pub prepend : ℕ → List Text → List Text
prepend c [] = (c ∷ []) ∷ []
prepend c (part ∷ parts) = (c ∷ part) ∷ parts

unfoldable pub split : ℕ → Text → List Text
unfolding prepend
split sep [] = [] ∷ []
split sep (c ∷ s) = let rest = split sep s in if c == sep then [] ∷ rest else prepend c rest

-- strings.Trim of one character, in its two halves
unfoldable pub trim_left : ℕ → Text → Text
trim_left x [] = []
trim_left x (c ∷ s) = if c == x then trim_left x s else c ∷ s

unfoldable pub trim_right : ℕ → Text → Text
trim_right x [] = []
trim_right x (c ∷ s) =
    let rest = trim_right x s in if is_empty rest && (c == x) then [] else c ∷ rest

unfoldable pub trim : ℕ → Text → Text
unfolding trim_left trim_right
trim x s = trim_right x (trim_left x s)
