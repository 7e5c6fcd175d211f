-- ===== src/Registry/Identify/RoundTrip.antt =====
-- Reading back what was written: escaped module paths, and package URLs.
use package_firewall.Common.{
  ℕ, ◌+◌, ◌≡◌, refl, ◌∙◌, Bool, true, false, ◌&&◌, none, some, [], ◌∷◌, ◌++◌, ◌==◌, leb,
  if◌then◌else◌, arith, Bool-cases, inl, inr,
}
use package_firewall.Common.Text.{Text, codes, is_empty, text_eq}
use package_firewall.Common.Lists.{any}
use package_firewall.Common.Cut.{cut_prefix, cut}
use package_firewall.Registry.Purl.{purl_of, path_unescape, unescape_path_part, literal}
use package_firewall.Registry.Golang.{unescape_go_module}
use package_firewall.Registry.Identify.{
  before, cut_last_at, package_of, package_by_type, package_at, package_of_typed, package_from_purl,
}

abbrev is_upper : ℕ → Bool
is_upper c = leb b'A' c && leb c b'Z'

-- The escape of the module proxy protocol: `!` and the lower-case letter for an upper-case one.
unfoldable pub escape_go_module : Text → Text
escape_go_module [] = []
escape_go_module (c ∷ s) =
    let rest = escape_go_module s in if is_upper c then b'!' ∷ (c + 32) ∷ rest else c ∷ rest

unescape_plain :
    (c : ℕ) (s : Text) → (c == b'!') ≡ false → unescape_go_module (c ∷ s) ≡ c ∷ unescape_go_module s
unfolding unescape_go_module
unescape_plain c [] h = refl
unescape_plain c (d ∷ s) h = rw h

unescape_upper :
    (c : ℕ) (s : Text)
    → is_upper c ≡ true
    → unescape_go_module (b'!' ∷ (c + 32) ∷ s) ≡ c ∷ unescape_go_module s
unfolding unescape_go_module
unescape_upper c s h = ground arith

-- A text without the character `x`.
abbrev pub Absent : ℕ → Text → Type 0
Absent x s = any (λ c. c == x) s ≡ false

Absent-cons : (x c : ℕ) (s : Text) → Absent x (c ∷ s) → ((c == x) ≡ false) × Absent x s
Absent-cons x c s h = ground arith

Absent-append : (x : ℕ) (s t : Text) → Absent x s → Absent x t → Absent x (s ++ t)
Absent-append x [] t h k = k
Absent-append x (c ∷ s) t h k = let (e, r) = Absent-cons x c s h in rw (e, Absent-append x s t r k)

-- A module path without `!` is read back from its escaped form.
pub unescape_go_module-escape :
    (s : Text) → Absent b'!' s → unescape_go_module (escape_go_module s) ≡ s
unfolding escape_go_module unescape_go_module
unescape_go_module-escape [] h = refl
unescape_go_module-escape (c ∷ s) h =
    let (plain, rest) = Absent-cons b'!' c s h in
    elim (Bool-cases (is_upper c)) [
      | inl upper ↦
          rw (upper, unescape_upper c (escape_go_module s) upper, unescape_go_module-escape s rest)
            refl
      | inr other ↦
          rw (other, unescape_plain c (escape_go_module s) plain, unescape_go_module-escape s rest)
            refl
    ]

cut-Absent : (x : ℕ) (s : Text) → Absent x s → cut s (x ∷ []) ≡ none
unfolding cut cut_prefix
cut-Absent x [] h = refl
cut-Absent x (c ∷ s) h = let (e, r) = Absent-cons x c s h in rw (e, cut-Absent x s r) refl

before-Absent : (x : ℕ) (s : Text) → Absent x s → before s (x ∷ []) ≡ s
unfolding before
before-Absent x s h = rw (cut-Absent x s h) refl

cut_last_at-Absent : (s : Text) → Absent b'@' s → cut_last_at s ≡ none
unfolding cut_last_at cut_prefix
cut_last_at-Absent [] h = refl
cut_last_at-Absent (c ∷ s) h =
    let (e, r) = Absent-cons b'@' c s h in rw (cut_last_at-Absent s r, e) refl

cut_last_at-append :
    (name version : Text)
    → Absent b'@' version
    → cut_last_at (name ++ (codes "@" ++ version)) ≡ some (name, version)
unfolding cut_last_at cut_prefix
cut_last_at-append [] version h = rw (cut_last_at-Absent version h) refl
cut_last_at-append (c ∷ name) version h = rw (cut_last_at-append name version h) refl

path_unescape-Absent : (s : Text) → Absent b'%' s → path_unescape s ≡ some s
unfolding path_unescape literal
path_unescape-Absent [] h = refl
path_unescape-Absent (c ∷ []) h = let (e, _) = Absent-cons b'%' c [] h in rw e refl
path_unescape-Absent (c ∷ a ∷ []) h =
    let (e, r) = Absent-cons b'%' c (a ∷ []) h in rw (e, path_unescape-Absent (a ∷ []) r) refl
path_unescape-Absent (c ∷ a ∷ b ∷ s) h =
    let (e, r) = Absent-cons b'%' c (a ∷ b ∷ s) h in rw (e, path_unescape-Absent (a ∷ b ∷ s) r) refl

unescape_path_part-Absent : (s : Text) → Absent b'%' s → unescape_path_part s ≡ s
unfolding unescape_path_part
unescape_path_part-Absent s h = rw (path_unescape-Absent s h) refl

-- A text that stands for itself in a package URL.
pub record IsPlain (s : Text) : Type 0 where
  pub present : is_empty s ≡ false
  pub no_hash : Absent b'#' s
  pub no_query : Absent b'?' s
  pub no_escape : Absent b'%' s

module _ (name version : Text) (n : IsPlain name) (v : IsPlain version)
    (at : Absent b'@' version) where
  abbrev rest_of : Text
  rest_of = name ++ (codes "@" ++ version)

  rest_of-Absent :
      (x : ℕ) → Absent x name → (b'@' == x) ≡ false → Absent x version → Absent x rest_of
  rest_of-Absent x p q r = Absent-append x name (b'@' ∷ version) p (rw q r)

  package_of_typed-plain :
      (purl_type : Text)
      → package_of_typed (some (purl_type, rest_of)) ≡ package_by_type purl_type name version
  unfolding package_of_typed package_at
  package_of_typed-plain purl_type =
      rw
        (
          before-Absent b'#' rest_of (rest_of-Absent b'#' n.no_hash refl v.no_hash),
          before-Absent b'?' rest_of (rest_of-Absent b'?' n.no_query refl v.no_query),
          cut_last_at-append name version at,
          n.present,
          v.present,
          unescape_path_part-Absent name n.no_escape,
          unescape_path_part-Absent version v.no_escape,
        )
        refl

  -- The package URL of an npm package or a Go module whose name and version are not empty and
  -- contain none of `#`, `?` and `%`, and whose version contains no `@`, is read back as that
  -- package.
  pub package_from_purl-purl_of :
      (package_from_purl (purl_of (codes "npm") name version)
        ≡ some (package_of (codes "npm") name name version))
      × (package_from_purl (purl_of (codes "go") name version)
          ≡ some (package_of (codes "go") name name version))
  unfolding package_from_purl purl_of cut cut_prefix package_by_type text_eq
  package_from_purl-purl_of = (
    rw (n.present, v.present)
        (package_of_typed-plain (codes "npm") ∙ rw (n.present, v.present) refl),
    rw (n.present, v.present)
        (package_of_typed-plain (codes "golang") ∙ rw (n.present, v.present) refl),
  )
