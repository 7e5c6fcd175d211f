-- ===== src/Proxy/Freshness.antt =====
-- internal/proxy/npm_cache.go: `npmFreshnessLifetime` and `npmDeltaSeconds`.
use package_firewall.Common.{
  ℕ, Bool, true, false, ◌&&◌, ◌||◌, Option, none, some, List, [], ◌∷◌, ltb, if◌then◌else◌,
}
use package_firewall.Common.Text.{Text, codes, text_eq, contains_any, to_lower, trim_space}
use package_firewall.Common.Lists.{any}
use package_firewall.Common.Cut.{cut, split}
use package_firewall.Common.Decimal.{parse_uint}
use package_firewall.Proxy.Headers.{Headers, values}

-- `npmDeltaSeconds`, in seconds; `none` for a value that is not valid
unfoldable pub npm_delta_seconds : Text → Option ℕ
unfolding parse_uint
npm_delta_seconds value = parse_uint 32 value

-- What the loop over the directives has found.
pub record Freshness : Type 0 where
  pub public : Bool
  pub max_age : Option ℕ
  pub s_maxage : Option ℕ

-- The text before the first `=`, and what follows it.
abbrev pub name_of : Text → Option (Text × Text) → Text
name_of directive none = directive
name_of directive (some (name, _)) = name

abbrev pub value_of : Option (Text × Text) → Option Text
value_of none = none
value_of (some (_, value)) = some value

abbrev pub is_flag : Text → Bool
is_flag name = any (text_eq name) (
    codes "public"
    ∷ codes "immutable"
    ∷ codes "must-revalidate"
    ∷ codes "proxy-revalidate"
    ∷ codes "no-transform"
    ∷ [])

abbrev with_age : (ℕ → Freshness) → Option ℕ → Option ℕ → Option Freshness
with_age put (some _) age = none
with_age put none none = none
with_age put none (some age) = some (put age)

abbrev delta : Option Text → Option ℕ
delta none = none
delta (some value) = npm_delta_seconds (trim_space value)

abbrev pub is_none : Option Text → Bool
is_none none = true
is_none (some _) = false

-- One directive; `none` where the response is refused
unfoldable pub add_directive : Freshness → Text → Option Text → Option Freshness
unfolding text_eq npm_delta_seconds
add_directive f name value =
    if is_flag name
    then (if is_none value
        then some (record f { public = f.public || text_eq name (codes "public") })
        else none)
    else if text_eq name (codes "max-age")
    then with_age (λ age. record f { max_age = some age }) f.max_age (delta value)
    else if text_eq name (codes "s-maxage")
    then with_age (λ age. record f { s_maxage = some age }) f.s_maxage (delta value)
    else none

unfoldable pub add_directives : Freshness → List Text → Option Freshness
unfolding cut to_lower trim_space
add_directives f [] = some f
add_directives f (part ∷ parts) =
    let directive = trim_space part in
    let pieces = cut directive (codes "=") in
    elim (add_directive f (to_lower (trim_space (name_of directive pieces))) (value_of pieces)) [
      | none ↦ none
      | some next ↦ add_directives next parts
    ]

unfoldable pub add_values : Freshness → List Text → Option Freshness
unfolding split contains_any
add_values f [] = some f
add_values f (value ∷ vs) =
    if contains_any value (codes "\"\\")
    then none
    else elim (add_directives f (split b',' value)) [ none ↦ none | some next ↦ add_values next vs ]

abbrev pub lifetime_of : Option ℕ → Option ℕ → ℕ
lifetime_of (some age) _ = age
lifetime_of none (some age) = age
lifetime_of none none = 0

abbrev pub fresh_lifetime : Option Freshness → Option ℕ
fresh_lifetime none = none
fresh_lifetime (some f) =
    let lifetime = lifetime_of f.s_maxage f.max_age in
    if f.public && ltb 0 lifetime then some lifetime else none

-- `npmFreshnessLifetime`, in seconds
unfoldable pub npm_freshness_lifetime : Headers → Option ℕ
unfolding values
npm_freshness_lifetime h = fresh_lifetime (
    add_values (record { public = false; max_age = none; s_maxage = none })
      (values (codes "Cache-Control") h))
