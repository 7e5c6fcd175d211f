-- ===== src/Proxy/Npm.antt =====
-- internal/proxy/npm_cache.go: how long a response of the public npm registry is fresh.
use package_firewall.Common.{
  ℕ, ◌+◌, ◌-◌, ◌*◌, ◌/◌, max, Bool, true, false, not, ◌&&◌, ◌||◌, Option, none, some, List, [], ◌∷◌,
  ◌++◌, ltb, leb, if◌then◌else◌,
}
use package_firewall.Common.Text.{
  Text, codes, text_eq, is_empty, contains_any, to_lower, equal_fold, trim_space,
}
use package_firewall.Common.Lists.{any, length, drop}
use package_firewall.Common.Cut.{cut, split, contains_text}
use package_firewall.Common.Decimal.{format_decimal}
use package_firewall.Server.Handle.{RouteConfig}
use package_firewall.Proxy.Headers.{Headers, values, del, set}
use package_firewall.Proxy.Cacheable.{is_set, should_rewrite}
use package_firewall.Proxy.Redirect.{Url, Urls, Answered, normalize_http_origin}
use package_firewall.Proxy.Response.{Response, Http, second, response_bypass_reason}
use package_firewall.Proxy.Freshness.{
  npm_delta_seconds, npm_freshness_lifetime, name_of, value_of, is_none,
}

-- One attribute of a cookie
unfoldable pub valid_attribute : Bool → Text → Bool
unfolding cut to_lower text_eq equal_fold contains_text
valid_attribute dated attribute =
    let text = trim_space attribute in
    let pieces = cut text (codes "=") in
    let name = to_lower (name_of text pieces) in
    if any (text_eq name) (codes "secure" ∷ codes "httponly" ∷ codes "partitioned" ∷ [])
    then is_none (value_of pieces)
    else if text_eq name (codes "samesite")
    then elim (value_of pieces) [
      | none ↦ false
      | some value ↦
          equal_fold value (codes "none")
          || equal_fold value (codes "lax")
          || equal_fold value (codes "strict")
    ]
    else if any (text_eq name) (codes "domain" ∷ codes "path" ∷ codes "max-age" ∷ [])
    then elim (value_of pieces) [
      | none ↦ false
      | some value ↦ not (is_empty value) && not (contains_text value (codes ","))
    ]
    else if text_eq name (codes "expires")
    then not (is_none (value_of pieces)) && dated
    else false

abbrev pub all_hold : (Text → Bool) → List Text → Bool
all_hold p [] = true
all_hold p (x ∷ xs) = p x && all_hold p xs

-- `validCDNCookie`
unfoldable pub valid_cdn_cookie : Http → Text → Bool
unfolding split text_eq contains_any
valid_cdn_cookie http value = elim (http.parse_set_cookie value) [
  | none ↦ false
  | some cookie ↦
      if not cookie.valid
        || (not (text_eq cookie.name (codes "__cf_bm"))
            && not (text_eq cookie.name (codes "_cfuvid")))
      then false
      else if contains_any cookie.value (codes ", \t")
      then false
      else all_hold (valid_attribute cookie.dated) (drop 1 (split b';' value))
]

-- The target is the public registry.
unfoldable pub is_public_registry : Urls → Option Url → Bool
unfolding text_eq normalize_http_origin
is_public_registry urls none = false
is_public_registry urls (some upstream) =
    if upstream.user || not (is_empty upstream.raw_query) || upstream.force_query
    then false
    else elim (normalize_http_origin urls (upstream.scheme ++ (codes "://" ++ upstream.host))) [
      | none ↦ false
      | some origin ↦ text_eq origin (codes "https://registry.npmjs.org:443")
    ]

abbrev pub is_anonymous : Option Answered → Bool
is_anonymous none = false
is_anonymous (some request) =
    not (is_set request.header (codes "Authorization") || is_set request.header (codes "Cookie"))

-- The ages that the headers `Age` and `Date` give, in nanoseconds; `none` where one is not valid
abbrev pub given_age : List Text → Option ℕ
given_age [] = some 0
given_age (value ∷ _) = elim (npm_delta_seconds (trim_space value)) [
  | none ↦ none
  | some age ↦ some (age * second)
]

abbrev pub dated_age : Http → ℕ → List Text → Option ℕ
dated_age http received_at [] = some 0
dated_age http received_at (value ∷ _) = elim (http.parse_time value) [
  | none ↦ none
  | some date ↦ some (received_at - date)
]

abbrev pub age_of : ℕ → Option ℕ → Option ℕ → Option ℕ
age_of elapsed (some given) (some dated) = some (max (given + elapsed) dated)
age_of elapsed _ _ = none

-- What the preparation of a response decides: nothing, a reason, or a time of expiry with the headers
-- to use from here on.
pub data Prepared : Type 0 where
  untouched : Prepared
  refused : Text → Prepared
  fresh_until : ℕ → Headers → Prepared

module _ (urls : Urls) (http : Http) (maximum : ℕ) where
  -- The end of the preparation, at a known age.
  unfoldable pub prepare_aged : Response → RouteConfig → Text → ℕ → ℕ → ℕ → Prepared
  prepare_aged resp route target received_at lifetime age =
      if leb lifetime age
      then refused (codes "response_cache_control")
      else let header = del (codes "Set-Cookie") resp.header in
        elim (response_bypass_reason urls maximum (record resp { header = header }) route target
          true) [
            | some reason ↦ refused reason
            | none ↦
                fresh_until (received_at + (lifetime - age))
                  (set (codes "Age") (format_decimal (age / second)) header)
          ]

  -- The preparation of a response with a lifetime.
  unfoldable pub prepare_fresh : Response → RouteConfig → Text → ℕ → ℕ → ℕ → Prepared
  unfolding values
  prepare_fresh resp route target requested_at received_at lifetime =
      if not (all_hold (valid_cdn_cookie http) (values (codes "Set-Cookie") resp.header))
      then refused (codes "response_set_cookie")
      else if ltb 1 (length (values (codes "Age") resp.header))
          || ltb 1 (length (values (codes "Date") resp.header))
      then refused (codes "response_cache_control")
      else elim (age_of (received_at - requested_at) (given_age (values (codes "Age") resp.header))
          (dated_age http received_at (values (codes "Date") resp.header))) [
            | none ↦ refused (codes "response_cache_control")
            | some age ↦ prepare_aged resp route target received_at lifetime age
          ]

  -- `prepareNPMCacheResponse`
  unfoldable pub prepare_npm_cache_response : Response → RouteConfig → Text → ℕ → ℕ → Prepared
  unfolding text_eq
  prepare_npm_cache_response resp route target requested_at received_at =
      if not (text_eq route.ecosystem (codes "npm"))
        || not (is_empty route.upstream_token_env)
        || should_rewrite route resp.header
      then untouched
      else if not (is_public_registry urls (urls.parse target))
      then untouched
      else if not (is_anonymous resp.answered)
      then untouched
      else elim (npm_freshness_lifetime resp.header) [
        | none ↦ refused (codes "response_cache_control")
        | some lifetime ↦
            prepare_fresh resp route target requested_at received_at (lifetime * second)
      ]
