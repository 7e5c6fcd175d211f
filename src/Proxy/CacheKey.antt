-- ===== src/Proxy/CacheKey.antt =====
-- internal/proxy/proxy.go: the key of a request in the artifact cache, with `Key` of
-- internal/artifactcache/cache.go. SHA-256 with its hexadecimal form is an argument, and so is
-- `sort.Strings`.
pub mod Separate
use package_firewall.Common.{
  ◌⊎◌, inl, inr, ℕ, Bool, true, false, not, ◌&&◌, ◌||◌, Option, none, some, List, [], ◌∷◌, ◌++◌,
  map, if◌then◌else◌,
}
use package_firewall.Common.Text.{Text, codes, text_eq, is_empty, join}
use package_firewall.Common.Lists.{take}
use package_firewall.Server.Handle.{RouteConfig}
use package_firewall.Registry.Types.{RequestInfo}
use package_firewall.Proxy.Headers.{Headers}
use package_firewall.Proxy.Cacheable.{
  is_set, has_conditional_header, request_disables_caching, cacheable_request_representation,
}
use package_firewall.Proxy.Redirect.{Urls, normalize_http_origin}

-- What the proxy reads of a request; `has_body` is `r.Body != nil && r.Body != http.NoBody`.
pub record ClientRequest : Type 0 where
  pub method : Text
  pub raw_query : Text
  pub force_query : Bool
  pub header : Headers
  pub has_body : Bool

-- What `Key` hashes after its first text.
unfoldable pub preimage : List Text → Text
preimage [] = []
preimage (part ∷ parts) = 0 ∷ (part ++ preimage parts)

-- `Key`
unfoldable pub key : (Text → Text) → List Text → Text
key sha256_hex parts = sha256_hex (codes "package-firewall-artifact-cache-v1" ++ preimage parts)

abbrev pub origin_or_value : Text → Option Text → Text
origin_or_value value none = value
origin_or_value value (some origin) = origin

-- The reason why a request has no key; `none` where it has one
unfoldable pub bypass_reason : Bool → ClientRequest → RequestInfo → Option Text
unfolding text_eq
bypass_reason has_store r info =
    if not has_store
    then some (codes "cache_disabled")
    else if not (text_eq r.method (codes "GET"))
    then some (codes "method")
    else if (not (text_eq info.kind (codes "artifact")) && not info.cacheable)
        || not info.needs_decision
        || is_empty info.pkg.purl
        || is_empty info.pkg.name
        || is_empty info.pkg.version
    then some (codes "not_exact_artifact")
    else if not (is_empty r.raw_query) || r.force_query
    then some (codes "query")
    else if is_set r.header (codes "Range")
    then some (codes "range")
    else if has_conditional_header r.header
    then some (codes "conditional")
    else if request_disables_caching r.header
    then some (codes "request_cache_control")
    else if r.has_body
    then some (codes "request_body")
    else if not (cacheable_request_representation r.header)
    then some (codes "representation")
    else none

module _ (urls : Urls) (sha256_hex : Text → Text) (sort : List Text → List Text) where
  -- `redirectPolicyFingerprint`; 8 bytes are 16 characters
  unfoldable pub redirect_policy_fingerprint : RouteConfig → Text
  redirect_policy_fingerprint route =
      if not route.enforce_redirect_origins
      then []
      else codes "redirect-policy-"
        ++ take 16 (
            sha256_hex (
              join
                (sort (
                  map (λ value. origin_or_value value (normalize_http_origin urls value))
                    route.allowed_redirect_origins))
                (codes "\n")))

  -- The texts that `cacheKey` makes the key from.
  unfoldable pub components : RouteConfig → Text → List Text
  unfolding text_eq redirect_policy_fingerprint
  components route target =
      let fingerprint = redirect_policy_fingerprint route in
      (codes "GET"
        ∷ route.name
        ∷ route.ecosystem
        ∷ target
        ∷ codes "representation-v2"
        ∷ codes "identity"
        ∷ [])
      ++ ((if text_eq route.ecosystem (codes "npm") then codes "npm-freshness-v2" ∷ [] else [])
          ++ (if not (is_empty fingerprint) then fingerprint ∷ [] else []))

  -- `cacheKey`: a reason, or a key
  unfoldable pub cache_key : Bool → ClientRequest → RouteConfig → RequestInfo → Text → (Text ⊎ Text)
  cache_key has_store r route info target = elim (bypass_reason has_store r info) [
    | some reason ↦ inl reason
    | none ↦ inr (key sha256_hex (components route target))
  ]
