-- ===== src/Proxy/Cacheable.antt =====
-- internal/proxy/proxy.go: the tests of headers that decide what may be cached and what must be
-- rewritten.
use package_firewall.Common.{
  Bool, true, false, not, ◌&&◌, ◌||◌, Option, none, some, List, [], ◌∷◌, ◌++◌, leb, if◌then◌else◌,
}
use package_firewall.Common.Text.{
  Text, codes, text_eq, is_empty, contains_any, has_prefix, join, to_lower, equal_fold, trim_space,
}
use package_firewall.Common.Lists.{length, any}
use package_firewall.Common.Decimal.{is_digit}
use package_firewall.Common.Cut.{cut, split, contains_text}
use package_firewall.Server.Handle.{RouteConfig}
use package_firewall.Proxy.Headers.{Headers, values, get}

-- `headers.Get(name) != ""`
unfoldable pub is_set : Headers → Text → Bool
unfolding get
is_set h name = not (is_empty (get name h))

-- `hasConditionalHeader`
unfoldable pub has_conditional_header : Headers → Bool
has_conditional_header h = any (is_set h) (
    codes "If-Match"
    ∷ codes "If-Modified-Since"
    ∷ codes "If-None-Match"
    ∷ codes "If-Range"
    ∷ codes "If-Unmodified-Since"
    ∷ [])

-- `requestDisablesCaching`
unfoldable pub request_disables_caching : Headers → Bool
unfolding values get join trim_space
request_disables_caching h =
    not (is_empty (trim_space (join (values (codes "Cache-Control") h) (codes ","))))
    || not (is_empty (trim_space (get (codes "Pragma") h)))

-- The test of one part of a value.
unfoldable pub is_directive : List Text → Text → Bool
unfolding text_eq has_prefix trim_space
is_directive wanted part =
    let name = trim_space part in
    any (text_eq name) wanted || any (λ directive. has_prefix name (directive ++ codes "=")) wanted

-- `hasCacheDirective`
unfoldable pub has_cache_directive : List Text → List Text → Bool
unfolding split to_lower
has_cache_directive vs wanted =
    any (λ value. any (is_directive wanted) (split b',' (to_lower value))) vs

-- `responseDisablesCaching`
unfoldable pub response_disables_caching : Headers → Bool → Bool
unfolding values
response_disables_caching h fresh_npm =
    has_cache_directive (values (codes "Cache-Control") h)
      (codes "no-cache" ∷ codes "no-store" ∷ codes "private" ∷ [])
    || (not fresh_npm
        && has_cache_directive (values (codes "Cache-Control") h) (
            codes "must-revalidate"
            ∷ codes "proxy-revalidate"
            ∷ codes "max-age=0"
            ∷ codes "s-maxage=0"
            ∷ []))
    || has_cache_directive (values (codes "Pragma") h) (codes "no-cache" ∷ [])

abbrev pub or_whole : Text → Option (Text × Text) → Text × Text
or_whole value none = (value, [])
or_whole value (some (whole, fraction)) = (whole, fraction)

-- `qualityAccepted`: `none` for a value that is not valid
unfoldable pub quality_accepted : Text → Option Bool
unfolding cut contains_any text_eq
quality_accepted value =
    let (whole, fraction) = or_whole value (cut value (codes ".")) in
    if not (leb (length fraction) 3) || any (λ c. not (is_digit c)) fraction
    then none
    else if text_eq whole (codes "0")
    then some (contains_any fraction (codes "123456789"))
    else if text_eq whole (codes "1")
    then some (not (contains_any fraction (codes "123456789")))
    else none

abbrev pub quality_parameter : Option (Text × Text) → Option Bool
quality_parameter none = none
quality_parameter (some (name, value)) =
    if equal_fold (trim_space name) (codes "q") then quality_accepted (trim_space value) else none

-- `encodingQualityAccepted`
unfoldable pub encoding_quality_accepted : List Text → Option Bool
unfolding cut
encoding_quality_accepted [] = some true
encoding_quality_accepted (parameter ∷ []) = quality_parameter (cut parameter (codes "="))
encoding_quality_accepted (_ ∷ _ ∷ _) = none

-- What the loop of `identityEncodingAccepted` has seen.
pub record Seen : Type 0 where
  pub identity_seen : Bool
  pub identity_accepted : Bool
  pub wildcard_seen : Bool
  pub wildcard_accepted : Bool

abbrev pub saw : Seen → Text → Bool → Seen
saw seen coding accepted =
    if text_eq coding (codes "identity")
    then record seen {
      identity_seen = true;
      identity_accepted = seen.identity_accepted || accepted;
    }
    else if text_eq coding (codes "*")
    then record seen {
      wildcard_seen = true;
      wildcard_accepted = seen.wildcard_accepted || accepted;
    }
    else seen

-- The parts of an item: the coding and its parameters.
abbrev pub coding_of : List Text → Text
coding_of [] = []
coding_of (part ∷ _) = to_lower (trim_space part)

abbrev pub parameters_of : List Text → List Text
parameters_of [] = []
parameters_of (_ ∷ parts) = parts

-- The loop of `identityEncodingAccepted`; `none` where it returns false at once
unfoldable pub scan_codings : Seen → List Text → Option Seen
unfolding split text_eq
scan_codings seen [] = some seen
scan_codings seen (item ∷ items) =
    let parts = split b';' item in
    if is_empty (coding_of parts)
    then none
    else elim (encoding_quality_accepted (parameters_of parts)) [
      | none ↦ none
      | some accepted ↦ scan_codings (saw seen (coding_of parts) accepted) items
    ]

abbrev pub accepts_identity : Option Seen → Bool
accepts_identity none = false
accepts_identity (some seen) =
    if seen.identity_seen
    then seen.identity_accepted
    else not seen.wildcard_seen || seen.wildcard_accepted

-- `identityEncodingAccepted`
unfoldable pub identity_encoding_accepted : List Text → Bool
unfolding join trim_space split
identity_encoding_accepted vs =
    let raw = trim_space (join vs (codes ",")) in
    if is_empty raw
    then true
    else accepts_identity (
        scan_codings
          (record {
            identity_seen = false;
            identity_accepted = false;
            wildcard_seen = false;
            wildcard_accepted = false;
          })
          (split b',' raw))

-- `cacheableRequestRepresentation`
unfoldable pub cacheable_request_representation : Headers → Bool
unfolding values
cacheable_request_representation h =
    not (
      any (is_set h) (
        codes "Accept-Charset"
        ∷ codes "Accept-Language"
        ∷ codes "A-Im"
        ∷ codes "Cookie"
        ∷ codes "Origin"
        ∷ codes "Prefer"
        ∷ codes "Want-Digest"
        ∷ []))
    && identity_encoding_accepted (values (codes "Accept-Encoding") h)

abbrev pub varies : Text → Bool
varies part =
    let name = to_lower (trim_space part) in
    not (is_empty name || text_eq name (codes "accept-encoding"))

-- `cacheableResponseVary`
unfoldable pub cacheable_response_vary : Headers → Bool
unfolding values split
cacheable_response_vary h =
    not (any (λ value. any varies (split b',' value)) (values (codes "Vary") h))

abbrev pub is_encoded : Text → Bool
is_encoded coding =
    not (is_empty (trim_space coding)) && not (equal_fold (trim_space coding) (codes "identity"))

-- `identityContentEncoding`, its test
unfoldable pub identity_content_encoding : List Text → Bool
unfolding split
identity_content_encoding vs = not (any (λ value. any is_encoded (split b',' value)) vs)

-- `rewritableRoute`
unfoldable pub rewritable_route : RouteConfig → Bool
unfolding text_eq
rewritable_route route =
    text_eq route.ecosystem (codes "npm") || text_eq route.ecosystem (codes "pypi")

-- `shouldRewrite`, on the headers of the response
unfoldable pub should_rewrite : RouteConfig → Headers → Bool
unfolding get contains_text text_eq
should_rewrite route h =
    let content_type = get (codes "Content-Type") h in
    (text_eq route.ecosystem (codes "npm")
      && (contains_text content_type (codes "application/json")
          || contains_text content_type (codes "application/vnd.npm.install-v1+json")))
    || (text_eq route.ecosystem (codes "pypi")
        && (contains_text content_type (codes "text/html")
            || contains_text content_type (codes "application/vnd.pypi.simple")
            || contains_text content_type (codes "application/json")))
