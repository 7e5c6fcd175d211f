-- ===== src/Proxy/Response.antt =====
-- internal/proxy/proxy.go: `agedHeaders` and `responseBypassReason`, and internal/proxy/npm_cache.go.
-- Times are nanoseconds. What package net/http makes of times and cookies are arguments, and durations
-- do not overflow.
use package_firewall.Common.{
  ℕ, ◌+◌, ◌-◌, ◌/◌, ◌^◌, Bool, true, false, not, ◌&&◌, ◌||◌, Option, none, some, List, [], ◌∷◌, ltb,
  ◌==◌, if◌then◌else◌,
}
use package_firewall.Common.Text.{Text, codes, text_eq, is_empty, equal_fold, trim_space}
use package_firewall.Common.Decimal.{ℤ, pos, parse_int, format_decimal}
use package_firewall.Server.Handle.{RouteConfig}
use package_firewall.ArtifactCache.{exceeds}
use package_firewall.Proxy.Headers.{Headers, values, get, set, safe_headers}
use package_firewall.Proxy.Rewrite.{Read}
use package_firewall.Proxy.Cacheable.{is_set, cacheable_response_vary, response_disables_caching}
use package_firewall.Proxy.Redirect.{Url, Urls, Answered, cacheable_redirect}

-- What the program reads of a response of package net/http; a length of -1 is `negsuc 0`.
pub record Response : Type 0 where
  pub status_code : ℕ
  pub header : Headers
  pub answered : Option Answered
  pub uncompressed : Bool
  pub content_length : ℤ
  pub body : List Read

-- http.Cookie as http.ParseSetCookie returns it; `valid` is `Valid() == nil` without unparsed
-- attributes, and `dated` is `!Expires.IsZero()`.
pub record Cookie : Type 0 where
  pub name : Text
  pub value : Text
  pub valid : Bool
  pub dated : Bool

-- What the program uses of package net/http for times and cookies.
pub record Http : Type 0 where
  pub parse_time : Text → Option ℕ
  pub format_time : ℕ → Text
  pub parse_set_cookie : Text → Option Cookie

abbrev pub second : ℕ
second = 1000000000

abbrev positive_or_zero : Option ℤ → ℕ
positive_or_zero (some (pos n)) = n
positive_or_zero _ = 0

abbrev apparent_age : ℕ → Option ℕ → ℕ
apparent_age stored_at none = 0
apparent_age stored_at (some date) = (stored_at - date) / second

-- The age of a stored response.
unfoldable pub aged : Http → Headers → ℕ → ℕ → ℕ
unfolding get parse_int
aged http h stored_at now =
    let given = positive_or_zero (parse_int 64 (trim_space (get (codes "Age") h))) in
    let apparent = apparent_age stored_at (http.parse_time (get (codes "Date") h)) in
    let age = if ltb given apparent then apparent else given in
    if not (ltb stored_at now)
    then age
    else let resident = (now - stored_at) / second in
      if ltb (2 ^ 63 - 1 - resident) age then 2 ^ 63 - 1 else age + resident

-- `agedHeaders`
unfoldable pub aged_headers : Http → Headers → ℕ → ℕ → Headers
unfolding safe_headers set aged format_decimal
aged_headers http h stored_at now =
    let safe = safe_headers h in
    set (codes "Age") (format_decimal (aged http safe stored_at now)) safe

abbrev pub no_values : List Text → Bool
no_values [] = true
no_values (_ ∷ _) = false

abbrev differs : Urls → Option Url → Text → Bool
differs urls none target = false
differs urls (some url) target = not (text_eq (urls.print url) target)

-- The response comes from a redirect.
unfoldable pub is_redirected : Urls → Option Answered → Text → Bool
is_redirected urls none target = false
is_redirected urls (some request) target = request.redirected || differs urls request.url target

-- `responseBypassReason`; `none` for the empty reason
unfoldable pub response_bypass_reason :
    Urls → ℕ → Response → RouteConfig → Text → Bool → Option Text
unfolding is_redirected cacheable_redirect text_eq values get
response_bypass_reason urls maximum resp route target fresh_npm =
    if not (resp.status_code == 200)
    then some (codes "upstream_status")
    else if is_redirected urls resp.answered target
        && not (cacheable_redirect urls resp.answered route)
    then some (codes "upstream_redirect")
    else if not (cacheable_response_vary resp.header)
    then some (codes "response_vary")
    else if not (no_values (values (codes "Set-Cookie") resp.header))
    then some (codes "response_set_cookie")
    else if is_set resp.header (codes "Content-Range")
    then some (codes "response_content_range")
    else if (let encoding = trim_space (get (codes "Content-Encoding") resp.header) in
        not (is_empty encoding) && not (equal_fold encoding (codes "identity")))
    then some (codes "response_encoding")
    else if resp.uncompressed
    then some (codes "response_encoding")
    else if response_disables_caching resp.header fresh_npm
    then some (codes "response_cache_control")
    else if exceeds resp.content_length maximum
    then some (codes "object_too_large")
    else none
