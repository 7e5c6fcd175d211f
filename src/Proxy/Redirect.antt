-- ===== src/Proxy/Redirect.antt =====
-- internal/proxy/proxy.go: the redirect policy, and `NormalizeHTTPOrigin` of
-- internal/config/config.go. Packages net/url and net are the interface `Urls`; the client of
-- package net/http is an argument. Messages of errors and log lines are left out.
pub mod Trust
use package_firewall.Common.{
  ℕ, Bool, true, false, not, ◌&&◌, ◌||◌, Option, none, some, List, [], ◌∷◌, ◌++◌, ltb, leb, ◌==◌,
  if◌then◌else◌,
}
use package_firewall.Common.Text.{Text, codes, text_eq, is_empty, to_lower, trim_space}
use package_firewall.Common.Lists.{length, any}
use package_firewall.Common.Cut.{contains_text}
use package_firewall.Server.Handle.{RouteConfig}
use package_firewall.Proxy.Headers.{Headers, get}
use package_firewall.Proxy.Cacheable.{cacheable_response_vary}

-- url.URL; `user` is `User != nil`
pub record Url : Type 0 where
  pub scheme : Text
  pub opaque : Text
  pub user : Bool
  pub host : Text
  pub path : Text
  pub raw_path : Text
  pub raw_query : Text
  pub force_query : Bool
  pub fragment : Text

-- What the program uses of packages net/url and net; `none` stands for an error.
pub record Urls : Type 0 where
  pub parse : Text → Option Url
  pub parse_request_uri : Text → Option Url
  pub print : Url → Text
  pub hostname : Url → Text
  pub port : Url → Text
  pub join_host_port : Text → Text → Text

module _ (urls : Urls) where
  unfoldable pub port_of : Text → Url → Text
  unfolding text_eq
  port_of scheme url =
      if is_empty (urls.port url)
      then (if text_eq scheme (codes "http") then codes "80" else codes "443")
      else urls.port url

  unfoldable pub origin_of_url : Url → Option Text
  unfolding text_eq to_lower
  origin_of_url url =
      let scheme = to_lower url.scheme in
      if not (text_eq scheme (codes "http")) && not (text_eq scheme (codes "https"))
      then none
      else if is_empty url.host || is_empty (urls.hostname url)
      then none
      else if url.user
      then none
      else if not (is_empty url.path) && not (text_eq url.path (codes "/"))
      then none
      else if not (is_empty url.raw_query) || url.force_query || not (is_empty url.fragment)
      then none
      else some (
          scheme
          ++ (codes "://"
              ++ urls.join_host_port (to_lower (urls.hostname url)) (port_of scheme url)))

  -- `NormalizeHTTPOrigin`
  unfoldable pub normalize_http_origin : Text → Option Text
  unfolding trim_space
  normalize_http_origin value = elim (urls.parse_request_uri (trim_space value)) [
    | none ↦ none
    | some url ↦ origin_of_url url
  ]

  -- `requestOrigin`
  unfoldable pub request_origin : Option Url → Option Text
  request_origin none = none
  request_origin (some url) =
      if url.user
      then none
      else normalize_http_origin (
          urls.print (record {
            scheme = url.scheme;
            opaque = [];
            user = false;
            host = url.host;
            path = [];
            raw_path = [];
            raw_query = [];
            force_query = false;
            fragment = [];
          }))

  -- `upstreamOrigin`
  unfoldable pub upstream_origin : Text → Option Text
  upstream_origin value = elim (urls.parse value) [
    | none ↦ none
    | some url ↦ request_origin (some url)
  ]

  -- The set of allowed origins; `none` if one of them is not an origin
  unfoldable pub allowed_set : List Text → Option (List Text)
  allowed_set [] = some []
  allowed_set (value ∷ vs) = elim (normalize_http_origin value) [
    | none ↦ none
    | some origin ↦ elim (allowed_set vs) [ none ↦ none | some rest ↦ some (origin ∷ rest) ]
  ]

pub data RedirectError : Type 0 where
  unsafe_redirect redirect_limit unreplayable_body bad_location : RedirectError

-- The test of a redirect: the URL that it leads to, and those of the requests before it, the first
-- one first.
abbrev pub Check : Type 0
Check = Option Url → List (Option Url) → Option RedirectError

-- The end of the test, on the two origins.
unfoldable pub check_origins : Bool → List Text → Option Text → Option Text → Option RedirectError
unfolding text_eq
check_origins enforce allowed none redirected = some unsafe_redirect
check_origins enforce allowed (some initial) none = some unsafe_redirect
check_origins enforce allowed (some initial) (some redirected) =
    if text_eq redirected initial
    then none
    else if not enforce
    then none
    else if any (text_eq redirected) allowed
    then none
    else some unsafe_redirect

module _ (urls : Urls) where
  -- The function that `upstreamRedirectPolicy` returns
  unfoldable pub check_redirect : Bool → List Text → Check
  unfolding request_origin
  check_redirect enforce allowed url [] = some unsafe_redirect
  check_redirect enforce allowed url (first ∷ via) =
      if leb 10 (length (first ∷ via))
      then some redirect_limit
      else check_origins enforce allowed (request_origin urls first) (request_origin urls url)

  -- `upstreamRedirectPolicy`
  unfoldable pub upstream_redirect_policy : Bool → List Text → Option Check
  upstream_redirect_policy enforce allowed_origins = elim (allowed_set urls allowed_origins) [
    | none ↦ none
    | some allowed ↦ some (check_redirect enforce allowed)
  ]

-- What `response.Location` returns.
pub data Location : Type 0 where
  no_location invalid_location : Location
  location : Url → Location

-- `validateReturnedRedirect`; `unreplayable` is the test of the body of the request
unfoldable pub validate_returned_redirect :
    Check → Option Url → Bool → ℕ → Location → Option RedirectError
validate_returned_redirect check requested unreplayable status no_location = none
validate_returned_redirect check requested unreplayable status invalid_location =
    if not (status == 307) && not (status == 308) then none else some bad_location
validate_returned_redirect check requested unreplayable status (location url) =
    if not (status == 307) && not (status == 308)
    then none
    else elim (check (some url) (requested ∷ [])) [
      | some error ↦ some error
      | none ↦ if unreplayable then some unreplayable_body else none
    ]

-- `observe` of the recorder of hops: the mark after one more response
unfoldable pub observe : Bool → ℕ × Headers → Bool
unfolding get to_lower contains_text
observe uncacheable (status, h) =
    if ltb status 300 || leb 400 status
    then uncacheable
    else let control = to_lower (get (codes "Cache-Control") h) in
      if cacheable_response_vary h
        && not (contains_text control (codes "no-store"))
        && not (contains_text control (codes "private"))
      then uncacheable
      else true

-- The mark after all the responses that the transport returned.
unfoldable pub uncacheable : Bool → List (ℕ × Headers) → Bool
uncacheable mark [] = mark
uncacheable mark (response ∷ responses) = uncacheable (observe mark response) responses

-- The request that a response answers: its URL, its headers and the values that `doOnce` puts in its
-- context.
pub record Answered : Type 0 where
  pub url : Option Url
  pub header : Headers
  pub redirected : Bool
  pub hops_uncacheable : Bool

module _ (urls : Urls) where
  -- `cacheableRedirect`
  unfoldable pub cacheable_redirect : Option Answered → RouteConfig → Bool
  unfolding request_origin upstream_origin normalize_http_origin text_eq
  cacheable_redirect none route = false
  cacheable_redirect (some request) route =
      if not route.enforce_redirect_origins
      then false
      else if request.hops_uncacheable
      then false
      else elim (request_origin urls request.url) [
        | none ↦ false
        | some final ↦ elim (upstream_origin urls route.upstream_url) [
          | none ↦ false
          | some upstream ↦
              if text_eq final upstream
              then false
              else any
                  (λ value. elim (normalize_http_origin urls value) [
                    | none ↦ false
                    | some allowed ↦ text_eq allowed final
                  ])
                  route.allowed_redirect_origins
        ]
      ]
