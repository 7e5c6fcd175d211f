-- ===== src/Proxy/Serve.antt =====
-- internal/proxy/proxy.go: `Serve`, `serveUpstream` and `serveCached`. The request to the registry is
-- the argument `exchange`; a request that misses the cache is the one that fills it.
pub mod Cookies
pub mod Safe
pub mod Stored
pub mod Sent
pub mod Again
use package_firewall.Common.{
  ◌⊎◌, inl, inr, ℕ, ◌+◌, Bool, true, false, not, ◌&&◌, ◌||◌, Option, none, some, List, [], ◌∷◌,
  ◌++◌, ltb, if◌then◌else◌,
}
use package_firewall.Common.Text.{Text, codes, text_eq, is_empty}
use package_firewall.Common.Lists.{length}
use package_firewall.Common.Decimal.{ℤ, pos, format_decimal}
use package_firewall.Registry.Types.{RequestInfo}
use package_firewall.Server.Handle.{RouteConfig}
use package_firewall.ArtifactCache.{PutRequest}
use package_firewall.Proxy.Headers.{
  Headers, values, get, del, set, copy_request_headers, copy_response_headers, safe_headers,
  cache_header,
}
use package_firewall.Proxy.Cacheable.{
  is_set, identity_content_encoding, rewritable_route, should_rewrite,
}
use package_firewall.Proxy.CacheKey.{ClientRequest, cache_key}
use package_firewall.Proxy.Redirect.{Urls}
use package_firewall.Proxy.Rewrite.{
  Read, more, last, broken, Outcome, ended, unfinished, failed, rewrite_rules, rewrite_stream,
}
use package_firewall.Proxy.Spool.{Writer, Spool, Streamed, new_capture_spool, stream_and_capture}
use package_firewall.Proxy.Load.{LoadError, not_found, read_failed, StagedEntry}
use package_firewall.Proxy.Response.{
  Response, Http, no_values, aged_headers, response_bypass_reason,
}
use package_firewall.Proxy.Npm.{
  Prepared, untouched, refused, fresh_until, all_hold, valid_cdn_cookie, prepare_npm_cache_response,
}
use package_firewall.Proxy.Paths.{upstream_url, with_request_query}
use package_firewall.Proxy.Store.{
  Event, respond, send, hit, miss, read_error, store_error, bypass, put, Reply, with_events, refuse,
  outcome_error, copy_body, UpstreamRequest, Settings, World, stored_as, with_date, put_request,
  store_spool, pass_through, serve_and_store,
}

-- The body with its download origins replaced.
unfoldable pub rewrite_through : Text → RouteConfig → Headers → Response → Reply
unfolding rewrite_rules rewrite_stream
rewrite_through base_url route header resp =
    let (body, outcome) = rewrite_stream (rewrite_rules base_url route) resp.body in
    record {
      events = respond resp.status_code (del (codes "Content-Length") header) ∷ send body ∷ [];
      status = resp.status_code;
      error = outcome_error outcome;
    }

-- A reason of the preparation for npm comes before one of the response.
unfoldable pub store_reason : Urls → ℕ → Response → RouteConfig → Text → Prepared → Option Text
unfolding response_bypass_reason
store_reason urls maximum resp route target (refused reason) = some reason
store_reason urls maximum resp route target untouched =
    response_bypass_reason urls maximum resp route target false
store_reason urls maximum resp route target (fresh_until _ _) =
    response_bypass_reason urls maximum resp route target true

abbrev pub expiry : Prepared → Option ℕ
expiry (fresh_until at _) = some at
expiry _ = none

abbrev pub prepared_response : Prepared → Response → Response
prepared_response (fresh_until _ header) resp = record resp { header = header }
prepared_response _ resp = resp

-- Cookies of a CDN are dropped from what may be stored.
unfoldable pub without_cdn_cookies : Http → RouteConfig → Response → Response
unfolding values text_eq del
without_cdn_cookies http route resp =
    if not (text_eq route.ecosystem (codes "npm"))
      && not (no_values (values (codes "Set-Cookie") resp.header))
      && all_hold (valid_cdn_cookie http) (values (codes "Set-Cookie") resp.header)
    then record resp { header = del (codes "Set-Cookie") resp.header }
    else resp

-- A response that is to be rewritten, with what is counted first.
unfoldable pub serve_rewritten : Text → List Event → RouteConfig → Headers → Response → Reply
unfolding values
serve_rewritten base_url counted route header resp =
    if identity_content_encoding (values (codes "Content-Encoding") resp.header)
    then with_events counted (rewrite_through base_url route header resp)
    else refuse (codes "upstream sent an encoded body that must be rewritten")

-- A response to a request without one.
unfoldable pub serve_unkeyed : Text → Headers → RouteConfig → Response → Reply
unfolding copy_response_headers
serve_unkeyed base_url out route resp =
    let header = copy_response_headers out resp.header in
    if should_rewrite route resp.header
    then serve_rewritten base_url [] route header resp
    else pass_through header resp

-- The request of `serveUpstream`; `plain` asks for a body that is not encoded
unfoldable pub upstream_request :
    (Text → Text) → ClientRequest → RouteConfig → Text → Bool → UpstreamRequest
unfolding copy_request_headers set
upstream_request lookup_env r route target plain =
    let copied = copy_request_headers [] r.header in
    let header =
      if plain then set (codes "Accept-Encoding") (codes "identity") copied else copied in
    let token =
      if is_empty route.upstream_token_env then [] else lookup_env route.upstream_token_env in
    record {
      method = r.method;
      target = target;
      header =
          if is_empty token
          then header
          else set (codes "Authorization") (codes "Bearer " ++ token) header;
      has_body = r.has_body;
    }

-- `serveCached`
unfoldable pub serve_cached : Http → StagedEntry → ℕ → Reply
unfolding copy_response_headers aged_headers set
serve_cached http cached now =
    let copied = copy_response_headers [] (aged_headers http cached.headers cached.stored_at now) in
    let header =
      set cache_header (codes "HIT")
        (set (codes "Content-Length") (format_decimal cached.size) copied) in
    record {
      events = hit ∷ respond 200 header ∷ send cached.content ∷ [];
      status = 200;
      error = none;
    }

abbrev pub marked : Text → Headers
marked value = (cache_header, value) ∷ []

module _ (urls : Urls) (http : Http) (sha256_hex : Text → Text) (sort : List Text → List Text)
    (settings : Settings) (w : World) where
  -- A response to a request with a key, as it is after the preparation.
  unfoldable pub serve_prepared : Headers → RouteConfig → Text → Text → Response → Prepared → Reply
  serve_prepared header route target key resp prepared =
      if should_rewrite route resp.header
      then serve_rewritten settings.base_url (bypass (codes "response_rewrite") ∷ []) route header
          resp
      else elim (store_reason urls settings.maximum resp route target prepared) [
        | some reason ↦ with_events (bypass reason ∷ []) (pass_through header resp)
        | none ↦ serve_and_store http sha256_hex settings w key header resp (expiry prepared)
      ]

  -- A response to a request with a key.
  unfoldable pub serve_keyed : Headers → RouteConfig → Text → Text → Response → Prepared → Reply
  unfolding copy_response_headers without_cdn_cookies
  serve_keyed out route target key given prepared =
      let resp = without_cdn_cookies http route (prepared_response prepared given) in
      serve_prepared (copy_response_headers out resp.header) route target key resp prepared

  -- `serveUpstream` with a key
  unfoldable pub serve_to_store : Headers → ClientRequest → RouteConfig → Text → Text → Reply
  unfolding upstream_request prepare_npm_cache_response
  serve_to_store out r route target key =
      elim (w.exchange (upstream_request settings.lookup_env r route target true)) [
        | inl e ↦ refuse e
        | inr resp ↦ serve_keyed out route target key resp (
            prepare_npm_cache_response urls http settings.maximum resp route target w.requested_at
              w.received_at)
      ]

  -- `serveUpstream` without a key
  unfoldable pub serve_through : Headers → ClientRequest → RouteConfig → Text → Bool → Reply
  unfolding upstream_request
  serve_through out r route target rewrites_metadata =
      elim (w.exchange (upstream_request settings.lookup_env r route target rewrites_metadata)) [
        | inl e ↦ refuse e
        | inr resp ↦ serve_unkeyed settings.base_url out route resp
      ]

  -- A request with a key, with what `loadCached` returned; `now` is the time of a hit
  unfoldable pub serve_loaded :
      LoadError ⊎ StagedEntry → ℕ → ClientRequest → RouteConfig → Text → Text → Reply
  serve_loaded (inr cached) now r route target key = serve_cached http cached now
  serve_loaded (inl not_found) now r route target key =
      with_events (miss ∷ []) (serve_to_store (marked (codes "MISS")) r route target key)
  serve_loaded (inl (read_failed _)) now r route target key =
      with_events (read_error ∷ miss ∷ [])
        (serve_to_store (marked (codes "MISS")) r route target key)

  -- `Serve`, once the URL is known; `load` is `loadCached`
  unfoldable pub serve_target :
      (Text → LoadError ⊎ StagedEntry)
      → ℕ
      → ClientRequest
      → RouteConfig
      → RequestInfo
      → Text
      → Reply
  unfolding text_eq
  serve_target load now r route info target =
      elim (cache_key urls sha256_hex sort settings.has_store r route info target) [
        | inl reason ↦ with_events (bypass reason ∷ []) (
            serve_through (marked (codes "BYPASS")) r route target
              (rewritable_route route && not (text_eq info.kind (codes "artifact"))))
        | inr key ↦ serve_loaded (load key) now r route target key
      ]

  -- `Serve`
  unfoldable pub serve :
      (Text → LoadError ⊎ StagedEntry) → ℕ → ClientRequest → RouteConfig → RequestInfo → Reply
  unfolding upstream_url with_request_query
  serve load now r route info = elim (upstream_url urls route info) [
    | none ↦ refuse (codes "upstream URL")
    | some base ↦ elim (with_request_query urls base r.raw_query r.force_query) [
      | none ↦ refuse (codes "upstream URL")
      | some target ↦ serve_target load now r route info target
    ]
  ]
