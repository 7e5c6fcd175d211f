-- ===== src/Proxy/Serve/Cookies.antt =====
-- The cookies of a response that is stored.
use package_firewall.Common.{
  ◌≡◌, refl, inl, inr, ℕ, ◌*◌, true, not, ◌&&◌, [], arith, Bool-cases, Option-cases,
}
use package_firewall.Common.Text.{Text, codes, text_eq}
use package_firewall.Server.Handle.{RouteConfig}
use package_firewall.Proxy.Headers.{Headers, values}
use package_firewall.Proxy.Redirect.{Urls}
use package_firewall.Proxy.Response.{Response, Http, no_values, second}
use package_firewall.Proxy.Freshness.{npm_freshness_lifetime}
use package_firewall.Proxy.Npm.{
  Prepared, untouched, refused, fresh_until, all_hold, valid_cdn_cookie, prepare_fresh,
  prepare_npm_cache_response,
}
use package_firewall.Proxy.Serve.{prepared_response, without_cdn_cookies}

module _ (http : Http) where
  -- Every cookie of the response is one of the CDN's.
  abbrev pub HasCdnCookies : Response → Type 0
  HasCdnCookies resp =
      all_hold (valid_cdn_cookie http) (values (codes "Set-Cookie") resp.header) ≡ true

  prepare_fresh-HasCdnCookies :
      (urls : Urls) (maximum : ℕ) (resp : Response) (route : RouteConfig) (target : Text)
      (requested_at received_at lifetime until : ℕ) (header : Headers)
      → prepare_fresh urls http maximum resp route target requested_at received_at lifetime
        ≡ fresh_until until header
      → HasCdnCookies resp
  unfolding prepare_fresh
  prepare_fresh-HasCdnCookies urls maximum resp route target requested_at received_at lifetime until
        header h =
      elim (Bool-cases
        (all_hold (valid_cdn_cookie http) (values (codes "Set-Cookie") resp.header))) [
          | inl vouched ↦ vouched
          | inr other ↦
              let never : refused (codes "response_set_cookie") ≡ fresh_until until header =
                rw (other, prepare_fresh) at h in
              cc
        ]

  prepare_npm_cache_response-HasCdnCookies :
      (urls : Urls) (maximum : ℕ) (resp : Response) (route : RouteConfig) (target : Text)
      (requested_at received_at until : ℕ) (header : Headers)
      → prepare_npm_cache_response urls http maximum resp route target requested_at received_at
        ≡ fresh_until until header
      → HasCdnCookies resp
  unfolding prepare_npm_cache_response
  prepare_npm_cache_response-HasCdnCookies urls maximum resp route target requested_at received_at
        until header h =
      elim (Option-cases (npm_freshness_lifetime resp.header)) [
        | inl missing ↦ ground (arith, missing)
        | inr (lifetime, e) ↦
            let vouched =
              prepare_fresh-HasCdnCookies urls maximum resp route target requested_at received_at
                (lifetime * second) until header in
            ground (arith, e, vouched)
      ]

  without_cdn_cookies-HasCdnCookies :
      (route : RouteConfig) (resp : Response)
      → values (codes "Set-Cookie") (without_cdn_cookies http route resp).header ≡ []
      → HasCdnCookies resp
  unfolding without_cdn_cookies
  without_cdn_cookies-HasCdnCookies route resp h =
      elim (Bool-cases (
        not (text_eq route.ecosystem (codes "npm"))
        && not (no_values (values (codes "Set-Cookie") resp.header))
        && all_hold (valid_cdn_cookie http) (values (codes "Set-Cookie") resp.header))) [
          | inl dropped ↦ ground arith
          | inr kept ↦
              let bare : values (codes "Set-Cookie") resp.header ≡ [] =
                rw (kept, without_cdn_cookies) at h in
              rw bare refl
        ]

  -- Cookies are dropped from a response only if all of them are the CDN's.
  pub stored-HasCdnCookies :
      (urls : Urls) (maximum : ℕ) (resp : Response) (route : RouteConfig) (target : Text)
      (requested_at received_at : ℕ) (prepared : Prepared)
      → prepare_npm_cache_response urls http maximum resp route target requested_at received_at
        ≡ prepared
      → values
          (codes "Set-Cookie")
          (without_cdn_cookies http route (prepared_response prepared resp)).header
        ≡ []
      → HasCdnCookies resp
  stored-HasCdnCookies urls maximum resp route target requested_at received_at
        (fresh_until until header) e h =
      prepare_npm_cache_response-HasCdnCookies urls maximum resp route target requested_at
        received_at until header e
  stored-HasCdnCookies urls maximum resp route target requested_at received_at untouched e h =
      without_cdn_cookies-HasCdnCookies route resp h
  stored-HasCdnCookies urls maximum resp route target requested_at received_at (refused _) e h =
      without_cdn_cookies-HasCdnCookies route resp h
