-- ===== src/Proxy/Serve/Safe.antt =====
-- What a response that is stored must be.
use package_firewall.Common.{
  ◌⊎◌, inl, inr, ℕ, ◌≡◌, refl, sym, ◌∙◌, Bool, true, false, not, ◌&&◌, Option, none, some, List, [],
  ◌∷◌, ◌++◌, arith, Bool-cases, Option-cases,
}
use package_firewall.Common.Text.{Text, codes}
use package_firewall.Server.Handle.{RouteConfig}
use package_firewall.ArtifactCache.{PutRequest}
use package_firewall.Proxy.Headers.{Headers, values}
use package_firewall.Proxy.Cacheable.{
  is_set, should_rewrite, has_cache_directive, response_disables_caching, cacheable_response_vary,
}
use package_firewall.Proxy.CacheKey.{ClientRequest, key}
use package_firewall.Proxy.Redirect.{Urls, cacheable_redirect}
use package_firewall.Proxy.Response.{
  Response, Http, no_values, is_redirected, response_bypass_reason,
}
use package_firewall.Proxy.Npm.{
  Prepared, untouched, refused, fresh_until, prepare_npm_cache_response,
}
use package_firewall.Proxy.Store.{Event, bypass, Reply, with_events, Settings, World, pass_through}
use package_firewall.Proxy.Serve.{
  serve_prepared, serve_keyed, serve_unkeyed, serve_rewritten, rewrite_through, store_reason,
  expiry, prepared_response, without_cdn_cookies, upstream_request, serve_to_store,
}
use package_firewall.Proxy.Serve.Cookies.{HasCdnCookies, stored-HasCdnCookies}
use package_firewall.Proxy.Store.Spooled.{put_of, sent_of, Holds, serve_and_store-Holds}

-- What is known of a response that is stored.
pub record MayStore (urls : Urls) (route : RouteConfig) (target : Text) (resp : Response)
    : Type 0 where
  pub unrewritten : should_rewrite route resp.header ≡ false
  pub ok : resp.status_code ≡ 200
  pub cookieless : values (codes "Set-Cookie") resp.header ≡ []
  pub unvaried : cacheable_response_vary resp.header ≡ true
  pub unrestricted :
      has_cache_directive
        (values (codes "Cache-Control") resp.header)
        (codes "no-cache" ∷ codes "no-store" ∷ codes "private" ∷ [])
      ≡ false
  pub whole : is_set resp.header (codes "Content-Range") ≡ false
  pub unpacked : resp.uncompressed ≡ false
  pub near :
      (is_redirected urls resp.answered target && not (cacheable_redirect urls resp.answered route))
      ≡ false

no_values-nil : (vs : List Text) → no_values vs ≡ true → vs ≡ []
no_values-nil [] h = refl
no_values-nil (v ∷ vs) h = cc

response_bypass_reason-none :
    (urls : Urls) (maximum : ℕ) (resp : Response) (route : RouteConfig) (target : Text)
    (fresh_npm : Bool)
    → should_rewrite route resp.header ≡ false
    → response_bypass_reason urls maximum resp route target fresh_npm ≡ none
    → MayStore urls route target resp
unfolding response_bypass_reason response_disables_caching
response_bypass_reason-none urls maximum resp route target fresh_npm plain h =
    let (a, b, c, d, e, f, g) : (resp.status_code ≡ 200)
        × (no_values (values (codes "Set-Cookie") resp.header) ≡ true)
        × (cacheable_response_vary resp.header ≡ true)
        × (has_cache_directive (values (codes "Cache-Control") resp.header)
              (codes "no-cache" ∷ codes "no-store" ∷ codes "private" ∷ [])
            ≡ false)
        × (is_set resp.header (codes "Content-Range") ≡ false)
        × (resp.uncompressed ≡ false)
        × ((is_redirected urls resp.answered target
              && not (cacheable_redirect urls resp.answered route))
            ≡ false) =
      ground arith in
    record {
      unrewritten = plain;
      ok = a;
      cookieless = no_values-nil _ b;
      unvaried = c;
      unrestricted = d;
      whole = e;
      unpacked = f;
      near = g;
    }

rewritten-put :
    (base_url reason : Text) (route : RouteConfig) (header : Headers) (resp : Response)
    → put_of (serve_rewritten base_url (bypass reason ∷ []) route header resp).events ≡ none
unfolding serve_rewritten rewrite_through put_of
rewritten-put base_url reason route header resp = ground arith

pub unkeyed-put :
    (base_url : Text) (out : Headers) (route : RouteConfig) (resp : Response)
    → put_of (serve_unkeyed base_url out route resp).events ≡ none
unfolding serve_unkeyed serve_rewritten rewrite_through pass_through put_of
unkeyed-put base_url out route resp = ground arith

pub Sum-cases :
    {A : Type 0} {B : Type 0} (x : A ⊎ B) → ((a : A) × (x ≡ inl a)) ⊎ ((b : B) × (x ≡ inr b))
Sum-cases (inl a) = inl (a, refl)
Sum-cases (inr b) = inr (b, refl)

module _ (urls : Urls) (http : Http) (sha256_hex : Text → Text) (sort : List Text → List Text)
    (settings : Settings) (w : World) where
  store_reason-none :
      (resp : Response) (route : RouteConfig) (target : Text) (prepared : Prepared)
      → should_rewrite route resp.header ≡ false
      → store_reason urls settings.maximum resp route target prepared ≡ none
      → MayStore urls route target resp
  unfolding store_reason
  store_reason-none resp route target (refused reason) plain h = cc
  store_reason-none resp route target untouched plain h =
      response_bypass_reason-none urls settings.maximum resp route target false plain h
  store_reason-none resp route target (fresh_until _ _) plain h =
      response_bypass_reason-none urls settings.maximum resp route target true plain h

  -- What the code makes of the registry's response before it decides whether to store it.
  abbrev pub considered : RouteConfig → Text → Response → Response
  considered route target given = without_cdn_cookies http route (
      prepared_response
        (prepare_npm_cache_response urls http settings.maximum given route target w.requested_at
          w.received_at)
        given)

  -- The registry answered the request for the target, with status 200 and what may be stored.
  pub record Answered (r : ClientRequest) (route : RouteConfig) (target : Text) : Type 0 where
    pub given : Response
    pub answered : w.exchange (upstream_request settings.lookup_env r route target true) ≡ inr given
    pub ok : given.status_code ≡ 200
    pub vouched : HasCdnCookies http given
    pub kept : MayStore urls route target (considered route target given)

  -- The entry is the reply's body, and the response that it comes from may be stored.
  abbrev pub IsSafePut :
      ClientRequest → RouteConfig → Text → Text → Reply → Text → PutRequest → Type 0
  IsSafePut r route target key reply k req =
      (k ≡ key) × Holds sha256_hex settings.maximum reply req × Answered r route target

  prepared-status :
      (prepared : Prepared) (given : Response)
      → (prepared_response prepared given).status_code ≡ given.status_code
  prepared-status untouched given = refl
  prepared-status (refused _) given = refl
  prepared-status (fresh_until _ _) given = refl

  without_cdn_cookies-status :
      (route : RouteConfig) (resp : Response)
      → (without_cdn_cookies http route resp).status_code ≡ resp.status_code
  unfolding without_cdn_cookies
  without_cdn_cookies-status route resp = ground arith

  considered-status :
      (route : RouteConfig) (target : Text) (given : Response)
      → (considered route target given).status_code ≡ given.status_code
  considered-status route target given =
      let prepared =
        prepare_npm_cache_response urls http settings.maximum given route target w.requested_at
          w.received_at in
      without_cdn_cookies-status route (prepared_response prepared given)
      ∙ prepared-status prepared given

  serve_prepared-safe :
      (header : Headers) (route : RouteConfig) (target key : Text) (resp : Response)
      (prepared : Prepared) (k : Text) (req : PutRequest)
      → put_of
          (serve_prepared urls http sha256_hex sort settings w header route target key resp
            prepared).events
        ≡ some (k, req)
      → (k ≡ key)
        × Holds sha256_hex settings.maximum
            (serve_prepared urls http sha256_hex sort settings w header route target key resp
              prepared)
            req
        × MayStore urls route target resp
  unfolding serve_prepared put_of pass_through
  serve_prepared-safe header route target key resp prepared k req h =
      elim (Bool-cases (should_rewrite route resp.header)) [
        | inl rewrites ↦
            let e : ◌≡◌ {A = Option (Text × PutRequest)} none (some (k, req)) =
              sym (rewritten-put settings.base_url (codes "response_rewrite") route header resp)
              ∙ (rw (rewrites, serve_prepared) at h) in
            cc
        | inr plain ↦
            elim (Option-cases (store_reason urls settings.maximum resp route target prepared)) [
              | inr (reason, e) ↦
                  let f : ◌≡◌ {A = Option (Text × PutRequest)} none (some (k, req)) =
                    rw (plain, e, serve_prepared) at h in
                  cc
              | inl may ↦
                  let (same, holds) =
                    serve_and_store-Holds http sha256_hex settings w key header resp
                      (expiry prepared) k req (rw (plain, may, serve_prepared) at h) in
                  (
                    same,
                    rw (plain, may, serve_prepared) holds,
                    store_reason-none resp route target prepared plain may,
                  )
            ]
      ]

  pub serve_to_store-safe :
      (out : Headers) (r : ClientRequest) (route : RouteConfig) (target key k : Text)
      (req : PutRequest)
      → put_of (serve_to_store urls http sha256_hex sort settings w out r route target key).events
        ≡ some (k, req)
      → IsSafePut r route target key
          (serve_to_store urls http sha256_hex sort settings w out r route target key)
          k
          req
  unfolding serve_to_store serve_keyed put_of
  serve_to_store-safe out r route target key k req h =
      elim (Sum-cases (w.exchange (upstream_request settings.lookup_env r route target true))) [
        | inl (e, failed) ↦
            let f : ◌≡◌ {A = Option (Text × PutRequest)} none (some (k, req)) =
              rw (failed, serve_to_store) at h in
            cc
        | inr (given, answered) ↦
            let (same, holds, may) =
              serve_prepared-safe _ route target key (considered route target given) _ k req
                (rw (answered, serve_to_store) at h) in
            (
              same,
              rw (answered, serve_to_store) holds,
              record {
                given = given;
                answered = answered;
                ok = sym (considered-status route target given) ∙ may.ok;
                vouched =
                    stored-HasCdnCookies http urls settings.maximum given route target
                      w.requested_at w.received_at
                      (prepare_npm_cache_response urls http settings.maximum given route target
                        w.requested_at w.received_at)
                      refl may.cookieless;
                kept = may;
              },
            )
      ]

  pub counted_safe :
      (events : List Event) (r : ClientRequest) (route : RouteConfig) (target key k : Text)
      (reply : Reply) (req : PutRequest)
      → sent_of (events ++ reply.events) ≡ sent_of reply.events
      → IsSafePut r route target key reply k req
      → IsSafePut r route target key (with_events events reply) k req
  counted_safe events r route target key k reply req same (is_key, holds, response) = (
    is_key,
    record {
      content = rw same holds.content;
      checksum = rw same holds.checksum;
      size = rw same holds.size;
      bounded = rw same holds.bounded;
      finished = holds.finished;
    },
    response,
  )
