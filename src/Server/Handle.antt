-- ===== src/Server/Handle.antt =====
-- internal/server/server.go: `matchRoute`, `matchNPMTarballFallback`, `authorized`, `handle` and
-- what `New` prepares for them. What `Proxy.Serve` returns is an argument, and the headers are what
-- package net/http reads from the request. `sort.Slice` is the argument `sort`,
-- which `New` calls with its comparison.
pub mod Routing
pub mod Access
pub mod Credentials
use package_firewall.Common.{
  ℕ, Bool, true, false, not, ◌&&◌, ◌||◌, Option, none, some, List, [], ◌∷◌, ◌++◌, ◌==◌, ltb,
  if◌then◌else◌,
}
use package_firewall.Common.Text.{Text, codes, text_eq, is_empty, has_prefix}
use package_firewall.Common.Lists.{length}
use package_firewall.Common.Cut.{cut_prefix, contains_text, has_suffix}
use package_firewall.Policy.Types.{Decision, is_block}
use package_firewall.Registry.Types.{Route, RequestInfo}

-- `RouteConfig`
pub record RouteConfig : Type 0 where
  pub name : Text
  pub ecosystem : Text
  pub path_prefix : Text
  pub upstream_url : Text
  pub file_upstream_url : Text
  pub upstream_token_env : Text
  pub enforce_redirect_origins : Bool
  pub allowed_redirect_origins : List Text
  pub allow_anonymous : Bool

-- `AuthConfig`
pub record AuthConfig : Type 0 where
  pub bearer_token_env : Text
  pub basic_username_env : Text
  pub basic_password_env : Text

-- The fields of `Server` that routing and authorization read.
pub record Server : Type 0 where
  pub auth : AuthConfig
  pub routes : List RouteConfig
  pub bearer : Text
  pub basic_user : Text
  pub basic_pass : Text
  pub auth_ready : Bool

-- What the handler reads of a request: the header `Authorization`, and what `BasicAuth` makes of it.
pub record Request : Type 0 where
  pub path : Text
  pub authorization : Text
  pub basic_auth : Option (Text × Text)

-- What os.LookupEnv answers for a name.
abbrev pub Environment : Type 0
Environment = Text → Option Text

abbrev pub present_secret : Option Text → Text × Bool
present_secret none = ([], false)
present_secret (some []) = ([], false)
present_secret (some (c ∷ value)) = (c ∷ value, true)

-- `secretFromEnv`
unfoldable pub secret_from_env : Environment → Text → Text × Bool
secret_from_env env name = if is_empty name then ([], true) else present_secret (env name)

-- The comparison that `New` sorts the routes with
unfoldable pub has_longer_prefix : RouteConfig → RouteConfig → Bool
has_longer_prefix a b = ltb (length b.path_prefix) (length a.path_prefix)

-- What sorts routes with a comparison.
abbrev pub Sort : Type 0
Sort = (RouteConfig → RouteConfig → Bool) → List RouteConfig → List RouteConfig

-- The part of `New` that the handler depends on.
unfoldable pub new_server : Sort → Environment → AuthConfig → List RouteConfig → Server
unfolding has_longer_prefix
new_server sort env auth routes =
    let (bearer, bearer_ok) = secret_from_env env auth.bearer_token_env in
    let (user, user_ok) = secret_from_env env auth.basic_username_env in
    let (pass, pass_ok) = secret_from_env env auth.basic_password_env in
    record {
      auth = auth;
      routes = sort has_longer_prefix routes;
      bearer = bearer;
      basic_user = user;
      basic_pass = pass;
      auth_ready = bearer_ok && user_ok && pass_ok;
    }

-- `matchRoute`, on the routes of the server
unfoldable pub match_route : List RouteConfig → Text → Option RouteConfig
match_route [] path = none
match_route (route ∷ routes) path =
    if has_prefix path route.path_prefix then some route else match_route routes path

unfoldable pub first_npm : List RouteConfig → Option RouteConfig
first_npm [] = none
first_npm (route ∷ routes) =
    if text_eq route.ecosystem (codes "npm")
    then some (record route { path_prefix = codes "/" })
    else first_npm routes

-- `matchNPMTarballFallback`
unfoldable pub match_npm_tarball_fallback : List RouteConfig → Text → Option RouteConfig
match_npm_tarball_fallback routes path =
    if not (contains_text path (codes "/-/")) || not (has_suffix path (codes ".tgz"))
    then none
    else first_npm routes

-- The route of a request: a match, or the fallback.
unfoldable pub route_of : List RouteConfig → Text → Option RouteConfig
route_of routes path = elim (match_route routes path) [
  | some route ↦ some route
  | none ↦ match_npm_tarball_fallback routes path
]

abbrev pub is_bearer : Text → Option Text → Bool
is_bearer bearer none = false
is_bearer bearer (some token) = text_eq token bearer

abbrev pub is_pair : Text → Text → Option (Text × Text) → Bool
is_pair user pass none = false
is_pair user pass (some (u, p)) = text_eq u user && text_eq p pass

-- `authorized`
unfoldable pub authorized : Server → Request → Bool
authorized s r =
    if not s.auth_ready
    then false
    else if is_empty s.bearer && is_empty s.basic_user && is_empty s.basic_pass
    then true
    else (not (is_empty s.bearer)
        && is_bearer s.bearer (cut_prefix r.authorization (codes "Bearer ")))
      || ((not (is_empty s.basic_user) || not (is_empty s.basic_pass))
          && is_pair s.basic_user s.basic_pass r.basic_auth)

-- `toRegistryRoute`
unfoldable pub to_registry_route : RouteConfig → Route
to_registry_route route = record {
  name = route.name;
  ecosystem = route.ecosystem;
  path_prefix = route.path_prefix;
  upstream_url = route.upstream_url;
  file_upstream_url = route.file_upstream_url;
  upstream_token_env = route.upstream_token_env;
}

-- An error of the proxy, by the tests that the handler makes of it; `client_gone` is
-- `r.Context().Err() != nil`.
pub record ProxyError : Type 0 where
  pub canceled : Bool
  pub queue_timeout : Bool
  pub timeout : Bool
  pub client_gone : Bool

-- `Result` of the proxy and its error; the status is 0 while no status line has gone out.
pub record Served : Type 0 where
  pub status_code : ℕ
  pub error : Option ProxyError

-- What the handler does, in order.
pub data Effect : Type 0 where
  challenge : Text → Effect
  respond : ℕ → Text → Effect
  count : Text → ℕ → Effect
  audit : Decision → ℕ → Effect
  forward : RouteConfig → RequestInfo → Effect
  log_debug log_error abort : Effect

-- `addAuthenticationChallenges`
unfoldable pub challenges : AuthConfig → List Effect
challenges auth =
    (if not (is_empty auth.basic_username_env) || not (is_empty auth.basic_password_env)
      then challenge (codes "Basic realm=\"package-firewall\"") ∷ []
      else [])
    ++ (if not (is_empty auth.bearer_token_env)
        then challenge (codes "Bearer realm=\"package-firewall\"") ∷ []
        else [])

-- `upstreamErrorResponse`, without the message
unfoldable pub upstream_error_response : ProxyError → ℕ × Text
upstream_error_response e =
    if e.queue_timeout
    then (503, codes "upstream_busy")
    else if e.timeout
    then (504, codes "upstream_timeout")
    else (502, codes "upstream_error")

-- `proxyErrorStatus`
unfoldable pub proxy_error_status : ProxyError → ℕ
proxy_error_status e = if e.canceled then 499 else (upstream_error_response e).0

-- The status of the audit event after an error.
unfoldable pub audited_status : ℕ → ProxyError → ℕ
audited_status sent e =
    if not (sent == 0) then sent else if e.canceled then 499 else (upstream_error_response e).0

-- What the handler does after `Serve`.
unfoldable pub after_serve : RouteConfig → Decision → Served → List Effect
after_serve route d served = elim served.error [
  | none ↦ count route.name served.status_code ∷ audit d served.status_code ∷ []
  | some e ↦
      (if served.status_code == 0 && not e.canceled
        then respond (upstream_error_response e).0 (upstream_error_response e).1 ∷ []
        else [])
      ++ (count route.name (proxy_error_status e)
          ∷ audit d (audited_status served.status_code e)
          ∷ (if e.canceled && e.client_gone then log_debug else log_error)
          ∷ (if served.status_code == 0 then [] else abort ∷ []))
]

module _ (s : Server) (identify : Route → Text → RequestInfo)
    (decide : RouteConfig → RequestInfo → Decision)
    (serve : RouteConfig → RequestInfo → Served) where
  -- A request whose route is known and that may use it.
  unfoldable pub handle_route : RouteConfig → Text → List Effect
  handle_route route path =
      let info = identify (to_registry_route route) path in
      let d = decide route info in
      if is_block d.action
      then audit d 0 ∷ respond 403 (codes "blocked") ∷ count route.name 403 ∷ []
      else forward route info ∷ after_serve route d (serve route info)

  abbrev pub unauthorized : List Effect
  unauthorized =
      challenges s.auth ++ (respond 401 (codes "unauthorized") ∷ count (codes "__auth__") 401 ∷ [])

  -- `handle`, once the route has been looked up
  unfoldable pub handle_matched : Option RouteConfig → Request → List Effect
  handle_matched none r =
      if authorized s r
      then respond 404 (codes "not_found") ∷ count (codes "__unmatched__") 404 ∷ []
      else unauthorized
  handle_matched (some route) r =
      if route.allow_anonymous || authorized s r then handle_route route r.path else unauthorized

  -- `handle`
  unfoldable pub handle : Request → List Effect
  handle r = handle_matched (route_of s.routes r.path) r
