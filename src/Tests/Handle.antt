-- ===== src/Tests/Handle.antt =====
-- Requests to the handler, a sort of the routes by insertion, and the limiter.
use mathlib.Core.List.{Memᴰ}
use package_firewall.Common.{
  ℕ, ◌+◌, ◌-◌, ◌*◌, ◌≤◌, ◌≡◌, refl, ◌↔◌, Bool, true, false, none, some, List, [], ◌∷◌, arith,
  if◌then◌else◌, Bool-cases, inl, inr,
}
use package_firewall.Common.Text.{Text, codes, text_eq, has_prefix}
use package_firewall.Common.Cut.{cut_prefix}
use package_firewall.Common.Lists.{length, All}
use package_firewall.Policy.Types.{Decision, allow, plain, unspecified, is_block}
use package_firewall.Registry.Types.{Route, RequestInfo}
use package_firewall.Registry.Identify.{metadata_at}
use package_firewall.Server.Handle.{
  RouteConfig, AuthConfig, Environment, Sort, has_longer_prefix, Server, Request, new_server,
  secret_from_env, match_route, authorized, handle, handle_matched, handle_route, route_of,
  to_registry_route, Served,
}
use package_firewall.Server.Handle.Routing.{IsWeakOrder, Ordered, IsSorting, match_route-longest}
use package_firewall.Server.Handle.Access.{
  forwarded, counted, Admitted, handle-Admitted, handle-counted,
}
use package_firewall.Server.Handle.Credentials.{Permitted, authorized-Permitted}
use package_firewall.Server.Bucket.{one_token, new_token_bucket, calls}
use package_firewall.Server.Bucket.Limit.{calls-limit}

unfoldable pub insert_route :
    (RouteConfig → RouteConfig → Bool) → RouteConfig → List RouteConfig → List RouteConfig
insert_route less r [] = r ∷ []
insert_route less r (x ∷ xs) =
    let rest = insert_route less r xs in if less x r then x ∷ rest else r ∷ x ∷ xs

unfoldable pub sort_routes : Sort
sort_routes less [] = []
sort_routes less (r ∷ rs) = insert_route less r (sort_routes less rs)

module _ (less : RouteConfig → RouteConfig → Bool) where
  All-insert_route {ℓ} :
      (P : RouteConfig → Type ℓ) (r : RouteConfig) (rs : List RouteConfig)
      → P r
      → All P rs
      → All P (insert_route less r rs)
  unfolding insert_route
  All-insert_route P r [] p _ = (p, tt)
  All-insert_route P r (x ∷ xs) p (q, qs) = elim (Bool-cases (less x r)) [
    | inl later ↦ rw later (q, All-insert_route P r xs p qs)
    | inr here ↦ rw here (p, (q, qs))
  ]

  All-below :
      (x r : RouteConfig) (rs : List RouteConfig)
      → IsWeakOrder less
      → less x r ≡ false
      → All (λ y. less y x ≡ false) rs
      → All (λ y. less y r ≡ false) rs
  All-below x r [] order h _ = tt
  All-below x r (y ∷ rs) order h (p, ps) =
      (order.cotransitive y x r p h, All-below x r rs order h ps)

  Ordered-insert_route :
      (r : RouteConfig) (rs : List RouteConfig)
      → IsWeakOrder less
      → Ordered less rs
      → Ordered less (insert_route less r rs)
  unfolding insert_route
  Ordered-insert_route r [] order _ = (tt, tt)
  Ordered-insert_route r (x ∷ xs) order (first, rest) = elim (Bool-cases (less x r)) [
    | inl later ↦ rw later (
      All-insert_route (λ y. less y x ≡ false) r xs (order.asymmetric x r later) first,
      Ordered-insert_route r xs order rest,
    )
    | inr here ↦ rw here ((here, All-below x r xs order here first), (first, rest))
  ]

  Ordered-sort_routes :
      (rs : List RouteConfig) → IsWeakOrder less → Ordered less (sort_routes less rs)
  unfolding sort_routes
  Ordered-sort_routes [] order = tt
  Ordered-sort_routes (r ∷ rs) order = Ordered-insert_route r _ order (Ordered-sort_routes rs order)

Memᴰ-under :
    {a x : RouteConfig} {xs ys : List RouteConfig}
    → (Memᴰ a xs → Memᴰ a ys)
    → Memᴰ a (x ∷ xs)
    → Memᴰ a (x ∷ ys)
Memᴰ-under f (Memᴰ.head e) = Memᴰ.head e
Memᴰ-under f (Memᴰ.tail m) = Memᴰ.tail (f m)

swap : {a x y : RouteConfig} {xs : List RouteConfig} → Memᴰ a (x ∷ y ∷ xs) → Memᴰ a (y ∷ x ∷ xs)
swap (Memᴰ.head e) = Memᴰ.tail (Memᴰ.head e)
swap (Memᴰ.tail (Memᴰ.head e)) = Memᴰ.head e
swap (Memᴰ.tail (Memᴰ.tail m)) = Memᴰ.tail (Memᴰ.tail m)

module _ (less : RouteConfig → RouteConfig → Bool) where
  Memᴰ-insert_route :
      (a r : RouteConfig) (rs : List RouteConfig)
      → Memᴰ a (insert_route less r rs) ↔ Memᴰ a (r ∷ rs)
  unfolding insert_route
  Memᴰ-insert_route a r [] = (λ m. m, λ m. m)
  Memᴰ-insert_route a r (x ∷ xs) = elim (Bool-cases (less x r)) [
    | inr here ↦ rw here (λ m. m, λ m. m)
    | inl later ↦
        let (to, from) = Memᴰ-insert_route a r xs in
        rw later (λ m. swap (Memᴰ-under to m), λ m. Memᴰ-under from (swap m))
  ]

  Memᴰ-sort_routes :
      (a : RouteConfig) (rs : List RouteConfig) → Memᴰ a (sort_routes less rs) ↔ Memᴰ a rs
  unfolding sort_routes
  Memᴰ-sort_routes a [] = (λ m. m, λ m. m)
  Memᴰ-sort_routes a (r ∷ rs) =
      let (to, from) = Memᴰ-sort_routes a rs in
      let (into, out) = Memᴰ-insert_route a r (sort_routes less rs) in
      (λ m. Memᴰ-under to (into m), λ m. out (Memᴰ-under from m))

sort_routes-IsSorting : IsSorting sort_routes
sort_routes-IsSorting = record {
  same = (λ less route routes order. Memᴰ-sort_routes less route routes);
  sorted = (λ less routes order. Ordered-sort_routes less routes order);
}

abbrev pub route_at : Text → Bool → RouteConfig
route_at prefix anonymous = record {
  name = prefix;
  ecosystem = codes "npm";
  path_prefix = prefix;
  upstream_url = codes "https://registry.npmjs.org";
  file_upstream_url = [];
  upstream_token_env = [];
  enforce_redirect_origins = false;
  allowed_redirect_origins = [];
  allow_anonymous = anonymous;
}

abbrev pub routes : List RouteConfig
routes = route_at (codes "/npm/") false ∷ route_at (codes "/npm/public/") true ∷ []

abbrev bearer_only : AuthConfig
bearer_only = record {
  bearer_token_env = codes "TOKEN";
  basic_username_env = [];
  basic_password_env = [];
}

abbrev environment : Environment
environment name = if text_eq name (codes "TOKEN") then some (codes "s3") else none

abbrev pub server : Server
server = new_server sort_routes environment bearer_only routes

abbrev pub with_token : Request
with_token = record {
  path = codes "/npm/public/x";
  authorization = codes "Bearer s3";
  basic_auth = none;
}

longest :
    match_route server.routes (codes "/npm/public/x") ≡ some (route_at (codes "/npm/public/") true)
unfolding match_route new_server has_longer_prefix sort_routes insert_route has_prefix
longest = refl

match_route-longest_example :
    Memᴰ (route_at (codes "/npm/public/") true) routes
    × (has_prefix (codes "/npm/public/x") (codes "/npm/public/") ≡ true)
    × ((other : RouteConfig)
        → Memᴰ other routes
        → has_prefix (codes "/npm/public/x") other.path_prefix ≡ true
        → length other.path_prefix ≤ 12)
match_route-longest_example =
    match_route-longest sort_routes sort_routes-IsSorting environment bearer_only routes
      (codes "/npm/public/x") (route_at (codes "/npm/public/") true) longest

accepted : authorized server with_token ≡ true
unfolding authorized new_server has_longer_prefix secret_from_env sort_routes text_eq cut_prefix
accepted = refl

authorized-Permitted_example : Permitted environment bearer_only with_token
authorized-Permitted_example =
    authorized-Permitted sort_routes environment bearer_only routes with_token accepted

abbrev describe : Route → Text → RequestInfo
describe route path = metadata_at path

abbrev allow_all : RouteConfig → RequestInfo → Decision
allow_all route info = plain allow (codes "ok") unspecified

abbrev pub served_ok : RouteConfig → RequestInfo → Served
served_ok route info = record { status_code = 200; error = none }

sent :
    forwarded (handle server describe allow_all served_ok with_token)
    ≡ some (
      route_at (codes "/npm/public/") true,
      describe (to_registry_route (route_at (codes "/npm/public/") true)) with_token.path,
    )
unfolding handle handle_matched handle_route route_of match_route new_server has_longer_prefix
    sort_routes insert_route has_prefix is_block
sent = refl

handle-Admitted_example :
    Admitted server describe allow_all served_ok with_token
      (route_at (codes "/npm/public/") true)
      (describe (to_registry_route (route_at (codes "/npm/public/") true)) with_token.path)
handle-Admitted_example =
    handle-Admitted server describe allow_all served_ok with_token
      (route_at (codes "/npm/public/") true)
      (describe (to_registry_route (route_at (codes "/npm/public/") true)) with_token.path) sent

handle-counted_example : counted (handle server describe allow_all served_ok with_token) ≡ 1
handle-counted_example = handle-counted server describe allow_all served_ok with_token

abbrev three_calls : List ℕ
three_calls = 100 ∷ 100 ∷ 200 ∷ []

calls-limit_example :
    (calls three_calls (new_token_bucket 10 2 100)).0 * one_token ≤ 2 * one_token + (200 - 100) * 10
calls-limit_example =
    calls-limit 10 2 100 200 three_calls (omega arith, (omega arith, (omega arith, refl)))
