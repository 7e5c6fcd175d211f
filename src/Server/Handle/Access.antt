-- ===== src/Server/Handle/Access.antt =====
-- Who may use a route, and what every request leaves behind.
use mathlib.Core.Path.{subst}
use package_firewall.Common.{
  ℕ, ◌+◌, ◌≡◌, refl, sym, ap, ◌∙◌, inl, inr, true, false, ◌||◌, Option, some, none, List, [], ◌∷◌,
  ◌++◌, arith, Bool-cases, Option-cases,
}
use package_firewall.Common.Text.{Text}
use package_firewall.Policy.Types.{Decision, is_block}
use package_firewall.Registry.Types.{Route, RequestInfo}
use package_firewall.Server.Handle.{
  RouteConfig, AuthConfig, Server, Request, authorized, to_registry_route, Served, Effect, count,
  forward, challenges, after_serve, handle_route, unauthorized, handle_matched, handle, route_of,
}

-- The first request that the effects forward upstream.
abbrev pub forwarded : List Effect → Option (RouteConfig × RequestInfo)
forwarded [] = none
forwarded (forward route info ∷ _) = some (route, info)
forwarded (_ ∷ effects) = forwarded effects

-- How many requests the effects count.
abbrev pub counted : List Effect → ℕ
counted [] = 0
counted (count _ _ ∷ effects) = 1 + counted effects
counted (_ ∷ effects) = counted effects

challenges-forwarded :
    (auth : AuthConfig) (rest : List Effect) → forwarded (challenges auth ++ rest) ≡ forwarded rest
unfolding challenges
challenges-forwarded auth rest = ground arith

challenges-counted :
    (auth : AuthConfig) (rest : List Effect) → counted (challenges auth ++ rest) ≡ counted rest
unfolding challenges
challenges-counted auth rest = ground arith

after_serve-counted :
    (route : RouteConfig) (d : Decision) (served : Served)
    → counted (after_serve route d served) ≡ 1
unfolding after_serve
after_serve-counted route d served = ground arith

module _ (s : Server) (identify : Route → Text → RequestInfo)
    (decide : RouteConfig → RequestInfo → Decision)
    (serve : RouteConfig → RequestInfo → Served) where
  -- A request that is sent upstream: its route was found by its path, allows anonymous use or the
  -- request is authorized, the description is that of `Identify`, and the decision does not block.
  pub record Admitted (r : Request) (route : RouteConfig) (info : RequestInfo) : Type 0 where
    pub routed : route_of s.routes r.path ≡ some route
    pub permitted : (route.allow_anonymous || authorized s r) ≡ true
    pub identified : info ≡ identify (to_registry_route route) r.path
    pub not_blocked : is_block (decide route info).action ≡ false

  unauthorized-forwarded : forwarded (unauthorized s identify decide serve) ≡ none
  unauthorized-forwarded = challenges-forwarded s.auth _

  handle_route-forwarded :
      (route matched : RouteConfig) (path : Text) (info : RequestInfo)
      → forwarded (handle_route s identify decide serve matched path) ≡ some (route, info)
      → (matched ≡ route)
        × (info ≡ identify (to_registry_route matched) path)
        × (is_block (decide matched info).action ≡ false)
  unfolding handle_route
  handle_route-forwarded route matched path info h =
      let described = identify (to_registry_route matched) path in
      elim (Bool-cases (is_block (decide matched described).action)) [
        | inl blocked ↦ let e = rw blocked at h in cc
        | inr passed ↦
            let e : ◌≡◌ {A = Option (RouteConfig × RequestInfo)} (some (matched, described))
                (some (route, info)) =
              rw passed at h in
            let same : described ≡ info = cc in (cc, sym same, rw (sym same) passed)
      ]

  none-some :
      {a : RouteConfig × RequestInfo}
      → ◌≡◌ {A = Option (RouteConfig × RequestInfo)} none (some a)
      → ⊥
  none-some h = cc

  unmatched-silent :
      (r : Request) (route : RouteConfig) (info : RequestInfo)
      → forwarded (handle_matched s identify decide serve none r) ≡ some (route, info)
      → ⊥
  unfolding handle_matched
  unmatched-silent r route info h = elim (Bool-cases (authorized s r)) [
    | inl known ↦ let e = rw known at h in none-some e
    | inr anonymous ↦ let e = rw anonymous at h in none-some (sym unauthorized-forwarded ∙ e)
  ]

  admitted :
      (r : Request) (route matched : RouteConfig) (info : RequestInfo)
      → route_of s.routes r.path ≡ some matched
      → (matched.allow_anonymous || authorized s r) ≡ true
      → matched ≡ route
      → info ≡ identify (to_registry_route matched) r.path
      → is_block (decide matched info).action ≡ false
      → Admitted r route info
  admitted r route matched info found permitted same described passed = record {
    routed = found ∙ ap some same;
    permitted = subst (λ x. (x.allow_anonymous || authorized s r) ≡ true) same permitted;
    identified = described ∙ ap (λ x. identify (to_registry_route x) r.path) same;
    not_blocked = subst (λ x. is_block (decide x info).action ≡ false) same passed;
  }

  -- A request is forwarded only if it is admitted: its route was found by its path, the route allows
  -- anonymous use or the request is authorized, its description is that of `Identify`, and the
  -- decision does not block.
  pub handle-Admitted :
      (r : Request) (route : RouteConfig) (info : RequestInfo)
      → forwarded (handle s identify decide serve r) ≡ some (route, info)
      → Admitted r route info
  unfolding handle handle_matched
  handle-Admitted r route info h = elim (Option-cases (route_of s.routes r.path)) [
    | inl unmatched ↦ absurd (unmatched-silent r route info (rw unmatched at h))
    | inr (matched, found) ↦ elim (Bool-cases (matched.allow_anonymous || authorized s r)) [
      | inl permitted ↦
          let (same, described, passed) =
            handle_route-forwarded route matched r.path info (rw (found, permitted) at h) in
          admitted r route matched info found permitted same described passed
      | inr refused ↦
          let e = sym unauthorized-forwarded ∙ (rw (found, refused) at h) in absurd (none-some e)
    ]
  ]

  unauthorized-counted : counted (unauthorized s identify decide serve) ≡ 1
  unauthorized-counted = challenges-counted s.auth _

  handle_route-counted :
      (route : RouteConfig) (path : Text)
      → counted (handle_route s identify decide serve route path) ≡ 1
  unfolding handle_route
  handle_route-counted route path =
      let info = identify (to_registry_route route) path in
      elim (Bool-cases (is_block (decide route info).action)) [
        | inl blocked ↦ rw blocked refl
        | inr passed ↦ rw passed (after_serve-counted route (decide route info) (serve route info))
      ]

  handle_matched-counted :
      (o : Option RouteConfig) (r : Request)
      → counted (handle_matched s identify decide serve o r) ≡ 1
  unfolding handle_matched
  handle_matched-counted none r = elim (Bool-cases (authorized s r)) [
    | inl known ↦ rw known refl
    | inr anonymous ↦ rw anonymous unauthorized-counted
  ]
  handle_matched-counted (some route) r =
      elim (Bool-cases (route.allow_anonymous || authorized s r)) [
        | inl permitted ↦ rw permitted (handle_route-counted route r.path)
        | inr refused ↦ rw refused unauthorized-counted
      ]

  -- Whatever becomes of a request, the handler counts it once.
  pub handle-counted : (r : Request) → counted (handle s identify decide serve r) ≡ 1
  unfolding handle
  handle-counted r = handle_matched-counted (route_of s.routes r.path) r
