-- ===== src/Server/Handle/Routing.antt =====
-- Which route a path takes.
use mathlib.Core.List.{Memᴰ}
use package_firewall.Common.{
  ◌≤◌, ◌≡◌, sym, ◌∙◌, ◌↔◌, Bool, true, false, some, List, [], ◌∷◌, arith, Bool-cases, inl, inr,
}
use package_firewall.Common.Text.{Text, has_prefix}
use package_firewall.Common.Lists.{length, All}
use package_firewall.Server.Handle.{
  RouteConfig, AuthConfig, Environment, Sort, has_longer_prefix, new_server, match_route,
}

-- A list with the longest prefixes first.
abbrev LongestFirst : List RouteConfig → Type 0
LongestFirst [] = Unit
LongestFirst (route ∷ routes) =
    All (λ r. length r.path_prefix ≤ length route.path_prefix) routes × LongestFirst routes

-- What `sort.Slice` asks of a comparison: a strict weak order.
pub record IsWeakOrder (less : RouteConfig → RouteConfig → Bool) : Type 0 where
  pub asymmetric : (a b : RouteConfig) → less a b ≡ true → less b a ≡ false
  pub cotransitive : (a b c : RouteConfig) → less a b ≡ false → less b c ≡ false → less a c ≡ false

-- No route comes before one that it is less than.
abbrev pub Ordered : (RouteConfig → RouteConfig → Bool) → List RouteConfig → Type 0
Ordered less [] = Unit
Ordered less (route ∷ routes) = All (λ r. less r route ≡ false) routes × Ordered less routes

-- What `sort.Slice` is documented to do with any comparison of that kind.
pub record IsSorting (sort : Sort) : Type 0 where
  pub same :
      (less : RouteConfig → RouteConfig → Bool) (route : RouteConfig) (routes : List RouteConfig)
      → IsWeakOrder less
      → Memᴰ route (sort less routes) ↔ Memᴰ route routes
  pub sorted :
      (less : RouteConfig → RouteConfig → Bool) (routes : List RouteConfig)
      → IsWeakOrder less
      → Ordered less (sort less routes)

has_longer_prefix-IsWeakOrder : IsWeakOrder has_longer_prefix
unfolding has_longer_prefix
has_longer_prefix-IsWeakOrder = record {
  asymmetric = (λ a b h. ground arith);
  cotransitive = (λ a b c h k. ground arith);
}

All-shorter :
    (route : RouteConfig) (routes : List RouteConfig)
    → All (λ r. has_longer_prefix r route ≡ false) routes
    → All (λ r. length r.path_prefix ≤ length route.path_prefix) routes
unfolding has_longer_prefix
All-shorter route [] _ = tt
All-shorter route (r ∷ routes) (h, rest) =
    let le : length r.path_prefix ≤ length route.path_prefix = ground arith in
    (le, All-shorter route routes rest)

Ordered-LongestFirst :
    (routes : List RouteConfig) → Ordered has_longer_prefix routes → LongestFirst routes
Ordered-LongestFirst [] _ = tt
Ordered-LongestFirst (route ∷ routes) (first, rest) =
    (All-shorter route routes first, Ordered-LongestFirst routes rest)

All-Memᴰ {ℓ} :
    (P : RouteConfig → Type ℓ) (route : RouteConfig) (routes : List RouteConfig)
    → All P routes
    → Memᴰ route routes
    → P route
All-Memᴰ P route [] _ m = elim m [ ]
All-Memᴰ P route (r ∷ routes) (p, ps) (Memᴰ.head e) = rw e p
All-Memᴰ P route (r ∷ routes) (p, ps) (Memᴰ.tail m) = All-Memᴰ P route routes ps m

match_route_sound :
    (routes : List RouteConfig) (path : Text) (route : RouteConfig)
    → match_route routes path ≡ some route
    → Memᴰ route routes × (has_prefix path route.path_prefix ≡ true)
unfolding match_route
match_route_sound [] path route h = cc
match_route_sound (r ∷ routes) path route h = elim (Bool-cases (has_prefix path r.path_prefix)) [
  | inl yes_prefix ↦
      let e : some r ≡ some route = rw yes_prefix at h in
      let same : r ≡ route = cc in (Memᴰ.head (sym same), rw same at yes_prefix)
  | inr other ↦ let (m, p) = match_route_sound routes path route (rw other at h) in (Memᴰ.tail m, p)
]

later-Memᴰ :
    (path : Text) (other r : RouteConfig) (routes : List RouteConfig)
    → Memᴰ other (r ∷ routes)
    → has_prefix path r.path_prefix ≡ false
    → has_prefix path other.path_prefix ≡ true
    → Memᴰ other routes
later-Memᴰ path other r routes (Memᴰ.head e) n p =
    let same : has_prefix path r.path_prefix ≡ true = rw e at p in
    let clash : true ≡ false = sym same ∙ n in let never : ⊥ = cc in absurd never
later-Memᴰ path other r routes (Memᴰ.tail m) n p = m

first_match-longest :
    (routes : List RouteConfig) (path : Text) (route other : RouteConfig)
    → LongestFirst routes
    → match_route routes path ≡ some route
    → Memᴰ other routes
    → has_prefix path other.path_prefix ≡ true
    → length other.path_prefix ≤ length route.path_prefix
unfolding match_route
first_match-longest [] path route other _ h m p = cc
first_match-longest (r ∷ routes) path route other (first, rest) h m p =
    elim (Bool-cases (has_prefix path r.path_prefix)) [
      | inl matches ↦
          let e : some r ≡ some route = rw matches at h in
          let same : r ≡ route = cc in
          let le : length other.path_prefix ≤ length r.path_prefix =
            All-Memᴰ (λ x. length x.path_prefix ≤ length r.path_prefix) other (r ∷ routes)
              (omega arith, first) m in
          rw same at le
      | inr skipped ↦
          first_match-longest routes path route other rest (rw skipped at h)
            (later-Memᴰ path other r routes m skipped p) p
    ]

-- In the server that `New` makes with any sort that orders routes by a comparison and keeps them, the
-- route of a path is a configured one whose prefix the path has, and no configured route with that
-- property has a longer prefix.
pub match_route-longest :
    (sort : Sort) (sorting : IsSorting sort) (env : Environment) (auth : AuthConfig)
    (routes : List RouteConfig) (path : Text) (route : RouteConfig)
    → match_route (new_server sort env auth routes).routes path ≡ some route
    → Memᴰ route routes
      × (has_prefix path route.path_prefix ≡ true)
      × ((other : RouteConfig)
          → Memᴰ other routes
          → has_prefix path other.path_prefix ≡ true
          → length other.path_prefix ≤ length route.path_prefix)
unfolding new_server
match_route-longest sort sorting env auth routes path route h =
    let order = has_longer_prefix-IsWeakOrder in
    let sorted = sort has_longer_prefix routes in
    let (m, p) = match_route_sound sorted path route h in
    (
      (sorting.same has_longer_prefix route routes order).0 m,
      p,
      λ other n q.
          first_match-longest sorted path route other
            (Ordered-LongestFirst sorted (sorting.sorted has_longer_prefix routes order)) h
            ((sorting.same has_longer_prefix other routes order).1 n) q,
    )
