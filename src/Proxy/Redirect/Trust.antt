-- ===== src/Proxy/Redirect/Trust.antt =====
-- Where a chain of redirects can lead.
use mathlib.Core.List.{Memᴰ}
use package_firewall.Common.{
  suc, ◌≤◌, ◌≡◌, refl, sym, ap, ◌∙◌, ◌⊎◌, inl, inr, Bool, true, false, Option, none, some, List, [],
  ◌∷◌, ◌++◌, arith, leb, Bool-cases, Option-cases,
}
use package_firewall.Common.Text.{Text, text_eq, text_eq_iff}
use package_firewall.Common.Lists.{length, length-append, any, All, All-append}
use package_firewall.Proxy.Redirect.{
  Url, Urls, RedirectError, unsafe_redirect, Check, check_origins, check_redirect,
  upstream_redirect_policy, allowed_set, request_origin, redirect_limit, normalize_http_origin,
}

-- The client follows redirects: each hop is to a URL that the check lets through.
pub data Followed (check : Check) : List (Option Url) → Type 0 where
  start : (first : Option Url) → Followed check (first ∷ [])
  hop :
      {first : Option Url} {via : List (Option Url)} (next : Option Url)
      → Followed check (first ∷ via)
      → check next (first ∷ via) ≡ none
      → Followed check (first ∷ (via ++ (next ∷ [])))

-- A URL that the route trusts: one of the origin of the first request, any URL if the route does not
-- enforce, or one of an origin that the route lists.
abbrev pub IsListed : Urls → List Text → Option Url → Type 0
IsListed urls origins url =
    (value : Text) × Memᴰ value origins
    × (normalize_http_origin urls value ≡ request_origin urls url)

abbrev pub IsTrusted : Urls → Bool → List Text → Option Url → Option Url → Type 0
IsTrusted urls enforce origins first url =
    (request_origin urls url ≡ request_origin urls first)
    ⊎ ((enforce ≡ false) ⊎ IsListed urls origins url)

allowed_set-some :
    (urls : Urls) (value : Text) (vs allowed : List Text)
    → allowed_set urls (value ∷ vs) ≡ some allowed
    → (o : Text) × (rest : List Text) × (normalize_http_origin urls value ≡ some o)
      × (allowed_set urls vs ≡ some rest)
      × (allowed ≡ o ∷ rest)
unfolding allowed_set
allowed_set-some urls value vs allowed h = elim (Option-cases (normalize_http_origin urls value)) [
  | inl e ↦
      let k : ◌≡◌ {A = Option (List Text)} none (some allowed) = rw (e, allowed_set) at h in cc
  | inr (o, e) ↦ elim (Option-cases (allowed_set urls vs)) [
    | inl f ↦
        let k : ◌≡◌ {A = Option (List Text)} none (some allowed) = rw (e, f, allowed_set) at h in cc
    | inr (rest, f) ↦
        let k : ◌≡◌ {A = Option (List Text)} (some (o ∷ rest)) (some allowed) =
          rw (e, f, allowed_set) at h in
        let same : allowed ≡ o ∷ rest = cc in (o, rest, e, f, same)
  ]
]

allowed_set-listed :
    (urls : Urls) (o : Text) (vs allowed : List Text)
    → allowed_set urls vs ≡ some allowed
    → any (text_eq o) allowed ≡ true
    → (value : Text) × Memᴰ value vs × (normalize_http_origin urls value ≡ some o)
unfolding allowed_set
allowed_set-listed urls o [] [] h k = cc
allowed_set-listed urls o [] (p ∷ allowed) h k = cc
allowed_set-listed urls o (value ∷ vs) allowed h k =
    let (p, rest, e, f, same) = allowed_set-some urls value vs allowed h in
    let in_rest : any (text_eq o) (p ∷ rest) ≡ true = rw same at k in
    elim (Bool-cases (text_eq o p)) [
      | inl here ↦ (value, Memᴰ.head refl, rw ((text_eq_iff o p).0 here) e)
      | inr there ↦
          let (v, m, g) = allowed_set-listed urls o vs rest f (rw there at in_rest) in
          (v, Memᴰ.tail m, g)
    ]

check_origins-none :
    (enforce : Bool) (allowed : List Text) (a b : Option Text)
    → check_origins enforce allowed a b ≡ none
    → (b ≡ a) ⊎ ((enforce ≡ false) ⊎ ((o : Text) × (b ≡ some o) × (any (text_eq o) allowed ≡ true)))
unfolding check_origins
check_origins-none enforce allowed none b h = cc
check_origins-none enforce allowed (some a) none h = cc
check_origins-none enforce allowed (some a) (some b) h = elim (Bool-cases (text_eq b a)) [
  | inl same ↦ inl (ap some ((text_eq_iff b a).0 same))
  | inr other ↦ elim (Bool-cases enforce) [
    | inr off ↦ inr (inl off)
    | inl on ↦ elim (Bool-cases (any (text_eq b) allowed)) [
      | inl listed ↦ inr (inr (b, refl, listed))
      | inr unlisted ↦
          let k : ◌≡◌ {A = Option RedirectError} (some unsafe_redirect) none =
            rw (other, on, unlisted) at h in
          cc
    ]
  ]
]

check_redirect-IsTrusted :
    (urls : Urls) (enforce : Bool) (origins allowed : List Text) (first next : Option Url)
    (via : List (Option Url))
    → allowed_set urls origins ≡ some allowed
    → check_redirect urls enforce allowed next (first ∷ via) ≡ none
    → (suc (length via) ≤ 9) × IsTrusted urls enforce origins first next
unfolding check_redirect
check_redirect-IsTrusted urls enforce origins allowed first next via listed h =
    elim (Bool-cases (leb 10 (suc (length via)))) [
      | inl full ↦
          let k : ◌≡◌ {A = Option RedirectError} (some redirect_limit) none = rw full at h in cc
      | inr room ↦ (
        ground arith,
        elim (check_origins-none enforce allowed (request_origin urls first)
            (request_origin urls next) (rw room at h)) [
              | inl same ↦ inl same
              | inr (inl off) ↦ inr (inl off)
              | inr (inr (o, e, m)) ↦
                  let (value, in_list, origin) =
                    allowed_set-listed urls o origins allowed listed m in
                  inr (inr (value, in_list, origin ∙ sym e))
            ],
      )
    ]

module _ (urls : Urls) (enforce : Bool) (origins allowed : List Text)
    (listed : allowed_set urls origins ≡ some allowed) where
  Followed-check_redirect :
      (first : Option Url) (via : List (Option Url))
      → Followed (check_redirect urls enforce allowed) (first ∷ via)
      → (length (first ∷ via) ≤ 10) × All (IsTrusted urls enforce origins first) (first ∷ via)
  Followed-check_redirect _ _ (start first) = (omega arith, (inl refl, tt))
  Followed-check_redirect _ _ (hop {first} {via} next before ok) =
      let (short, trusted) =
        check_redirect-IsTrusted urls enforce origins allowed first next via listed ok in
      let (_, all) = Followed-check_redirect first via before in
      (
        omega (arith, short, length-append via (next ∷ [])),
        All-append (IsTrusted urls enforce origins first) (first ∷ via) (next ∷ []) all
            (trusted, tt),
      )

policy_allowed :
    (urls : Urls) (enforce : Bool) (origins : List Text) (check : Check)
    → upstream_redirect_policy urls enforce origins ≡ some check
    → (allowed : List Text) × (allowed_set urls origins ≡ some allowed)
      × (check ≡ check_redirect urls enforce allowed)
unfolding upstream_redirect_policy
policy_allowed urls enforce origins check h = elim (Option-cases (allowed_set urls origins)) [
  | inl e ↦
      let k : ◌≡◌ {A = Option Check} none (some check) = rw (e, upstream_redirect_policy) at h in cc
  | inr (allowed, e) ↦
      let k : ◌≡◌ {A = Option Check} (some (check_redirect urls enforce allowed)) (some check) =
        rw (e, upstream_redirect_policy) at h in
      let same : check ≡ check_redirect urls enforce allowed = cc in (allowed, e, same)
]

-- A chain of redirects that the policy lets through has 10 requests at most. Each of them goes to the
-- origin of the first, unless the route does not enforce its redirect origins or lists the origin.
pub Followed-IsTrusted :
    (urls : Urls) (enforce : Bool) (origins : List Text) (check : Check) (first : Option Url)
    (via : List (Option Url))
    → upstream_redirect_policy urls enforce origins ≡ some check
    → Followed check (first ∷ via)
    → (length (first ∷ via) ≤ 10) × All (IsTrusted urls enforce origins first) (first ∷ via)
Followed-IsTrusted urls enforce origins check first via h followed =
    let (allowed, listed, same) = policy_allowed urls enforce origins check h in
    Followed-check_redirect urls enforce origins allowed listed first via (rw same at followed)
