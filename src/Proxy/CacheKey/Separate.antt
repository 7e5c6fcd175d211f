-- ===== src/Proxy/CacheKey/Separate.antt =====
-- Requests with one key.
use package_firewall.Common.{
  ◌⊎◌, ◌≡◌, ◌≢◌, refl, sym, ap, map, ◌∙◌, inl, inr, Bool, true, false, not, List, [], ◌∷◌, ◌++◌,
  arith, ◌==◌, if◌then◌else◌, Bool-cases, Option-cases,
}
use package_firewall.Common.Text.{Text, codes, text_eq, text_eq_iff, is_empty, join}
use package_firewall.Common.Lists.{append-cancel, drop, any, take, All}
use package_firewall.Server.Handle.{RouteConfig}
use package_firewall.Registry.Types.{RequestInfo}
use package_firewall.Proxy.Redirect.{Urls, normalize_http_origin}
use package_firewall.Proxy.CacheKey.{
  preimage, ClientRequest, preimage, key, cache_key, bypass_reason, components,
  redirect_policy_fingerprint, origin_or_value,
}

-- A text without a zero byte.
abbrev pub NoZero : Text → Type 0
NoZero s = any (λ c. c == 0) s ≡ false

preimage-cases :
    (parts : List Text) → (preimage parts ≡ []) ⊎ ((s : Text) × (preimage parts ≡ 0 ∷ s))
unfolding preimage
preimage-cases [] = inl refl
preimage-cases (part ∷ parts) = inr (part ++ preimage parts, refl)

-- A part ends where the next zero byte stands.
part_cancel :
    (a b : Text) (parts others : List Text)
    → NoZero a
    → NoZero b
    → a ++ preimage parts ≡ b ++ preimage others
    → (a ≡ b) × (preimage parts ≡ preimage others)
part_cancel [] [] parts others _ _ h = (refl, h)
part_cancel (c ∷ a) (d ∷ b) parts others p q h =
    let front : c ≡ d = cc in
    let rest : a ++ preimage parts ≡ b ++ preimage others = cc in
    let left : NoZero a = ground arith in
    let right : NoZero b = ground arith in
    let (same, after) = part_cancel a b parts others left right rest in
    (rw (front, same) refl, after)
part_cancel [] (d ∷ b) parts others p q h = elim (preimage-cases parts) [
  | inl e ↦ let k : ◌≡◌ {A = Text} [] (d ∷ (b ++ preimage others)) = sym e ∙ h in cc
  | inr (s, e) ↦
      let k : ◌≡◌ {A = Text} (0 ∷ s) (d ∷ (b ++ preimage others)) = sym e ∙ h in
      let zero_byte : 0 ≡ d = cc in ground arith
]
part_cancel (c ∷ a) [] parts others p q h = elim (preimage-cases others) [
  | inl e ↦ let k : ◌≡◌ {A = Text} (c ∷ (a ++ preimage parts)) [] = h ∙ e in cc
  | inr (s, e) ↦
      let k : ◌≡◌ {A = Text} (c ∷ (a ++ preimage parts)) (0 ∷ s) = h ∙ e in
      let zero_byte : c ≡ 0 = cc in ground arith
]

pub preimage_injective :
    (parts others : List Text)
    → All NoZero parts
    → All NoZero others
    → preimage parts ≡ preimage others
    → parts ≡ others
unfolding preimage
preimage_injective [] [] _ _ h = refl
preimage_injective [] (b ∷ others) _ _ h = cc
preimage_injective (a ∷ parts) [] _ _ h = cc
preimage_injective (a ∷ parts) (b ∷ others) (p, ps) (q, qs) h =
    let rest : a ++ preimage parts ≡ b ++ preimage others = cc in
    let (same, after) = part_cancel a b parts others p q rest in
    rw (same, preimage_injective parts others ps qs after) refl

-- Two different texts with one hash.
abbrev pub Collides : (Text → Text) → Text → Text → Type 0
Collides hash x y = (x ≢ y) × (hash x ≡ hash y)

-- What `Key` hashes.
abbrev pub hashed : List Text → Text
hashed parts = codes "package-firewall-artifact-cache-v1" ++ preimage parts

key_injective :
    (hash : Text → Text) (parts others : List Text)
    → All NoZero parts
    → All NoZero others
    → key hash parts ≡ key hash others
    → (parts ≡ others) ⊎ Collides hash (hashed parts) (hashed others)
unfolding key
key_injective hash parts others p q h =
    elim (Bool-cases (text_eq (preimage parts) (preimage others))) [
      | inl same ↦ inl (preimage_injective parts others p q ((text_eq_iff _ _).0 same))
      | inr apart ↦ inr (
        (λ e.
            let same : text_eq (preimage parts) (preimage others) ≡ true =
              (text_eq_iff _ _).1 (append-cancel (codes "package-firewall-artifact-cache-v1") e) in
            cc),
        h,
      )
    ]

module _ (urls : Urls) (sha256_hex : Text → Text) (sort : List Text → List Text) where
  -- The origins that redirects may go to, normalised, in order, on lines of their own.
  abbrev pub policy_text : RouteConfig → Text
  policy_text route =
      join
        (sort (
          map (λ value. origin_or_value value (normalize_http_origin urls value))
            route.allowed_redirect_origins))
        (codes "\n")

  -- Neither route restricts redirects, or both do, to the same origins.
  abbrev pub SamePolicy : RouteConfig → RouteConfig → Type 0
  SamePolicy route other =
      ((route.enforce_redirect_origins ≡ false) × (other.enforce_redirect_origins ≡ false))
      ⊎ ((route.enforce_redirect_origins ≡ true)
          × (other.enforce_redirect_origins ≡ true)
          × (policy_text route ≡ policy_text other))

  abbrev pub Alike : RouteConfig → Text → RouteConfig → Text → Type 0
  Alike route target other elsewhere =
      (route.name ≡ other.name)
      × (route.ecosystem ≡ other.ecosystem)
      × (target ≡ elsewhere)
      × SamePolicy route other

  -- The first 16 characters of the hash, which a route's component for its policy has.
  abbrev pub short_hash : Text → Text
  short_hash text = take 16 (sha256_hex text)

  fingerprint-unrestricted :
      (route : RouteConfig)
      → route.enforce_redirect_origins ≡ false
      → redirect_policy_fingerprint urls sha256_hex sort route ≡ []
  unfolding redirect_policy_fingerprint
  fingerprint-unrestricted route off = rw off refl

  fingerprint-restricted :
      (route : RouteConfig)
      → route.enforce_redirect_origins ≡ true
      → redirect_policy_fingerprint urls sha256_hex sort route
        ≡ codes "redirect-policy-" ++ short_hash (policy_text route)
  unfolding redirect_policy_fingerprint
  fingerprint-restricted route on = rw on refl

  fingerprint-SamePolicy :
      (route other : RouteConfig)
      → redirect_policy_fingerprint urls sha256_hex sort route
        ≡ redirect_policy_fingerprint urls sha256_hex sort other
      → SamePolicy route other ⊎ Collides short_hash (policy_text route) (policy_text other)
  fingerprint-SamePolicy route other h = elim (Bool-cases route.enforce_redirect_origins) [
    | inr off ↦ elim (Bool-cases other.enforce_redirect_origins) [
      | inr also_off ↦ inl (inl (off, also_off))
      | inl on ↦
          let k : ◌≡◌ {A = Text} [] (codes "redirect-policy-" ++ short_hash (policy_text other)) =
            sym (fingerprint-unrestricted route off) ∙ h ∙ fingerprint-restricted other on in
          cc
    ]
    | inl on ↦ elim (Bool-cases other.enforce_redirect_origins) [
      | inr off ↦
          let k : ◌≡◌ {A = Text} (codes "redirect-policy-" ++ short_hash (policy_text route)) [] =
            sym (fingerprint-restricted route on) ∙ h ∙ fingerprint-unrestricted other off in
          cc
      | inl also_on ↦
          let k =
            sym (fingerprint-restricted route on) ∙ h ∙ fingerprint-restricted other also_on in
          elim (Bool-cases (text_eq (policy_text route) (policy_text other))) [
            | inl same ↦ inl (inr (on, also_on, (text_eq_iff _ _).0 same))
            | inr apart ↦ inr (
              (λ e. let same = (text_eq_iff (policy_text route) (policy_text other)).1 e in cc),
              append-cancel (codes "redirect-policy-") k,
            )
          ]
    ]
  ]

  -- The optional components at the end.
  last_components :
      (npm : Bool) (a b : Text)
      → ◌≡◌ {A = List Text}
          ((if npm then codes "npm-freshness-v2" ∷ [] else [])
            ++ (if not (is_empty a) then a ∷ [] else []))
          ((if npm then codes "npm-freshness-v2" ∷ [] else [])
            ++ (if not (is_empty b) then b ∷ [] else []))
      → a ≡ b
  last_components true [] [] h = refl
  last_components true [] (d ∷ b) h = cc
  last_components true (c ∷ a) [] h = cc
  last_components true (c ∷ a) (d ∷ b) h = cc
  last_components false [] [] h = refl
  last_components false [] (d ∷ b) h = cc
  last_components false (c ∷ a) [] h = cc
  last_components false (c ∷ a) (d ∷ b) h = cc

  components-same :
      (route other : RouteConfig) (target elsewhere : Text)
      → components urls sha256_hex sort route target
        ≡ components urls sha256_hex sort other elsewhere
      → (route.name ≡ other.name)
        × (route.ecosystem ≡ other.ecosystem)
        × (target ≡ elsewhere)
        × (redirect_policy_fingerprint urls sha256_hex sort route
            ≡ redirect_policy_fingerprint urls sha256_hex sort other)
  unfolding components
  components-same route other target elsewhere h =
      let name : route.name ≡ other.name = cc in
      let ecosystem : route.ecosystem ≡ other.ecosystem = cc in
      let same : target ≡ elsewhere = cc in
      let last = ap (λ (x : List Text). drop 6 x) h in
      (
        name,
        ecosystem,
        same,
        last_components (text_eq other.ecosystem (codes "npm")) _ _ (rw ecosystem at last),
      )

keyed :
    (urls : Urls) (sha256_hex : Text → Text) (sort : List Text → List Text) (has_store : Bool)
    (r : ClientRequest) (route : RouteConfig) (info : RequestInfo) (target k : Text)
    → cache_key urls sha256_hex sort has_store r route info target ≡ inr k
    → key sha256_hex (components urls sha256_hex sort route target) ≡ k
unfolding cache_key
keyed urls sha256_hex sort has_store r route info target k h =
    elim (Option-cases (bypass_reason has_store r info)) [
      | inl e ↦
          let same : ◌≡◌ {A = Text ⊎ Text}
              (inr (key sha256_hex (components urls sha256_hex sort route target))) (inr k) =
            rw (e, cache_key) at h in
          cc
      | inr (reason, e) ↦
          let never : ◌≡◌ {A = Text ⊎ Text} (inl reason) (inr k) = rw (e, cache_key) at h in cc
    ]

-- If no component of the keys of two requests has a zero byte, the requests have one key only if
-- their routes have the same name and ecosystem, the targets are the same, and neither route
-- restricts redirects or both do, to the same origins. Otherwise the texts that the keys are hashes of
-- collide, or the texts of the two policies do in the 16 characters that are kept of their hash.
pub cache_key-separates :
    (urls : Urls) (sha256_hex : Text → Text) (sort : List Text → List Text) (has_store : Bool)
    (r s : ClientRequest) (route other : RouteConfig) (info found : RequestInfo)
    (target elsewhere k : Text)
    → All NoZero (components urls sha256_hex sort route target)
    → All NoZero (components urls sha256_hex sort other elsewhere)
    → cache_key urls sha256_hex sort has_store r route info target ≡ inr k
    → cache_key urls sha256_hex sort has_store s other found elsewhere ≡ inr k
    → Alike urls sha256_hex sort route target other elsewhere
      ⊎ (Collides sha256_hex
            (hashed (components urls sha256_hex sort route target))
            (hashed (components urls sha256_hex sort other elsewhere))
          ⊎ Collides
              (short_hash urls sha256_hex sort)
              (policy_text urls sha256_hex sort route)
              (policy_text urls sha256_hex sort other))
cache_key-separates urls sha256_hex sort has_store r s route other info found target elsewhere k p q
      h i =
    elim (key_injective sha256_hex (components urls sha256_hex sort route target)
      (components urls sha256_hex sort other elsewhere) p q
      (keyed urls sha256_hex sort has_store r route info target k h
        ∙ sym (keyed urls sha256_hex sort has_store s other found elsewhere k i))) [
          | inr collision ↦ inr (inl collision)
          | inl same ↦
              let (name, ecosystem, place, policy) =
                components-same urls sha256_hex sort route other target elsewhere same in
              elim (fingerprint-SamePolicy urls sha256_hex sort route other policy) [
                | inl alike ↦ inl (name, ecosystem, place, alike)
                | inr collision ↦ inr (inr collision)
              ]
        ]
