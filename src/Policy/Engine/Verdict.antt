-- ===== src/Policy/Engine/Verdict.antt =====
-- What a decision of the policy engine says about the configuration and the package.
use mathlib.Core.List.{Memᴰ}
use package_firewall.Common.{
  ℕ, ◌+◌, ◌≤◌, ◌<◌, ◌≡◌, refl, ◌≢◌, ◌⊎◌, inl, inr, true, false, some, List, [], ◌∷◌, ◌++◌, ltb,
  arith, lt→ltb, Bool-cases, Option-cases,
}
use package_firewall.Common.Text.{Text, is_empty, contains_any, codes}
use package_firewall.Policy.Types.{
  allow, warn, block, unknown, cooldown, unknown_package, plain, Package, Decision, BlockKind,
  unspecified, CooldownConfig, Config, is_allow,
}
use package_firewall.Policy.Glob.{Part, compile_glob}
use package_firewall.Policy.Glob.Meaning.{Matches, match_string_iff}
use package_firewall.Policy.Engine.{
  EngineRule, Engine, compiled, new, merge, load, empty_config, first_match, evaluate,
  exempts_malware, ruled, unmatched, is_cooling,
}
use package_firewall.Policy.Engine.Rules.{
  Origin, denied, allowed, warned, new-Origin, first_match_sound, first_match-compiled,
  Matches-literal, Memᴰ-merge,
}

is_empty-false : (t : Text) → t ≢ [] → is_empty t ≡ false
is_empty-false [] h = absurd (h refl)
is_empty-false (c ∷ t) h = refl

is_empty-true : (t : Text) → is_empty t ≡ true → t ≡ []
is_empty-true [] h = refl
is_empty-true (c ∷ t) h = cc

-- A package whose URL matches a deny pattern is blocked by a deny rule, whatever the other lists
-- and the cooldown say.
pub evaluate-deny :
    (now : ℕ) (cfg : Config) (pkg : Package) (pattern : Text) (re : List Part)
    → pkg.purl ≢ []
    → Memᴰ pattern cfg.deny
    → compile_glob pattern ≡ some re
    → Matches pattern pkg.purl
    → ((evaluate now (new cfg).0 pkg).action ≡ block)
      × Memᴰ (evaluate now (new cfg).0 pkg).matched_rule cfg.deny
unfolding evaluate new ruled
evaluate-deny now cfg pkg pattern re purl i c m =
    let (rule, found, is_block, at) =
      first_match-compiled block cfg.deny (compiled allow cfg.allow ++ compiled warn cfg.warn)
        pkg.purl pattern re i c ((match_string_iff pattern pkg.purl re c).1 m) in
    rw (is_empty-false pkg.purl purl, found) (is_block, at)

-- The same for the files of a configuration: a deny pattern of any of them counts.
pub evaluate-load-deny :
    (now : ℕ) (cfgs : List Config) (cfg : Config) (pkg : Package) (pattern : Text) (re : List Part)
    → pkg.purl ≢ []
    → Memᴰ cfg cfgs
    → Memᴰ pattern cfg.deny
    → compile_glob pattern ≡ some re
    → Matches pattern pkg.purl
    → (evaluate now (load cfgs).0 pkg).action ≡ block
unfolding load
evaluate-load-deny now cfgs cfg pkg pattern re purl i j c m =
    (evaluate-deny now (merge empty_config cfgs) pkg pattern re purl
      (Memᴰ-merge empty_config cfgs cfg pattern i j) c m).0

-- The three ways in which `Evaluate` returns.
data Outcome (now : ℕ) (e : Engine) (pkg : Package) : Type 0 where
  unidentified :
      evaluate now e pkg
        ≡ plain unknown (codes "package version could not be identified") unknown_package
      → Outcome now e pkg
  by_rule :
      (rule : EngineRule)
      → first_match e.rules pkg.purl ≡ some rule
      → evaluate now e pkg ≡ ruled rule
      → Outcome now e pkg
  by_age : evaluate now e pkg ≡ unmatched now e pkg → Outcome now e pkg

outcome : (now : ℕ) (e : Engine) (pkg : Package) → Outcome now e pkg
unfolding evaluate
outcome now e pkg = elim (Bool-cases (is_empty pkg.purl)) [
  | inl blank ↦ unidentified (rw blank)
  | inr given ↦ elim (Option-cases (first_match e.rules pkg.purl)) [
    | inl missed ↦ by_age (rw (given, missed))
    | inr (rule, found) ↦ by_rule rule found (rw (given, found))
  ]
]

-- The rule that a decision names stands in the list of the decision's action.
abbrev pub IsListed : Config → Decision → Type 0
IsListed cfg d =
    ((d.action ≡ block) × Memᴰ d.matched_rule cfg.deny)
    ⊎ ((d.action ≡ allow) × Memᴰ d.matched_rule cfg.allow)
    ⊎ ((d.action ≡ warn) × Memᴰ d.matched_rule cfg.warn)

Origin-IsListed : (cfg : Config) (rule : EngineRule) → Origin cfg rule → IsListed cfg (ruled rule)
unfolding ruled
Origin-IsListed cfg rule (denied e m) = inl (e, m)
Origin-IsListed cfg rule (allowed e m) = inr (inl (e, m))
Origin-IsListed cfg rule (warned e m) = inr (inr (e, m))

ruled-Matches :
    (cfg : Config) (purl : Text) (rule : EngineRule)
    → first_match (new cfg).0.rules purl ≡ some rule
    → Matches (ruled rule).matched_rule purl × IsListed cfg (ruled rule)
unfolding ruled
ruled-Matches cfg purl rule found =
    let ((compiled, origin), hit) = first_match_sound _ _ purl rule (new-Origin cfg) found in
    ((match_string_iff rule.pattern purl rule.re compiled).0 hit, Origin-IsListed cfg rule origin)

matched_rule-unmatched :
    (now : ℕ) (e : Engine) (pkg : Package) → (unmatched now e pkg).matched_rule ≡ []
unfolding unmatched
matched_rule-unmatched now e pkg = ground arith

-- A decision names a rule only if the rule's pattern matches the package's URL and stands in the
-- configuration's list for the decision's action.
pub evaluate-IsListed :
    (now : ℕ) (cfg : Config) (pkg : Package)
    → (evaluate now (new cfg).0 pkg).matched_rule ≢ []
    → Matches (evaluate now (new cfg).0 pkg).matched_rule pkg.purl
      × IsListed cfg (evaluate now (new cfg).0 pkg)
evaluate-IsListed now cfg pkg h = elim (outcome now (new cfg).0 pkg) [
  | unidentified e ↦ absurd (h (rw e))
  | by_rule rule found e ↦ rw e (ruled-Matches cfg pkg.purl rule found)
  | by_age e ↦ absurd (h (rw e (matched_rule-unmatched now (new cfg).0 pkg)))
]

exempts_malware→parts :
    (d : Decision)
    → exempts_malware d ≡ true
    → (d.action ≡ allow)
      × (d.matched_rule ≢ [])
      × (contains_any d.matched_rule (codes "*?") ≡ false)
unfolding exempts_malware
exempts_malware→parts d h = (ground arith, ground arith, ground arith)

IsListed-allow :
    (cfg : Config) (d : Decision)
    → d.action ≡ allow
    → IsListed cfg d
    → Memᴰ d.matched_rule cfg.allow
IsListed-allow cfg d e (inl (f, m)) = cc
IsListed-allow cfg d e (inr (inl (f, m))) = m
IsListed-allow cfg d e (inr (inr (f, m))) = cc

-- A decision that exempts malware comes from an allow pattern that is the package's URL itself.
pub exempts_malware-evaluate :
    (now : ℕ) (cfg : Config) (pkg : Package)
    → exempts_malware (evaluate now (new cfg).0 pkg) ≡ true
    → ((evaluate now (new cfg).0 pkg).matched_rule ≡ pkg.purl) × Memᴰ pkg.purl cfg.allow
exempts_malware-evaluate now cfg pkg h =
    let (is_allow, ruled, literal) = exempts_malware→parts (evaluate now (new cfg).0 pkg) h in
    let (m, listed) = evaluate-IsListed now cfg pkg ruled in
    let same = Matches-literal _ pkg.purl literal m in
    (same, rw same at (IsListed-allow cfg (evaluate now (new cfg).0 pkg) is_allow listed))

le→ltb : (a b : ℕ) → b ≤ a → ltb a b ≡ false
le→ltb a b h = ground arith

allow-not-cooldown : ◌≡◌ {A = BlockKind} unspecified cooldown → ⊥
allow-not-cooldown h = cc

is_cooling-lt :
    (now : ℕ) (c : CooldownConfig) (p : ℕ) → is_cooling now c p ≡ true → now < p + c.min_age
unfolding is_cooling
is_cooling-lt now c p h = ground arith

is_cooling-later :
    (now later : ℕ) (c : CooldownConfig) (p : ℕ)
    → is_cooling now c p ≡ true
    → is_cooling later c p ≡ ltb later (p + c.min_age)
unfolding is_cooling
is_cooling-later now later c p h = ground arith

-- What `evaluate-cooldown` says, of the decision without a rule.
abbrev EndsAt : (ℕ → Decision) → ℕ → ℕ → Type 0
EndsAt decide now later =
    ((decide now).action ≡ block)
    × (now < (decide now).allowed_after)
    × (later < (decide now).allowed_after → decide later ≡ decide now)
    × ((decide now).allowed_after ≤ later
        → ((decide later).action ≡ allow) × ((decide later).matched_rule ≡ []))

unmatched-EndsAt :
    (now later : ℕ) (e : Engine) (pkg : Package)
    → (unmatched now e pkg).kind ≡ cooldown
    → EndsAt (λ t. unmatched t e pkg) now later
unfolding unmatched
unmatched-EndsAt now later e pkg h =
    elim (Bool-cases (is_cooling now e.cooldown pkg.published_at)) [
      | inl cooling ↦
          rw (cooling, is_cooling-later now later e.cooldown pkg.published_at cooling)
            (
              refl,
              is_cooling-lt now e.cooldown pkg.published_at cooling,
              λ l. rw (lt→ltb _ _ l),
              λ g. rw (le→ltb _ _ g) (refl, refl),
            )
      | inr over ↦ absurd (allow-not-cooldown (rw (over, unmatched) at h))
    ]

-- A release cooldown names the moment at which it ends: until then the decision stays the same, and
-- from then on the package is allowed with no rule.
pub evaluate-cooldown :
    (now later : ℕ) (e : Engine) (pkg : Package)
    → (evaluate now e pkg).kind ≡ cooldown
    → ((evaluate now e pkg).action ≡ block)
      × (now < (evaluate now e pkg).allowed_after)
      × (later < (evaluate now e pkg).allowed_after → evaluate later e pkg ≡ evaluate now e pkg)
      × ((evaluate now e pkg).allowed_after ≤ later
          → ((evaluate later e pkg).action ≡ allow) × ((evaluate later e pkg).matched_rule ≡ []))
unfolding evaluate ruled
evaluate-cooldown now later e pkg h = elim (Bool-cases (is_empty pkg.purl)) [
  | inl blank ↦ ground arith
  | inr given ↦ rw given (elim (Option-cases (first_match e.rules pkg.purl)) [
    | inl missed ↦ rw missed (unmatched-EndsAt now later e pkg (ground arith))
    | inr (rule, found) ↦ ground arith
  ])
]

unmatched-ne-unknown :
    (now : ℕ) (e : Engine) (pkg : Package) → (unmatched now e pkg).action ≢ unknown
unfolding unmatched
unmatched-ne-unknown now e pkg = elim (Bool-cases (is_cooling now e.cooldown pkg.published_at)) [
  | inl cooling ↦ rw cooling (λ h. cc)
  | inr over ↦ rw over (λ h. cc)
]

IsListed-ne-unknown : (cfg : Config) (d : Decision) → IsListed cfg d → d.action ≢ unknown
IsListed-ne-unknown cfg d (inl (e, _)) h = cc
IsListed-ne-unknown cfg d (inr (inl (e, _))) h = cc
IsListed-ne-unknown cfg d (inr (inr (e, _))) h = cc

-- The action is unknown only for a package without a URL.
pub evaluate-unknown :
    (now : ℕ) (cfg : Config) (pkg : Package)
    → (evaluate now (new cfg).0 pkg).action ≡ unknown
    → pkg.purl ≡ []
unfolding evaluate
evaluate-unknown now cfg pkg h = elim (Bool-cases (is_empty pkg.purl)) [
  | inl blank ↦ is_empty-true pkg.purl blank
  | inr given ↦ elim (Option-cases (first_match (new cfg).0.rules pkg.purl)) [
    | inl missed ↦ absurd (unmatched-ne-unknown now (new cfg).0 pkg (rw (given, missed) at h))
    | inr (rule, found) ↦ absurd (
        IsListed-ne-unknown cfg (ruled rule) (ruled-Matches cfg pkg.purl rule found).1
          (rw (given, found) at h))
  ]
]
