-- ===== src/Server/Decide/Policy.antt =====
-- How `decide` applies the policy: deny rules, unidentified packages, the release cooldown.
use mathlib.Core.List.{Memᴰ}
use package_firewall.Common.{
  ℕ, ◌+◌, ◌<◌, ◌≡◌, refl, ◌∙◌, ◌≢◌, true, false, ◌==◌, List, [], none, some, arith, lt→ltb,
}
use package_firewall.Common.Text.{Text, is_empty}
use package_firewall.Policy.Types.{
  Action, warn, block, unknown, cooldown, Decision, Config, is_allow,
}
use package_firewall.Policy.Glob.{Part, compile_glob}
use package_firewall.Policy.Glob.Meaning.{Matches}
use package_firewall.Policy.Engine.{
  Engine, new, evaluate, first_match, unmatched, is_cooling, cooldown_enabled,
}
use package_firewall.Policy.Engine.Verdict.{evaluate-deny}
use package_firewall.Registry.Types.{RequestInfo}
use package_firewall.Server.Decide.{
  Answer, found, failed, DecisionConfig, Lookups, lookup_failed, unknown_decision, by_action,
  needs_publish_time, with_publish_time, decide_request,
}

==-false : (n : ℕ) → n ≢ 0 → (n == 0) ≡ false
==-false n h = ground arith

module _ (one_decimal : ℕ → Text) (cfg : DecisionConfig) (lookups : Lookups)
    (info : RequestInfo) where
  not-needed :
      (e : Engine) (d : Decision)
      → is_allow d.action ≡ false
      → needs_publish_time one_decimal cfg lookups info e d ≡ false
  unfolding needs_publish_time
  not-needed e d h = rw h

  decide_request-first :
      (now later : ℕ) (e : Engine)
      → info.needs_decision ≡ true
      → is_allow (evaluate now e info.pkg).action ≡ false
      → decide_request one_decimal cfg lookups info now later e
        ≡ by_action one_decimal cfg lookups info
            (evaluate now e info.pkg).action
            (evaluate now e info.pkg)
  unfolding decide_request
  decide_request-first now later e needs h = rw (needs, not-needed e (evaluate now e info.pkg) h)

  by_action-block :
      (a : Action) (d : Decision) → a ≡ block → by_action one_decimal cfg lookups info a d ≡ d
  unfolding by_action
  by_action-block a d h = rw h

  by_action-unknown :
      (a : Action) (d : Decision)
      → a ≡ unknown
      → by_action one_decimal cfg lookups info a d ≡ unknown_decision cfg
  unfolding by_action
  by_action-unknown a d h = rw h

  not-allow : (a : Action) → a ≡ block → is_allow a ≡ false
  unfolding is_allow
  not-allow a h = rw h

  not-allow_unknown : (a : Action) → a ≡ unknown → is_allow a ≡ false
  unfolding is_allow
  not-allow_unknown a h = rw h

  -- A request whose package URL matches a deny pattern is blocked by a deny rule, whatever the other
  -- rules, the cooldown and the lookups say.
  pub decide_request-deny :
      (now later : ℕ) (pcfg : Config) (pattern : Text) (re : List Part)
      → info.needs_decision ≡ true
      → info.pkg.purl ≢ []
      → Memᴰ pattern pcfg.deny
      → compile_glob pattern ≡ some re
      → Matches pattern info.pkg.purl
      → ((decide_request one_decimal cfg lookups info now later (new pcfg).0).action ≡ block)
        × Memᴰ
            (decide_request one_decimal cfg lookups info now later (new pcfg).0).matched_rule
            pcfg.deny
  decide_request-deny now later pcfg pattern re needs purl i c m =
      let (is_block, at) = evaluate-deny now pcfg info.pkg pattern re purl i c m in
      rw
        (
          decide_request-first now later (new pcfg).0 needs (not-allow _ is_block),
          by_action-block _ (evaluate now (new pcfg).0 info.pkg) is_block,
        )
        (is_block, at)

  action-unidentified :
      (now : ℕ) (e : Engine) → info.pkg.purl ≡ [] → (evaluate now e info.pkg).action ≡ unknown
  unfolding evaluate
  action-unidentified now e h = rw h

  -- A request whose package has no URL is decided by the setting for unknown packages alone.
  decide_request-unidentified :
      (now later : ℕ) (e : Engine)
      → info.needs_decision ≡ true
      → info.pkg.purl ≡ []
      → decide_request one_decimal cfg lookups info now later e ≡ unknown_decision cfg
  decide_request-unidentified now later e needs h =
      let u = action-unidentified now e h in
      decide_request-first now later e needs (not-allow_unknown _ u)
      ∙ by_action-unknown _ (evaluate now e info.pkg) u

  -- No rule matches, the cooldown is enabled, and the publish time is not known yet.
  pub record AwaitsDate (e : Engine) : Type 0 where
    pub needs_decision : info.needs_decision ≡ true
    pub identified : is_empty info.pkg.purl ≡ false
    pub unmatched : first_match e.rules info.pkg.purl ≡ none
    pub enabled : e.cooldown.enabled ≡ true
    pub undated : info.pkg.published_at ≡ 0

  needs-date :
      (now : ℕ) (e : Engine)
      → AwaitsDate e
      → needs_publish_time one_decimal cfg lookups info e (evaluate now e info.pkg) ≡ true
  unfolding needs_publish_time evaluate is_cooling cooldown_enabled is_allow
  needs-date now e a = rw (a.identified, a.unmatched, a.undated, a.enabled)

  decide_request-dated :
      (now later : ℕ) (e : Engine) (p : Answer ℕ)
      → AwaitsDate e
      → lookups.published_at ≡ p
      → decide_request one_decimal cfg lookups info now later e
        ≡ with_publish_time one_decimal cfg lookups info later e p
  unfolding decide_request
  decide_request-dated now later e p a h = rw (a.needs_decision, needs-date now e a, h)

  -- If the publish time cannot be found and failed lookups are let through then the request is served
  -- with a warning, and the vulnerability lookup, whatever it would answer, is not consulted.
  pub decide_request-undated :
      (now later : ℕ) (e : Engine) (error : Text)
      → AwaitsDate e
      → lookups.published_at ≡ failed error
      → cfg.fail_open_intel_errors ≡ true
      → (decide_request one_decimal cfg lookups info now later e).action ≡ warn
  unfolding with_publish_time lookup_failed
  decide_request-undated now later e error a h o =
      rw (decide_request-dated now later e (failed error) a h, o)

  evaluate-fresh :
      (later published : ℕ) (e : Engine)
      → AwaitsDate e
      → published ≢ 0
      → later < published + e.cooldown.min_age
      → let d = evaluate later e (record info.pkg { published_at = published }) in
        (d.action ≡ block)
        × (d.kind ≡ cooldown)
        × (d.allowed_after ≡ published + e.cooldown.min_age)
  unfolding evaluate unmatched is_cooling
  evaluate-fresh later published e a p l =
      rw (a.identified, a.unmatched, a.enabled, ==-false published p, lt→ltb _ _ l)
        (refl, refl, refl)

  -- A release that no rule names is blocked until its minimum age has passed.
  pub decide_request-cooldown :
      (now later published : ℕ) (e : Engine)
      → AwaitsDate e
      → lookups.published_at ≡ found published
      → published ≢ 0
      → later < published + e.cooldown.min_age
      → let d = decide_request one_decimal cfg lookups info now later e in
        (d.action ≡ block)
        × (d.kind ≡ cooldown)
        × (d.allowed_after ≡ published + e.cooldown.min_age)
  unfolding with_publish_time
  decide_request-cooldown now later published e a h p l =
      let (b, k, t) = evaluate-fresh later published e a p l in
      rw
        (
          decide_request-dated now later e (found published) a h,
          by_action-block _ (evaluate later e (record info.pkg { published_at = published })) b,
        )
        (b, k, t)
