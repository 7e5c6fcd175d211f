-- ===== src/Server/Decide/Served.antt =====
-- When a request that needs a decision is let through.
use mathlib.Core.List.{Memᴰ}
use package_firewall.Common.{ℕ, ◌≡◌, refl, ◌⊎◌, inl, inr, true, false, [], arith, Bool-cases}
use package_firewall.Common.Text.{Text, codes, is_empty}
use package_firewall.Common.Lists.{any}
use package_firewall.Policy.Types.{
  Action, allow, warn, block, monitor, unknown, other, intel_error, Decision, Config, is_allow,
  is_block,
}
use package_firewall.Policy.Engine.{new, evaluate, exempts_malware}
use package_firewall.Policy.Engine.Verdict.{exempts_malware-evaluate, evaluate-unknown}
use package_firewall.Registry.Types.{RequestInfo}
use package_firewall.Intel.Decision.{Findings, malicious}
use package_firewall.Intel.Decision.Malware.{malware_decision-some, decide-malware}
use package_firewall.Server.Decide.Cases.{undecided, first, second, undated, decide_request-Cases}
use package_firewall.Server.Decide.{
  Answer, found, failed, DecisionConfig, Lookups, lookup_failed, malware_or, queried_rule,
  rule_decision, unknown_decision, intel_decision, after_policy, ruled_or_intel, by_action,
  decide_request,
}

-- The reasons for which a request is not blocked.
pub data Served (pcfg : Config) (cfg : DecisionConfig) (lookups : Lookups) (info : RequestInfo)
    (d : Decision) : Type 0 where
  -- The request needs no decision.
  metadata : info.needs_decision ≡ false → Served pcfg cfg lookups info d
  -- An allow rule names the package's URL itself.
  exempt :
      d.matched_rule ≡ info.pkg.purl
      → Memᴰ info.pkg.purl pcfg.allow
      → Served pcfg cfg lookups info d
  -- The vulnerability lookup answered, and nothing that it found is malicious.
  vetted :
      (result : Findings)
      → lookups.query ≡ found result
      → any malicious result ≡ false
      → Served pcfg cfg lookups info d
  -- The request is exempt from the vulnerability lookup.
  skipped : info.skip_vulnerability_check ≡ true → Served pcfg cfg lookups info d
  -- The package is not identified, and the configuration lets such requests through.
  unidentified :
      info.pkg.purl ≡ [] → cfg.fail_open_unknown_package ≡ true → Served pcfg cfg lookups info d
  -- A lookup failed, and the configuration lets such requests through.
  unanswered :
      d.kind ≡ intel_error → cfg.fail_open_intel_errors ≡ true → Served pcfg cfg lookups info d

-- The same for a policy decision, before the configuration is consulted about what it exempts.
data Passed (cfg : DecisionConfig) (lookups : Lookups) (info : RequestInfo) (ruled d : Decision)
    : Type 0 where
  exempted : exempts_malware ruled ≡ true → d ≡ ruled → Passed cfg lookups info ruled d
  clean :
      (result : Findings)
      → lookups.query ≡ found result
      → any malicious result ≡ false
      → Passed cfg lookups info ruled d
  unchecked : info.skip_vulnerability_check ≡ true → Passed cfg lookups info ruled d
  open_unknown :
      ruled.action ≡ unknown
      → cfg.fail_open_unknown_package ≡ true
      → Passed cfg lookups info ruled d
  open_error :
      d.kind ≡ intel_error → cfg.fail_open_intel_errors ≡ true → Passed cfg lookups info ruled d

lookup_failed-open :
    (cfg : DecisionConfig) (what error : Text)
    → is_block (lookup_failed cfg what error).action ≡ false
    → ((lookup_failed cfg what error).kind ≡ intel_error) × (cfg.fail_open_intel_errors ≡ true)
unfolding lookup_failed is_block
lookup_failed-open cfg what error h = ground arith

not-both : (a : Action) → a ≡ block → is_block a ≡ false → ⊥
unfolding is_block
not-both a e h = let t : is_block a ≡ true = rw e in cc

module _ (one_decimal : ℕ → Text) (cfg : DecisionConfig) (lookups : Lookups)
    (info : RequestInfo) where
  queried_rule-malware :
      (ruled : Decision) (result : Findings)
      → any malicious result ≡ true
      → (queried_rule cfg ruled (found result)).action ≡ block
  unfolding queried_rule malware_or
  queried_rule-malware ruled result bad =
      let (d, hit, f, m, b) = malware_decision-some result cfg.vulnerability_block_threshold bad in
      rw hit b.action

  queried_rule-failed :
      (ruled : Decision) (error : Text)
      → queried_rule cfg ruled (failed error) ≡ lookup_failed cfg (codes "intel") error
  unfolding queried_rule
  queried_rule-failed ruled error = refl

  queried_rule-Passed :
      (ruled : Decision) (q : Answer Findings)
      → lookups.query ≡ q
      → is_block (queried_rule cfg ruled q).action ≡ false
      → Passed cfg lookups info ruled (queried_rule cfg ruled q)
  queried_rule-Passed ruled (failed error) e h =
      let eq = queried_rule-failed ruled error in
      let (k, o) = lookup_failed-open cfg (codes "intel") error (rw eq at h) in
      rw eq (open_error k o)
  queried_rule-Passed ruled (found result) e h = elim (Bool-cases (any malicious result)) [
    | inl bad ↦ absurd (not-both _ (queried_rule-malware ruled result bad) h)
    | inr good ↦ clean result e good
  ]

  -- What `rule_decision` is, by its first test.
  rule_decision-cases :
      (ruled : Decision)
      → ((exempts_malware ruled ≡ true) × (rule_decision cfg lookups info ruled ≡ ruled))
        ⊎ (info.skip_vulnerability_check ≡ true)
        ⊎ (rule_decision cfg lookups info ruled ≡ queried_rule cfg ruled lookups.query)
  unfolding rule_decision
  rule_decision-cases ruled = elim (Bool-cases (exempts_malware ruled)) [
    | inl ex ↦ inl (ex, rw ex)
    | inr n ↦ elim (Bool-cases info.skip_vulnerability_check) [
      | inl skip ↦ inr (inl skip)
      | inr check ↦ inr (inr (rw (n, check)))
    ]
  ]

  rule_decision-Passed :
      (ruled : Decision)
      → is_block (rule_decision cfg lookups info ruled).action ≡ false
      → Passed cfg lookups info ruled (rule_decision cfg lookups info ruled)
  rule_decision-Passed ruled h = elim (rule_decision-cases ruled) [
    | inl (ex, e) ↦ exempted ex e
    | inr (inl skip) ↦ unchecked skip
    | inr (inr e) ↦ rw e (queried_rule-Passed ruled lookups.query refl (rw e at h))
  ]

  intel_decision-malware :
      (result : Findings)
      → any malicious result ≡ true
      → (intel_decision one_decimal cfg lookups info (found result)).action ≡ block
  unfolding intel_decision is_allow
  intel_decision-malware result bad =
      let (f, m, b) =
        decide-malware one_decimal result cfg.default_vulnerability_action
          cfg.vulnerability_block_threshold bad in
      rw b.action

  intel_decision-failed :
      (error : Text)
      → intel_decision one_decimal cfg lookups info (failed error)
        ≡ lookup_failed cfg (codes "intel") error
  unfolding intel_decision
  intel_decision-failed error = refl

  intel_decision-Passed :
      (ruled : Decision) (q : Answer Findings)
      → lookups.query ≡ q
      → is_block (intel_decision one_decimal cfg lookups info q).action ≡ false
      → Passed cfg lookups info ruled (intel_decision one_decimal cfg lookups info q)
  intel_decision-Passed ruled (failed error) e h =
      let eq = intel_decision-failed error in
      let (k, o) = lookup_failed-open cfg (codes "intel") error (rw eq at h) in
      rw eq (open_error k o)
  intel_decision-Passed ruled (found result) e h = elim (Bool-cases (any malicious result)) [
    | inl bad ↦ absurd (not-both _ (intel_decision-malware result bad) h)
    | inr good ↦ clean result e good
  ]

  after_policy-cases :
      (info.skip_vulnerability_check ≡ true)
      ⊎ (after_policy one_decimal cfg lookups info
          ≡ intel_decision one_decimal cfg lookups info lookups.query)
  unfolding after_policy
  after_policy-cases = elim (Bool-cases info.skip_vulnerability_check) [
    | inl skip ↦ inl skip
    | inr check ↦ inr (rw check)
  ]

  after_policy-Passed :
      (ruled : Decision)
      → is_block (after_policy one_decimal cfg lookups info).action ≡ false
      → Passed cfg lookups info ruled (after_policy one_decimal cfg lookups info)
  after_policy-Passed ruled h = elim after_policy-cases [
    | inl skip ↦ unchecked skip
    | inr e ↦ rw e (intel_decision-Passed ruled lookups.query refl (rw e at h))
  ]

  ruled_or_intel-cases :
      (ruled : Decision)
      → (ruled_or_intel one_decimal cfg lookups info ruled
          ≡ after_policy one_decimal cfg lookups info)
        ⊎ (ruled_or_intel one_decimal cfg lookups info ruled ≡ rule_decision cfg lookups info ruled)
  unfolding ruled_or_intel
  ruled_or_intel-cases ruled = elim (Bool-cases (is_empty ruled.matched_rule)) [
    | inl free ↦ inl (rw free)
    | inr named ↦ inr (rw named)
  ]

  ruled_or_intel-Passed :
      (ruled : Decision)
      → is_block (ruled_or_intel one_decimal cfg lookups info ruled).action ≡ false
      → Passed cfg lookups info ruled (ruled_or_intel one_decimal cfg lookups info ruled)
  ruled_or_intel-Passed ruled h = elim (ruled_or_intel-cases ruled) [
    | inl e ↦ rw e (after_policy-Passed ruled (rw e at h))
    | inr e ↦ rw e (rule_decision-Passed ruled (rw e at h))
  ]

  unknown_decision-open :
      is_block (unknown_decision cfg).action ≡ false → cfg.fail_open_unknown_package ≡ true
  unfolding unknown_decision is_block
  unknown_decision-open h = ground arith

  by_action-Passed :
      (a : Action) (ruled : Decision)
      → ruled.action ≡ a
      → is_block (by_action one_decimal cfg lookups info a ruled).action ≡ false
      → Passed cfg lookups info ruled (by_action one_decimal cfg lookups info a ruled)
  unfolding by_action
  by_action-Passed block ruled e h = absurd (not-both _ e h)
  by_action-Passed warn ruled e h = ruled_or_intel-Passed ruled h
  by_action-Passed monitor ruled e h = ruled_or_intel-Passed ruled h
  by_action-Passed allow ruled e h = ruled_or_intel-Passed ruled h
  by_action-Passed unknown ruled e h = open_unknown e (unknown_decision-open h)
  by_action-Passed (other t) ruled e h = after_policy-Passed ruled h

module _ (one_decimal : ℕ → Text) (pcfg : Config) (cfg : DecisionConfig) (lookups : Lookups)
    (info : RequestInfo) where
  -- The policy decision is that of some evaluation of the package, with or without a publish time.
  Passed-Served :
      (now published : ℕ) (d : Decision)
      → Passed cfg lookups info
          (evaluate now (new pcfg).0 (record info.pkg { published_at = published }))
          d
      → Served pcfg cfg lookups info d
  Passed-Served now published d (exempted ex e) =
      let (same, m) =
        exempts_malware-evaluate now pcfg (record info.pkg { published_at = published }) ex in
      exempt (rw e same) m
  Passed-Served now published d (clean result q good) = vetted result q good
  Passed-Served now published d (unchecked skip) = skipped skip
  Passed-Served now published d (open_unknown e o) =
      unidentified (evaluate-unknown now pcfg (record info.pkg { published_at = published }) e) o
  Passed-Served now published d (open_error k o) = unanswered k o

  -- A request that is not blocked has one of the reasons of `Served`: it needs no decision, an allow
  -- rule is its package URL, the vulnerability lookup found nothing malicious, it is exempt from that
  -- lookup, or a setting lets unidentified packages or failed lookups through.
  pub decide_request-Served :
      (now later : ℕ)
      → is_block (decide_request one_decimal cfg lookups info now later (new pcfg).0).action ≡ false
      → Served pcfg cfg lookups info
          (decide_request one_decimal cfg lookups info now later (new pcfg).0)
  decide_request-Served now later h =
      elim (decide_request-Cases one_decimal cfg lookups info now later (new pcfg).0) [
        | undecided e _ ↦ metadata e
        | first e ↦ rw e (
            Passed-Served now info.pkg.published_at _
              (by_action-Passed one_decimal cfg lookups info _ _ refl (rw e at h)))
        | second t _ e ↦ rw e (
            Passed-Served later t _
              (by_action-Passed one_decimal cfg lookups info _ _ refl (rw e at h)))
        | undated error _ e ↦
            let (k, o) = lookup_failed-open cfg (codes "release date") error (rw e at h) in
            rw e (unanswered k o)
      ]
