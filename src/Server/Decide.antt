-- ===== src/Server/Decide.antt =====
-- internal/server/server.go, `decide`, `ruleDecision` and `lookupFailed`. What `PublishedAt` and
-- `Query` return for this request are the arguments of `Lookups`: a value, or the text of the error.
-- They are the answers of internal/release and internal/intel; a lookup that the code skips is not
-- read.
pub mod Cases
pub mod Served
pub mod Policy
use package_firewall.Common.{
  ℕ, Bool, true, false, not, ◌&&◌, ◌||◌, List, [], ◌∷◌, ◌++◌, Option, none, some, ◌==◌,
  if◌then◌else◌,
}
use package_firewall.Common.Text.{Text, codes, is_empty}
use package_firewall.Policy.Types.{
  Action, allow, warn, block, monitor, unknown, other, unknown_package, intel_error, unspecified,
  Package, Decision, plain, is_allow,
}
use package_firewall.Policy.Engine.{Engine, evaluate, exempts_malware, cooldown_enabled}
use package_firewall.Registry.Types.{RequestInfo}
use package_firewall.Intel.Decision.{Findings, malware_decision, decide}

-- A value or the text of an error.
pub data Answer {ℓ} (A : Type ℓ) : Type ℓ where
  found : A → Answer A
  failed : Text → Answer A

-- `DecisionConfig`
pub record DecisionConfig : Type 0 where
  pub fail_open_unknown_package : Bool
  pub fail_open_intel_errors : Bool
  pub default_vulnerability_action : Action
  pub vulnerability_block_threshold : ℕ

-- What the lookups of one request answer.
pub record Lookups : Type 0 where
  pub published_at : Answer ℕ
  pub query : Answer Findings

unfoldable pub lookup_failed : DecisionConfig → Text → Text → Decision
lookup_failed cfg what error =
    if cfg.fail_open_intel_errors
    then plain warn (what ++ (codes " error allowed by fail_open_intel_errors: " ++ error))
        intel_error
    else plain block (what ++ (codes " error blocked by fail_open_intel_errors=false: " ++ error))
        intel_error

unfoldable pub malware_or : Decision → Option Decision → Decision
malware_or ruled none = ruled
malware_or ruled (some malware) = malware

-- `ruleDecision` after its first test
unfoldable pub queried_rule : DecisionConfig → Decision → Answer Findings → Decision
unfolding malware_or lookup_failed
queried_rule cfg ruled (found result) =
    malware_or ruled (malware_decision result cfg.vulnerability_block_threshold)
queried_rule cfg ruled (failed error) = lookup_failed cfg (codes "intel") error

unfoldable pub rule_decision : DecisionConfig → Lookups → RequestInfo → Decision → Decision
unfolding queried_rule
rule_decision cfg lookups info ruled =
    if exempts_malware ruled || info.skip_vulnerability_check
    then ruled
    else queried_rule cfg ruled lookups.query

unfoldable pub unknown_decision : DecisionConfig → Decision
unknown_decision cfg =
    if cfg.fail_open_unknown_package
    then plain warn (codes "unknown package allowed by fail_open_unknown_package") unknown_package
    else plain block (codes "unknown package blocked by fail_open_unknown_package=false")
        unknown_package

module _ (one_decimal : ℕ → Text) (cfg : DecisionConfig) (lookups : Lookups)
    (info : RequestInfo) where
  unfoldable pub intel_decision : Answer Findings → Decision
  unfolding lookup_failed
  intel_decision (found result) =
      let d =
        decide one_decimal result cfg.default_vulnerability_action
          cfg.vulnerability_block_threshold in
      if is_allow d.action
      then plain allow (codes "policy and intel allowed package") unspecified
      else d
  intel_decision (failed error) = lookup_failed cfg (codes "intel") error

  -- The part of `decide` after its `switch`.
  unfoldable pub after_policy : Decision
  unfolding intel_decision
  after_policy =
      if info.skip_vulnerability_check
      then plain allow (codes "metadata request allowed after policy evaluation") unspecified
      else intel_decision lookups.query

  -- The case of the `switch` for warn, monitor and allow.
  unfoldable pub ruled_or_intel : Decision → Decision
  unfolding after_policy rule_decision
  ruled_or_intel d =
      if not (is_empty d.matched_rule) then rule_decision cfg lookups info d else after_policy

  unfoldable pub by_action : Action → Decision → Decision
  unfolding ruled_or_intel after_policy unknown_decision
  by_action block d = d
  by_action warn d = ruled_or_intel d
  by_action monitor d = ruled_or_intel d
  by_action allow d = ruled_or_intel d
  by_action unknown d = unknown_decision cfg
  by_action (other _) d = after_policy

  -- The condition under which the publish time is fetched.
  unfoldable pub needs_publish_time : Engine → Decision → Bool
  needs_publish_time engine d =
      is_allow d.action
      && is_empty d.matched_rule
      && cooldown_enabled engine
      && info.pkg.published_at == 0

  -- The package is evaluated again with its publish time.
  unfoldable pub with_publish_time : ℕ → Engine → Answer ℕ → Decision
  unfolding by_action lookup_failed
  with_publish_time now engine (found published) =
      let d = evaluate now engine (record info.pkg { published_at = published }) in
      by_action d.action d
  with_publish_time now engine (failed error) = lookup_failed cfg (codes "release date") error

  -- `now` and `later` are the clock at the two evaluations.
  unfoldable pub decide_request : ℕ → ℕ → Engine → Decision
  unfolding with_publish_time by_action needs_publish_time
  decide_request now later engine =
      if info.needs_decision
      then (let d = evaluate now engine info.pkg in
          if needs_publish_time engine d
          then with_publish_time later engine lookups.published_at
          else by_action d.action d)
      else plain allow (codes "metadata request") unspecified
