-- ===== src/Policy/Engine.antt =====
-- internal/policy/policy.go: building an engine from configurations, and evaluating a package.
-- Reading and decoding the policy files is left to the caller of `merge`. The clock's reading is the
-- argument `now`.
pub mod Rules
pub mod Verdict
use package_firewall.Common.{
  ℕ, ◌+◌, ◌*◌, Bool, true, false, not, ◌&&◌, Option, none, some, List, [], ◌∷◌, ◌++◌, ◌==◌, ltb,
  if◌then◌else◌,
}
use package_firewall.Common.Text.{Text, codes, is_empty, contains_any}
use package_firewall.Policy.Types.{
  Action, allow, warn, block, unknown, policy_rule, cooldown, unknown_package, unspecified, Package,
  Decision, plain, CooldownConfig, Config, action_text, is_allow,
}
use package_firewall.Policy.Glob.{Part, compile_glob, match_string}

-- `engineRule`
pub record EngineRule : Type 0 where
  pub action : Action
  pub pattern : Text
  pub re : List Part

pub record Engine : Type 0 where
  pub rules : List EngineRule
  pub cooldown : CooldownConfig

-- The closure `add` of `New`, on one list of patterns: the rules that compile, in order.
unfoldable pub compiled : Action → List Text → List EngineRule
compiled action [] = []
compiled action (pattern ∷ patterns) = elim (compile_glob pattern) [
  | none ↦ compiled action patterns
  | some re ↦ record { action = action; pattern = pattern; re = re } ∷ compiled action patterns
]

-- The patterns that `add` reports as errors.
unfoldable pub rejected : List Text → List Text
rejected [] = []
rejected (pattern ∷ patterns) = elim (compile_glob pattern) [
  | none ↦ pattern ∷ rejected patterns
  | some _ ↦ rejected patterns
]

-- `24 * time.Hour`
abbrev pub default_min_age : ℕ
default_min_age = 24 * 3600 * 1000000000

-- `New`, with the patterns that the joined error names. An error does not stop it.
unfoldable pub new : Config → Engine × List Text
unfolding compiled rejected
new cfg = (
  record {
    rules = compiled block cfg.deny ++ (compiled allow cfg.allow ++ compiled warn cfg.warn);
    cooldown =
        if cfg.cooldown.min_age == 0
        then record cfg.cooldown { min_age = default_min_age }
        else cfg.cooldown;
  },
  rejected cfg.deny ++ (rejected cfg.allow ++ rejected cfg.warn),
)

-- One round of the loop of `Load`.
unfoldable pub merge_one : Config → Config → Config
merge_one merged cfg = record {
  allow = merged.allow ++ cfg.allow;
  warn = merged.warn ++ cfg.warn;
  deny = merged.deny ++ cfg.deny;
  cooldown = if cfg.cooldown.enabled then cfg.cooldown else merged.cooldown;
}

unfoldable pub merge : Config → List Config → Config
unfolding merge_one
merge merged [] = merged
merge merged (cfg ∷ cfgs) = merge (merge_one merged cfg) cfgs

abbrev pub empty_config : Config
empty_config = record {
  allow = [];
  warn = [];
  deny = [];
  cooldown = record { enabled = false; min_age = 0 };
}

-- `Load` on the decoded files
unfoldable pub load : List Config → Engine × List Text
unfolding merge new
load cfgs = new (merge empty_config cfgs)

-- `Decision.ExemptsMalware`
unfoldable pub exempts_malware : Decision → Bool
unfolding is_allow
exempts_malware d =
    is_allow d.action
    && not (is_empty d.matched_rule)
    && not (contains_any d.matched_rule (codes "*?"))

unfoldable pub cooldown_enabled : Engine → Bool
cooldown_enabled e = e.cooldown.enabled

-- What the loop of `Evaluate` returns for a rule that matches.
unfoldable pub ruled : EngineRule → Decision
ruled rule = record {
  action = rule.action;
  reason = codes "matched " ++ (action_text rule.action ++ codes " policy");
  matched_rule = rule.pattern;
  kind = policy_rule;
  advisory = none;
  allowed_after = 0;
}

-- The loop of `Evaluate`: the first rule that matches.
unfoldable pub first_match : List EngineRule → Text → Option EngineRule
first_match [] purl = none
first_match (rule ∷ rules) purl =
    if match_string rule.re purl then some rule else first_match rules purl

-- `time.Since(published) < min_age` is stated without a difference, which could be negative.
unfoldable pub is_cooling : ℕ → CooldownConfig → ℕ → Bool
is_cooling now c published = c.enabled && not (published == 0) && ltb now (published + c.min_age)

-- The part of `Evaluate` after its loop.
unfoldable pub unmatched : ℕ → Engine → Package → Decision
unmatched now e pkg =
    if is_cooling now e.cooldown pkg.published_at
    then record {
      action = block;
      reason = codes "package is newer than cooldown policy";
      matched_rule = [];
      kind = cooldown;
      advisory = none;
      allowed_after = pkg.published_at + e.cooldown.min_age;
    }
    else plain allow (codes "no policy rule matched") unspecified

unfoldable pub after_rules : ℕ → Engine → Package → Option EngineRule → Decision
unfolding unmatched ruled is_cooling
after_rules now e pkg (some rule) = ruled rule
after_rules now e pkg none = unmatched now e pkg

unfoldable pub evaluate : ℕ → Engine → Package → Decision
unfolding first_match after_rules
evaluate now e pkg =
    if is_empty pkg.purl
    then plain unknown (codes "package version could not be identified") unknown_package
    else after_rules now e pkg (first_match e.rules pkg.purl)
