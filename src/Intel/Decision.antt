-- ===== src/Intel/Decision.antt =====
-- internal/intel/intel.go (the types) and internal/intel/decision.go. `one_decimal` stands for the
-- verb `%.1f` of package fmt at a severity.
pub mod Malware
pub mod Severity
use package_firewall.Common.{
  ℕ, Bool, true, false, not, ◌&&◌, ◌||◌, Option, none, some, List, [], ◌∷◌, ◌++◌, map, ltb, leb,
  if◌then◌else◌,
}
use package_firewall.Common.Text.{Text, codes, text_eq, is_empty, has_prefix, join}
use package_firewall.Common.Lists.{any}
use package_firewall.Policy.Types.{
  Action, allow, warn, block, other, BlockKind, malware, vulnerability, unspecified, Advisory,
  Decision, plain,
}

pub record Finding : Type 0 where
  pub id : Text
  pub aliases : List Text
  pub summary : Text
  pub severity : ℕ
  pub cwes : List Text
  pub affected : List Text
  pub fixed : List Text

-- `Result`
abbrev pub Findings : Type 0
Findings = List Finding

-- The loop of `malAlias`.
unfoldable pub mal_among : List Text → Text
mal_among [] = []
mal_among (alias ∷ aliases) = if has_prefix alias (codes "MAL-") then alias else mal_among aliases

unfoldable pub mal_alias : Finding → Text
unfolding mal_among
mal_alias f = if has_prefix f.id (codes "MAL-") then f.id else mal_among f.aliases

unfoldable pub malicious : Finding → Bool
unfolding mal_alias
malicious f = not (is_empty (mal_alias f)) || any (λ c. text_eq c (codes "CWE-506")) f.cwes

unfoldable pub finding_kind : Finding → BlockKind
finding_kind f = if malicious f then malware else vulnerability

unfoldable pub advisory : Finding → ℕ → Advisory
advisory f threshold = record {
  id = f.id;
  aliases = f.aliases;
  summary = f.summary;
  severity = f.severity;
  threshold = threshold;
  affected = f.affected;
  fixed = f.fixed;
  url = codes "https://osv.dev/vulnerability/" ++ f.id;
}

-- A decision about one finding.
abbrev pub about : Action → Text → Finding → ℕ → Decision
about action reason f threshold = record {
  action = action;
  reason = reason;
  matched_rule = [];
  kind = finding_kind f;
  advisory = some (advisory f threshold);
  allowed_after = 0;
}

unfoldable pub malware_reason : Finding → Text
malware_reason f =
    let mal = mal_alias f in
    if not (is_empty mal) && not (text_eq mal f.id)
    then codes "malicious package " ++ (f.id ++ (codes " (" ++ (mal ++ codes ")")))
    else codes "malicious package " ++ f.id

-- `MalwareDecision`; `none` is its result `false`
unfoldable pub malware_decision : Findings → ℕ → Option Decision
unfolding malware_reason
malware_decision [] threshold = none
malware_decision (f ∷ fs) threshold =
    if malicious f
    then some (record {
      action = block;
      reason = malware_reason f;
      matched_rule = [];
      kind = malware;
      advisory = some (advisory f threshold);
      allowed_after = 0;
    })
    else malware_decision fs threshold

-- `blocking == nil || finding.Severity > blocking.Severity`
unfoldable pub exceeds : Finding → Option Finding → Bool
exceeds f none = true
exceeds f (some best) = ltb best.severity f.severity

-- The condition of the loop that looks for the finding that blocks.
unfoldable pub blocks : ℕ → Option Finding → Finding → Bool
unfolding exceeds
blocks threshold best f = ltb 0 threshold && leb threshold f.severity && exceeds f best

-- The loop that looks for the finding that blocks.
unfoldable pub blocking : ℕ → Option Finding → Findings → Option Finding
blocking threshold best [] = best
blocking threshold best (f ∷ fs) =
    blocking threshold (if blocks threshold best f then some f else best) fs

-- The loop that looks for the finding with the highest severity.
unfoldable pub worst : Finding → Findings → Finding
worst best [] = best
worst best (f ∷ fs) = worst (if ltb best.severity f.severity then f else best) fs

-- `if defaultAction == "" { defaultAction = policy.ActionWarn }`
unfoldable pub default_or_warn : Action → Action
default_or_warn (other t) = if is_empty t then warn else other t
default_or_warn action = action

module _ (one_decimal : ℕ → Text) where
  unfoldable pub block_reason : Finding → ℕ → Text
  block_reason f threshold =
      codes "vulnerability "
      ++ (f.id
          ++ (codes " severity "
              ++ (one_decimal f.severity
                  ++ (codes " exceeds threshold " ++ one_decimal threshold))))

  -- `Decide` after the search for malware; `first` and `rest` are the findings.
  unfoldable pub by_severity : Finding → Findings → Action → ℕ → Option Finding → Decision
  unfolding block_reason worst default_or_warn
  by_severity first rest default threshold (some f) =
      about block (block_reason f threshold) f threshold
  by_severity first rest default threshold none =
      about (default_or_warn default)
        (codes "vulnerability findings: " ++ join (map (λ f. f.id) (first ∷ rest)) (codes ","))
        (worst first rest) threshold

  unfoldable pub by_malware : Finding → Findings → Action → ℕ → Option Decision → Decision
  unfolding by_severity blocking blocks
  by_malware first rest default threshold (some d) = d
  by_malware first rest default threshold none =
      by_severity first rest default threshold (blocking threshold none (first ∷ rest))

  unfoldable pub decide : Findings → Action → ℕ → Decision
  unfolding by_malware malware_decision
  decide [] default threshold = plain allow (codes "no vulnerability findings") unspecified
  decide (first ∷ rest) default threshold =
      by_malware first rest default threshold (malware_decision (first ∷ rest) threshold)
