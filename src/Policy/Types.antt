-- ===== src/Policy/Types.antt =====
-- internal/policy/policy.go, lines 14 to 81: packages, decisions, advisories and the configuration.
-- A time or a duration is a number of nanoseconds, and 0 is the zero time. A severity is a number
-- of a unit so small that every finite score of the program is a multiple of it.
use package_firewall.Common.{ℕ, Bool, true, false, List, [], Option, none}
use package_firewall.Common.Text.{Text, codes}

-- `Action` is a string in the source. `other t` is a text `t` that is none of the five constants;
-- the empty string is `other []`.
pub data Action : Type 0 where
  allow warn block monitor unknown : Action
  other : Text → Action

-- `BlockKind`; `unspecified` is the empty string
pub data BlockKind : Type 0 where
  policy_rule cooldown unknown_package vulnerability malware intel_error unspecified : BlockKind

pub record Package : Type 0 where
  pub ecosystem : Text
  pub name : Text
  pub version : Text
  pub purl : Text
  pub published_at : ℕ

pub record Advisory : Type 0 where
  pub id : Text
  pub aliases : List Text
  pub summary : Text
  pub severity : ℕ
  pub threshold : ℕ
  pub affected : List Text
  pub fixed : List Text
  pub url : Text

pub record Decision : Type 0 where
  pub action : Action
  pub reason : Text
  pub matched_rule : Text
  pub kind : BlockKind
  pub advisory : Option Advisory
  pub allowed_after : ℕ

-- A decision with only an action, a reason and a kind, as a Go literal gives it.
abbrev pub plain : Action → Text → BlockKind → Decision
plain action reason kind = record {
  action = action;
  reason = reason;
  matched_rule = [];
  kind = kind;
  advisory = none;
  allowed_after = 0;
}

pub record CooldownConfig : Type 0 where
  pub enabled : Bool
  pub min_age : ℕ

-- `Config`, as YAML decodes it
pub record Config : Type 0 where
  pub allow : List Text
  pub warn : List Text
  pub deny : List Text
  pub cooldown : CooldownConfig

-- `%s` of an action
unfoldable pub action_text : Action → Text
action_text allow = codes "allow"
action_text warn = codes "warn"
action_text block = codes "block"
action_text monitor = codes "monitor"
action_text unknown = codes "unknown"
action_text (other t) = t

unfoldable pub is_allow : Action → Bool
is_allow allow = true
is_allow _ = false

unfoldable pub is_block : Action → Bool
is_block block = true
is_block _ = false
