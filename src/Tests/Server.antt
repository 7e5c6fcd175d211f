-- ===== src/Tests/Server.antt =====
-- Decisions of the server.
use mathlib.Core.List.{Memᴰ}
use package_firewall.Common.{◌+◌, ◌<◌, ◌≡◌, refl, true, false, [], arith}
use package_firewall.Common.Text.{codes, text_eq, has_prefix, cons-ne-nil}
use package_firewall.Policy.Types.{Package, Config, warn, block, cooldown, is_block, is_allow}
use package_firewall.Policy.Glob.{parts}
use package_firewall.Policy.Engine.{new, evaluate, first_match, cooldown_enabled}
use package_firewall.Registry.Types.{RequestInfo}
use package_firewall.Intel.Decision.{malicious, decide}
use package_firewall.Server.Decide.{found, failed, DecisionConfig, Lookups, decide_request}
use package_firewall.Server.Decide.Served.{Served, decide_request-Served}
use package_firewall.Server.Decide.Policy.{
  AwaitsDate, decide_request-deny, decide_request-undated, decide_request-cooldown,
}
use package_firewall.Tests.Policy.{
  left_pad, deny_all, denying, no_rules, compile-deny_all, deny_all-Matches,
}
use package_firewall.Tests.Intel.{show, good_findings, bad_findings}

abbrev request : Package → RequestInfo
request pkg = record {
  pkg = pkg;
  kind = codes "artifact";
  upstream_path = codes "/x";
  file_upstream = false;
  needs_decision = true;
  cacheable = false;
  skip_vulnerability_check = false;
}

abbrev pub fail_open : DecisionConfig
fail_open = record {
  fail_open_unknown_package = true;
  fail_open_intel_errors = true;
  default_vulnerability_action = warn;
  vulnerability_block_threshold = 90;
}

abbrev pub quiet : Lookups
quiet = record { published_at = found 7; query = found good_findings }

abbrev dateless : Lookups
dateless = record { published_at = failed (codes "503"); query = found bad_findings }

abbrev pub plain_rules : Config
plain_rules = record {
  allow = [];
  warn = [];
  deny = [];
  cooldown = record { enabled = false; min_age = 0 };
}

abbrev undated_pad : Package
undated_pad = record left_pad { published_at = 0 }

passes :
    is_block
      (decide_request show fail_open quiet (request left_pad) 10 11 (new plain_rules).0).action
    ≡ false
unfolding decide_request new evaluate decide malicious text_eq has_prefix is_block is_allow
    cooldown_enabled
passes = refl

decide_request-Served_example :
    Served plain_rules fail_open quiet
      (request left_pad)
      (decide_request show fail_open quiet (request left_pad) 10 11 (new plain_rules).0)
decide_request-Served_example =
    decide_request-Served show plain_rules fail_open quiet (request left_pad) 10 11 passes

decide_request-deny_example :
    ((decide_request show fail_open quiet (request left_pad) 10 11 (new denying).0).action ≡ block)
    × Memᴰ
        (decide_request show fail_open quiet (request left_pad) 10 11 (new denying).0).matched_rule
        denying.deny
decide_request-deny_example =
    decide_request-deny show fail_open quiet (request left_pad) 10 11 denying deny_all
      (parts deny_all) refl cons-ne-nil (Memᴰ.head refl) compile-deny_all deny_all-Matches

awaits : AwaitsDate show fail_open dateless (request undated_pad) (new no_rules).0
unfolding new first_match
awaits = record {
  needs_decision = refl;
  identified = refl;
  unmatched = refl;
  enabled = refl;
  undated = refl;
}

decide_request-undated_example :
    (decide_request show fail_open dateless (request undated_pad) 10 11 (new no_rules).0).action
    ≡ warn
decide_request-undated_example =
    decide_request-undated show fail_open dateless (request undated_pad) 10 11 (new no_rules).0
      (codes "503") awaits refl refl

awaits_quiet : AwaitsDate show fail_open quiet (request undated_pad) (new no_rules).0
unfolding new first_match
awaits_quiet = record {
  needs_decision = refl;
  identified = refl;
  unmatched = refl;
  enabled = refl;
  undated = refl;
}

before_min_age : 11 < 7 + (new no_rules).0.cooldown.min_age
unfolding new
before_min_age = omega arith

decide_request-cooldown_example :
    let d = decide_request show fail_open quiet (request undated_pad) 10 11 (new no_rules).0 in
    (d.action ≡ block)
    × (d.kind ≡ cooldown)
    × (d.allowed_after ≡ 7 + (new no_rules).0.cooldown.min_age)
decide_request-cooldown_example =
    decide_request-cooldown show fail_open quiet (request undated_pad) 10 11 7 (new no_rules).0
      awaits_quiet refl (λ h. omega arith) before_min_age
