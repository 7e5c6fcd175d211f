-- ===== src/Tests/Policy.antt =====
-- The policy engine: patterns, rules, the cooldown.
use mathlib.Core.List.{Memᴰ}
use package_firewall.Common.{◌≡◌, ◌≢◌, ◌≤◌, ◌<◌, refl, ◌↔◌, true, false, some, [], ◌∷◌}
use package_firewall.Common.Text.{Text, codes, contains_any, cons-ne-nil}
use package_firewall.Policy.Types.{Package, Config, block, allow, cooldown}
use package_firewall.Policy.Glob.{parts, compile_glob, match_string}
use package_firewall.Policy.Glob.Meaning.{Matches, match_string_iff}
use package_firewall.Policy.Engine.{new, load, evaluate, exempts_malware}
use package_firewall.Policy.Engine.Verdict.{
  evaluate-load-deny, evaluate-IsListed, IsListed, exempts_malware-evaluate, evaluate-cooldown,
}

abbrev pub left_pad : Package
left_pad = record {
  ecosystem = codes "npm";
  name = codes "lp";
  version = codes "1.0";
  purl = codes "pkg:npm/lp@1.0";
  published_at = 100;
}

abbrev pub deny_all : Text
deny_all = codes "pkg:npm/l?@*"

abbrev rules : Config
rules = record {
  allow = codes "pkg:npm/lp@1.0" ∷ [];
  warn = [];
  deny = codes " " ∷ codes "pkg:npm/xx@*" ∷ [];
  cooldown = record { enabled = true; min_age = 50 };
}

abbrev pub denying : Config
denying = record {
  allow = codes "*" ∷ [];
  warn = [];
  deny = deny_all ∷ [];
  cooldown = record { enabled = false; min_age = 0 };
}

abbrev pub no_rules : Config
no_rules = record {
  allow = [];
  warn = [];
  deny = [];
  cooldown = record { enabled = true; min_age = 50 };
}

deny_all_hits : match_string (parts deny_all) left_pad.purl ≡ true
unfolding match_string parts
deny_all_hits = refl

pub compile-deny_all : compile_glob deny_all ≡ some (parts deny_all)
unfolding compile_glob
compile-deny_all = refl

newline_is_not_matched : match_string (parts (codes "a*")) (97 ∷ 10 ∷ []) ≡ false
unfolding match_string parts
newline_is_not_matched = refl

match_string_iff_example :
    (match_string (parts deny_all) left_pad.purl ≡ true) ↔ Matches deny_all left_pad.purl
match_string_iff_example = match_string_iff deny_all left_pad.purl (parts deny_all) compile-deny_all

pub deny_all-Matches : Matches deny_all left_pad.purl
deny_all-Matches = match_string_iff_example.0 deny_all_hits

evaluate-load-deny_example : (evaluate 110 (load (rules ∷ denying ∷ [])).0 left_pad).action ≡ block
evaluate-load-deny_example =
    evaluate-load-deny 110 (rules ∷ denying ∷ []) denying left_pad deny_all (parts deny_all)
      cons-ne-nil (Memᴰ.tail (Memᴰ.head refl)) (Memᴰ.head refl) compile-deny_all deny_all-Matches

exempted_by_rules : exempts_malware (evaluate 110 (new rules).0 left_pad) ≡ true
unfolding exempts_malware evaluate new compile_glob match_string contains_any
exempted_by_rules = refl

rule_that_decides : (evaluate 110 (new rules).0 left_pad).matched_rule ≡ codes "pkg:npm/lp@1.0"
unfolding evaluate new compile_glob match_string
rule_that_decides = refl

names_a_rule : (evaluate 110 (new rules).0 left_pad).matched_rule ≢ []
names_a_rule h = cons-ne-nil (rw rule_that_decides at h)

evaluate-IsListed_example :
    Matches (evaluate 110 (new rules).0 left_pad).matched_rule left_pad.purl
    × IsListed rules (evaluate 110 (new rules).0 left_pad)
evaluate-IsListed_example = evaluate-IsListed 110 rules left_pad names_a_rule

exempts_malware-evaluate_example :
    ((evaluate 110 (new rules).0 left_pad).matched_rule ≡ left_pad.purl)
    × Memᴰ left_pad.purl rules.allow
exempts_malware-evaluate_example = exempts_malware-evaluate 110 rules left_pad exempted_by_rules

is_cooling_down : (evaluate 110 (new no_rules).0 left_pad).kind ≡ cooldown
unfolding evaluate new
is_cooling_down = refl

evaluate-cooldown_example :
    ((evaluate 110 (new no_rules).0 left_pad).action ≡ block)
    × (110 < (evaluate 110 (new no_rules).0 left_pad).allowed_after)
    × (150 < (evaluate 110 (new no_rules).0 left_pad).allowed_after
        → evaluate 150 (new no_rules).0 left_pad ≡ evaluate 110 (new no_rules).0 left_pad)
    × ((evaluate 110 (new no_rules).0 left_pad).allowed_after ≤ 150
        → ((evaluate 150 (new no_rules).0 left_pad).action ≡ allow)
          × ((evaluate 150 (new no_rules).0 left_pad).matched_rule ≡ []))
evaluate-cooldown_example = evaluate-cooldown 110 150 (new no_rules).0 left_pad is_cooling_down
