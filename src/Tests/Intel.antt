-- ===== src/Tests/Intel.antt =====
-- Decisions on findings, and the OSV provider during an outage.
use mathlib.Core.List.{Memᴰ}
use package_firewall.Common.{
  ℕ, ◌+◌, ◌≡◌, refl, true, false, ◌&&◌, none, some, List, [], ◌∷◌, ltb, if◌then◌else◌,
}
use package_firewall.Common.Text.{Text, codes, text_eq, has_prefix}
use package_firewall.Common.Lists.{any}
use package_firewall.Common.Dict.{lookup}
use package_firewall.Cache.{get, new_with_max_entries}
use package_firewall.Policy.Types.{Package, allow, warn}
use package_firewall.Intel.Decision.{Finding, Findings, malicious, decide}
use package_firewall.Intel.Decision.Malware.{BlocksFor, decide-malware}
use package_firewall.Intel.Decision.Severity.{IsWorst, DecidesBy, decide-DecidesBy}
use package_firewall.Intel.Provider.{
  Provider, new_provider, malicious_retention, is_queried, query_key, query,
}
use package_firewall.Intel.Provider.Outage.{new_provider-IsSound, query-unreachable}

abbrev pub show : ℕ → Text
show n = n ∷ []

abbrev finding : Text → ℕ → List Text → Finding
finding id severity cwes = record {
  id = id;
  aliases = [];
  summary = codes "s";
  severity = severity;
  cwes = cwes;
  affected = [];
  fixed = [];
}

-- GitHub's malware advisories can carry no severity, only CWE-506.
abbrev pub bad_findings : Findings
bad_findings =
    finding (codes "GHSA-1") 90 [] ∷ finding (codes "GHSA-2") 0 (codes "CWE-506" ∷ []) ∷ []

abbrev pub good_findings : Findings
good_findings = finding (codes "GHSA-1") 40 [] ∷ finding (codes "GHSA-3") 70 [] ∷ []

pub bad_findings-bad : any malicious bad_findings ≡ true
unfolding malicious text_eq has_prefix
bad_findings-bad = refl

good_findings-good : any malicious good_findings ≡ false
unfolding malicious text_eq has_prefix
good_findings-good = refl

decide-malware_example :
    (f : Finding) × Memᴰ f bad_findings × BlocksFor f 99 (decide show bad_findings allow 99)
decide-malware_example = decide-malware show bad_findings allow 99 bad_findings-bad

decide-DecidesBy_example :
    (f : Finding) × IsWorst f good_findings
    × DecidesBy f warn 70 (decide show good_findings warn 70)
decide-DecidesBy_example =
    decide-DecidesBy show (finding (codes "GHSA-1") 40 []) (finding (codes "GHSA-3") 70 [] ∷ [])
      warn 70 good_findings-good

abbrev requested : Package
requested = record {
  ecosystem = codes "npm";
  name = codes "a";
  version = codes "1";
  purl = codes "pkg:npm/a@1";
  published_at = 0;
}

abbrev provider : Provider
provider = new_provider 60

asks : is_queried requested ≡ true
unfolding is_queried text_eq
asks = refl

starts_empty : (get 5 (query_key requested) provider.cache).0 ≡ none
unfolding get new_provider new_with_max_entries lookup
starts_empty = refl

query-unreachable_example :
    (query 1000 1001 requested none (query 5 6 requested (some bad_findings) provider).1).0 ≡ (
      if ltb 0 provider.ttl && ltb (6 + provider.ttl) 1000
      then (if any malicious bad_findings
          then (if ltb (6 + malicious_retention) 1001 then none else some bad_findings)
          else none)
      else some bad_findings)
query-unreachable_example =
    query-unreachable 5 6 1000 1001 requested bad_findings provider (new_provider-IsSound 60) asks
      starts_empty
