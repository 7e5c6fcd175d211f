-- ===== src/Intel/Provider.antt =====
-- internal/intel/osv.go, `OSVProvider.Query`: a cache of results in front of OSV, and a second cache
-- that keeps a malicious result for a longer time and answers while OSV does not. What OSV answers is
-- the argument `fetched`, with `none` for an error; `now` is the clock before the request and `later`
-- the clock after it. A result `none` is the error.
pub mod Outage
use package_firewall.Common.{
  ℕ, ◌*◌, Bool, true, false, not, ◌||◌, Option, none, some, List, [], ◌∷◌, ◌++◌, if◌then◌else◌,
}
use package_firewall.Common.Text.{Text, codes, is_empty}
use package_firewall.Cache.{Cache, new_with_max_entries, get, set, delete_key}
use package_firewall.Policy.Types.{Package, Decision}
use package_firewall.Intel.Decision.{Findings, malware_decision}
use package_firewall.Intel.Osv.{osv_package}

abbrev pub default_osv_cache_entries : ℕ
default_osv_cache_entries = 4096

-- `7 * 24 * time.Hour`
abbrev pub malicious_retention : ℕ
malicious_retention = 7 * 24 * 3600 * 1000000000

-- `OSVProvider`, without its HTTP client
pub record Provider : Type 0 where
  pub cache : Cache Findings
  pub malicious : Cache Findings
  pub ttl : ℕ

-- `NewOSVProvider`
unfoldable pub new_provider : ℕ → Provider
new_provider ttl = record {
  cache = new_with_max_entries default_osv_cache_entries;
  malicious = new_with_max_entries default_osv_cache_entries;
  ttl = ttl;
}

-- The guard and the cache key of `Query`.
unfoldable pub is_queried : Package → Bool
unfolding osv_package
is_queried pkg =
    let (ecosystem, name) = osv_package pkg in
    not (is_empty ecosystem || is_empty name || is_empty pkg.version)

unfoldable pub query_key : Package → Text
unfolding osv_package
query_key pkg =
    let (ecosystem, name) = osv_package pkg in
    ecosystem ++ (codes "|" ++ (name ++ (codes "|" ++ pkg.version)))

-- The cache of malicious results after a fetch; the third argument is `MalwareDecision`'s answer.
unfoldable pub remember : ℕ → Text → Findings → Option Decision → Cache Findings → Cache Findings
remember later key result (some _) c = set later key result malicious_retention c
remember later key result none c = delete_key key c

-- A fetched result is cached, and the cache of malicious results follows it.
unfoldable pub store_result : ℕ → Text → Findings → Provider → Provider
unfolding remember
store_result later key result p = record p {
  cache = set later key result p.ttl p.cache;
  malicious = remember later key result (malware_decision result 0) p.malicious;
}

-- `Query` after its first cache has missed.
unfoldable pub after_miss : ℕ → Text → Option Findings → Provider → Option Findings × Provider
after_miss later key none p =
    let (known, malicious) = get later key p.malicious in
    (known, record p { malicious = malicious })
after_miss later key (some result) p = (some result, store_result later key result p)

unfoldable pub after_get :
    ℕ → Text → Option Findings → Option Findings → Provider → Option Findings × Provider
after_get later key fetched (some cached) p = (some cached, p)
after_get later key fetched none p = after_miss later key fetched p

-- `Query` for an identified package.
unfoldable pub query_at : ℕ → ℕ → Text → Option Findings → Provider → Option Findings × Provider
query_at now later key fetched p =
    let (cached, cache) = get now key p.cache in
    after_get later key fetched cached (record p { cache = cache })

unfoldable pub query : ℕ → ℕ → Package → Option Findings → Provider → Option Findings × Provider
query now later pkg fetched p =
    if is_queried pkg then query_at now later (query_key pkg) fetched p else (some [], p)
