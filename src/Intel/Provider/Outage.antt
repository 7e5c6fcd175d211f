-- ===== src/Intel/Provider/Outage.antt =====
-- What the provider answers while OSV is unreachable.
use package_firewall.Common.{
  ℕ, ◌+◌, ◌≡◌, refl, true, ◌&&◌, inl, inr, Option, none, some, ltb, if◌then◌else◌, Bool-cases,
  Option-cases,
}
use package_firewall.Common.Text.{Text}
use package_firewall.Common.Lists.{any}
use package_firewall.Cache.{get, set}
use package_firewall.Cache.Validity.{
  IsValid, get-IsValid, set-IsValid, delete_key-IsValid, new-IsValid,
}
use package_firewall.Cache.Laws.{get-set, get-delete_key}
use package_firewall.Policy.Types.{Package}
use package_firewall.Intel.Decision.{Findings, malicious, malware_decision}
use package_firewall.Intel.Decision.Malware.{malware_decision-some, malware_decision-none}
use package_firewall.Intel.Provider.{
  Provider, new_provider, malicious_retention, is_queried, query_key, remember, store_result,
  after_miss, after_get, query_at, query,
}

-- Both caches are valid.
pub record IsSound (p : Provider) : Type 0 where
  pub cache : IsValid p.cache
  pub malicious : IsValid p.malicious

pub new_provider-IsSound : (ttl : ℕ) → IsSound (new_provider ttl)
unfolding new_provider
new_provider-IsSound ttl = record { cache = new-IsValid _; malicious = new-IsValid _ }

store_result-IsSound :
    (later : ℕ) (key : Text) (result : Findings) (p : Provider)
    → IsSound p
    → IsSound (store_result later key result p)
unfolding store_result
store_result-IsSound later key result p v = elim (Option-cases (malware_decision result 0)) [
  | inl good ↦ rw good (record {
    cache = set-IsValid later key result p.ttl p.cache v.cache;
    malicious = delete_key-IsValid key p.malicious v.malicious;
  })
  | inr (d, bad) ↦ rw bad (record {
    cache = set-IsValid later key result p.ttl p.cache v.cache;
    malicious = set-IsValid later key result malicious_retention p.malicious v.malicious;
  })
]

after_miss-IsSound :
    (later : ℕ) (key : Text) (fetched : Option Findings) (p : Provider)
    → IsSound p
    → IsSound (after_miss later key fetched p).1
unfolding after_miss
after_miss-IsSound later key none p v = record {
  cache = v.cache;
  malicious = get-IsValid later key p.malicious v.malicious;
}
after_miss-IsSound later key (some result) p v = store_result-IsSound later key result p v

after_get-IsSound :
    (later : ℕ) (key : Text) (fetched cached : Option Findings) (p : Provider)
    → IsSound p
    → IsSound (after_get later key fetched cached p).1
unfolding after_get
after_get-IsSound later key fetched (some r) p v = v
after_get-IsSound later key fetched none p v = after_miss-IsSound later key fetched p v

-- Every query keeps both caches valid.
query-IsSound :
    (now later : ℕ) (pkg : Package) (fetched : Option Findings) (p : Provider)
    → IsSound p
    → IsSound (query now later pkg fetched p).1
unfolding query query_at
query-IsSound now later pkg fetched p v = elim (Bool-cases (is_queried pkg)) [
  | inl ask ↦ rw ask (
      after_get-IsSound later (query_key pkg) fetched (get now (query_key pkg) p.cache).0 _
        (record {
          cache = get-IsValid now (query_key pkg) p.cache v.cache;
          malicious = v.malicious;
        }))
  | inr skip ↦ rw skip v
]

module _ (later : ℕ) (key : Text) (result : Findings) (p : Provider) where
  cache-store_result : (store_result later key result p).cache ≡ set later key result p.ttl p.cache
  unfolding store_result
  cache-store_result = refl

  malicious-store_result :
      (store_result later key result p).malicious
      ≡ remember later key result (malware_decision result 0) p.malicious
  unfolding store_result
  malicious-store_result = refl

  -- What the cache of malicious results holds after a fetch.
  get-malicious-store_result :
      (now : ℕ)
      → IsSound p
      → (get now key (store_result later key result p).malicious).0 ≡ (
          if any malicious result
          then (if ltb (later + malicious_retention) now then none else some result)
          else none)
  unfolding remember
  get-malicious-store_result now v = elim (Bool-cases (any malicious result)) [
    | inl bad ↦
        let (d, found, _, _, _) = malware_decision-some result 0 bad in
        rw (malicious-store_result, bad, found)
          (get-set later now key result malicious_retention p.malicious v.malicious)
    | inr good ↦
        rw (malicious-store_result, good, malware_decision-none result 0 good)
          (get-delete_key now key p.malicious)
  ]

  -- A query that finds OSV unreachable, after one that stored `result`.
  query_at-store_result :
      (now' later' : ℕ)
      → IsSound p
      → (query_at now' later' key none (store_result later key result p)).0 ≡ (
          if ltb 0 p.ttl && ltb (later + p.ttl) now'
          then (if any malicious result
              then (if ltb (later + malicious_retention) later' then none else some result)
              else none)
          else some result)
  unfolding query_at after_get after_miss
  query_at-store_result now' later' v =
      let hit = get-set later now' key result p.ttl p.cache v.cache in
      rw (cache-store_result, hit)
        (elim (Bool-cases (ltb 0 p.ttl && ltb (later + p.ttl) now')) [
          | inl over ↦ rw over (get-malicious-store_result later' v)
          | inr fresh ↦ rw fresh
        ])

query_at-missed :
    (now later : ℕ) (key : Text) (result : Findings) (p : Provider)
    → (get now key p.cache).0 ≡ none
    → (query_at now later key (some result) p).1
      ≡ store_result later key result (record p { cache = (get now key p.cache).1 })
unfolding query_at after_get after_miss
query_at-missed now later key result p missed = rw missed

-- What a query answers while OSV is unreachable, after an earlier query of the same package that
-- missed the cache and whose request returned `result` at the time `later`: the result while the
-- cache holds it; then, if it is malicious, still the result until the retention time has passed
-- since `later`, which is not since the end of the cache's time to live; and otherwise the error.
pub query-unreachable :
    (now later now' later' : ℕ) (pkg : Package) (result : Findings) (p : Provider)
    → IsSound p
    → is_queried pkg ≡ true
    → (get now (query_key pkg) p.cache).0 ≡ none
    → (query now' later' pkg none (query now later pkg (some result) p).1).0 ≡ (
        if ltb 0 p.ttl && ltb (later + p.ttl) now'
        then (if any malicious result
            then (if ltb (later + malicious_retention) later' then none else some result)
            else none)
        else some result)
unfolding query
query-unreachable now later now' later' pkg result p v ask missed =
    rw (ask, stored)
      (query_at-store_result later (query_key pkg) result
        (record p { cache = (get now (query_key pkg) p.cache).1 }) now' later'
        (record {
          cache = get-IsValid now (query_key pkg) p.cache v.cache;
          malicious = v.malicious;
        }))
  where
    stored :
        (query_at now later (query_key pkg) (some result) p).1
        ≡ store_result later
            (query_key pkg)
            result
            (record p { cache = (get now (query_key pkg) p.cache).1 })
    stored = query_at-missed now later (query_key pkg) result p missed
