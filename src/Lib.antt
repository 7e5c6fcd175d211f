-- ===== src/Lib.antt =====
-- Tidewaiter, a package firewall: a registry proxy that decides about each package download. This
-- library models internal/policy, internal/intel, internal/registry, internal/explain, internal/cache,
-- the leases of internal/coordination, the request path of internal/server and that of internal/proxy.
--
-- How a request is decided. `internal/registry` describes the request (`RequestInfo`); `decide` of
-- internal/server asks the policy engine, perhaps looks up the publish time for the release cooldown
-- and evaluates again, and then asks the OSV provider, whose findings `Decide` of internal/intel
-- judges. The provider keeps two caches. `handle` finds the route, checks the credentials, asks for
-- the description and the decision, and either answers that the package is blocked or forwards the
-- request to internal/proxy, whose result is an argument there.
--
-- How a request is served. `Serve` of internal/proxy makes the URL of the registry and a key, looks
-- the key up in the artifact cache and serves a hit; a miss goes to the registry, with retries and a
-- cooldown after status 429, and its redirects pass a policy. The body of index pages is rewritten
-- while it streams, and that of an artifact goes to the client and into a file that is stored under
-- the key. The requests for one key form a fill, of which one goes to the registry.
--
-- Common and its children: texts as lists of code points with the functions of package strings,
-- maps as association lists, tests on numbers.
-- Cache: internal/cache/cache.go, `Cache[T]` as a record and each method as a function of it.
-- Policy: internal/policy/policy.go. `Policy.Types` has the types, `Policy.Glob` `compileGlob` and
-- the expressions that it makes, `Policy.Engine` `New`, `Load`, `Evaluate` and `ExemptsMalware`.
-- Intel: internal/intel. `Intel.Decision` is decision.go; `Intel.Ranges`, `Intel.Osv` and
-- `Intel.Provider` are osv.go from the decoded response on.
-- Coordination: internal/coordination/dynamodb.go, leases and cooldowns in a table. DynamoDB is the
-- interface `Client` with the laws `IsFaithful`.
-- Registry: internal/registry. `Registry.Purl` is path.go and the helpers of registry.go,
-- `Registry.Npm`, `Registry.Pypi` and `Registry.Golang` (with maven.go and static.go) are the
-- ecosystems, and `Registry.Identify` is `Identify` and `PackageFromPURL`.
-- Server: `Server.Decide` is `decide`, `ruleDecision` and `lookupFailed` of
-- internal/server/server.go; `Server.Handle` is `handle` as the list of its effects, with the routes
-- and the credentials, `Server.Bucket` is `tokenBucket`, and `Server.Gate` puts the handler,
-- the identification and the decision together.
-- ArtifactCache: internal/artifactcache/cache.go, entries and their validation.
-- Proxy: internal/proxy. `Proxy.Rewrite` is rewrite.go, with the reference `Proxy.Rewrite.Scan`;
-- `Proxy.Freshness` and `Proxy.Npm` are npm_cache.go, `Proxy.Upstream` upstream.go and
-- `Proxy.Fill` the group of fill.go. The parts of proxy.go are `Proxy.Headers` and `Proxy.Cacheable` (header filters and tests),
-- `Proxy.Redirect` (the redirect policy, with `NormalizeHTTPOrigin` of internal/config/config.go),
-- `Proxy.CacheKey` and `Proxy.Paths` (keys and URLs), `Proxy.Spool` and `Proxy.Load` (files on the way
-- into and out of the cache), `Proxy.Response` (ages, and reasons not to store), `Proxy.Store` and
-- `Proxy.Serve` (`serveAndStore`, `serveUpstream` and `Serve` as lists of events).
-- Explain: internal/explain/explain.go, the message about a decision and the header made of it.
-- Tests: runs of the models, and the theorems at concrete inputs.
--
-- Conventions. A time or a duration is a number of nanoseconds, with 0 for the zero time, so neither
-- is negative; where the source compares a difference of times the model compares sums. The clock's
-- reading is an argument. A text is a list of code points, but an escape in a path is decoded to a
-- byte, so the identification of packages is that of paths whose escapes are of ASCII. A severity is a number of a unit so small that every finite score is a
-- multiple of it, and a float is printed by a parameter. Lower case is that of ASCII. A mutex makes
-- a method one step. A lookup over the network is an argument that holds its answer or its error.
-- Loops are structural recursion on lists, but for two on fuel: the loop that writes a rewritten body
-- moves on with each match, so the length of the body and one more are enough, and the loop of
-- requests to a registry ends with the last retry, so the number of retries and one more are enough.
-- A body is the list of what its reads return.
--
-- Not modelled: HTTP, JSON and YAML, files, logging and metrics; the CVSS and semver libraries, the
-- packages net/url and net/http and SHA-256 are parameters. Of internal/proxy, the waiters of a fill
-- and their leases and the composition with the HTTP client (`doOnce`) are left out, as are the stores
-- of internal/artifactcache, and internal/release, internal/prewarm, the rest of internal/config, and
-- internal/cli.
pub mod Common
pub mod Cache
pub mod Policy
pub mod Coordination
pub mod Intel
pub mod Explain
pub mod Registry
pub mod Server
pub mod ArtifactCache
pub mod Proxy
mod Tests
