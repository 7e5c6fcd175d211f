-- ===== src/Proxy/Serve/Stored.antt =====
-- What `Serve` puts into the artifact cache.
use package_firewall.Common.{◌≡◌, none, some, List}
use package_firewall.Common.Text.{Text}
use package_firewall.Registry.Types.{RequestInfo}
use package_firewall.Server.Handle.{RouteConfig}
use package_firewall.ArtifactCache.{PutRequest}
use package_firewall.Proxy.Headers.{Headers}
use package_firewall.Proxy.CacheKey.{ClientRequest, bypass_reason, components, key}
use package_firewall.Proxy.Redirect.{Urls}
use package_firewall.Proxy.Response.{Http}
use package_firewall.Proxy.Paths.{upstream_url, with_request_query}
use package_firewall.Proxy.Store.{Reply, Settings, World}
use package_firewall.Proxy.Serve.Safe.{IsSafePut}

module _ (urls : Urls) (http : Http) (sha256_hex : Text → Text) (sort : List Text → List Text)
    (settings : Settings) (w : World) where
  -- What is known of an entry that is put into the cache.
  pub record Stored (r : ClientRequest) (route : RouteConfig) (info : RequestInfo) (reply : Reply)
      (k : Text) (req : PutRequest) : Type 0 where
    pub base : Text
    pub target : Text
    pub located : upstream_url urls route info ≡ some base
    pub asked : with_request_query urls base r.raw_query r.force_query ≡ some target
    pub exact : bypass_reason settings.has_store r info ≡ none
    pub safe :
        IsSafePut urls http sha256_hex sort settings w r route target
          (key sha256_hex (components urls sha256_hex sort route target))
          reply
          k
          req
