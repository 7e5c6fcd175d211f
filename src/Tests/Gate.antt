-- ===== src/Tests/Gate.antt =====
-- A request through the whole server.
use package_firewall.Common.{◌≡◌, refl, ◌||◌, true, some}
use package_firewall.Common.Text.{codes, has_prefix, text_eq}
use package_firewall.Policy.Types.{is_block, is_allow}
use package_firewall.Policy.Engine.{new, evaluate, cooldown_enabled}
use package_firewall.Registry.Types.{RequestInfo}
use package_firewall.Registry.Purl.{path_unescape}
use package_firewall.Registry.Identify.{identify}
use package_firewall.Intel.Decision.{malicious, decide}
use package_firewall.Server.Decide.{decide_request, Lookups}
use package_firewall.Server.Decide.Served.{Served}
use package_firewall.Server.Handle.{
  RouteConfig, Request, authorized, handle, handle_matched, handle_route, route_of, match_route,
  new_server, has_longer_prefix, to_registry_route,
}
use package_firewall.Server.Handle.Access.{forwarded}
use package_firewall.Server.Gate.{decide_for, handle-Served}
use package_firewall.Tests.Handle.{
  server, with_token, route_at, served_ok, sort_routes, insert_route,
}
use package_firewall.Tests.Server.{quiet, fail_open, plain_rules}
use package_firewall.Tests.Registry.{same_versions}
use package_firewall.Tests.Intel.{show}

abbrev all_quiet : RouteConfig → RequestInfo → Lookups
all_quiet route info = quiet

abbrev public : RouteConfig
public = route_at (codes "/npm/public/") true

abbrev tarball : Request
tarball = record with_token { path = codes "/npm/public/lp/-/lp-1.0.0.tgz" }

abbrev found_info : RequestInfo
found_info = identify same_versions (to_registry_route public) tarball.path

sent_upstream :
    forwarded (
      handle server
        (identify same_versions)
        (decide_for show plain_rules fail_open all_quiet 10 11)
        served_ok
        tarball)
    ≡ some (public, found_info)
unfolding handle handle_matched handle_route route_of match_route new_server has_longer_prefix
    sort_routes insert_route has_prefix is_block decide_request new evaluate decide malicious
    text_eq is_allow cooldown_enabled identify path_unescape to_registry_route
sent_upstream = refl

handle-Served_example :
    ((public.allow_anonymous || authorized server tarball) ≡ true)
    × Served plain_rules fail_open quiet found_info
        (decide_for show plain_rules fail_open all_quiet 10 11 public found_info)
handle-Served_example =
    handle-Served show plain_rules fail_open all_quiet 10 11 same_versions server served_ok tarball
      public found_info sent_upstream
