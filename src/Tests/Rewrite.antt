-- ===== src/Tests/Rewrite.antt =====
-- A page of an index, cut in the middle of an origin that is replaced.
use package_firewall.Common.{◌≡◌, refl, false, [], ◌∷◌, ◌++◌, map}
use package_firewall.Common.Text.{Text, codes, has_prefix, text_eq}
use package_firewall.Common.Cut.{trim_right}
use package_firewall.Proxy.Rewrite.{
  more, last, ended, rewrite_stream, rewrite_from, rewrite_rules, write_rewritten, write_matches,
  pick_from, refresh, index, index_from, keep_of,
}
use package_firewall.Proxy.Rewrite.Scan.{rewritten}
use package_firewall.Proxy.Rewrite.Body.{concat, rewrite_stream-rewritten}
use package_firewall.Server.Handle.{RouteConfig}
use package_firewall.Tests.Handle.{route_at}

abbrev index_route : RouteConfig
index_route = record (route_at (codes "/pypi/") false) { ecosystem = codes "pypi" }

abbrev base : Text
base = codes "http://fw"

-- The origin is split over three reads.
split_origin :
    rewrite_stream (rewrite_rules base index_route) (
      more (codes "<a href=https://files.py")
      ∷ more (codes "thonhosted.org")
      ∷ last (codes "/x.whl>")
      ∷ [])
    ≡ (codes "<a href=http://fw/pypi/files/x.whl>", ended)
unfolding rewrite_stream rewrite_from rewrite_rules write_rewritten write_matches pick_from refresh
    index index_from keep_of has_prefix text_eq trim_right
split_origin = refl

rewrite_stream-rewritten_example :
    rewrite_stream (rewrite_rules base index_route) (
      map more (codes "<a href=https://files.py" ∷ codes "thonhosted.org" ∷ [])
      ++ (last (codes "/x.whl>") ∷ []))
    ≡ (
      rewritten (rewrite_rules base index_route) (
          concat (codes "<a href=https://files.py" ∷ codes "thonhosted.org" ∷ [])
          ++ codes "/x.whl>"),
      ended,
    )
rewrite_stream-rewritten_example =
    rewrite_stream-rewritten base index_route
      (codes "<a href=https://files.py" ∷ codes "thonhosted.org" ∷ []) (codes "/x.whl>")
