-- ===== src/Proxy/Paths.antt =====
-- internal/proxy/proxy.go: the URL that a request goes to.
use package_firewall.Common.{
  Bool, true, false, not, ◌&&◌, ◌||◌, Option, none, some, List, [], ◌∷◌, ◌++◌, if◌then◌else◌,
}
use package_firewall.Common.Text.{Text, codes, text_eq, is_empty, contains_any}
use package_firewall.Common.Cut.{split, trim_left, trim_right}
use package_firewall.Registry.Types.{RequestInfo}
use package_firewall.Registry.Purl.{path_unescape}
use package_firewall.Server.Handle.{RouteConfig}
use package_firewall.Proxy.Redirect.{Urls}

-- A segment that is `.`, `..` or contains a separator, as it stands or decoded, or cannot be decoded.
unfoldable pub unsafe_segment : Text → Bool
unfolding path_unescape text_eq contains_any
unsafe_segment part = if is_empty part then false else elim (path_unescape part) [
  | none ↦ true
  | some decoded ↦
      text_eq part (codes ".")
      || text_eq part (codes "..")
      || text_eq decoded (codes ".")
      || text_eq decoded (codes "..")
      || contains_any decoded (codes "/\\")
]

abbrev pub any_unsafe : List Text → Bool
any_unsafe [] = false
any_unsafe (part ∷ parts) = unsafe_segment part || any_unsafe parts

-- `safeUpstreamPath`; `none` for its errors
unfoldable pub safe_upstream_path : Text → Option Text
unfolding unsafe_segment split trim_left
safe_upstream_path value =
    let path = codes "/" ++ trim_left b'/' value in
    if any_unsafe (split b'/' path) then none else some path

module _ (urls : Urls) where
  -- `upstreamURL`
  unfoldable pub upstream_url : RouteConfig → RequestInfo → Option Text
  unfolding safe_upstream_path trim_right
  upstream_url route info =
      let raw =
        if info.file_upstream && not (is_empty route.file_upstream_url)
        then route.file_upstream_url
        else route.upstream_url in
      elim (urls.parse raw) [
        | none ↦ none
        | some base ↦ elim (safe_upstream_path info.upstream_path) [
          | none ↦ none
          | some path ↦ some (urls.print (record base { path = trim_right b'/' base.path ++ path }))
        ]
      ]

  -- `withRequestQuery`, on the query of the request
  unfoldable pub with_request_query : Text → Text → Bool → Option Text
  with_request_query target raw_query force_query =
      if is_empty raw_query && not force_query then some target else elim (urls.parse target) [
        | none ↦ none
        | some parsed ↦
            let query =
              if is_empty parsed.raw_query
              then raw_query
              else if not (is_empty raw_query)
              then parsed.raw_query ++ (codes "&" ++ raw_query)
              else parsed.raw_query in
            some (
              urls.print (record parsed {
                raw_query = query;
                force_query = parsed.force_query || force_query;
              }))
      ]
