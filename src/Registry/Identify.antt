-- ===== src/Registry/Identify.antt =====
-- internal/registry/registry.go, `Identify` and `PackageFromPURL`.
pub mod Guards
pub mod RoundTrip
use package_firewall.Common.{
  ℕ, Bool, true, false, ◌||◌, Option, none, some, List, [], ◌∷◌, ◌++◌, if◌then◌else◌,
}
use package_firewall.Common.Text.{Text, codes, text_eq, is_empty}
use package_firewall.Common.Cut.{cut_prefix, trim_prefix, cut}
use package_firewall.Policy.Types.{Package}
use package_firewall.Registry.Types.{Route, RequestInfo}
use package_firewall.Registry.Purl.{purl_of, unescape_path_part}
use package_firewall.Registry.Npm.{identify_npm}
use package_firewall.Registry.Pypi.{identify_pypi, normalize_pypi}
use package_firewall.Registry.Golang.{Versions, identify_go, identify_maven, identify_static}

abbrev pub no_package : Package
no_package = record { ecosystem = []; name = []; version = []; purl = []; published_at = 0 }

abbrev pub metadata_at : Text → RequestInfo
metadata_at relative = record {
  pkg = no_package;
  kind = codes "metadata";
  upstream_path = codes "/" ++ relative;
  file_upstream = false;
  needs_decision = false;
  cacheable = false;
  skip_vulnerability_check = false;
}

-- The path that is left of the prefix and one `/`.
unfoldable pub relative_path : Route → Text → Text
unfolding trim_prefix
relative_path route request_path =
    trim_prefix (trim_prefix request_path route.path_prefix) (codes "/")

-- The `switch` of `Identify`.
unfoldable pub identify_relative : Versions → Route → Text → RequestInfo → RequestInfo
unfolding identify_npm identify_pypi identify_maven identify_go identify_static text_eq
identify_relative versions route relative info =
    if text_eq route.ecosystem (codes "npm")
    then identify_npm route relative info
    else if text_eq route.ecosystem (codes "pypi")
    then identify_pypi route relative info
    else if text_eq route.ecosystem (codes "maven")
    then identify_maven route relative info
    else if text_eq route.ecosystem (codes "go")
    then identify_go versions route relative info
    else if text_eq route.ecosystem (codes "static")
    then identify_static route relative info
    else info

unfoldable pub identify : Versions → Route → Text → RequestInfo
unfolding identify_relative relative_path
identify versions route request_path =
    identify_relative versions route (relative_path route request_path)
      (metadata_at (relative_path route request_path))

abbrev pub start_of : Text → Option (Text × Text) → Text
start_of s none = s
start_of s (some (start, _)) = start

-- The part before the first `sep`, or all.
unfoldable pub before : Text → Text → Text
before s sep = start_of s (cut s sep)

abbrev pub last_step : ℕ → Option Text → Option (Text × Text) → Option (Text × Text)
last_step c here (some (start, end)) = some (c ∷ start, end)
last_step c none none = none
last_step c (some end) none = some ([], end)

-- The two sides of the last `@`, at strings.LastIndex.
unfoldable pub cut_last_at : Text → Option (Text × Text)
unfolding cut_prefix
cut_last_at [] = none
cut_last_at (c ∷ s) = last_step c (cut_prefix (c ∷ s) (codes "@")) (cut_last_at s)

abbrev pub package_of : Text → Text → Text → Text → Package
package_of ecosystem policy_name name version = record {
  ecosystem = ecosystem;
  name = policy_name;
  version = version;
  purl = purl_of ecosystem name version;
  published_at = 0;
}

-- The `switch` on the type of a package URL.
unfoldable pub package_by_type : Text → Text → Text → Option Package
unfolding text_eq normalize_pypi cut
package_by_type purl_type name version =
    if text_eq purl_type (codes "npm")
    then some (package_of (codes "npm") name name version)
    else if text_eq purl_type (codes "pypi")
    then some (package_of (codes "pypi") (normalize_pypi name) (normalize_pypi name) version)
    else if text_eq purl_type (codes "maven")
    then elim (cut name (codes "/")) [
      | none ↦ none
      | some (group, artifact) ↦
          some (package_of (codes "maven") (group ++ (codes ":" ++ artifact)) name version)
    ]
    else if text_eq purl_type (codes "golang")
    then some (package_of (codes "go") name name version)
    else none

unfoldable pub package_at : Text → Option (Text × Text) → Option Package
package_at purl_type none = none
package_at purl_type (some (name, version)) =
    if is_empty name || is_empty version
    then none
    else package_by_type purl_type (unescape_path_part name) (unescape_path_part version)

unfoldable pub package_of_typed : Option (Text × Text) → Option Package
package_of_typed none = none
package_of_typed (some (purl_type, rest)) =
    package_at purl_type (cut_last_at (before (before rest (codes "#")) (codes "?")))

-- `PackageFromPURL`; `none` stands for its errors.
unfoldable pub package_from_purl : Text → Option Package
package_from_purl raw = elim (cut_prefix raw (codes "pkg:")) [
  | none ↦ none
  | some rest ↦ package_of_typed (cut rest (codes "/"))
]
