-- ===== src/Registry/Golang.antt =====
-- internal/registry/golang.go, internal/registry/maven.go and internal/registry/static.go. The
-- functions of golang.org/x/mod/module are arguments.
use package_firewall.Common.{
  ◌-◌, Bool, true, false, not, ◌&&◌, ◌||◌, Option, none, some, List, [], ◌∷◌, ◌++◌, ◌==◌, leb,
  if◌then◌else◌,
}
use package_firewall.Common.Text.{Text, codes, text_eq, is_empty, has_prefix, join}
use package_firewall.Common.Lists.{any}
use package_firewall.Common.Cut.{cut, cut_suffix, has_suffix}
use package_firewall.Policy.Types.{Package}
use package_firewall.Registry.Types.{Route, RequestInfo}
use package_firewall.Registry.Purl.{split_path, purl_of}

-- `unescapeGoModule`
unfoldable pub unescape_go_module : Text → Text
unescape_go_module [] = []
unescape_go_module (c ∷ []) = c ∷ []
unescape_go_module (c ∷ next ∷ s) =
    let after = unescape_go_module s in
    let rest = unescape_go_module (next ∷ s) in
    if (c == b'!') && (leb b'a' next && leb next b'z') then (next - 32) ∷ after else c ∷ rest

-- module.UnescapeVersion, with `none` for its error, and module.CanonicalVersion
pub record Versions : Type 0 where
  pub unescape_version : Text → Option Text
  pub canonical_version : Text → Text

module _ (versions : Versions) where
  -- `isCanonicalGoModuleVersion`
  unfoldable pub is_canonical_go_module_version : Text → Bool
  unfolding text_eq
  is_canonical_go_module_version version = elim (versions.unescape_version version) [
    | none ↦ false
    | some unescaped ↦ text_eq (versions.canonical_version unescaped) unescaped
  ]

  unfoldable pub policy_version : Text → Text
  policy_version version = elim (versions.unescape_version version) [
    | none ↦ version
    | some unescaped ↦ unescaped
  ]

  -- The package of a module and a version.
  unfoldable pub go_package : Route → Text → Text → Package
  unfolding policy_version purl_of unescape_go_module
  go_package route escaped version =
      let name = unescape_go_module escaped in
      let unescaped = policy_version version in
      record {
        ecosystem = route.ecosystem;
        name = name;
        version = unescaped;
        purl = purl_of (codes "go") name unescaped;
        published_at = 0;
      }

  -- A `.info` or a `.mod` file.
  unfoldable pub go_metadata : Route → Text → Text → RequestInfo → RequestInfo
  unfolding go_package is_canonical_go_module_version
  go_metadata route escaped version info = record info {
    kind = codes "metadata";
    needs_decision = true;
    cacheable = is_canonical_go_module_version version;
    skip_vulnerability_check = true;
    pkg = go_package route escaped version;
  }

  unfoldable pub go_artifact : Route → Text → Text → RequestInfo → RequestInfo
  unfolding go_package
  go_artifact route escaped version info = record info {
    kind = codes "artifact";
    needs_decision = true;
    pkg = go_package route escaped version;
  }

  unfoldable pub go_by_suffix :
      Route → Text → Option Text → Option Text → Option Text → RequestInfo → RequestInfo
  unfolding go_metadata go_artifact
  go_by_suffix route escaped (some version) _ _ info = go_metadata route escaped version info
  go_by_suffix route escaped none (some version) _ info = go_metadata route escaped version info
  go_by_suffix route escaped none none (some version) info = go_artifact route escaped version info
  go_by_suffix route escaped none none none info = info

  unfoldable pub go_by_cut : Route → Option (Text × Text) → RequestInfo → RequestInfo
  unfolding go_by_suffix cut_suffix
  go_by_cut route none info = info
  go_by_cut route (some (escaped, file)) info =
      go_by_suffix route escaped (cut_suffix file (codes ".info")) (cut_suffix file (codes ".mod"))
        (cut_suffix file (codes ".zip")) info

  -- `identifyGo`
  unfoldable pub identify_go : Route → Text → RequestInfo → RequestInfo
  unfolding go_by_cut cut
  identify_go route relative info = go_by_cut route (cut relative (codes "/@v/")) info

-- The last three parts and those before them, where there are four at least.
unfoldable pub maven_parts : List Text → Option (List Text × Text × Text × Text)
maven_parts [] = none
maven_parts (a ∷ []) = none
maven_parts (a ∷ b ∷ []) = none
maven_parts (a ∷ b ∷ c ∷ []) = none
maven_parts (a ∷ b ∷ c ∷ d ∷ []) = some (a ∷ [], b, c, d)
maven_parts (a ∷ b ∷ c ∷ d ∷ e ∷ parts) = elim (maven_parts (b ∷ c ∷ d ∷ e ∷ parts)) [
  | none ↦ none
  | some (group, artifact, version, file) ↦ some (a ∷ group, artifact, version, file)
]

-- The files that are not artifacts.
unfoldable pub is_maven_metadata : Text → Bool
unfolding has_suffix has_prefix
is_maven_metadata filename =
    has_prefix filename (codes "maven-metadata.xml")
    || has_suffix filename (codes ".sha1")
    || has_suffix filename (codes ".md5")
    || has_suffix filename (codes ".sha256")
    || has_suffix filename (codes ".sha512")

unfoldable pub maven_package : Route → List Text → Text → Text → Package
unfolding purl_of join
maven_package route group artifact version =
    let group_id = join group (codes ".") in
    record {
      ecosystem = route.ecosystem;
      name = group_id ++ (codes ":" ++ artifact);
      version = version;
      purl = purl_of (codes "maven") (group_id ++ (codes "/" ++ artifact)) version;
      published_at = 0;
    }

unfoldable pub maven_by_parts :
    Route → Option (List Text × Text × Text × Text) → RequestInfo → RequestInfo
unfolding maven_package is_maven_metadata has_prefix
maven_by_parts route none info = info
maven_by_parts route (some (group, artifact, version, filename)) info =
    if is_maven_metadata filename || not (has_prefix filename (artifact ++ (codes "-" ++ version)))
    then info
    else record info {
      kind = codes "artifact";
      needs_decision = true;
      pkg = maven_package route group artifact version;
    }

-- `identifyMaven`
unfoldable pub identify_maven : Route → Text → RequestInfo → RequestInfo
unfolding maven_by_parts maven_parts split_path
identify_maven route relative info = maven_by_parts route (maven_parts (split_path relative)) info

-- A part that names no file or directory.
unfoldable pub is_dots : Text → Bool
unfolding text_eq
is_dots part = is_empty part || text_eq part (codes ".") || text_eq part (codes "..")

abbrev pub static_asset_version : Text
static_asset_version = codes "static"

unfoldable pub static_by_parts : Route → List Text → RequestInfo → RequestInfo
unfolding is_dots join
static_by_parts route [] info = info
static_by_parts route (part ∷ parts) info =
    if any is_dots (part ∷ parts)
    then info
    else (let name = join (part ∷ parts) (codes "/") in
        record info {
          kind = codes "artifact";
          cacheable = true;
          needs_decision = true;
          skip_vulnerability_check = true;
          pkg = record {
            ecosystem = route.ecosystem;
            name = name;
            version = static_asset_version;
            purl = codes "pkg:generic/" ++ (name ++ (codes "@" ++ static_asset_version));
            published_at = 0;
          };
        })

-- `identifyStatic`
unfoldable pub identify_static : Route → Text → RequestInfo → RequestInfo
unfolding static_by_parts split_path has_suffix
identify_static route relative info =
    if is_empty relative || has_suffix relative (codes "/")
    then info
    else static_by_parts route (split_path relative) info
