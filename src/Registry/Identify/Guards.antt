-- ===== src/Registry/Identify/Guards.antt =====
-- Which requests `Identify` lets pass without a decision.
use package_firewall.Common.{
  ◌≡◌, refl, Bool, true, false, Option, none, some, List, [], ◌∷◌, ◌++◌, ◌||◌, ◌&&◌, not,
  if◌then◌else◌,
}
use package_firewall.Common.Text.{Text, codes, text_eq, is_empty, has_prefix}
use package_firewall.Common.Lists.{any}
use package_firewall.Common.Cut.{has_suffix, cut}
use package_firewall.Registry.Types.{Route, RequestInfo}
use package_firewall.Registry.Purl.{split_path}
use package_firewall.Registry.Npm.{npm_by_parts, identify_npm, tarball_parts, is_none_left}
use package_firewall.Registry.Pypi.{identify_pypi, pypi_artifact, pypi_index}
use package_firewall.Registry.Golang.{
  Versions, identify_go, go_by_cut, go_by_suffix, go_metadata, go_artifact, identify_maven,
  maven_by_parts, maven_parts, is_maven_metadata, identify_static, static_by_parts, is_dots,
}
use package_firewall.Registry.Identify.{metadata_at, relative_path, identify_relative, identify}

-- The description of a request that needs no decision.
pub record IsMetadata (info : RequestInfo) : Type 0 where
  pub not_cacheable : info.cacheable ≡ false
  pub vulnerability_checked : info.skip_vulnerability_check ≡ false
  pub from_index : info.file_upstream ≡ false
  pub unidentified : info.pkg.purl ≡ []
  pub as_metadata : info.kind ≡ codes "metadata"

abbrev Guarded : RequestInfo → Type 0
Guarded info = info.needs_decision ≡ false → IsMetadata info

if-Guarded : (b : Bool) {x y : RequestInfo} → Guarded x → Guarded y → Guarded (if b then x else y)
if-Guarded true p q = p
if-Guarded false p q = q

metadata_at-Guarded : (relative : Text) → Guarded (metadata_at relative)
metadata_at-Guarded relative _ = record {
  not_cacheable = refl;
  vulnerability_checked = refl;
  from_index = refl;
  unidentified = refl;
  as_metadata = refl;
}

decided : (info : RequestInfo) → info.needs_decision ≡ true → Guarded info
decided info h k = cc

module _ (route : Route) (info : RequestInfo) (guarded : Guarded info) where
  npm_metadata-Guarded : (parts : List Text) → Guarded (npm_by_parts route parts none info)
  unfolding npm_by_parts
  npm_metadata-Guarded parts h =
      let m = guarded h in
      record {
        not_cacheable = m.not_cacheable;
        vulnerability_checked = m.vulnerability_checked;
        from_index = m.from_index;
        unidentified = refl;
        as_metadata = m.as_metadata;
      }

  npm-Guarded :
      (parts : List Text) (o : Option (List Text × Text × Text))
      → Guarded (npm_by_parts route parts o info)
  unfolding npm_by_parts
  npm-Guarded parts none = npm_metadata-Guarded parts
  npm-Guarded parts (some (front, dash, file)) =
      if-Guarded (text_eq dash (codes "-") && has_suffix file (codes ".tgz")) (decided _ refl)
        (npm_metadata-Guarded parts)

  index-Guarded : (parts : List Text) → Guarded (pypi_index route parts info)
  unfolding pypi_index
  index-Guarded [] h = guarded h
  index-Guarded (_ ∷ []) h = guarded h
  index-Guarded (_ ∷ name ∷ _) h =
      let m = guarded h in
      record {
        not_cacheable = m.not_cacheable;
        vulnerability_checked = m.vulnerability_checked;
        from_index = m.from_index;
        unidentified = refl;
        as_metadata = m.as_metadata;
      }

  pypi-Guarded : (relative : Text) → Guarded (identify_pypi route relative info)
  unfolding identify_pypi pypi_artifact
  pypi-Guarded relative = if-Guarded (has_prefix relative (codes "files/")) (decided _ refl) (
      if-Guarded (has_prefix relative (codes "simple/")) (index-Guarded (split_path relative))
        guarded)

  maven-Guarded :
      (o : Option (List Text × Text × Text × Text)) → Guarded (maven_by_parts route o info)
  unfolding maven_by_parts
  maven-Guarded none = guarded
  maven-Guarded (some (group, artifact, version, filename)) =
      if-Guarded
        (is_maven_metadata filename
          || not (has_prefix filename (artifact ++ (codes "-" ++ version))))
        guarded (decided _ refl)

  static-Guarded : (parts : List Text) → Guarded (static_by_parts route parts info)
  unfolding static_by_parts
  static-Guarded [] = guarded
  static-Guarded (part ∷ parts) = if-Guarded (any is_dots (part ∷ parts)) guarded (decided _ refl)

  identify_npm-Guarded : (relative : Text) → Guarded (identify_npm route relative info)
  unfolding identify_npm
  identify_npm-Guarded relative =
      if-Guarded (is_none_left (split_path relative)) guarded
        (npm-Guarded (split_path relative) (tarball_parts (split_path relative)))

  identify_maven-Guarded : (relative : Text) → Guarded (identify_maven route relative info)
  unfolding identify_maven
  identify_maven-Guarded relative = maven-Guarded (maven_parts (split_path relative))

  identify_static-Guarded : (relative : Text) → Guarded (identify_static route relative info)
  unfolding identify_static
  identify_static-Guarded relative =
      if-Guarded (is_empty relative || has_suffix relative (codes "/")) guarded
        (static-Guarded (split_path relative))

  module _ (versions : Versions) where
    go_suffix-Guarded :
        (escaped : Text) (a b c : Option Text)
        → Guarded (go_by_suffix versions route escaped a b c info)
    unfolding go_by_suffix go_metadata go_artifact
    go_suffix-Guarded escaped (some v) b c = λ h. cc
    go_suffix-Guarded escaped none (some v) c = λ h. cc
    go_suffix-Guarded escaped none none (some v) = λ h. cc
    go_suffix-Guarded escaped none none none = guarded

    go-Guarded : (o : Option (Text × Text)) → Guarded (go_by_cut versions route o info)
    unfolding go_by_cut
    go-Guarded none = guarded
    go-Guarded (some (escaped, file)) = go_suffix-Guarded escaped _ _ _

    identify_go-Guarded : (relative : Text) → Guarded (identify_go versions route relative info)
    unfolding identify_go
    identify_go-Guarded relative = go-Guarded (cut relative (codes "/@v/"))

    relative-Guarded : (relative : Text) → Guarded (identify_relative versions route relative info)
    unfolding identify_relative
    relative-Guarded relative =
        if-Guarded (text_eq route.ecosystem (codes "npm")) (identify_npm-Guarded relative) (
          if-Guarded (text_eq route.ecosystem (codes "pypi")) (pypi-Guarded relative) (
            if-Guarded (text_eq route.ecosystem (codes "maven")) (identify_maven-Guarded relative) (
              if-Guarded (text_eq route.ecosystem (codes "go")) (identify_go-Guarded relative) (
                if-Guarded (text_eq route.ecosystem (codes "static"))
                  (identify_static-Guarded relative) guarded))))

-- A request that `Identify` says needs no decision is metadata from the index: the response is not
-- cacheable, the vulnerability check is not skipped and the package has no URL.
pub identify-IsMetadata :
    (versions : Versions) (route : Route) (path : Text)
    → (identify versions route path).needs_decision ≡ false
    → IsMetadata (identify versions route path)
unfolding identify
identify-IsMetadata versions route path =
    relative-Guarded route _ (metadata_at-Guarded (relative_path route path)) versions
      (relative_path route path)
