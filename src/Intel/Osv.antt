-- ===== src/Intel/Osv.antt =====
-- internal/intel/osv.go: from the records of an OSV response to findings. The float parser of
-- package strconv, the CVSS libraries and golang.org/x/mod/semver are the fields of `Libraries`.
use package_firewall.Common.{
  ℕ, Bool, false, not, ◌||◌, Option, none, some, List, [], ◌∷◌, ltb, if◌then◌else◌,
}
use package_firewall.Common.Text.{Text, codes, text_eq, is_empty, has_prefix, trim_space}
use package_firewall.Policy.Types.{Package}
use package_firewall.Intel.Ranges.{Affected, affected_ranges}
use package_firewall.Intel.Decision.{Finding, Findings}

-- A score that is negative or no number never exceeds the maximum of `maxSeverity`, and is 0 here.
pub record Libraries : Type 0 where
  pub parse_float : Text → Option ℕ
  pub cvss20 : Text → Option ℕ
  pub cvss30 : Text → Option ℕ
  pub cvss31 : Text → Option ℕ
  pub cvss40 : Text → Option ℕ
  pub semver_valid : Text → Bool
  pub semver_after : Text → Text → Bool

-- `osvVulnerability`; `withdrawn` is nil or a time, and of each severity only the score is read
pub record Vulnerability : Type 0 where
  pub id : Text
  pub aliases : List Text
  pub summary : Text
  pub scores : List Text
  pub affected : List Affected
  pub withdrawn : Option ℕ
  pub cwe_ids : List Text

unfoldable pub osv_package : Package → Text × Text
osv_package pkg =
    if text_eq pkg.ecosystem (codes "npm")
    then (codes "npm", pkg.name)
    else if text_eq pkg.ecosystem (codes "pypi")
    then (codes "PyPI", pkg.name)
    else if text_eq pkg.ecosystem (codes "maven")
    then (codes "Maven", pkg.name)
    else if text_eq pkg.ecosystem (codes "go")
    then (codes "Go", pkg.name)
    else ([], [])

unfoldable pub semver_ordered : Text → Bool
semver_ordered ecosystem = text_eq ecosystem (codes "npm") || text_eq ecosystem (codes "Go")

-- A library's score, or 0 if the library rejects the vector.
abbrev score_or_zero : Option ℕ → ℕ
score_or_zero none = 0
score_or_zero (some s) = s

module _ (lib : Libraries) where
  unfoldable pub severity_score : Text → ℕ
  unfolding trim_space
  severity_score raw =
      let trimmed = trim_space raw in
      if is_empty trimmed then 0 else (elim (lib.parse_float trimmed) [
        | some parsed ↦ parsed
        | none ↦
            if has_prefix trimmed (codes "CVSS:3.0")
            then score_or_zero (lib.cvss30 trimmed)
            else if has_prefix trimmed (codes "CVSS:3.1")
            then score_or_zero (lib.cvss31 trimmed)
            else if has_prefix trimmed (codes "CVSS:4.0")
            then score_or_zero (lib.cvss40 trimmed)
            else score_or_zero (lib.cvss20 trimmed)
      ])

  unfoldable pub max_severity_from : ℕ → List Text → ℕ
  max_severity_from highest [] = highest
  max_severity_from highest (item ∷ items) =
      max_severity_from (if ltb highest (severity_score item) then severity_score item else highest)
        items

  -- `semverOf`
  unfoldable pub semver_of : Text → Text
  semver_of version =
      let tagged = if has_prefix version (codes "v") then version else b'v' ∷ version in
      if lib.semver_valid tagged then tagged else []

  -- The loop of `fixesAfter`.
  unfoldable pub later_fixes : Text → List Text → List Text
  unfolding semver_of
  later_fixes current [] = []
  later_fixes current (candidate ∷ candidates) =
      let v = semver_of candidate in
      let rest = later_fixes current candidates in
      if is_empty v || lib.semver_after v current then candidate ∷ rest else rest

  unfoldable pub fixes_after : List Text → Text → List Text
  unfolding later_fixes
  fixes_after fixed version =
      let current = semver_of version in
      if is_empty current then fixed else later_fixes current fixed

  -- `vuln.Withdrawn != nil && !vuln.Withdrawn.After(time.Now())`
  unfoldable pub is_withdrawn : ℕ → Option ℕ → Bool
  is_withdrawn now none = false
  is_withdrawn now (some at) = not (ltb now at)

  unfoldable pub to_finding : Text → Text → Text → Vulnerability → Finding
  unfolding affected_ranges fixes_after max_severity_from severity_score semver_ordered
  to_finding ecosystem name version vuln =
      let ranges = affected_ranges vuln.affected ecosystem name in
      record {
        id = vuln.id;
        aliases = vuln.aliases;
        summary = vuln.summary;
        severity = max_severity_from 0 vuln.scores;
        cwes = vuln.cwe_ids;
        affected = ranges.affected;
        fixed = if semver_ordered ecosystem then fixes_after ranges.fixed version else ranges.fixed;
      }

  -- The loop of `fetch` over the decoded records.
  unfoldable pub to_findings : ℕ → Text → Text → Text → List Vulnerability → Findings
  unfolding is_withdrawn to_finding
  to_findings now ecosystem name version [] = []
  to_findings now ecosystem name version (vuln ∷ vulns) =
      let rest = to_findings now ecosystem name version vulns in
      if is_withdrawn now vuln.withdrawn
      then rest
      else to_finding ecosystem name version vuln ∷ rest
