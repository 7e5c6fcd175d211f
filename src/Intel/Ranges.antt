-- ===== src/Intel/Ranges.antt =====
-- internal/intel/osv.go, `affectedRanges`: the version ranges of an advisory that apply to a package,
-- rendered as text, and the versions that fix it.
use package_firewall.Common.{not, ◌&&◌, ◌||◌, List, [], ◌∷◌, ◌++◌, ◌==◌, if◌then◌else◌}
use package_firewall.Common.Text.{Text, codes, text_eq, is_empty, to_lower, equal_fold}
use package_firewall.Common.Lists.{any}

-- `osvEvent`
pub record Event : Type 0 where
  pub introduced : Text
  pub fixed : Text
  pub last_affected : Text
  pub limit : Text

-- `osvRange`
pub record Range : Type 0 where
  pub kind : Text
  pub events : List Event

-- `osvAffected`, with the fields of its `osvPackageRef`
pub record Affected : Type 0 where
  pub name : Text
  pub ecosystem : Text
  pub ranges : List Range

-- The ranges and the fixed versions that `affectedRanges` has collected. A version is in its map
-- `seenFixed` exactly if it is in `fixed`.
pub record Ranges : Type 0 where
  pub affected : List Text
  pub fixed : List Text

unfoldable pub range_text : Text → Text → Text
range_text introduced upper =
    let from = if text_eq introduced (codes "0") then [] else introduced in
    if is_empty from && is_empty upper
    then codes "all versions"
    else if is_empty from
    then upper
    else if is_empty upper
    then codes ">=" ++ from
    else codes ">=" ++ (from ++ (codes ", " ++ upper))

unfoldable pub add_fixed : Text → List Text → List Text
add_fixed version fixed =
    if any (λ v. text_eq v version) fixed then fixed else fixed ++ version ∷ []

abbrev add_range : Text → Text → Ranges → Ranges
add_range lower upper acc = record acc { affected = acc.affected ++ range_text lower upper ∷ [] }

-- The `switch` over one event: the new `lower`, and what has been collected.
unfoldable pub event_step : Text → Event → Ranges → Text × Ranges
unfolding add_fixed range_text
event_step lower event acc =
    if not (is_empty event.introduced)
    then (event.introduced, acc)
    else if not (is_empty event.fixed)
    then (
      [],
      record {
        affected = acc.affected ++ range_text lower (codes "<" ++ event.fixed) ∷ [];
        fixed = add_fixed event.fixed acc.fixed;
      },
    )
    else if not (is_empty event.last_affected)
    then ([], add_range lower (codes "<=" ++ event.last_affected) acc)
    else if not (is_empty event.limit)
    then ([], add_range lower (codes "<" ++ event.limit) acc)
    else (lower, acc)

-- The loop over the events of a range, and what follows it.
unfoldable pub events_loop : Text → List Event → Ranges → Ranges
unfolding event_step
events_loop lower [] acc = if is_empty lower then acc else add_range lower [] acc
events_loop lower (event ∷ events) acc =
    let (lower', acc') = event_step lower event acc in events_loop lower' events acc'

unfoldable pub ranges_loop : List Range → Ranges → Ranges
unfolding events_loop
ranges_loop [] acc = acc
ranges_loop (r ∷ rs) acc =
    ranges_loop rs (if text_eq r.kind (codes "GIT") then acc else events_loop [] r.events acc)

unfoldable pub entries_loop : List Affected → Ranges → Ranges
unfolding ranges_loop
entries_loop [] acc = acc
entries_loop (entry ∷ entries) acc = entries_loop entries (ranges_loop entry.ranges acc)

-- strings.NewReplacer("_", "-", ".", "-")
unfoldable pub dashes : Text → Text
dashes [] = []
dashes (c ∷ s) = (if c == b'_' || c == b'.' then b'-' else c) ∷ dashes s

unfoldable pub normalize_osv_name : Text → Text → Text
unfolding dashes to_lower
normalize_osv_name ecosystem name =
    if text_eq ecosystem (codes "PyPI") then dashes (to_lower name) else to_lower name

-- The loop that selects the entries for the queried package.
unfoldable pub matching : Text → Text → List Affected → List Affected
unfolding normalize_osv_name equal_fold
matching ecosystem name [] = []
matching ecosystem name (entry ∷ entries) =
    let rest = matching ecosystem name entries in
    if equal_fold entry.ecosystem ecosystem
      && text_eq (normalize_osv_name ecosystem entry.name) (normalize_osv_name ecosystem name)
    then entry ∷ rest
    else rest

abbrev none_matching : List Affected → List Affected → List Affected
none_matching [] entries = entries
none_matching (m ∷ ms) entries = m ∷ ms

unfoldable pub affected_ranges : List Affected → Text → Text → Ranges
unfolding entries_loop matching
affected_ranges entries ecosystem name =
    entries_loop (none_matching (matching ecosystem name entries) entries)
      (record { affected = []; fixed = [] })
