-- ===== src/Registry/Pypi.antt =====
-- internal/registry/pypi.go. The expressions for wheels and source archives are recognisers that
-- take the shortest name.
use package_firewall.Common.{
  ℕ, Bool, true, false, not, ◌&&◌, ◌||◌, Option, none, some, List, [], ◌∷◌, ◌++◌, ◌==◌, leb,
  if◌then◌else◌,
}
use package_firewall.Common.Text.{Text, codes, has_prefix, to_lower}
use package_firewall.Common.Lists.{any}
use package_firewall.Common.Cut.{cut, cut_suffix, has_suffix, trim_prefix}
use package_firewall.Registry.Types.{Route, RequestInfo}
use package_firewall.Registry.Purl.{split_path, last_path_part, purl_of}
use package_firewall.Registry.Npm.{is_digit}

abbrev pub has_newline : Text → Bool
has_newline s = any (λ c. c == 10) s

-- `.*\.whl$` after the version's `-`
unfoldable pub wheel_version : Option (Text × Text) → Option Text
unfolding has_suffix
wheel_version none = none
wheel_version (some (version, tail)) =
    if has_suffix tail (codes ".whl") && not (has_newline tail) then some version else none

-- `([0-9][^-]*)-.*\.whl$`
unfoldable pub wheel_rest : Text → Option Text
unfolding wheel_version cut is_digit
wheel_rest [] = none
wheel_rest (c ∷ s) = if is_digit c then wheel_version (cut (c ∷ s) (codes "-")) else none

-- `[A-Za-z0-9.!+_-]`
unfoldable pub is_sdist_char : ℕ → Bool
unfolding is_digit
is_sdist_char c =
    is_digit c
    || (leb b'A' c && leb c b'Z')
    || (leb b'a' c && leb c b'z')
    || c == b'.'
    || c == b'!'
    || c == b'+'
    || c == b'_'
    || c == b'-'

unfoldable pub sdist_version : Option Text → Option Text
unfolding is_sdist_char is_digit
sdist_version none = none
sdist_version (some []) = none
sdist_version (some (c ∷ s)) =
    if is_digit c && not (any (λ x. not (is_sdist_char x)) s) then some (c ∷ s) else none

abbrev pub or_else_text : Option Text → Option Text → Option Text
or_else_text none other = other
or_else_text (some s) _ = some s

-- `([0-9][A-Za-z0-9.!+_-]*)\.(?:tar\.gz|zip|tar\.bz2|tar\.xz)$`
unfoldable pub sdist_rest : Text → Option Text
unfolding sdist_version cut_suffix
sdist_rest s = or_else_text (sdist_version (cut_suffix s (codes ".tar.gz"))) (
    or_else_text (sdist_version (cut_suffix s (codes ".zip"))) (
      or_else_text (sdist_version (cut_suffix s (codes ".tar.bz2")))
        (sdist_version (cut_suffix s (codes ".tar.xz")))))

abbrev pub named : Text → Option Text → Option (Text × Text) → Option (Text × Text)
named before (some version) later = some (before, version)
named before none later = later

abbrev pub keep_first : ℕ → Option (Text × Text) → Option (Text × Text)
keep_first c none = none
keep_first c (some (name, version)) = some (c ∷ name, version)

-- The first `-` after a name of one character at least that `rest` accepts what follows.
unfoldable pub first_dash : (Text → Option Text) → Bool → Text → Option (Text × Text)
first_dash rest started [] = none
first_dash rest started (c ∷ s) =
    let later = keep_first c (first_dash rest true s) in
    let further = if c == 10 then none else later in
    if started && (c == b'-') then named [] (rest s) further else further

-- `parsePyPIFile`
unfoldable pub parse_pypi_file : Text → Text × Text
unfolding first_dash wheel_rest sdist_rest
parse_pypi_file filename = elim (first_dash wheel_rest false filename) [
  | some wheel ↦ wheel
  | none ↦ elim (first_dash sdist_rest false filename) [ some sdist ↦ sdist | none ↦ ([], []) ]
]

abbrev pub is_separator : ℕ → Bool
is_separator c = c == b'-' || c == b'_' || c == b'.'

-- `[-_.]+` replaced by `-`; the first argument tells whether a run has been replaced just before.
unfoldable pub collapse : Bool → Text → Text
collapse in_run [] = []
collapse in_run (c ∷ s) =
    let run = collapse true s in
    let rest = collapse false s in
    if is_separator c then (if in_run then run else b'-' ∷ run) else c ∷ rest

-- `normalizePyPI`
unfoldable pub normalize_pypi : Text → Text
unfolding collapse to_lower
normalize_pypi name = to_lower (collapse false name)

unfoldable pub pypi_artifact : Route → Text → Text × Text → RequestInfo → RequestInfo
unfolding normalize_pypi purl_of trim_prefix
pypi_artifact route relative (name, version) info = record info {
  file_upstream = true;
  kind = codes "artifact";
  needs_decision = true;
  pkg = record {
    ecosystem = route.ecosystem;
    name = normalize_pypi name;
    version = version;
    purl = purl_of (codes "pypi") (normalize_pypi name) version;
    published_at = 0;
  };
  upstream_path = codes "/" ++ trim_prefix relative (codes "files/");
}

unfoldable pub pypi_index : Route → List Text → RequestInfo → RequestInfo
unfolding normalize_pypi
pypi_index route (_ ∷ name ∷ _) info = record info {
  pkg = record {
    ecosystem = route.ecosystem;
    name = normalize_pypi name;
    version = [];
    purl = [];
    published_at = 0;
  };
}
pypi_index route _ info = info

-- `identifyPyPI`
unfoldable pub identify_pypi : Route → Text → RequestInfo → RequestInfo
unfolding pypi_artifact pypi_index parse_pypi_file last_path_part split_path has_prefix
identify_pypi route relative info =
    if has_prefix relative (codes "files/")
    then pypi_artifact route relative (parse_pypi_file (last_path_part relative)) info
    else if has_prefix relative (codes "simple/")
    then pypi_index route (split_path relative) info
    else info
