-- ===== src/Registry/Npm.antt =====
-- internal/registry/npm.go. The expression for the version of a tarball is a recogniser, and
-- `path.Join` of two path parts is `path_join`.
use package_firewall.Common.{
  ℕ, ◌-◌, Bool, true, false, not, ◌&&◌, ◌||◌, Option, none, some, List, [], ◌∷◌, ◌++◌, ◌==◌, leb,
  if◌then◌else◌,
}
use package_firewall.Common.Text.{Text, codes, text_eq, is_empty, has_prefix, join}
use package_firewall.Common.Lists.{any}
use package_firewall.Common.Cut.{split, cut_suffix, has_suffix}
use package_firewall.Registry.Types.{Route, RequestInfo}
use package_firewall.Registry.Purl.{split_path, unescape_path_part, purl_of}

unfoldable pub is_digit : ℕ → Bool
is_digit c = leb b'0' c && leb c b'9'

-- `[0-9A-Za-z.-]`
unfoldable pub is_tag_char : ℕ → Bool
unfolding is_digit
is_tag_char c =
    is_digit c || (leb b'A' c && leb c b'Z') || (leb b'a' c && leb c b'z') || c == b'.' || c == b'-'

-- `[0-9A-Za-z.-]*` to the end
unfoldable pub are_tag_chars : Text → Bool
unfolding is_tag_char
are_tag_chars [] = true
are_tag_chars (c ∷ s) = is_tag_char c && are_tag_chars s

-- The part after a `+`, which is not empty.
abbrev pub is_build : Text → Bool
is_build s = not (is_empty s) && are_tag_chars s

-- The part after a `-` and a first character: more characters, then perhaps a `+` and its part.
unfoldable pub after_dash : Text → Bool
unfolding are_tag_chars is_tag_char
after_dash [] = true
after_dash (c ∷ s) = if c == b'+' then is_build s else is_tag_char c && after_dash s

unfoldable pub is_prerelease : Text → Bool
unfolding after_dash is_tag_char
is_prerelease [] = false
is_prerelease (c ∷ s) = is_tag_char c && after_dash s

-- Digits and what follows them; `more` is the number of dots to come, and `some_digit` tells
-- whether a digit has been read since the last one.
unfoldable pub numbers : ℕ → Bool → Text → Bool
unfolding is_digit are_tag_chars is_prerelease
numbers more some_digit [] = (more == 0) && some_digit
numbers more some_digit (c ∷ s) =
    let same = numbers more true s in
    let next = numbers (more - 1) false s in
    if is_digit c
    then same
    else if not some_digit
    then false
    else if c == b'.'
    then not (more == 0) && next
    else if not (more == 0)
    then false
    else if c == b'-'
    then is_prerelease s
    else (c == b'+') && is_build s

-- `\d+\.\d+\.\d+(?:-[0-9A-Za-z.-]+)?(?:\+[0-9A-Za-z.-]+)?`
abbrev pub is_tarball_version : Text → Bool
is_tarball_version = numbers 2 false

-- The last `-` that a version follows.
unfoldable pub version_after_dash : Text → Option Text
unfolding numbers
version_after_dash [] = none
version_after_dash (c ∷ s) =
    let later = version_after_dash s in
    elim later [
      | some version ↦ some version
      | none ↦ if (c == b'-') && is_tarball_version s then some s else none
    ]

-- `npmVersionFromTarball`: the expression wants one character before the `-` at least.
unfoldable pub version_of : Option Text → Text
unfolding version_after_dash
version_of none = []
version_of (some []) = []
version_of (some (c ∷ stem)) =
    if any (λ x. x == 10) (c ∷ stem)
    then []
    else elim (version_after_dash stem) [ none ↦ [] | some version ↦ version ]

unfoldable pub npm_version_from_tarball : Text → Text
unfolding version_of cut_suffix
npm_version_from_tarball filename = version_of (cut_suffix filename (codes ".tgz"))

-- path.Clean: the parts that stay, the last one first.
unfoldable pub clean_parts : Bool → List Text → List Text → List Text
unfolding text_eq
clean_parts rooted kept [] = kept
clean_parts rooted kept (part ∷ parts) =
    let same = clean_parts rooted kept parts in
    let more = clean_parts rooted (part ∷ kept) parts in
    let back : List Text → List Text = λ shorter. clean_parts rooted shorter parts in
    if is_empty part || text_eq part (codes ".")
    then same
    else if not (text_eq part (codes ".."))
    then more
    else elim kept [
      | [] ↦ if rooted then same else more
      | top ∷ below ↦ if text_eq top (codes "..") then more else back below
    ]

unfoldable pub reversed : List Text → List Text → List Text
reversed [] done = done
reversed (part ∷ parts) done = reversed parts (part ∷ done)

unfoldable pub path_clean : Text → Text
unfolding clean_parts reversed join split has_prefix
path_clean s =
    let rooted = has_prefix s (codes "/") in
    let text = join (reversed (clean_parts rooted [] (split b'/' s)) []) (codes "/") in
    if rooted then codes "/" ++ text else if is_empty text then codes "." else text

-- path.Join of two parts
unfoldable pub path_join : Text → Text → Text
unfolding path_clean
path_join a b =
    if is_empty a
    then if is_empty b then [] else path_clean b
    else if is_empty b
    then path_clean a
    else path_clean (a ++ (codes "/" ++ b))

-- `npmNameFromParts`
unfoldable pub npm_name_from_parts : List Text → Text
unfolding path_join unescape_path_part has_prefix
npm_name_from_parts [] = []
npm_name_from_parts (part ∷ []) = unescape_path_part part
npm_name_from_parts (part ∷ next ∷ _) =
    if has_prefix part (codes "@")
    then path_join (unescape_path_part part) (unescape_path_part next)
    else unescape_path_part part

-- The last two parts and those before them, where there are three at least.
unfoldable pub tarball_parts : List Text → Option (List Text × Text × Text)
tarball_parts [] = none
tarball_parts (a ∷ []) = none
tarball_parts (a ∷ b ∷ []) = none
tarball_parts (a ∷ b ∷ c ∷ []) = some (a ∷ [], b, c)
tarball_parts (a ∷ b ∷ c ∷ d ∷ parts) = elim (tarball_parts (b ∷ c ∷ d ∷ parts)) [
  | none ↦ none
  | some (front, dash, file) ↦ some (a ∷ front, dash, file)
]

abbrev pub npm_metadata : Route → List Text → RequestInfo → RequestInfo
npm_metadata route parts info = record info {
  pkg = record {
    ecosystem = route.ecosystem;
    name = npm_name_from_parts parts;
    version = [];
    purl = [];
    published_at = 0;
  };
}

abbrev pub npm_artifact : Route → List Text → Text → RequestInfo → RequestInfo
npm_artifact route front file info =
    let name = npm_name_from_parts front in
    let version = npm_version_from_tarball file in
    record info {
      kind = codes "artifact";
      needs_decision = true;
      pkg = record {
        ecosystem = route.ecosystem;
        name = name;
        version = version;
        purl = purl_of (codes "npm") name version;
        published_at = 0;
      };
    }

unfoldable pub npm_by_parts :
    Route → List Text → Option (List Text × Text × Text) → RequestInfo → RequestInfo
unfolding npm_name_from_parts npm_version_from_tarball purl_of has_suffix text_eq
npm_by_parts route parts none info = npm_metadata route parts info
npm_by_parts route parts (some (front, dash, file)) info =
    if text_eq dash (codes "-") && has_suffix file (codes ".tgz")
    then npm_artifact route front file info
    else npm_metadata route parts info

abbrev pub is_none_left : List Text → Bool
is_none_left [] = true
is_none_left (_ ∷ _) = false

-- `identifyNPM`
unfoldable pub identify_npm : Route → Text → RequestInfo → RequestInfo
unfolding npm_by_parts tarball_parts split_path
identify_npm route relative info =
    let parts = split_path relative in
    if is_none_left parts then info else npm_by_parts route parts (tarball_parts parts) info
