-- ===== src/Registry/Purl.antt =====
-- internal/registry/path.go, and the helpers of internal/registry/registry.go: path parts, escapes
-- and package URLs.
use package_firewall.Common.{
  ℕ, ◌+◌, ◌*◌, ◌-◌, ◌&&◌, ◌||◌, Option, none, some, List, [], ◌∷◌, ◌++◌, ◌==◌, leb, if◌then◌else◌,
}
use package_firewall.Common.Text.{Text, codes, text_eq, is_empty}
use package_firewall.Common.Cut.{split, trim}

-- `splitPath`
unfoldable pub split_path : Text → List Text
unfolding split trim
split_path value =
    let trimmed = trim b'/' value in if is_empty trimmed then [] else split b'/' trimmed

unfoldable pub last : List Text → Text
last [] = []
last (part ∷ []) = part
last (_ ∷ part ∷ parts) = last (part ∷ parts)

unfoldable pub last_path_part : Text → Text
unfolding last split_path
last_path_part value = last (split_path value)

-- The value of a hexadecimal digit.
unfoldable pub hex : ℕ → Option ℕ
hex c =
    if leb b'0' c && leb c b'9'
    then some (c - b'0')
    else if leb b'a' c && leb c b'f'
    then some (c - b'a' + 10)
    else if leb b'A' c && leb c b'F'
    then some (c - b'A' + 10)
    else none

unfoldable pub escaped : Option ℕ → Option ℕ → Option Text → Option Text
escaped (some a) (some b) (some s) = some ((16 * a + b) ∷ s)
escaped _ _ _ = none

unfoldable pub literal : ℕ → Option Text → Option Text
literal c none = none
literal c (some s) = some (c ∷ s)

-- url.PathUnescape; `none` is its error. An escaped byte is a code of its own: for a byte beyond
-- ASCII, which Go makes a part of a character in UTF-8, the result is not the text that Go has.
unfoldable pub path_unescape : Text → Option Text
unfolding escaped literal hex
path_unescape [] = some []
path_unescape (c ∷ []) = if c == b'%' then none else some (c ∷ [])
path_unescape (c ∷ a ∷ []) =
    let rest = path_unescape (a ∷ []) in if c == b'%' then none else literal c rest
path_unescape (c ∷ a ∷ b ∷ s) =
    let after = path_unescape s in
    let rest = path_unescape (a ∷ b ∷ s) in
    if c == b'%' then escaped (hex a) (hex b) after else literal c rest

abbrev pub or_value : Text → Option Text → Text
or_value value none = value
or_value value (some decoded) = decoded

-- `unescapePathPart`
unfoldable pub unescape_path_part : Text → Text
unescape_path_part value = or_value value (path_unescape value)

-- `purl`
unfoldable pub purl_of : Text → Text → Text → Text
purl_of ecosystem name version =
    if is_empty name || is_empty version
    then []
    else if text_eq ecosystem (codes "npm")
    then codes "pkg:npm/" ++ (name ++ (codes "@" ++ version))
    else if text_eq ecosystem (codes "pypi")
    then codes "pkg:pypi/" ++ (name ++ (codes "@" ++ version))
    else if text_eq ecosystem (codes "maven")
    then codes "pkg:maven/" ++ (name ++ (codes "@" ++ version))
    else if text_eq ecosystem (codes "go")
    then codes "pkg:golang/" ++ (name ++ (codes "@" ++ version))
    else []
