-- ===== src/Policy/Glob.antt =====
-- internal/policy/policy.go, `compileGlob`, and the part of package regexp that its result uses: an
-- expression `^…$` of the parts `.*`, `.` and quoted characters, where `.` is any character but a
-- newline and `$` is the end of the text.
pub mod Meaning
use package_firewall.Common.{
  ℕ, Bool, true, false, not, ◌&&◌, ◌||◌, Option, none, some, List, [], ◌∷◌, ◌==◌, leb,
  if◌then◌else◌,
}
use package_firewall.Common.Text.{Text, is_blank}

-- What `compileGlob` writes for one character of the pattern.
pub data Part : Type 0 where
  dot_star dot : Part
  quoted : ℕ → Part

unfoldable pub part : ℕ → Part
part r = if r == b'*' then dot_star else if r == b'?' then dot else quoted r

-- The loop of `compileGlob`.
unfoldable pub parts : Text → List Part
unfolding part
parts [] = []
parts (r ∷ pattern) = part r ∷ parts pattern

-- `none` is the error "empty pattern".
unfoldable pub compile_glob : Text → Option (List Part)
unfolding is_blank parts
compile_glob pattern = if is_blank pattern then none else some (parts pattern)

abbrev pub newline : ℕ
newline = 10

-- `re.MatchString(s)`
unfoldable pub match_string : List Part → Text → Bool
match_string [] [] = true
match_string [] (_ ∷ _) = false
match_string (quoted x ∷ re) [] = false
match_string (quoted x ∷ re) (c ∷ s) = (x == c) && match_string re s
match_string (dot ∷ re) [] = false
match_string (dot ∷ re) (c ∷ s) = not (c == newline) && match_string re s
match_string (dot_star ∷ re) [] = match_string re []
match_string (dot_star ∷ re) (c ∷ s) =
    match_string re (c ∷ s) || (not (c == newline) && match_string (dot_star ∷ re) s)
