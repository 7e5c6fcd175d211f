-- ===== src/Proxy/Rewrite.antt =====
-- internal/proxy/rewrite.go: download origins in registry metadata are replaced while the body
-- streams through. Texts stand for byte strings, and `drop from data` for `data[from:]`. A write to
-- the client that fails ends the stream and is not modelled.
pub mod Scan
pub mod Matches
pub mod Settled
pub mod Slots
pub mod Stream
pub mod Body
use package_firewall.Common.{
  ℕ, zero, suc, ◌+◌, ◌-◌, max, Bool, true, false, Option, none, some, List, [], ◌∷◌, ◌++◌, map, ltb,
  if◌then◌else◌,
}
use package_firewall.Common.Text.{Text, codes, text_eq, has_prefix}
use package_firewall.Common.Lists.{length, take, drop}
use package_firewall.Common.Cut.{trim_right}
use package_firewall.Server.Handle.{RouteConfig}

-- `replacement`
pub record Replacement : Type 0 where
  pub old : Text
  pub new : Text

-- `rewriteRules`
unfoldable pub rewrite_rules : Text → RouteConfig → List Replacement
unfolding text_eq trim_right
rewrite_rules base_url route =
    let prefix = base_url ++ (trim_right b'/' route.path_prefix ++ codes "/") in
    if text_eq route.ecosystem (codes "npm")
    then record { old = codes "https://registry.npmjs.org/"; new = prefix } ∷ []
    else if text_eq route.ecosystem (codes "pypi")
    then record { old = codes "https://files.pythonhosted.org/"; new = prefix ++ codes "files/" }
      ∷ record { old = codes "http://files.pythonhosted.org/"; new = prefix ++ codes "files/" }
      ∷ []
    else []

abbrev pub shift : ℕ → Option ℕ → Option ℕ
shift n none = none
shift n (some at) = some (n + at)

-- bytes.Index
unfoldable pub index : Text → Text → Option ℕ
index [] sep = if has_prefix [] sep then some 0 else none
index (c ∷ s) sep =
    let rest = shift 1 (index s sep) in if has_prefix (c ∷ s) sep then some 0 else rest

-- `indexFrom`
unfoldable pub index_from : Text → Text → ℕ → Option ℕ
index_from data_text sep from = shift from (index (drop from data_text) sep)

-- A rule with its entry of `next`.
abbrev pub Slot : Type 0
Slot = Replacement × Option ℕ

abbrev pub is_earlier : ℕ → Option (Replacement × ℕ) → Bool
is_earlier at none = true
is_earlier at (some (_, best)) = ltb at best

-- The loop that looks for `pick`: the first rule among those that match first.
unfoldable pub pick_from : Option (Replacement × ℕ) → List Slot → Option (Replacement × ℕ)
pick_from best [] = best
pick_from best ((rule, none) ∷ slots) = pick_from best slots
pick_from best ((rule, some at) ∷ slots) =
    pick_from (if is_earlier at best then some (rule, at) else best) slots

-- The loop that brings `next` up to date, for one rule.
unfoldable pub refresh : Text → ℕ → Slot → Slot
unfolding index_from
refresh data_text start (rule, none) = (rule, none)
refresh data_text start (rule, some at) =
    if ltb at start then (rule, index_from data_text rule.old start) else (rule, some at)

abbrev pub slice : Text → ℕ → ℕ → Text
slice data_text from to = take (to - from) (drop from data_text)

-- The outer loop of `writeRewritten`: what it writes, and `start` after it. Each round moves `start`
-- on, so the length of the text and one more are fuel enough.
unfoldable pub write_matches : ℕ → Text → ℕ → List Slot → Text × ℕ
write_matches zero data_text start slots = ([], start)
write_matches (suc fuel) data_text start slots = elim (pick_from none slots) [
  | none ↦ ([], start)
  | some (rule, at) ↦
      let next = at + length rule.old in
      let (out, end) = write_matches fuel data_text next (map (refresh data_text next) slots) in
      (slice data_text start at ++ (rule.new ++ out), end)
]

-- `writeRewritten`: what it writes, and how much it consumes.
unfoldable pub write_rewritten : Text → List Replacement → ℕ → Bool → Text × ℕ
write_rewritten data_text rules keep final =
    let (out, start) =
      write_matches (suc (length data_text)) data_text 0
        (map (λ rule. (rule, index data_text rule.old)) rules) in
    let end = if final then length data_text else max start (length data_text - keep) in
    (out ++ slice data_text start end, end)

-- The bytes that could still start a match.
unfoldable pub keep_of : List Replacement → ℕ
keep_of [] = 0
keep_of (rule ∷ rules) = max (length rule.old - 1) (keep_of rules)

-- What one call of `Read` returns: bytes, the last bytes with the end of the body, or bytes with an
-- error.
pub data Read : Type 0 where
  more last : Text → Read
  broken : Text → Text → Read

pub data Outcome : Type 0 where
  ended unfinished : Outcome
  failed : Text → Outcome

-- The loop of `rewriteStream`. A list of reads that does not end the body leaves it unfinished.
unfoldable pub rewrite_from : List Replacement → Text → List Read → Text × Outcome
rewrite_from rules pending [] = ([], unfinished)
rewrite_from rules pending (broken _ error ∷ reads) = ([], failed error)
rewrite_from rules pending (last chunk ∷ reads) =
    ((write_rewritten (pending ++ chunk) rules (keep_of rules) true).0, ended)
rewrite_from rules pending (more chunk ∷ reads) =
    let (out, consumed) = write_rewritten (pending ++ chunk) rules (keep_of rules) false in
    let (rest, outcome) = rewrite_from rules (drop consumed (pending ++ chunk)) reads in
    (out ++ rest, outcome)

-- `rewriteStream`
unfoldable pub rewrite_stream : List Replacement → List Read → Text × Outcome
rewrite_stream rules reads = rewrite_from rules [] reads
