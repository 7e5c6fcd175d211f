-- ===== src/Proxy/Load.antt =====
-- internal/proxy/proxy.go: `copyBounded` and `loadCached`. The store's answer, the clock, the
-- temporary file and the hash are arguments; the end of the context is a read that fails.
pub mod Verified
use package_firewall.Common.{
  ◌⊎◌, inl, inr, ℕ, ◌+◌, ◌-◌, min, Bool, true, false, not, Option, none, some, List, [], ◌∷◌, ◌++◌,
  ltb, ◌==◌, if◌then◌else◌,
}
use package_firewall.Common.Text.{Text, codes, is_empty, equal_fold}
use package_firewall.Common.Lists.{length, take}
use package_firewall.Common.Decimal.{ℤ, pos, negsuc}
use package_firewall.Proxy.Headers.{Headers, safe_headers}
use package_firewall.Proxy.Rewrite.{Read, more, last, broken}
use package_firewall.Proxy.Spool.{Writer}
use package_firewall.ArtifactCache.{Entry, expired, exceeds, validate_entry}

-- What the copy has put into the file and the hasher, and its error.
abbrev pub Copied : Type 0
Copied = Text × Option Text

-- The write of a chunk: io.MultiWriter passes it to the hasher if the file takes all of it.
unfoldable pub write_all : Text → Text → ℕ × Option Text → Copied
write_all content chunk (written, some e) = (content, some e)
write_all content chunk (written, none) =
    if written == length chunk
    then (content ++ chunk, none)
    else (content, some (codes "short write"))

-- The write of the allowed part of a read.
unfoldable pub write_part : Writer → Text → ℕ → Text → Copied
write_part disk content allowed chunk =
    if ltb 0 allowed
    then write_all content (take allowed chunk) (disk (length content) (take allowed chunk))
    else (content, none)

-- The rest of the read is refused.
unfoldable pub limit : ℕ → Text → Copied → Copied
limit allowed chunk (content, some e) = (content, some e)
limit allowed chunk (content, none) =
    if ltb allowed (length chunk)
    then (content, some (codes "artifact exceeds cache object limit"))
    else (content, none)

-- What the loop does with the bytes of one read.
unfoldable pub copy_chunk : Writer → ℕ → Text → Text → Copied
copy_chunk disk maximum content chunk =
    let allowed = min (length chunk) (maximum - length content) in
    limit allowed chunk (write_part disk content allowed chunk)

abbrev pub or_failed : Copied → Copied → Copied
or_failed (content, some e) rest = (content, some e)
or_failed (content, none) rest = rest

-- `copyBounded`, with the bytes written in place of their number and their hash
unfoldable pub copy_bounded : Writer → ℕ → Text → List Read → Copied
copy_bounded disk maximum content [] = (content, some (codes "the body goes on"))
copy_bounded disk maximum content (more chunk ∷ reads) =
    let copied = copy_chunk disk maximum content chunk in
    let rest = copy_bounded disk maximum copied.0 reads in
    or_failed copied (if is_empty chunk then (copied.0, some (codes "no progress")) else rest)
copy_bounded disk maximum content (last chunk ∷ reads) = copy_chunk disk maximum content chunk
copy_bounded disk maximum content (broken chunk e ∷ reads) =
    let copied = copy_chunk disk maximum content chunk in or_failed copied (copied.0, some e)

-- What `Get` of the store returns.
pub data Answer : Type 0 where
  missing : Answer
  unreadable : Text → Answer
  found : Entry → Answer

-- `errors.Is(err, ErrNotFound)` tells the first kind of error from the second.
pub data LoadError : Type 0 where
  not_found : LoadError
  read_failed : Text → LoadError

-- `stagedEntry`, with the content of its file
pub record StagedEntry : Type 0 where
  pub content : Text
  pub headers : Headers
  pub size : ℕ
  pub stored_at : ℕ

-- What the outside world answers while an entry is staged: the time at the start and at the end,
-- whether the temporary file is created and rewound, its writes, and whether the body closes.
pub record Staging : Type 0 where
  pub now : ℕ
  pub later : ℕ
  pub created : Bool
  pub rewound : Bool
  pub disk : Writer
  pub closed : Bool

abbrev pub reads_of : Option (List Read) → List Read
reads_of none = []
reads_of (some reads) = reads

abbrev pub is_size : ℤ → ℕ → Bool
is_size (pos n) written = written == n
is_size (negsuc _) written = false

module _ (sha256_hex : Text → Text) (maximum : ℕ) (w : Staging) where
  -- The tests after the copy.
  unfoldable pub check_copy : Entry → Copied → LoadError ⊎ StagedEntry
  unfolding equal_fold
  check_copy entry (content, some e) = inl (read_failed e)
  check_copy entry (content, none) =
      if not w.closed
      then inl (read_failed (codes "close"))
      else if not (is_size entry.size (length content))
      then inl (read_failed (codes "size does not match metadata"))
      else if not (equal_fold (sha256_hex content) entry.sha256)
      then inl (read_failed (codes "checksum does not match metadata"))
      else if not w.rewound
      then inl (read_failed (codes "seek"))
      else if expired entry w.later
      then inl not_found
      else inr (record {
        content = content;
        headers = safe_headers entry.headers;
        size = length content;
        stored_at = entry.stored_at;
      })

  -- An entry that the store has found.
  unfoldable pub load_entry : Entry → LoadError ⊎ StagedEntry
  load_entry entry = elim (validate_entry entry) [
    | some message ↦ inl (read_failed message)
    | none ↦
        if expired entry w.now
        then inl not_found
        else if exceeds entry.size maximum
        then inl (read_failed (codes "artifact exceeds cache object limit"))
        else if not w.created
        then inl (read_failed (codes "temporary file"))
        else check_copy entry (copy_bounded w.disk maximum [] (reads_of entry.body))
  ]

  -- `loadCached`
  unfoldable pub load_cached : Answer → LoadError ⊎ StagedEntry
  load_cached missing = inl not_found
  load_cached (unreadable e) = inl (read_failed e)
  load_cached (found entry) = load_entry entry
