-- ===== src/Proxy/Load/Verified.antt =====
-- What a hit serves.
use mathlib.Core.List.{append_assoc, append-nil}
use package_firewall.Common.{
  ℕ, zero, suc, ◌-◌, ◌≤◌, min, ◌≡◌, refl, sym, ap, ◌∙◌, inl, inr, true, false, Option, none, some,
  List, [], ◌∷◌, ◌++◌, ltb, ◌==◌, ==_iff, lt→ltb, arith, Bool-cases, if◌then◌else◌,
}
use package_firewall.Common.Text.{Text, codes, is_empty, equal_fold}
use package_firewall.Common.Lists.{length, take, length-append}
use package_firewall.Common.Decimal.{ℤ, pos, negsuc}
use package_firewall.Proxy.Headers.{safe_headers}
use package_firewall.Proxy.Rewrite.{Read, more, last, broken}
use package_firewall.Proxy.Spool.{Writer}
use package_firewall.Proxy.Spool.Capture.{take_all}
use package_firewall.ArtifactCache.{Entry, expired}
use package_firewall.Proxy.Load.{
  Copied, write_all, write_part, limit, copy_chunk, or_failed, copy_bounded, Answer, found, missing,
  unreadable, StagedEntry, Staging, reads_of, is_size, check_copy, load_entry, load_cached,
}

-- The bytes of a body that is read to its end.
unfoldable pub ended_body : List Read → Option Text
ended_body [] = none
ended_body (more chunk ∷ reads) =
    let rest = ended_body reads in
    if is_empty chunk then none else elim rest [ none ↦ none | some body ↦ some (chunk ++ body) ]
ended_body (last chunk ∷ reads) = some chunk
ended_body (broken chunk e ∷ reads) = none

write_all-none :
    (content chunk next : Text) (result : ℕ × Option Text)
    → write_all content chunk result ≡ (next, none)
    → next ≡ content ++ chunk
unfolding write_all
write_all-none content chunk next (written, some e) h = cc
write_all-none content chunk next (written, none) h = elim (Bool-cases (written == length chunk)) [
  | inl all ↦ let k : ◌≡◌ {A = Copied} (content ++ chunk, none) (next, none) = rw all at h in cc
  | inr short ↦
      let k : ◌≡◌ {A = Copied} (content, some (codes "short write")) (next, none) = rw short at h in
      cc
]

limit-none :
    (allowed : ℕ) (chunk next : Text) (copied : Copied)
    → limit allowed chunk copied ≡ (next, none)
    → (copied ≡ (next, none)) × (length chunk ≤ allowed)
unfolding limit
limit-none allowed chunk next (content, some e) h = cc
limit-none allowed chunk next (content, none) h = elim (Bool-cases (ltb allowed (length chunk))) [
  | inl over ↦
      let k : ◌≡◌ {A = Copied} (content, some (codes "artifact exceeds cache object limit"))
          (next, none) =
        rw over at h in
      cc
  | inr fits ↦ (rw fits at h, ground arith)
]

write_part-none :
    (disk : Writer) (content chunk next : Text) (allowed : ℕ)
    → write_part disk content allowed chunk ≡ (next, none)
    → length chunk ≤ allowed
    → next ≡ content ++ chunk
unfolding write_part
write_part-none disk content chunk next zero h fits =
    let same : content ≡ next = cc in
    sym same ∙ sym (append-nil content) ∙ ap (λ (t : Text). content ++ t) (take_all zero chunk fits)
write_part-none disk content chunk next (suc allowed) h fits =
    write_all-none content (take (suc allowed) chunk) next
      (disk (length content) (take (suc allowed) chunk))
      (rw (lt→ltb 0 (suc allowed) (omega arith)) at h)
    ∙ ap (λ (t : Text). content ++ t) (take_all (suc allowed) chunk fits)

copy_chunk-none :
    (disk : Writer) (maximum : ℕ) (content chunk next : Text)
    → copy_chunk disk maximum content chunk ≡ (next, none)
    → (next ≡ content ++ chunk) × (length content ≤ maximum → length next ≤ maximum)
unfolding copy_chunk
copy_chunk-none disk maximum content chunk next h =
    let allowed = min (length chunk) (maximum - length content) in
    let (written, fits) = limit-none allowed chunk next _ h in
    let grown : next ≡ content ++ chunk =
      write_part-none disk content chunk next allowed written fits in
    (grown, λ small. rw grown (omega (arith, length-append content chunk, fits, small)))

or_failed-none :
    (copied rest : Copied) (next : Text)
    → or_failed copied rest ≡ (next, none)
    → (copied ≡ (copied.0, none)) × (rest ≡ (next, none))
or_failed-none (content, some e) rest next h = cc
or_failed-none (content, none) rest next h = (refl, h)

or_failed-some :
    (copied : Copied) (content next e : Text)
    → or_failed copied (content, some e) ≡ (next, none)
    → ⊥
or_failed-some (_, some _) content next e h = cc
or_failed-some (_, none) content next e h = cc

abbrev EndsAs : List Read → ℕ → Text → Text → Type 0
EndsAs reads maximum content next =
    (body : Text) × (ended_body reads ≡ some body)
    × (next ≡ content ++ body)
    × (length content ≤ maximum → length next ≤ maximum)

copy_bounded-none :
    (disk : Writer) (maximum : ℕ) (reads : List Read) (content next : Text)
    → copy_bounded disk maximum content reads ≡ (next, none)
    → EndsAs reads maximum content next
unfolding copy_bounded ended_body
copy_bounded-none disk maximum [] content next h = cc
copy_bounded-none disk maximum (last chunk ∷ reads) content next h =
    let (grown, small) = copy_chunk-none disk maximum content chunk next h in
    (chunk, refl, grown, small)
copy_bounded-none disk maximum (broken chunk e ∷ reads) content next h =
    absurd (or_failed-some (copy_chunk disk maximum content chunk) _ next e h)
copy_bounded-none disk maximum (more [] ∷ reads) content next h =
    absurd (or_failed-some (copy_chunk disk maximum content []) _ next (codes "no progress") h)
copy_bounded-none disk maximum (more (c ∷ chunk) ∷ reads) content next h =
    let (here, later) = or_failed-none (copy_chunk disk maximum content (c ∷ chunk)) _ next h in
    let middle = (copy_chunk disk maximum content (c ∷ chunk)).0 in
    let (grown, small) = copy_chunk-none disk maximum content (c ∷ chunk) middle here in
    let (body, ended, grown_on, small_on) =
      copy_bounded-none disk maximum reads middle next later in
    (
      (c ∷ chunk) ++ body,
      rw ended refl,
      grown_on ∙ ap (λ (t : Text). t ++ body) grown ∙ append_assoc content (c ∷ chunk) body,
      (λ short. small_on (small short)),
    )

-- What is known of the entry behind a staged one.
pub record Verified (sha256_hex : Text → Text) (maximum : ℕ) (w : Staging) (entry : Entry)
    (staged : StagedEntry) : Type 0 where
  pub whole : ended_body (reads_of entry.body) ≡ some staged.content
  pub checked : equal_fold (sha256_hex staged.content) entry.sha256 ≡ true
  pub sized : entry.size ≡ pos (length staged.content)
  pub bounded : length staged.content ≤ maximum
  pub current : expired entry w.later ≡ false
  pub safe : staged.headers ≡ safe_headers entry.headers

is_size-pos : (z : ℤ) (n : ℕ) → is_size z n ≡ true → z ≡ pos n
is_size-pos (pos m) n h = ap pos (sym ((==_iff n m).0 h))
is_size-pos (negsuc m) n h = cc

module _ (sha256_hex : Text → Text) (maximum : ℕ) (w : Staging) where
  -- The tests that a staged entry has passed.
  abbrev Passed : Entry → Copied → StagedEntry → Type 0
  Passed entry copied staged =
      (copied.1 ≡ none)
      × (is_size entry.size (length copied.0) ≡ true)
      × (equal_fold (sha256_hex copied.0) entry.sha256 ≡ true)
      × (expired entry w.later ≡ false)
      × (staged.content ≡ copied.0)
      × (staged.headers ≡ safe_headers entry.headers)

  check_copy-Passed :
      (entry : Entry) (copied : Copied) (staged : StagedEntry)
      → check_copy sha256_hex maximum w entry copied ≡ inr staged
      → Passed entry copied staged
  unfolding check_copy
  check_copy-Passed entry (content, some e) staged h = cc
  check_copy-Passed entry (content, none) staged h = ground arith

  load_entry-copied :
      (entry : Entry) (staged : StagedEntry)
      → load_entry sha256_hex maximum w entry ≡ inr staged
      → check_copy sha256_hex maximum w entry (copy_bounded w.disk maximum [] (reads_of entry.body))
        ≡ inr staged
  unfolding load_entry
  load_entry-copied entry staged h = ground arith

-- A hit serves what the store has, read to its end, and only if that is not expired, no longer than
-- the maximum, and of the size and the checksum that the entry records.
pub load_cached-Verified :
    (sha256_hex : Text → Text) (maximum : ℕ) (w : Staging) (answer : Answer) (staged : StagedEntry)
    → load_cached sha256_hex maximum w answer ≡ inr staged
    → (entry : Entry) × (answer ≡ found entry) × Verified sha256_hex maximum w entry staged
unfolding load_cached
load_cached-Verified sha256_hex maximum w missing staged h = cc
load_cached-Verified sha256_hex maximum w (unreadable e) staged h = cc
load_cached-Verified sha256_hex maximum w (found entry) staged h =
    let copied = copy_bounded w.disk maximum [] (reads_of entry.body) in
    let (unbroken, sized, checked, current, content, safe) =
      check_copy-Passed sha256_hex maximum w entry copied staged
        (load_entry-copied sha256_hex maximum w entry staged h) in
    let (body, ended, whole, small) =
      copy_bounded-none w.disk maximum (reads_of entry.body) [] copied.0
        (ap (λ (e : Option Text). (copied.0, e)) unbroken) in
    (
      entry,
      refl,
      record {
        whole = ended ∙ ap some (sym (content ∙ whole));
        checked = rw content checked;
        sized = is_size-pos entry.size (length staged.content) (rw content sized);
        bounded = rw content (small (omega arith));
        current = current;
        safe = safe;
      },
    )
