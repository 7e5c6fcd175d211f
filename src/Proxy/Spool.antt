-- ===== src/Proxy/Spool.antt =====
-- internal/proxy/proxy.go: a body goes to the client, and up to a maximum into a temporary file.
pub mod Capture
use package_firewall.Common.{
  ℕ, ◌+◌, ◌-◌, min, Bool, true, false, ◌||◌, not, Option, none, some, List, [], ◌∷◌, ◌++◌, ltb,
  ◌==◌, if◌then◌else◌,
}
use package_firewall.Common.Text.{Text, codes, is_empty}
use package_firewall.Common.Lists.{length, take}
use package_firewall.Proxy.Rewrite.{Read, more, last, broken, Outcome, ended, unfinished, failed}

-- An io.Writer: after so many bytes, what a call of `Write` with these bytes returns.
abbrev pub Writer : Type 0
Writer = ℕ → Text → ℕ × Option Text

-- `captureSpool`; the bytes that the hasher got are those in the file
pub record Spool : Type 0 where
  pub captured : Text
  pub maximum : ℕ
  pub size : ℕ
  pub overflow : Bool
  pub error : Option Text

-- `newCaptureSpool`
abbrev pub new_capture_spool : ℕ → Spool
new_capture_spool maximum = record {
  captured = [];
  maximum = maximum;
  size = 0;
  overflow = false;
  error = none;
}

abbrev pub is_some : Option Text → Bool
is_some none = false
is_some (some _) = true

-- The bytes that a write has taken.
abbrev pub grown : Spool → Text → ℕ → Spool
grown s body written = record s {
  captured = s.captured ++ take written body;
  size = s.size + written;
}

-- After the write of `allowed` bytes.
unfoldable pub after_write : Spool → Text → ℕ → ℕ × Option Text → Spool
after_write s body allowed (written, some error) = record (grown s body written) {
  error = some error;
}
after_write s body allowed (written, none) =
    if not (written == allowed)
    then record (grown s body written) { error = some (codes "short write") }
    else record (grown s body written) { overflow = s.overflow || ltb allowed (length body) }

-- `capture`
unfoldable pub capture : Writer → Spool → Text → Spool
unfolding after_write
capture disk s body =
    if is_some s.error || s.overflow || is_empty body
    then s
    else let allowed = min (length body) (s.maximum - s.size) in
      if ltb 0 allowed
      then after_write s body allowed (disk s.size (take allowed body))
      else record s { overflow = true }

-- What becomes of a body: what the client got, the spool, and how the copy ended.
pub record Streamed : Type 0 where
  pub delivered : Text
  pub spool : Spool
  pub outcome : Outcome

abbrev pub stopped : Text → Spool → Outcome → Streamed
stopped sent s outcome = record { delivered = sent; spool = s; outcome = outcome }

-- The error that ends the copy after a write to the client.
unfoldable pub write_error : ℕ → ℕ × Option Text → Option Outcome
write_error size (written, some e) = some (failed e)
write_error size (written, none) =
    if not (written == size) then some (failed (codes "short write")) else none

-- One chunk to the client and into the spool: what the client has got, the spool, and the error that
-- ends the copy.
unfoldable pub pass_on : Writer → Writer → Text → Spool → Text → Text × (Spool × Option Outcome)
pass_on client disk sent s chunk =
    if is_empty chunk
    then (sent, (s, none))
    else let result = client (length sent) chunk in
      let taken = take result.0 chunk in
      (sent ++ taken, (capture disk s taken, write_error (length chunk) result))

-- The copy ends with an error, or goes on.
unfoldable pub or_stop : Text × (Spool × Option Outcome) → Streamed → Streamed
or_stop (sent, (s, some outcome)) rest = stopped sent s outcome
or_stop (sent, (s, none)) rest = rest

-- `streamAndCapture`
unfoldable pub stream_from : Writer → Writer → Text → Spool → List Read → Streamed
stream_from client disk sent s [] = stopped sent s unfinished
stream_from client disk sent s (more chunk ∷ reads) =
    let passed = pass_on client disk sent s chunk in
    let rest = stream_from client disk passed.0 passed.1.0 reads in
    or_stop passed
      (if is_empty chunk then stopped passed.0 passed.1.0 (failed (codes "no progress")) else rest)
stream_from client disk sent s (last chunk ∷ reads) =
    let passed = pass_on client disk sent s chunk in
    or_stop passed (stopped passed.0 passed.1.0 ended)
stream_from client disk sent s (broken chunk e ∷ reads) =
    let passed = pass_on client disk sent s chunk in
    or_stop passed (stopped passed.0 passed.1.0 (failed e))

abbrev pub stream_and_capture : Writer → Writer → Spool → List Read → Streamed
stream_and_capture client disk s reads = stream_from client disk [] s reads
