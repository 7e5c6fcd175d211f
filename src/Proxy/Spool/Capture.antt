-- ===== src/Proxy/Spool/Capture.antt =====
-- The spool and what the client got.
use mathlib.Core.List.{append-nil}
use package_firewall.Common.{
  ℕ, zero, suc, ◌-◌, ◌≤◌, ◌<◌, min, ◌≡◌, refl, sym, ap, ◌∙◌, inl, inr, true, false, Option, none,
  some, List, [], ◌∷◌, ◌++◌, ltb, leb, leb→le, ◌||◌, ==_iff, ◌==◌, arith, Bool-cases, Option-cases,
}
use native.Mathlib.Nat.{sub-zero}
use package_firewall.Common.Text.{Text, codes, is_empty}
use package_firewall.Common.Lists.{length, take, length-append, length-take}
use package_firewall.Proxy.Rewrite.{Read, more, last, broken, Outcome}
use package_firewall.Proxy.Spool.{
  Writer, Spool, is_some, Streamed, after_write, capture, pass_on, or_stop, stream_from,
  stream_and_capture, new_capture_spool,
}

-- What a spool without an error holds of a body, with `m` as the maximum.
pub record Kept (m : ℕ) (s : Spool) (body : Text) : Type 0 where
  pub limit : s.maximum ≡ m
  pub sized : s.size ≡ length s.captured
  pub held : s.captured ≡ take s.maximum body
  pub exceeded : s.overflow ≡ ltb s.maximum (length body)

abbrev pub Keeps : ℕ → Spool → Text → Type 0
Keeps m s body = s.error ≡ none → Kept m s body

pub take_all : (n : ℕ) (s : Text) → length s ≤ n → take n s ≡ s
take_all zero [] h = refl
take_all zero (c ∷ s) h = let never : ⊥ = omega (arith, h) in absurd never
take_all (suc n) [] h = refl
take_all (suc n) (c ∷ s) h = ap (λ (t : Text). c ∷ t) (take_all n s (omega (arith, h)))

take-min : (n : ℕ) (t : Text) → take n t ≡ take (min (length t) n) t
take-min n t = elim (Bool-cases (leb n (length t))) [
  | inl fits ↦ ap (λ (k : ℕ). take k t) (omega (arith, leb→le n (length t) fits))
  | inr past ↦
      let whole : length t ≤ n = ground arith in
      let least : min (length t) n ≡ length t = omega arith in
      take_all n t whole
      ∙ sym (ap (λ (k : ℕ). take k t) least ∙ take_all (length t) t (omega arith))
]

-- The part of a longer text that still fits.
take-append :
    (n : ℕ) (s t : Text)
    → length s ≤ n
    → take n (s ++ t) ≡ s ++ take (min (length t) (n - length s)) t
take-append n [] t h = rw (sub-zero n) (take-min n t)
take-append zero (c ∷ s) t h = let never : ⊥ = omega (arith, h) in absurd never
take-append (suc n) (c ∷ s) t h =
    ap (λ (u : Text). c ∷ u)
      (take-append n s t (omega (arith, h))
        ∙ ap (λ (k : ℕ). s ++ take (min (length t) k) t) (omega arith))

-- A full spool holds all that it may hold of a longer body.
take_full : (n : ℕ) (s t : Text) → n ≤ length s → take n (s ++ t) ≡ take n s
take_full zero s t h = refl
take_full (suc n) [] t h = let never : ⊥ = omega (arith, h) in absurd never
take_full (suc n) (c ∷ s) t h = ap (λ (u : Text). c ∷ u) (take_full n s t (omega (arith, h)))

module _ (m : ℕ) (s : Spool) (b : Text) (fresh : s.overflow ≡ false) (kept : Kept m s b) where
  fits : length b ≤ s.maximum
  fits = let e : ltb s.maximum (length b) ≡ false = sym kept.exceeded ∙ fresh in ground arith

  whole : s.captured ≡ b
  whole = kept.held ∙ take_all s.maximum b fits

  at_end : s.size ≡ length b
  at_end = kept.sized ∙ ap (λ (t : Text). length t) whole

  after_write-Keeps :
      (body : Text) (written : ℕ × Option Text)
      → Keeps m (after_write s body (min (length body) (s.maximum - s.size)) written) (b ++ body)
  unfolding after_write
  after_write-Keeps body (written, some e) h = cc
  after_write-Keeps body (written, none) h =
      let allowed = min (length body) (s.maximum - s.size) in
      elim (Bool-cases (written == allowed)) [
        | inr short ↦
            let never : ◌≡◌ {A = Option Text} (some (codes "short write")) none = rw short at h in
            cc
        | inl all ↦
            let taken : s.captured ++ take written body ≡ take s.maximum (b ++ body) =
              ap (λ (t : Text). t ++ take written body) whole
              ∙ ap (λ (k : ℕ). b ++ take k body)
                  (omega (arith, (==_iff written allowed).0 all, at_end))
              ∙ sym (take-append s.maximum b body fits) in
            rw all (record {
              limit = kept.limit;
              sized = omega (
                arith,
                kept.sized,
                length-append s.captured (take written body),
                length-take written body,
                (==_iff written allowed).0 all,
              );
              held = taken;
              exceeded = rw (fresh, length-append b body) (ground (arith, at_end, fits));
            })
      ]

nothing_kept : (maximum : ℕ) → Keeps maximum (new_capture_spool maximum) []
nothing_kept maximum h = record {
  limit = refl;
  sized = refl;
  held = sym (take_all maximum [] (omega arith));
  exceeded = ground arith;
}

capture_stopped :
    (disk : Writer) (s : Spool) (body : Text)
    → (is_some s.error || s.overflow || is_empty body) ≡ true
    → capture disk s body ≡ s
unfolding capture
capture_stopped disk s body h = rw (h, capture) refl

-- How many bytes may still be written.
abbrev room : Spool → Text → ℕ
room s body = min (length body) (s.maximum - s.size)

capture_writing :
    (disk : Writer) (s : Spool) (body : Text)
    → (is_some s.error || s.overflow || is_empty body) ≡ false
    → ltb 0 (room s body) ≡ true
    → capture disk s body ≡ after_write s body (room s body) (disk s.size (take (room s body) body))
unfolding capture
capture_writing disk s body h k = rw (h, k, capture) refl

capture_full :
    (disk : Writer) (s : Spool) (body : Text)
    → (is_some s.error || s.overflow || is_empty body) ≡ false
    → ltb 0 (room s body) ≡ false
    → capture disk s body ≡ record s { overflow = true }
unfolding capture
capture_full disk s body h k = rw (h, k, capture) refl

overflown-Kept :
    (m : ℕ) (s : Spool) (b body : Text) → s.overflow ≡ true → Kept m s b → Kept m s (b ++ body)
overflown-Kept m s b body over kept =
    let longer : s.maximum < length b =
      let e : ltb s.maximum (length b) ≡ true = sym kept.exceeded ∙ over in ground arith in
    record {
      limit = kept.limit;
      sized = kept.sized;
      held = kept.held ∙ sym (take_full s.maximum b body (omega (arith, longer)));
      exceeded = rw (over, length-append b body) (ground (arith, longer));
    }

-- A spool with no room left, and one more character.
full-Kept :
    (m : ℕ) (s : Spool) (b body : Text) (c : ℕ)
    → s.overflow ≡ false
    → Kept m s b
    → ltb 0 (min (length (c ∷ body)) (s.maximum - s.size)) ≡ false
    → Kept m (record s { overflow = true }) (b ++ (c ∷ body))
full-Kept m s b body c fresh kept full =
    let no_room : min (length (c ∷ body)) (s.maximum - s.size) ≡ 0 = ground arith in
    let reached : s.maximum ≡ length b =
      omega (arith, fits m s b fresh kept, at_end m s b fresh kept, no_room) in
    record {
      limit = kept.limit;
      sized = kept.sized;
      held = kept.held ∙ sym (take_full s.maximum b (c ∷ body) (omega (arith, reached)));
      exceeded = rw (length-append b (c ∷ body)) (ground (arith, reached));
    }

capture-Keeps :
    (m : ℕ) (disk : Writer) (s : Spool) (b body : Text)
    → Keeps m s b
    → Keeps m (capture disk s body) (b ++ body)
unfolding capture
capture-Keeps m disk s b [] keeps =
    rw (append-nil b, capture_stopped disk s [] (ground arith)) keeps
capture-Keeps m disk s b (c ∷ body) keeps = elim (Option-cases s.error) [
  | inr (e, broke) ↦
      rw (capture_stopped disk s (c ∷ body) (rw broke refl))
        (λ h. let never : ◌≡◌ {A = Option Text} (some e) none = sym broke ∙ h in cc)
  | inl sound ↦ elim (Bool-cases s.overflow) [
    | inl over ↦
        rw (capture_stopped disk s (c ∷ body) (ground arith))
          (λ h. overflown-Kept m s b (c ∷ body) over (keeps h))
    | inr fresh ↦
        let going : (is_some s.error || s.overflow || false) ≡ false = rw (sound, fresh) refl in
        elim (Bool-cases (ltb 0 (room s (c ∷ body)))) [
          | inl left ↦
              rw (capture_writing disk s (c ∷ body) going left)
                (after_write-Keeps m s b fresh (keeps sound) (c ∷ body) _)
          | inr full ↦
              rw (capture_full disk s (c ∷ body) going full)
                (λ h. full-Kept m s b body c fresh (keeps sound) full)
        ]
  ]
]

pass_on-Keeps :
    (m : ℕ) (client disk : Writer) (sent : Text) (s : Spool) (chunk : Text)
    → Keeps m s sent
    → Keeps m (pass_on client disk sent s chunk).1.0 (pass_on client disk sent s chunk).0
unfolding pass_on
pass_on-Keeps m client disk sent s [] keeps = keeps
pass_on-Keeps m client disk sent s (c ∷ chunk) keeps = capture-Keeps m disk s sent _ keeps

abbrev pub StreamKeeps : ℕ → Streamed → Type 0
StreamKeeps m t = Keeps m t.spool t.delivered

or_stop-Keeps :
    (m : ℕ) (passed : Text × (Spool × Option Outcome)) (rest : Streamed)
    → Keeps m passed.1.0 passed.0
    → StreamKeeps m rest
    → StreamKeeps m (or_stop passed rest)
unfolding or_stop
or_stop-Keeps m (sent, (s, some outcome)) rest h k = h
or_stop-Keeps m (sent, (s, none)) rest h k = k

stream_from-Keeps :
    (m : ℕ) (client disk : Writer) (sent : Text) (s : Spool) (reads : List Read)
    → Keeps m s sent
    → StreamKeeps m (stream_from client disk sent s reads)
unfolding stream_from
stream_from-Keeps m client disk sent s [] keeps = keeps
stream_from-Keeps m client disk sent s (more [] ∷ reads) keeps =
    let before = pass_on-Keeps m client disk sent s [] keeps in or_stop-Keeps m _ _ before before
stream_from-Keeps m client disk sent s (more (c ∷ chunk) ∷ reads) keeps =
    let before = pass_on-Keeps m client disk sent s (c ∷ chunk) keeps in
    or_stop-Keeps m _ _ before (
      stream_from-Keeps m client disk (pass_on client disk sent s (c ∷ chunk)).0
        (pass_on client disk sent s (c ∷ chunk)).1.0 reads before)
stream_from-Keeps m client disk sent s (last chunk ∷ reads) keeps =
    let before = pass_on-Keeps m client disk sent s chunk keeps in or_stop-Keeps m _ _ before before
stream_from-Keeps m client disk sent s (broken chunk e ∷ reads) keeps =
    let before = pass_on-Keeps m client disk sent s chunk keeps in or_stop-Keeps m _ _ before before

-- Whatever the client and the file do, a spool that reports no error has its size, holds what the
-- client got up to the maximum, and reports an overflow if and only if the client got more.
pub stream_and_capture-Kept :
    (client disk : Writer) (maximum : ℕ) (reads : List Read)
    → (stream_and_capture client disk (new_capture_spool maximum) reads).spool.error ≡ none
    → Kept maximum
        (stream_and_capture client disk (new_capture_spool maximum) reads).spool
        (stream_and_capture client disk (new_capture_spool maximum) reads).delivered
stream_and_capture-Kept client disk maximum reads h =
    stream_from-Keeps maximum client disk [] (new_capture_spool maximum) reads
      (nothing_kept maximum) h
