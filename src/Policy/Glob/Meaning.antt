-- ===== src/Policy/Glob/Meaning.antt =====
-- What it means that a text matches a policy pattern, and that the compiled expression decides it.
use package_firewall.Common.{
  ℕ, ◌≡◌, refl, ◌≢◌, ◌↔◌, inl, inr, true, some, List, [], ◌∷◌, ◌==◌, arith, Bool-cases,
}
use package_firewall.Common.Text.{Text}
use package_firewall.Policy.Glob.{
  Part, dot_star, dot, quoted, part, parts, compile_glob, match_string, newline,
}

-- `Matches pattern text`, by the characters of the pattern: `*` stands for any run of characters,
-- `?` for one, neither of them for a newline, and every other character for itself.
pub data Matches : Text → Text → Type 0 where
  done : Matches [] []
  itself : {c : ℕ} {p s : Text} → c ≢ b'*' → c ≢ b'?' → Matches p s → Matches (c ∷ p) (c ∷ s)
  one : {r c : ℕ} {p s : Text} → r ≡ b'?' → c ≢ newline → Matches p s → Matches (r ∷ p) (c ∷ s)
  leave : {r : ℕ} {p s : Text} → r ≡ b'*' → Matches p s → Matches (r ∷ p) s
  take :
      {r c : ℕ} {p s : Text} → r ≡ b'*' → c ≢ newline → Matches (r ∷ p) s → Matches (r ∷ p) (c ∷ s)

data Kind (r : ℕ) : Type 0 where
  star : r ≡ b'*' → part r ≡ dot_star → Kind r
  mark : r ≡ b'?' → part r ≡ dot → Kind r
  plain : r ≢ b'*' → r ≢ b'?' → part r ≡ quoted r → Kind r

kind : (r : ℕ) → Kind r
unfolding part
kind r = elim (Bool-cases (r == b'*')) [
  | inl e ↦ star (ground arith) (rw e)
  | inr n ↦ elim (Bool-cases (r == b'?')) [
    | inl e ↦ mark (ground arith) (rw (n, e))
    | inr m ↦ plain (ground arith) (ground arith) (rw (n, m))
  ]
]

-- One part of the expression in front of parts that are already known to decide `Matches p`.
module _ {r : ℕ} {p : Text} (re : List Part)
    (ih : (s : Text) → (match_string re s ≡ true) ↔ Matches p s) where
  star_sound : (s : Text) → r ≡ b'*' → match_string (dot_star ∷ re) s ≡ true → Matches (r ∷ p) s
  unfolding match_string
  star_sound [] e h = leave e ((ih []).0 h)
  star_sound (c ∷ s) e h = elim (Bool-cases (match_string re (c ∷ s))) [
    | inl now ↦ leave e ((ih (c ∷ s)).0 now)
    | inr later ↦ take e (ground arith) (star_sound s e (ground arith))
  ]

  star_complete : {s : Text} → r ≡ b'*' → Matches (r ∷ p) s → match_string (dot_star ∷ re) s ≡ true
  unfolding match_string
  star_complete e (itself n m d) = absurd (n e)
  star_complete e (one m n d) = ground arith
  star_complete {s = []} e (leave _ d) = (ih []).1 d
  star_complete {s = c ∷ s} e (leave _ d) = rw ((ih (c ∷ s)).1 d)
  star_complete {s = c ∷ s} e (take _ n d) = ground (arith, star_complete e d)

  mark_sound : (s : Text) → r ≡ b'?' → match_string (dot ∷ re) s ≡ true → Matches (r ∷ p) s
  unfolding match_string
  mark_sound [] e h = cc
  mark_sound (c ∷ s) e h = one e (ground arith) ((ih s).0 (ground arith))

  mark_complete : {s : Text} → r ≡ b'?' → Matches (r ∷ p) s → match_string (dot ∷ re) s ≡ true
  unfolding match_string
  mark_complete e (itself n m d) = absurd (m e)
  mark_complete e (one {s = s} m n d) = ground (arith, (ih s).1 d)
  mark_complete e (leave m d) = ground arith
  mark_complete e (take m n d) = ground arith

  plain_sound :
      (s : Text) → r ≢ b'*' → r ≢ b'?' → match_string (quoted r ∷ re) s ≡ true → Matches (r ∷ p) s
  unfolding match_string
  plain_sound [] n m h = cc
  plain_sound (c ∷ s) n m h =
      let e : r ≡ c = ground arith in rw (← e) (itself n m ((ih s).0 (ground arith)))

  plain_complete :
      {s : Text} → r ≢ b'*' → r ≢ b'?' → Matches (r ∷ p) s → match_string (quoted r ∷ re) s ≡ true
  unfolding match_string
  plain_complete n m (itself {s = s} _ _ d) = ground (arith, (ih s).1 d)
  plain_complete n m (one e _ d) = absurd (m e)
  plain_complete n m (leave e d) = absurd (n e)
  plain_complete n m (take e _ d) = absurd (n e)

  mark_iff : (s : Text) → r ≡ b'?' → (match_string (dot ∷ re) s ≡ true) ↔ Matches (r ∷ p) s
  mark_iff s e = (mark_sound s e, mark_complete e)

  plain_iff :
      (s : Text) → r ≢ b'*' → r ≢ b'?' → (match_string (quoted r ∷ re) s ≡ true) ↔ Matches (r ∷ p) s
  plain_iff s n m = (plain_sound s n m, plain_complete n m)

  part_iff : (s : Text) → (match_string (part r ∷ re) s ≡ true) ↔ Matches (r ∷ p) s
  part_iff s = elim (kind r) [
    | star e f ↦ rw f (star_sound s e, star_complete e)
    | mark e f ↦ rw f (mark_iff s e)
    | plain n m f ↦ rw f (plain_iff s n m)
  ]

parts_iff : (p s : Text) → (match_string (parts p) s ≡ true) ↔ Matches p s
unfolding match_string parts
parts_iff [] [] = (λ _. done, λ _. refl)
parts_iff [] (c ∷ s) = (λ h. cc, λ d. elim d [ ])
parts_iff (r ∷ p) s = part_iff (parts p) (parts_iff p) s

parts-compile :
    (pattern : Text) (re : List Part) → compile_glob pattern ≡ some re → parts pattern ≡ re
unfolding compile_glob
parts-compile pattern re e = ground arith

-- A pattern that compiles matches a text exactly when the text matches by the meaning of its
-- characters.
pub match_string_iff :
    (pattern s : Text) (re : List Part)
    → compile_glob pattern ≡ some re
    → (match_string re s ≡ true) ↔ Matches pattern s
unfolding compile_glob
match_string_iff pattern s re e = rw (← parts-compile pattern re e) (parts_iff pattern s)
