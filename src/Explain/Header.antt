-- ===== src/Explain/Header.antt =====
-- What a header value contains.
use package_firewall.Common.{
  ℕ, ◌-◌, ◌≤◌, ◌≡◌, refl, false, [], ◌∷◌, ◌++◌, map, ltb, arith, zero, suc, ltb→lt, Bool-cases, inl,
  inr,
}
use package_firewall.Common.Text.{Text, codes}
use package_firewall.Common.Lists.{length, take, All, All-append, length-append, length-take-le}
use package_firewall.Explain.{printable, one_line, header_value}

-- A printable character of ASCII.
abbrev pub IsPrintable : ℕ → Type 0
IsPrintable c = (0x20 ≤ c) × (c ≤ 0x7e)

IsPrintable-printable : (c : ℕ) → IsPrintable (printable c)
unfolding printable
IsPrintable-printable c = ground arith

All-map : (s : Text) → All IsPrintable (map printable s)
All-map [] = tt
All-map (c ∷ s) = (IsPrintable-printable c, All-map s)

All-take : (n : ℕ) (s : Text) → All IsPrintable s → All IsPrintable (take n s)
All-take zero s _ = tt
All-take (suc n) [] _ = tt
All-take (suc n) (c ∷ s) (p, ps) = (p, All-take n s ps)

in_range : IsPrintable b'.'
in_range = (omega arith, omega arith)

dots-All : All IsPrintable (codes "...")
dots-All = (in_range, (in_range, (in_range, tt)))

length-map : (s : Text) → length (map printable s) ≡ length s
length-map [] = refl
length-map (_ ∷ s) = omega (arith, length-map s)

length_cut :
    (out : Text) (limit : ℕ) → 3 ≤ limit → length (take (limit - 3) out ++ codes "...") ≤ limit
length_cut out limit h =
    omega
      (arith, h, length-append (take (limit - 3) out) (codes "..."), length-take-le (limit - 3) out)

printable-id : (c : ℕ) → IsPrintable c → printable c ≡ c
unfolding printable
printable-id c (lo, hi) = ground arith

map-id : (s : Text) → All IsPrintable s → map printable s ≡ s
map-id [] _ = refl
map-id (c ∷ s) (p, ps) = rw (printable-id c p, map-id s ps) refl

ltb-false : {m n : ℕ} → ltb m n ≡ false → n ≤ m
ltb-false h = ground arith

-- For a limit of 3 at least, a header value is no longer than the limit and consists of printable
-- characters of ASCII, and a value that fits in one line of such characters is kept.
pub header_value-IsPrintable :
    (value : Text) (limit : ℕ)
    → 3 ≤ limit
    → (length (header_value value limit) ≤ limit)
      × All IsPrintable (header_value value limit)
      × (length (one_line value) ≤ limit
          → All IsPrintable (one_line value)
          → header_value value limit ≡ one_line value)
unfolding header_value
header_value-IsPrintable value limit h =
    let out = map printable (one_line value) in
    elim (Bool-cases (ltb limit (length out))) [
      | inl long ↦ rw long (
        length_cut out limit h,
        All-append IsPrintable (take (limit - 3) out) _ (All-take (limit - 3) out (All-map _))
            dots-All,
        λ fits _.
            let over = ltb→lt limit (length out) long in
            let never : ⊥ = omega (arith, over, fits, length-map (one_line value)) in absurd never,
      )
      | inr short ↦ rw short (ltb-false short, All-map (one_line value), λ _ p. map-id _ p)
    ]
