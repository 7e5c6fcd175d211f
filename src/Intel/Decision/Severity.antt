-- ===== src/Intel/Decision/Severity.antt =====
-- Findings that are not malicious: the highest severity decides.
use mathlib.Core.List.{Memᴰ}
use package_firewall.Common.{
  ℕ, ◌≡◌, refl, ◌≤◌, ◌<◌, ◌⊎◌, inl, inr, true, false, ◌&&◌, Option, none, some, [], ◌∷◌, ltb, leb,
  if◌then◌else◌, arith, Bool-cases,
}
use package_firewall.Common.Text.{Text}
use package_firewall.Common.Lists.{any, All}
use package_firewall.Policy.Types.{Action, block, vulnerability, Decision}
use package_firewall.Intel.Decision.{
  Finding, Findings, malicious, finding_kind, advisory, exceeds, blocks, blocking, worst,
  default_or_warn, by_severity, by_malware, decide,
}
use package_firewall.Intel.Decision.Malware.{malware_decision-none}

abbrev pub AtMost : ℕ → Finding → Type 0
AtMost n f = f.severity ≤ n

All-le : (m n : ℕ) (fs : Findings) → m ≤ n → All (AtMost m) fs → All (AtMost n) fs
All-le m n [] l h = tt
All-le m n (f ∷ fs) l (p, h) = (omega arith, All-le m n fs l h)

-- A finding of a list with the highest severity in it.
pub record IsWorst (f : Finding) (fs : Findings) : Type 0 where
  pub listed : Memᴰ f fs
  pub highest : All (AtMost f.severity) fs

Memᴰ-skip : {a b c : Finding} {l : Findings} → Memᴰ a (b ∷ l) → Memᴰ a (b ∷ c ∷ l)
Memᴰ-skip (Memᴰ.head e) = Memᴰ.head e
Memᴰ-skip (Memᴰ.tail m) = Memᴰ.tail (Memᴰ.tail m)

worst-IsWorst : (best : Finding) (fs : Findings) → IsWorst (worst best fs) (best ∷ fs)
unfolding worst
worst-IsWorst best [] = record { listed = Memᴰ.head refl; highest = (omega arith, tt) }
worst-IsWorst best (f ∷ fs) = elim (Bool-cases (ltb best.severity f.severity)) [
  | inl higher ↦
      let w = worst-IsWorst f fs in
      rw higher
        (record { listed = Memᴰ.tail w.listed; highest = (ground (arith, w.highest.0), w.highest) })
  | inr lower ↦
      let w = worst-IsWorst best fs in
      rw lower (record {
        listed = Memᴰ-skip w.listed;
        highest = (w.highest.0, (ground (arith, w.highest.0), w.highest.1));
      })
]

-- A finding that the threshold does not block.
abbrev IsLow : ℕ → Finding → Type 0
IsLow threshold f = (threshold ≡ 0) ⊎ (f.severity < threshold)

-- What the loop has found from the candidate `best` on.
abbrev Best : ℕ → Option Finding → Findings → Option Finding → Type 0
Best threshold best fs none = (best ≡ none) × All (IsLow threshold) fs
Best threshold best fs (some f) =
    (0 < threshold)
    × (threshold ≤ f.severity)
    × ((best ≡ some f) ⊎ Memᴰ f fs)
    × ((b : Finding) → best ≡ some b → b.severity ≤ f.severity)
    × All (AtMost f.severity) fs

abbrev Candidate : ℕ → Option Finding → Type 0
Candidate threshold none = Unit {0}
Candidate threshold (some b) = (0 < threshold) × (threshold ≤ b.severity)

Best-take :
    (threshold : ℕ) (best : Option Finding) (f : Finding) (fs : Findings) (r : Option Finding)
    → blocks threshold best f ≡ true
    → Best threshold (some f) fs r
    → Best threshold best (f ∷ fs) r
unfolding blocks exceeds
Best-take threshold best f fs none h (e, low) = cc
Best-take threshold best f fs (some g) h (pos, over, from, above, most) =
    (pos, over, inr (listed from), λ b e. ground (arith, above f refl), (above f refl, most))
  where
    listed : (some f ≡ some g) ⊎ Memᴰ g fs → Memᴰ g (f ∷ fs)
    listed (inl e) = Memᴰ.head (cc)
    listed (inr m) = Memᴰ.tail m

Best-leave :
    (threshold : ℕ) (best : Option Finding) (f : Finding) (fs : Findings) (r : Option Finding)
    → Candidate threshold best
    → blocks threshold best f ≡ false
    → Best threshold best fs r
    → Best threshold best (f ∷ fs) r
unfolding blocks exceeds
Best-leave threshold best f fs none c h (e, low) = (e, (ground arith, low))
Best-leave threshold none f fs (some g) c h (pos, over, from, above, most) =
    (pos, over, inr (listed from), above, (ground arith, most))
  where
    listed : (none ≡ some g) ⊎ Memᴰ g fs → Memᴰ g (f ∷ fs)
    listed (inl e) = cc
    listed (inr m) = Memᴰ.tail m
Best-leave threshold (some b) f fs (some g) c h (pos, over, from, above, most) =
    (pos, over, listed from, above, (ground (arith, above b refl), most))
  where
    listed : (some b ≡ some g) ⊎ Memᴰ g fs → (some b ≡ some g) ⊎ Memᴰ g (f ∷ fs)
    listed (inl e) = inl e
    listed (inr m) = inr (Memᴰ.tail m)

blocks→Candidate :
    (threshold : ℕ) (best : Option Finding) (f : Finding)
    → blocks threshold best f ≡ true
    → (0 < threshold) × (threshold ≤ f.severity)
unfolding blocks
blocks→Candidate threshold best f h = (ground arith, ground arith)

blocking-Best :
    (threshold : ℕ) (best : Option Finding) (fs : Findings)
    → Candidate threshold best
    → Best threshold best fs (blocking threshold best fs)
unfolding blocking
blocking-Best threshold none [] c = (refl, tt)
blocking-Best threshold (some b) [] c = (c.0, c.1, inl refl, λ a e. ground arith, tt)
blocking-Best threshold best (f ∷ fs) c = elim (Bool-cases (blocks threshold best f)) [
  | inl take ↦ rw take (
      Best-take threshold best f fs _ take
        (blocking-Best threshold (some f) fs (blocks→Candidate threshold best f take)))
  | inr leave ↦
      rw leave (Best-leave threshold best f fs _ c leave (blocking-Best threshold best fs c))
]

-- The decision about the worst finding `f` of findings that are not malicious.
pub record DecidesBy (f : Finding) (default : Action) (threshold : ℕ) (d : Decision) : Type 0 where
  pub action :
      d.action
      ≡ (if ltb 0 threshold && leb threshold f.severity then block else default_or_warn default)
  pub kind : d.kind ≡ vulnerability
  pub advisory : d.advisory ≡ some (advisory f threshold)

finding_kind-vulnerability : (f : Finding) → malicious f ≡ false → finding_kind f ≡ vulnerability
unfolding finding_kind
finding_kind-vulnerability f h = rw h

malicious_of_mem :
    (f : Finding) (fs : Findings) → any malicious fs ≡ false → Memᴰ f fs → malicious f ≡ false
malicious_of_mem f [] h m = elim m [ ]
malicious_of_mem f (g ∷ fs) h (Memᴰ.head e) = rw e (ground arith)
malicious_of_mem f (g ∷ fs) h (Memᴰ.tail m) = malicious_of_mem f fs (ground arith) m

severity_of_mem : (n : ℕ) (f : Finding) (fs : Findings) → All (IsLow n) fs → Memᴰ f fs → IsLow n f
severity_of_mem n f [] h m = elim m [ ]
severity_of_mem n f (g ∷ fs) (l, h) (Memᴰ.head e) = rw e l
severity_of_mem n f (g ∷ fs) (l, h) (Memᴰ.tail m) = severity_of_mem n f fs h m

module _ (one_decimal : ℕ → Text) where
  by_severity-DecidesBy :
      (first : Finding) (rest : Findings) (default : Action) (threshold : ℕ) (o : Option Finding)
      → any malicious (first ∷ rest) ≡ false
      → Best threshold none (first ∷ rest) o
      → (f : Finding) × IsWorst f (first ∷ rest)
        × DecidesBy f default threshold (by_severity one_decimal first rest default threshold o)
  unfolding by_severity
  by_severity-DecidesBy first rest default threshold (some f) good (pos, over, from, _, most) =
      let m : Memᴰ f (first ∷ rest) = listed from in
      (
        f,
        record { listed = m; highest = most },
        record {
          action = ground arith;
          kind = finding_kind-vulnerability f (malicious_of_mem f (first ∷ rest) good m);
          advisory = refl;
        },
      )
    where
      listed : (none ≡ some f) ⊎ Memᴰ f (first ∷ rest) → Memᴰ f (first ∷ rest)
      listed (inl e) = cc
      listed (inr m) = m
  by_severity-DecidesBy first rest default threshold none good (_, low) =
      let w = worst-IsWorst first rest in
      (
        worst first rest,
        w,
        record {
          action =
              ground
                (arith, severity_of_mem threshold (worst first rest) (first ∷ rest) low w.listed);
          kind =
              finding_kind-vulnerability (worst first rest)
                (malicious_of_mem (worst first rest) (first ∷ rest) good w.listed);
          advisory = refl;
        },
      )

  -- If no finding is malicious then a finding with the highest severity decides: the action is to
  -- block if a threshold is set and that severity reaches it, and the default otherwise.
  pub decide-DecidesBy :
      (first : Finding) (rest : Findings) (default : Action) (threshold : ℕ)
      → any malicious (first ∷ rest) ≡ false
      → (f : Finding) × IsWorst f (first ∷ rest)
        × DecidesBy f default threshold (decide one_decimal (first ∷ rest) default threshold)
  unfolding decide by_malware
  decide-DecidesBy first rest default threshold good =
      rw (malware_decision-none (first ∷ rest) threshold good) (
        by_severity-DecidesBy first rest default threshold _ good
          (blocking-Best threshold none (first ∷ rest) tt))
