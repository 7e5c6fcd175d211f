-- ===== src/Intel/Decision/Malware.antt =====
-- A malicious finding decides, whatever its severity.
use mathlib.Core.List.{Memᴰ}
use package_firewall.Common.{
  ℕ, ◌≡◌, refl, true, false, none, some, [], ◌∷◌, arith, inl, inr, Bool-cases,
}
use package_firewall.Common.Text.{Text}
use package_firewall.Common.Lists.{any}
use package_firewall.Policy.Types.{Action, block, malware, Decision}
use package_firewall.Intel.Decision.{
  Finding, Findings, malicious, malware_decision, advisory, decide,
}

-- A decision to block because of the malicious finding `f`.
pub record BlocksFor (f : Finding) (threshold : ℕ) (d : Decision) : Type 0 where
  pub bad : malicious f ≡ true
  pub action : d.action ≡ block
  pub kind : d.kind ≡ malware
  pub advisory : d.advisory ≡ some (advisory f threshold)

pub malware_decision-some :
    (fs : Findings) (threshold : ℕ)
    → any malicious fs ≡ true
    → (d : Decision) × (malware_decision fs threshold ≡ some d)
      × (f : Finding) × Memᴰ f fs
      × BlocksFor f threshold d
unfolding malware_decision
malware_decision-some [] threshold h = cc
malware_decision-some (f ∷ fs) threshold h = elim (Bool-cases (malicious f)) [
  | inl bad ↦ rw bad (
    _,
    refl,
    f,
    Memᴰ.head refl,
    record { bad = bad; action = refl; kind = refl; advisory = refl },
  )
  | inr good ↦
      let (d, found, g, m, b) = malware_decision-some fs threshold (ground arith) in
      rw good (d, found, g, Memᴰ.tail m, b)
]

pub malware_decision-none :
    (fs : Findings) (threshold : ℕ)
    → any malicious fs ≡ false
    → malware_decision fs threshold ≡ none
unfolding malware_decision
malware_decision-none [] threshold h = refl
malware_decision-none (f ∷ fs) threshold h = ground (arith, malware_decision-none fs threshold)

-- If any finding is malicious then the decision is to block, with the kind `malware` and the
-- advisory of a malicious finding, for every threshold and every default action.
pub decide-malware :
    (one_decimal : ℕ → Text) (fs : Findings) (default : Action) (threshold : ℕ)
    → any malicious fs ≡ true
    → (f : Finding) × Memᴰ f fs × BlocksFor f threshold (decide one_decimal fs default threshold)
unfolding decide
decide-malware one_decimal [] default threshold h = cc
decide-malware one_decimal (first ∷ rest) default threshold h =
    let (d, found, f, m, b) = malware_decision-some (first ∷ rest) threshold h in (f, m, rw found b)
