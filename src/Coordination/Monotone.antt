-- ===== src/Coordination/Monotone.antt =====
-- A cooldown is never shortened.
use package_firewall.Common.{
  ℕ, ◌*◌, ◌≤◌, ◌<◌, ◌≡◌, refl, sym, ◌∙◌, ◌≢◌, ◌⊎◌, inl, inr, true, false, Option, none, some, List,
  [], ◌∷◌, arith, Bool-cases, Option-cases,
}
use package_firewall.Common.Text.{Text, text_eq, text_eq_iff}
use package_firewall.Common.Lists.{All}
use package_firewall.Coordination.{
  Item, expires_at_not_exists, expires_at_lt, or_else, set_expires_at, holds, applied, Reply, done,
  conditional_failure, failure, cooldown_result, Client, Wrote, wrote, refused, unwritten,
  unreported, IsFaithful, unix, lease_key, cooldown_key, try_acquire, renew, release, set_cooldown,
  cooldown, cooldown_at,
}
use package_firewall.Coordination.Exclusion.{
  Call, acquire_call, renew_call, release_call, cooldown_call, step, run, Wrote-keeps,
  true-not-false, cooldown_key-ne-lease_key,
}

-- The item is in force until the second `t` or later.
record Lasts (t : ℕ) (i : Item) : Type 0 where
  expiry : ℕ
  expires : i.expires_at ≡ some expiry
  reaches : t ≤ expiry

module _ {t : ℕ} {i : Item} where
  -- A cooldown that is written over a longer one is refused.
  Lasts-write :
      (n : ℕ)
      → Lasts t i
      → holds (or_else expires_at_not_exists (expires_at_lt n)) i ≡ true
      → Lasts t (applied (set_expires_at n) i)
  unfolding holds applied
  Lasts-write n lasts h =
      let r = lasts.reaches in
      let k = rw lasts.expires at h in record { expiry = n; expires = refl; reaches = ground arith }

Lasts-set : (n : ℕ) (i : Item) → Lasts n (applied (set_expires_at n) i)
unfolding applied
Lasts-set n i = record { expiry = n; expires = refl; reaches = omega arith }

Lasts-refused :
    (n : ℕ) (i : Item)
    → holds (or_else expires_at_not_exists (expires_at_lt n)) i ≡ false
    → Lasts n i
unfolding holds
Lasts-refused n i h = elim (Option-cases i.expires_at) [
  | inl absent ↦ let k = rw absent at h in cc
  | inr (e, is) ↦ let k = rw is at h in record { expiry = e; expires = is; reaches = ground arith }
]

Wrote-Lasts :
    {n : ℕ} {before after : Item} {reply : _}
    → Wrote
        (or_else expires_at_not_exists (expires_at_lt n))
        (applied (set_expires_at n))
        before
        after
        reply
    → ((reply ≡ done) ⊎ (reply ≡ conditional_failure))
    → Lasts n after
Wrote-Lasts {n} {before} (wrote _ _ e) _ = rw e (Lasts-set n before)
Wrote-Lasts {n} {before} (refused _ h e) _ = rw e (Lasts-refused n before h)
Wrote-Lasts (unwritten x r _) (inl d) = cc
Wrote-Lasts (unwritten x r _) (inr d) = cc
Wrote-Lasts (unreported x r _ _) (inl d) = cc
Wrote-Lasts (unreported x r _ _) (inr d) = cc

cooldown_result-none :
    (reply : Reply) → cooldown_result reply ≡ none → (reply ≡ done) ⊎ (reply ≡ conditional_failure)
unfolding cooldown_result
cooldown_result-none done h = inl refl
cooldown_result-none conditional_failure h = inr refl
cooldown_result-none (failure e) h = cc

update-Lasts :
    {St : Type 0} (client : Client St) (faithful : IsFaithful client) (t n : ℕ) (j k : Text)
    (st : St)
    → Lasts t (client.item j st)
    → Lasts t (
        client.item j
          (client.update_item k
            (or_else expires_at_not_exists (expires_at_lt n))
            (set_expires_at n)
            st).1)
update-Lasts client faithful t n j k st lasts = elim (Bool-cases (text_eq j k)) [
  | inl same ↦
      let e = (text_eq_iff j k).0 same in
      rw e (
        Wrote-keeps (Lasts t) (faithful.updated k _ _ st) (rw e at lasts)
          (Lasts-write n (rw e at lasts)))
  | inr other ↦
      rw (faithful.update_elsewhere j k _ _ st (λ e. true-not-false ((text_eq_iff j k).1 e) other))
        lasts
]

module _ (digest : Text → Text) (prefix : Text) where
  -- The leases of the calls were acquired by `TryAcquire`, so their keys are of its form.
  abbrev pub Genuine : Call → Type 0
  Genuine (acquire_call _ _ _ _) = Unit
  Genuine (renew_call lease _ _) =
      (resource : Text) × (lease.key ≡ lease_key digest prefix resource)
  Genuine (release_call lease) = (resource : Text) × (lease.key ≡ lease_key digest prefix resource)
  Genuine (cooldown_call _ _) = Unit

  module _ {St : Type 0} (client : Client St) (faithful : IsFaithful client) (route : Text) where
    key : Text
    key = cooldown_key digest prefix route

    set_cooldown-Lasts :
        (until : ℕ) (st : St)
        → (set_cooldown digest prefix client route until st).0 ≡ none
        → Lasts (unix until) (
            client.item
              (cooldown_key digest prefix route)
              (set_cooldown digest prefix client route until st).1)
    unfolding set_cooldown
    set_cooldown-Lasts until st h =
        let written = faithful.updated _ _ _ st in Wrote-Lasts written (cooldown_result-none _ h)

    not_lease_key :
        (k resource : Text)
        → k ≡ lease_key digest prefix resource
        → cooldown_key digest prefix route ≢ k
    not_lease_key k resource e c =
        cooldown_key-ne-lease_key digest prefix route resource (sym e ∙ sym c)

    step-Lasts :
        (t : ℕ) (call : Call) (st : St)
        → Genuine call
        → Lasts t (client.item (cooldown_key digest prefix route) st)
        → Lasts t
            (client.item (cooldown_key digest prefix route) (step digest prefix client call st))
    unfolding step try_acquire renew release set_cooldown
    step-Lasts t (acquire_call owner now r duration) st _ h =
        rw (faithful.update_elsewhere _ _ _ _ st (not_lease_key _ r refl)) h
    step-Lasts t (renew_call lease now duration) st (r, e) h =
        rw (faithful.update_elsewhere _ _ _ _ st (not_lease_key _ r e)) h
    step-Lasts t (release_call lease) st (r, e) h =
        rw (faithful.delete_elsewhere _ _ _ st (not_lease_key _ r e)) h
    step-Lasts t (cooldown_call other until) st _ h = update-Lasts client faithful t _ _ _ st h

    run-Lasts :
        (t : ℕ) (calls : List Call) (st : St)
        → All Genuine calls
        → Lasts t (client.item (cooldown_key digest prefix route) st)
        → Lasts t
            (client.item (cooldown_key digest prefix route) (run digest prefix client calls st))
    unfolding run
    run-Lasts t [] st _ h = h
    run-Lasts t (call ∷ calls) st (g, gs) h = run-Lasts t calls _ gs (step-Lasts t call st g h)

    Lasts-cooldown_at :
        (t now until : ℕ) (o : Option Item) (i : Item)
        → Lasts t i
        → ((j : Item) → o ≡ some j → j ≡ i)
        → now < t * 1000000000
        → cooldown_at now o ≡ some until
        → t * 1000000000 ≤ until
    unfolding cooldown_at
    Lasts-cooldown_at t now until none i lasts same before h = cc
    Lasts-cooldown_at t now until (some j) i lasts same before h =
        let e = rw (same j refl, lasts.expires) at h in let r = lasts.reaches in ground arith

    -- After a call of `SetCooldown` that reports no error and any calls, with leases that
    -- `TryAcquire` made, `Cooldown` answers, before the second of that cooldown's end, an error or a
    -- moment that is no earlier.
    pub cooldown-set_cooldown :
        (until now answer : ℕ) (calls : List Call) (st : St)
        → (set_cooldown digest prefix client route until st).0 ≡ none
        → All Genuine calls
        → now < unix until * 1000000000
        → cooldown digest prefix client route now
            (run digest prefix client calls (set_cooldown digest prefix client route until st).1)
          ≡ some answer
        → unix until * 1000000000 ≤ answer
    unfolding cooldown
    cooldown-set_cooldown until now answer calls st h gs before =
        Lasts-cooldown_at (unix until) now answer _ _
          (run-Lasts _ calls _ gs (set_cooldown-Lasts until st h)) (faithful.got _ _) before
