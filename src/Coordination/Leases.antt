-- ===== src/Coordination/Leases.antt =====
-- What the callers of `TryAcquire`, `Renew` and `Release` can rely on.
use package_firewall.Common.{ℕ, ◌+◌, ◌≤◌, ◌<◌, ◌≡◌, refl, sym, ◌≢◌, true, false, List, arith}
use package_firewall.Common.Text.{Text, text_eq_refl}
use package_firewall.Common.Lists.{All}
use package_firewall.Coordination.{
  Item, absent_item, Condition, owner_not_exists, owner_is, expires_at_le, expires_at_ge, or_else,
  and_also, set_both, holds, applied, Reply, done, conditional_failure, failure, Client, Wrote,
  wrote, refused, unwritten, unreported, IsFaithful, Lease, acquired, not_acquired, acquisition,
  kept, lease_lost, lease_result, renew_error, release_error, unix, lease_key, try_acquire, renew,
  release,
}
use package_firewall.Coordination.Exclusion.{
  HeldBy, Call, Expected, run, true-not-false, holds-acquire, holds-other, holds-renew-other,
  run-Held,
}

acquisition-done :
    (lease l : Lease) (reply : Reply)
    → acquisition lease reply ≡ acquired l
    → (reply ≡ done) × (lease ≡ l)
unfolding acquisition
acquisition-done lease l done h = (refl, cc)
acquisition-done lease l conditional_failure h = cc
acquisition-done lease l (failure e) h = cc

acquisition-refused :
    (lease : Lease) (reply : Reply)
    → acquisition lease reply ≡ not_acquired
    → reply ≡ conditional_failure
unfolding acquisition
acquisition-refused lease done h = cc
acquisition-refused lease conditional_failure h = refl
acquisition-refused lease (failure e) h = cc

lease_result-done : (what : Text) (reply : Reply) → lease_result what reply ≡ kept → reply ≡ done
unfolding lease_result
lease_result-done what done h = refl
lease_result-done what conditional_failure h = cc
lease_result-done what (failure e) h = cc

lease_result-lost :
    (what : Text) (reply : Reply)
    → lease_result what reply ≡ lease_lost
    → reply ≡ conditional_failure
unfolding lease_result
lease_result-lost what done h = cc
lease_result-lost what conditional_failure h = refl
lease_result-lost what (failure e) h = cc

module _ {c : Condition} {write : Item → Item} {before after : Item} {reply : Reply} where
  Wrote-done :
      Wrote c write before after reply
      → reply ≡ done
      → (holds c before ≡ true) × (after ≡ write before)
  Wrote-done (wrote _ h e) d = (h, e)
  Wrote-done (refused r _ _) d = cc
  Wrote-done (unwritten e r _) d = cc
  Wrote-done (unreported e r _ _) d = cc

  Wrote-refused :
      Wrote c write before after reply → reply ≡ conditional_failure → holds c before ≡ false
  Wrote-refused (wrote r h e) d = cc
  Wrote-refused (refused _ h _) d = h
  Wrote-refused (unwritten e r _) d = cc
  Wrote-refused (unreported e r _ _) d = cc

HeldBy-applied :
    (o : Text) (n : ℕ) (i after : Item) → after ≡ applied (set_both o n) i → HeldBy o n after
unfolding applied
HeldBy-applied o n i after e =
    rw e (record { expiry = n; owned = refl; expires = refl; lasts = omega arith })

module _ {o : Text} {until : ℕ} {i : Item} (held : HeldBy o until i) where
  holds-own : (p : Text) → p ≡ o → holds (owner_is p) i ≡ true
  unfolding holds
  holds-own p e = rw (held.owned, e) (text_eq_refl o)

  holds-renew-own :
      (p : Text) (now : ℕ)
      → p ≡ o
      → now ≤ until
      → holds (and_also (owner_is p) (expires_at_ge now)) i ≡ true
  unfolding holds
  holds-renew-own p now e h =
      let last = held.lasts in
      let exp = held.expires in rw (held.owned, e, text_eq_refl o, exp) (ground arith)

holds-absent :
    (now : ℕ) (i : Item)
    → i ≡ absent_item
    → holds (or_else owner_not_exists (expires_at_le now)) i ≡ true
unfolding holds
holds-absent now i e = rw e refl

module _ {St : Type 0} (client : Client St) (faithful : IsFaithful client) (digest : Text → Text)
    (prefix resource : Text) where
  -- An acquired lease stands in the table.
  try_acquire-Held :
      (owner : Text) (now duration : ℕ) (st : St) (lease : Lease)
      → (try_acquire digest prefix client owner now resource duration st).0 ≡ acquired lease
      → (lease.key ≡ lease_key digest prefix resource)
        × (lease.owner ≡ owner)
        × HeldBy owner (unix (now + duration)) (
            client.item
              (lease_key digest prefix resource)
              (try_acquire digest prefix client owner now resource duration st).1)
  unfolding try_acquire
  try_acquire-Held owner now duration st lease h =
      let (d, e) = acquisition-done _ lease _ h in
      let (_, after) = Wrote-done (faithful.updated _ _ _ st) d in
      (rw (sym e) refl, rw (sym e) refl, HeldBy-applied owner _ _ _ after)

  module _ (owner : Text) (now duration : ℕ) (st : St) (lease : Lease)
      (got : (try_acquire digest prefix client owner now resource duration st).0 ≡ acquired lease)
      (calls : List Call) (expected : All (Expected owner (unix (now + duration))) calls) where
    -- The state after the acquisition and the calls.
    abbrev after_calls : St
    after_calls =
        run digest prefix client calls
          (try_acquire digest prefix client owner now resource duration st).1

    still :
        HeldBy owner
          (unix (now + duration))
          (client.item (lease_key digest prefix resource) after_calls)
    still =
        run-Held client faithful owner _ digest prefix resource calls _ expected
          (try_acquire-Held owner now duration st lease got).2

    still_at :
        (k : Text)
        → k ≡ lease_key digest prefix resource
        → HeldBy owner (unix (now + duration)) (client.item k after_calls)
    still_at k e = rw e still

    -- After an acquisition and then any calls of these kinds: attempts to acquire before the second in
    -- which the lease expires, renewals and releases by other owners, renewals by this owner that
    -- do not shorten the lease, and cooldowns: no call of `TryAcquire` for the same resource before
    -- that second acquires a lease.
    pub try_acquire-exclusive :
        (other : Text) (later wanted : ℕ) (taken : Lease)
        → unix later < unix (now + duration)
        → (try_acquire digest prefix client other later resource wanted after_calls).0
          ≢ acquired taken
    unfolding try_acquire
    try_acquire-exclusive other later wanted taken before h =
        let (d, _) = acquisition-done _ taken _ h in
        let (c, _) = Wrote-done (faithful.updated _ _ _ after_calls) d in
        true-not-false c (holds-acquire still _ before)

    -- After an acquisition and calls of the kinds of `Expected`, a renewal or a release of a lease of
    -- this key that another owner had is not confirmed.
    pub renew-lost :
        (old : Lease) (later wanted : ℕ)
        → old.key ≡ lease_key digest prefix resource
        → old.owner ≢ owner
        → ((renew digest prefix client old later wanted after_calls).0 ≢ kept)
          × ((release digest prefix client old after_calls).0 ≢ kept)
    unfolding renew release
    renew-lost old later wanted k n = (
      λ h.
          let (c, _) =
            Wrote-done (faithful.updated old.key _ _ after_calls)
              (lease_result-done renew_error _ h) in
          true-not-false c (holds-renew-other (still_at old.key k) old.owner _ n),
      λ h.
          let (c, _) =
            Wrote-done (faithful.deleted old.key _ after_calls)
              (lease_result-done release_error _ h) in
          true-not-false c (holds-other (still_at old.key k) old.owner n),
    )

    -- After an acquisition and calls of the kinds of `Expected`, a renewal of the lease is not told
    -- that the lease is lost, up to and including the second in which it expires, and neither is a
    -- release.
    pub renew-acquired :
        (later wanted : ℕ)
        → unix later ≤ unix (now + duration)
        → ((renew digest prefix client lease later wanted after_calls).0 ≢ lease_lost)
          × ((release digest prefix client lease after_calls).0 ≢ lease_lost)
    unfolding renew release
    renew-acquired later wanted h =
        let (k, o, _) = try_acquire-Held owner now duration st lease got in
        let held = still_at lease.key k in
        (
          λ lost.
              let c =
                Wrote-refused (faithful.updated lease.key _ _ after_calls)
                  (lease_result-lost renew_error _ lost) in
              true-not-false (holds-renew-own held lease.owner _ o h) c,
          λ lost.
              let c =
                Wrote-refused (faithful.deleted lease.key _ after_calls)
                  (lease_result-lost release_error _ lost) in
              true-not-false (holds-own held lease.owner o) c,
        )

  -- After a release that is confirmed, an attempt to acquire a lease for the same resource is not refused.
  pub try_acquire-release :
      (lease : Lease) (owner : Text) (now duration : ℕ) (st : St)
      → lease.key ≡ lease_key digest prefix resource
      → (release digest prefix client lease st).0 ≡ kept
      → (try_acquire digest prefix client owner now resource duration
          (release digest prefix client lease st).1).0
        ≢ not_acquired
  unfolding try_acquire release
  try_acquire-release lease owner now duration st k released h =
      let (_, gone) =
        Wrote-done (faithful.deleted lease.key _ st) (lease_result-done release_error _ released) in
      let c = Wrote-refused (faithful.updated _ _ _ _) (acquisition-refused _ _ h) in
      true-not-false (holds-absent _ _ (rw (sym k) gone)) c
