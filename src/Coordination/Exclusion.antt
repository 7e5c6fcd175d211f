-- ===== src/Coordination/Exclusion.antt =====
-- A lease excludes others until it expires: what the calls of all processes do to the item that a
-- holder wrote.
use package_firewall.Common.{
  ℕ, ◌+◌, ◌≤◌, ◌<◌, ◌≡◌, refl, ap, ◌≢◌, ◌⊎◌, inl, inr, Bool, true, false, some, List, [], ◌∷◌,
  arith, Bool-cases,
}
use package_firewall.Common.Text.{Text, text_eq, text_eq_iff}
use package_firewall.Common.Lists.{append-cancel, All}
use package_firewall.Coordination.{
  Item, absent_item, Condition, Update, owner_not_exists, owner_is, expires_at_le, expires_at_ge,
  or_else, and_also, set_expires_at, holds, applied, Reply, Client, Wrote, wrote, refused,
  unwritten, unreported, IsFaithful, Lease, unix, item_key, lease_key, cooldown_key, try_acquire,
  renew, release, set_cooldown,
}

-- The item names the owner, and expires at the second `until` or later.
pub record HeldBy (o : Text) (until : ℕ) (i : Item) : Type 0 where
  pub expiry : ℕ
  pub owned : i.owner ≡ some o
  pub expires : i.expires_at ≡ some expiry
  pub lasts : until ≤ expiry

-- A call of one of the processes, at the time that it reads.
pub data Call : Type 0 where
  acquire_call : Text → ℕ → Text → ℕ → Call
  renew_call : Lease → ℕ → ℕ → Call
  release_call : Lease → Call
  cooldown_call : Text → ℕ → Call

-- The calls that the owner `o` must expect before the second `until`: attempts to acquire, what
-- others do with their leases, and renewals of its own that do not shorten its lease.
abbrev pub Expected : Text → ℕ → Call → Type 0
Expected o until (acquire_call _ now _ _) = unix now < until
Expected o until (renew_call lease now duration) =
    (lease.owner ≢ o) ⊎ (until ≤ unix (now + duration))
Expected o until (release_call lease) = lease.owner ≢ o
Expected o until (cooldown_call _ _) = Unit

abbrev second_char : Text → ℕ
second_char (_ ∷ c ∷ _) = c
second_char _ = 0

pub cooldown_key-ne-lease_key :
    (digest : Text → Text) (prefix route resource : Text)
    → lease_key digest prefix resource ≢ cooldown_key digest prefix route
unfolding item_key
cooldown_key-ne-lease_key digest prefix route resource h =
    let letters : b'l' ≡ b'c' = ap second_char (append-cancel prefix h) in omega (arith, letters)

pub Wrote-keeps {ℓ} :
    (P : Item → Type ℓ) {c : Condition} {write : Item → Item} {before after : Item} {reply : Reply}
    → Wrote c write before after reply
    → P before
    → (holds c before ≡ true → P (write before))
    → P after
Wrote-keeps P (wrote _ h e) p k = rw e (k h)
Wrote-keeps P (refused _ _ e) p k = rw e p
Wrote-keeps P (unwritten _ _ e) p k = rw e p
Wrote-keeps P (unreported _ _ h e) p k = rw e (k h)

pub true-not-false : {b : Bool} → b ≡ true → b ≡ false → ⊥
true-not-false h k = cc

text_ne : (s t : Text) → s ≢ t → text_eq s t ≡ false
text_ne s t n = elim (Bool-cases (text_eq s t)) [
  | inl same ↦ absurd (n ((text_eq_iff s t).0 same))
  | inr other ↦ other
]

module _ {o : Text} {until : ℕ} {i : Item} (held : HeldBy o until i) where
  pub holds-acquire :
      (now : ℕ) → now < until → holds (or_else owner_not_exists (expires_at_le now)) i ≡ false
  unfolding holds
  holds-acquire now before =
      let own = held.owned in
      let exp = held.expires in let last = held.lasts in rw (own, exp) (ground arith)

  pub holds-other : (p : Text) → p ≢ o → holds (owner_is p) i ≡ false
  unfolding holds
  holds-other p n = rw held.owned (text_ne p o n)

  pub holds-renew-other :
      (p : Text) (now : ℕ) → p ≢ o → holds (and_also (owner_is p) (expires_at_ge now)) i ≡ false
  unfolding holds
  holds-renew-other p now n = rw (held.owned, text_ne p o n) refl

  HeldBy-extend : (t : ℕ) → until ≤ t → HeldBy o until (applied (set_expires_at t) i)
  unfolding applied
  HeldBy-extend t h = record { expiry = t; owned = held.owned; expires = refl; lasts = h }

module _ (digest : Text → Text) (prefix : Text) {St : Type 0} (client : Client St) where
  unfoldable pub step : Call → St → St
  unfolding try_acquire renew release set_cooldown
  step (acquire_call owner now resource duration) st =
      (try_acquire digest prefix client owner now resource duration st).1
  step (renew_call lease now duration) st = (renew digest prefix client lease now duration st).1
  step (release_call lease) st = (release digest prefix client lease st).1
  step (cooldown_call route until) st = (set_cooldown digest prefix client route until st).1

  unfoldable pub run : List Call → St → St
  unfolding step
  run [] st = st
  run (call ∷ calls) st = run calls (step call st)

-- A write under the condition `c` keeps every item that is held.
abbrev Keeps : Text → ℕ → Condition → (Item → Item) → Type 0
Keeps o until c write = (i : Item) → HeldBy o until i → holds c i ≡ true → HeldBy o until (write i)

module _ {St : Type 0} (client : Client St) (faithful : IsFaithful client) (o : Text)
    (until : ℕ) where
  abbrev pub Held : Text → St → Type 0
  Held k st = HeldBy o until (client.item k st)

  update-Held :
      (j k : Text) (c : Condition) (u : Update) (st : St)
      → Held j st
      → (j ≡ k → Keeps o until c (applied u))
      → Held j (client.update_item k c u st).1
  update-Held j k c u st held safe = elim (Bool-cases (text_eq j k)) [
    | inl same ↦
        let e = (text_eq_iff j k).0 same in
        rw e (
          Wrote-keeps (HeldBy o until) (faithful.updated k c u st) (rw e at held)
            (safe e _ (rw e at held)))
    | inr other ↦
        rw
          (faithful.update_elsewhere j k c u st (λ e. true-not-false ((text_eq_iff j k).1 e) other))
          held
  ]

  delete-Held :
      (j k : Text) (c : Condition) (st : St)
      → Held j st
      → (j ≡ k → Keeps o until c (λ _. absent_item))
      → Held j (client.delete_item k c st).1
  delete-Held j k c st held safe = elim (Bool-cases (text_eq j k)) [
    | inl same ↦
        let e = (text_eq_iff j k).0 same in
        rw e (
          Wrote-keeps (HeldBy o until) (faithful.deleted k c st) (rw e at held)
            (safe e _ (rw e at held)))
    | inr other ↦
        rw (faithful.delete_elsewhere j k c st (λ e. true-not-false ((text_eq_iff j k).1 e) other))
          held
  ]

  module _ (digest : Text → Text) (prefix resource : Text) where
    step-Held :
        (call : Call) (st : St)
        → Expected o until call
        → Held (lease_key digest prefix resource) st
        → Held (lease_key digest prefix resource) (step digest prefix client call st)
    unfolding step try_acquire renew release set_cooldown
    step-Held (acquire_call owner now r duration) st before held =
        update-Held _ _ _ _ st held
          (λ _ i h c. absurd (true-not-false c (holds-acquire h _ before)))
    step-Held (renew_call lease now duration) st (inl n) held =
        update-Held _ _ _ _ st held
          (λ _ i h c. absurd (true-not-false c (holds-renew-other h lease.owner _ n)))
    step-Held (renew_call lease now duration) st (inr long) held =
        update-Held _ _ _ _ st held (λ _ i h _. HeldBy-extend h _ long)
    step-Held (release_call lease) st n held =
        delete-Held _ _ _ st held
          (λ _ i h c. absurd (true-not-false c (holds-other h lease.owner n)))
    step-Held (cooldown_call route t) st _ held =
        update-Held _ _ _ _ st held
          (λ e. absurd (cooldown_key-ne-lease_key digest prefix route resource e))

    pub run-Held :
        (calls : List Call) (st : St)
        → All (Expected o until) calls
        → Held (lease_key digest prefix resource) st
        → Held (lease_key digest prefix resource) (run digest prefix client calls st)
    unfolding run
    run-Held [] st _ held = held
    run-Held (call ∷ calls) st (e, es) held = run-Held calls _ es (step-Held call st e held)
