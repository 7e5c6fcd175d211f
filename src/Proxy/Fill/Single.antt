-- ===== src/Proxy/Fill/Single.antt =====
-- The requests that lead and those that wait.
use package_firewall.Common.{
  ◌⊎◌, inl, inr, ℕ, ◌≡◌, ◌≢◌, sym, ◌∙◌, true, false, Option, none, some, arith, ==_iff, Bool-cases,
}
use package_firewall.Common.Text.{Text, text_eq, text_eq_iff}
use package_firewall.Common.Dict.{lookup}
use package_firewall.Proxy.Fill.{FillGroup, begin, finish, is_call}
use package_firewall.Proxy.Fill.Calls.{begin-led, begin-joined, finish-registered}
use package_firewall.Proxy.Fill.Requests.{
  Fills, Reached, at_start, led, joined, finished, woken, at_request, is_closed, HasLeader,
  same_pair, at_request-cases, at_request-other, at_request-same, lookup-insert_cases,
  lookup-insert_absent, lookup-insert_same, lookup-delete_cases, lookup-delete_other,
}

-- The calls in the map have one leader each, and nobody else leads; whoever waits does so for one of
-- these or for a call that is closed.
record IsSingle (s : Fills) : Type 0 where
  registered :
      (who : ℕ) (key : Text) (call : ℕ)
      → s.leads who ≡ some (key, call)
      → lookup key s.group.calls ≡ some call
  one :
      (who other : ℕ) (key : Text) (call : ℕ)
      → s.leads who ≡ some (key, call)
      → s.leads other ≡ some (key, call)
      → who ≡ other
  has_leader :
      (key : Text) (call : ℕ) → lookup key s.group.calls ≡ some call → HasLeader s.leads key call
  awaited :
      (who : ℕ) (key : Text) (call : ℕ)
      → s.waits who ≡ some (key, call)
      → (lookup key s.group.calls ≡ some call) ⊎ (is_closed s.group call ≡ true)

is_call-same : (o : Option ℕ) (call : ℕ) → o ≡ some call → is_call o call ≡ true
is_call-same none call h = cc
is_call-same (some c) call h = ground (arith, ==_iff c call)

led-IsSingle :
    (s : Fills) (who : ℕ) (key : Text) (call : ℕ) (g : FillGroup)
    → IsSingle s
    → s.leads who ≡ none
    → begin key s.group ≡ ((call, true), g)
    → IsSingle
        (record { group = g; leads = at_request who (some (key, call)) s.leads; waits = s.waits })
led-IsSingle s who key call g i idle e =
    let (absent, calls, closed) = begin-led key s.group g call e in
    let unled : (other : ℕ) → s.leads other ≢ some (key, call) =
      λ other h. let present = i.registered other key call h in cc in
    record {
      registered = (λ w k c h.
          elim (at_request-cases who w (some (key, call)) s.leads (some (k, c)) h) [
            | inl (_, pair) ↦
                let (same_key, same_call) = same_pair pair in
                rw (calls, sym same_key, sym same_call) (lookup-insert_same key call s.group.calls)
            | inr (_, before) ↦
                rw calls (
                  lookup-insert_absent key k call c s.group.calls absent
                    (i.registered w k c before))
          ]);
      one = (λ w x k c h j.
          elim (at_request-cases who w (some (key, call)) s.leads (some (k, c)) h) [
            | inl (a, pair) ↦
                elim (at_request-cases who x (some (key, call)) s.leads (some (k, c)) j) [
                  | inl (b, _) ↦ sym a ∙ b
                  | inr (_, before) ↦ absurd (unled x (before ∙ sym pair))
                ]
            | inr (_, first) ↦
                elim (at_request-cases who x (some (key, call)) s.leads (some (k, c)) j) [
                  | inl (_, pair) ↦ absurd (unled w (first ∙ sym pair))
                  | inr (_, second) ↦ i.one w x k c first second
                ]
          ]);
      has_leader = (λ k c h. elim (lookup-insert_cases key k call c s.group.calls (rw calls at h)) [
        | inl (same_key, same_call) ↦
            (who, rw (sym same_key, sym same_call) (at_request-same who (some (key, call)) s.leads))
        | inr before ↦
            let (leader, leading) = i.has_leader k c before in
            (
              leader,
              at_request-other who leader (some (key, call)) s.leads
                    (λ same. let now : s.leads leader ≡ none = rw same at idle in cc)
                  ∙ leading,
            )
      ]);
      awaited = (λ w k c h. elim (i.awaited w k c h) [
        | inl here ↦ inl (rw calls (lookup-insert_absent key k call c s.group.calls absent here))
        | inr shut ↦ inr (rw closed shut)
      ]);
    }

joined-IsSingle :
    (s : Fills) (who : ℕ) (key : Text) (call : ℕ) (g : FillGroup)
    → IsSingle s
    → begin key s.group ≡ ((call, false), g)
    → IsSingle
        (record { group = g; leads = s.leads; waits = at_request who (some (key, call)) s.waits })
joined-IsSingle s who key call g i e =
    let (present, calls, closed) = begin-joined key s.group g call e in
    record {
      registered = (λ w k c h. rw calls (i.registered w k c h));
      one = i.one;
      has_leader = (λ k c h. i.has_leader k c (rw calls at h));
      awaited = (λ w k c h.
          elim (at_request-cases who w (some (key, call)) s.waits (some (k, c)) h) [
            | inl (_, pair) ↦
                let (same_key, same_call) = same_pair pair in
                inl (rw (calls, sym same_key, sym same_call) present)
            | inr (_, before) ↦ rw (calls, closed) (i.awaited w k c before)
          ]);
    }

finished-IsSingle :
    (s : Fills) (who : ℕ) (key : Text) (call : ℕ)
    → IsSingle s
    → s.leads who ≡ some (key, call)
    → IsSingle (record {
      group = finish key call s.group;
      leads = at_request who none s.leads;
      waits = s.waits;
    })
finished-IsSingle s who key call i leading =
    let present = i.registered who key call leading in
    let (calls, closed) = finish-registered key call s.group (is_call-same _ call present) in
    record {
      registered = (λ w k c h. elim (at_request-cases who w none s.leads (some (k, c)) h) [
        | inl (_, never) ↦ cc
        | inr (apart, before) ↦ rw calls (
            lookup-delete_other key k s.group.calls (λ same.
              let theirs : lookup key s.group.calls ≡ some c =
                rw (sym same) at (i.registered w k c before) in
              let same_call : call ≡ c = cc in
              apart (i.one who w k c (rw (same, same_call) at leading) before))
            ∙ i.registered w k c before)
      ]);
      one = (λ w x k c h j. elim (at_request-cases who w none s.leads (some (k, c)) h) [
        | inl (_, never) ↦ cc
        | inr (_, first) ↦ elim (at_request-cases who x none s.leads (some (k, c)) j) [
          | inl (_, never) ↦ cc
          | inr (_, second) ↦ i.one w x k c first second
        ]
      ]);
      has_leader = (λ k c h.
          let (apart, before) = lookup-delete_cases key k c s.group.calls (rw calls at h) in
          let (leader, theirs) = i.has_leader k c before in
          (
            leader,
            at_request-other who leader none s.leads (λ same.
                  let both : s.leads who ≡ some (k, c) = rw (sym same) at theirs in
                  apart (same_pair (sym leading ∙ both)).0)
                ∙ theirs,
          ));
      awaited = (λ w k c h. elim (i.awaited w k c h) [
        | inr shut ↦ inr (rw closed (ground (arith, shut)))
        | inl here ↦ elim (Bool-cases (text_eq key k)) [
          | inl same ↦
              let theirs : lookup key s.group.calls ≡ some c =
                rw (sym ((text_eq_iff key k).0 same)) at here in
              let same_call : call ≡ c = cc in
              inr (rw (closed, same_call) (ground (arith, ==_iff c c)))
          | inr apart ↦
              let other : key ≢ k =
                λ e. let same : text_eq key k ≡ true = (text_eq_iff key k).1 e in cc in
              inl (rw calls (lookup-delete_other key k s.group.calls other ∙ here))
        ]
      ]);
    }

Reached-IsSingle : {s : Fills} → Reached s → IsSingle s
unfolding lookup
Reached-IsSingle at_start = record {
  registered = (λ who key call h. cc);
  one = (λ who other key call h k. cc);
  has_leader = (λ key call h. cc);
  awaited = (λ who key call h. cc);
}
Reached-IsSingle (led {s} who key call g before idle _ e) =
    led-IsSingle s who key call g (Reached-IsSingle before) idle e
Reached-IsSingle (joined {s} who key call g before _ _ e) =
    joined-IsSingle s who key call g (Reached-IsSingle before) e
Reached-IsSingle (finished {s} who key call before leading) =
    finished-IsSingle s who key call (Reached-IsSingle before) leading
Reached-IsSingle (woken {s} who before) =
    let i = Reached-IsSingle before in
    record {
      registered = i.registered;
      one = i.one;
      has_leader = i.has_leader;
      awaited = (λ w k c h. elim (at_request-cases who w none s.waits (some (k, c)) h) [
        | inl (_, never) ↦ cc
        | inr (_, waited) ↦ i.awaited w k c waited
      ]);
    }

-- However requests begin, finish, go on and give up, two requests that lead for one key are the same
-- request, with the same call, and what a request waits for has a leader or is closed.
pub Reached-leads :
    {s : Fills} (who other waiter : ℕ) (key : Text) (call second : ℕ) (awaited : Text) (pending : ℕ)
    → Reached s
    → s.leads who ≡ some (key, call)
    → s.leads other ≡ some (key, second)
    → s.waits waiter ≡ some (awaited, pending)
    → (who ≡ other)
      × (call ≡ second)
      × (HasLeader s.leads awaited pending ⊎ (is_closed s.group pending ≡ true))
Reached-leads {s} who other waiter key call second awaited pending reached h k waiting =
    let i = Reached-IsSingle reached in
    let first = i.registered who key call h in
    let same_call : call ≡ second = let again = i.registered other key second k in cc in
    (
      i.one who other key second (rw same_call at h) k,
      same_call,
      elim (i.awaited waiter awaited pending waiting) [
        | inl here ↦ inl (i.has_leader awaited pending here)
        | inr shut ↦ inr shut
      ],
    )
