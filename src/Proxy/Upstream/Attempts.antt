-- ===== src/Proxy/Upstream/Attempts.antt =====
-- How often the loop goes around, and the slots that it takes.
use package_firewall.Common.{
  ℕ, zero, suc, ◌+◌, ◌-◌, ◌*◌, ◌≤◌, ◌≡◌, ◌≢◌, inl, inr, false, not, ◌||◌, List, [], ◌∷◌, ltb, leb,
  ◌==◌, arith, Bool-cases, Option-cases,
}
use package_firewall.Proxy.Response.{Response, Http}
use package_firewall.Proxy.Store.{UpstreamRequest}
use package_firewall.Proxy.Upstream.{
  Protection, Attempt, Slot, acquired, queue_timeout, canceled, Answer, failed, answered, Step,
  take_slot, release_slot, retry, request_sent, throttled, wait, Result, error, response,
  rate_limited, unfinished, Done, limited, take_answer, send_request, cool_down, do_from,
  do_request, delay_after, retryable_request, known_cooldown, later_cooldown,
}

-- The slots that the steps take and do not give back, and the requests among them.
unfoldable pub taken : List Step → ℕ
taken [] = 0
taken (take_slot ∷ steps) = suc (taken steps)
taken (release_slot ∷ steps) = taken steps
taken (retry ∷ steps) = taken steps
taken (request_sent _ ∷ steps) = taken steps
taken (throttled _ ∷ steps) = taken steps
taken (wait _ ∷ steps) = taken steps

unfoldable pub released : List Step → ℕ
released [] = 0
released (release_slot ∷ steps) = suc (released steps)
released (take_slot ∷ steps) = released steps
released (retry ∷ steps) = released steps
released (request_sent _ ∷ steps) = released steps
released (throttled _ ∷ steps) = released steps
released (wait _ ∷ steps) = released steps

unfoldable pub waited : List Step → ℕ
waited [] = 0
waited (wait delay ∷ steps) = delay + waited steps
waited (take_slot ∷ steps) = waited steps
waited (release_slot ∷ steps) = waited steps
waited (retry ∷ steps) = waited steps
waited (request_sent _ ∷ steps) = waited steps
waited (throttled _ ∷ steps) = waited steps

-- The slots that the result keeps: the one of a response whose body is still to be read.
abbrev pub kept : Result → ℕ
kept (response _) = 1
kept (error _) = 0
kept (rate_limited _) = 0
kept unfinished = 0

-- With at most `n` more rounds: the loop has a result, takes at most `n` slots and waits at most twice
-- the maximum for each, and has given back all slots but the one of its response.
pub record Bounded (maximum n : ℕ) (r : Done) : Type 0 where
  pub finished : r.result ≢ unfinished
  pub few : taken r.steps ≤ n
  pub patient : waited r.steps ≤ n * (maximum + maximum)
  pub balanced : taken r.steps ≡ released r.steps + kept r.result

-- The same after a response of status 429, whose slot is taken already.
record Limited (maximum n : ℕ) (r : Done) : Type 0 where
  finished : r.result ≢ unfinished
  few : taken r.steps ≤ n
  patient : waited r.steps ≤ maximum + n * (maximum + maximum)
  balanced : suc (taken r.steps) ≡ released r.steps + kept r.result

module _ (http : Http) (p : Protection) (request : UpstreamRequest) (attempts : ℕ → Attempt) where
  limited-Limited :
      (n attempt cooldown : ℕ) (limit : ℕ × Response) (again : Done)
      → (leb p.rate_limit_retries attempt ≡ false → Bounded p.max_retry_after n again)
      → Limited p.max_retry_after n (limited http p request attempts attempt cooldown limit again)
  unfolding limited taken released waited
  limited-Limited n attempt cooldown (delay, resp) again bounded =
      elim (Bool-cases (
        not (retryable_request request)
        || leb p.rate_limit_retries attempt
        || ltb p.max_retry_after delay)) [
          | inl last ↦
              rw (last, limited)
                (record {
                  finished = (λ e. cc);
                  few = omega arith;
                  patient = omega arith;
                  balanced = omega arith;
                })
          | inr more ↦
              let left : leb p.rate_limit_retries attempt ≡ false = ground arith in
              let short : delay ≤ p.max_retry_after = ground arith in
              elim (Option-cases (attempts attempt).paused) [
                | inr (e, broke) ↦
                    rw (more, broke, limited)
                      (record {
                        finished = (λ e. cc);
                        few = omega arith;
                        patient = omega (arith, short);
                        balanced = omega arith;
                      })
                | inl passed ↦
                    let b = bounded left in
                    rw (more, passed, limited)
                      (record {
                        finished = b.finished;
                        few = b.few;
                        patient = omega (arith, short, b.patient);
                        balanced = omega (arith, b.balanced);
                      })
              ]
        ]

  -- One request: all that the loop waits for it is what follows a response of status 429.
  abbrev Sent : ℕ → Done → Type 0
  Sent n r =
      (r.result ≢ unfinished)
      × (taken r.steps ≤ suc n)
      × (waited r.steps ≤ p.max_retry_after + n * (p.max_retry_after + p.max_retry_after))
      × (taken r.steps ≡ released r.steps + kept r.result)

  take_answer-Sent :
      (n attempt cooldown : ℕ) (again : ℕ → Done) (answer : Answer)
      → (leb p.rate_limit_retries attempt ≡ false → (c : ℕ) → Bounded p.max_retry_after n (again c))
      → Sent n (take_answer http p request attempts again attempt cooldown answer)
  unfolding take_answer taken released waited
  take_answer-Sent n attempt cooldown again (failed e) bounded =
      ((λ e. cc), omega arith, omega arith, omega arith)
  take_answer-Sent n attempt cooldown again (answered resp) bounded =
      elim (Bool-cases (not (resp.status_code == 429))) [
        | inl served ↦ rw (served, take_answer) ((λ e. cc), omega arith, omega arith, omega arith)
        | inr slow ↦
            let limit = delay_after http p (attempts attempt) attempt resp in
            let set_cooldown = later_cooldown cooldown ((attempts attempt).set_at + limit.0) in
            let l =
              limited-Limited n attempt set_cooldown limit (again set_cooldown)
                (λ left. bounded left set_cooldown) in
            rw (slow, take_answer) (l.finished, omega (arith, l.few), l.patient, l.balanced)
      ]

  send_request-Sent :
      (n attempt cooldown : ℕ) (again : ℕ → Done) (slot : Slot)
      → (leb p.rate_limit_retries attempt ≡ false → (c : ℕ) → Bounded p.max_retry_after n (again c))
      → Sent n (send_request http p request attempts again attempt cooldown slot)
  unfolding send_request taken released waited
  send_request-Sent n attempt cooldown again (canceled e) bounded =
      ((λ e. cc), omega arith, omega arith, omega arith)
  send_request-Sent n attempt cooldown again queue_timeout bounded =
      ((λ e. cc), omega arith, omega arith, omega arith)
  send_request-Sent n attempt cooldown again acquired bounded =
      take_answer-Sent n attempt cooldown again (attempts attempt).answer bounded

  Sent-Bounded : (n : ℕ) (r : Done) → Sent n r → Bounded p.max_retry_after (suc n) r
  Sent-Bounded n r (finished, few, patient, balanced) = record {
    finished = finished;
    few = few;
    patient = omega (arith, patient);
    balanced = balanced;
  }

  cool_down-Bounded :
      (n attempt cooldown : ℕ) (again : ℕ → Done)
      → (leb p.rate_limit_retries attempt ≡ false → (c : ℕ) → Bounded p.max_retry_after n (again c))
      → Bounded p.max_retry_after (suc n) (cool_down http p request attempts again attempt cooldown)
  unfolding cool_down taken released waited
  cool_down-Bounded n attempt cooldown again bounded =
      let a = attempts attempt in
      let until = known_cooldown cooldown a.remote in
      let sent = send_request-Sent n attempt until again a.slot bounded in
      elim (Bool-cases (until - a.now == 0)) [
        | inl over ↦ rw (over, cool_down) (Sent-Bounded n _ sent)
        | inr cooling ↦ elim (Bool-cases (ltb p.max_retry_after (until - a.now))) [
          | inl long ↦
              rw (cooling, long, cool_down)
                (record {
                  finished = (λ e. cc);
                  few = omega arith;
                  patient = omega arith;
                  balanced = omega arith;
                })
          | inr short ↦
              let patience : until - a.now ≤ p.max_retry_after = ground arith in
              elim (Option-cases a.cooled) [
                | inr (e, broke) ↦
                    rw (cooling, short, broke, cool_down)
                      (record {
                        finished = (λ e. cc);
                        few = omega arith;
                        patient = omega (arith, patience);
                        balanced = omega arith;
                      })
                | inl passed ↦
                    rw (cooling, short, passed, cool_down)
                      (record {
                        finished = sent.0;
                        few = sent.1;
                        patient = omega (arith, patience, sent.2);
                        balanced = sent.3;
                      })
              ]
        ]
      ]

  do_from-Bounded :
      (n attempt cooldown : ℕ)
      → attempt + n ≡ p.rate_limit_retries
      → Bounded p.max_retry_after (suc n) (do_from http p request attempts (suc n) attempt cooldown)
  unfolding do_from
  do_from-Bounded zero attempt cooldown h =
      cool_down-Bounded zero attempt cooldown (do_from http p request attempts zero (suc attempt))
        (λ left. let never : ⊥ = ground (arith, h) in absurd never)
  do_from-Bounded (suc n) attempt cooldown h =
      cool_down-Bounded (suc n) attempt cooldown
        (do_from http p request attempts (suc n) (suc attempt))
        (λ left c. do_from-Bounded n (suc attempt) c (omega (arith, h)))

-- The loop always has a result: it takes at most one slot more than the retries, waits at most
-- twice the maximum for each of them, and keeps a slot of the registry only for a response that it
-- returns.
pub do_request-Bounded :
    (http : Http) (p : Protection) (request : UpstreamRequest) (attempts : ℕ → Attempt)
    (cooldown : ℕ)
    → Bounded p.max_retry_after
        (suc p.rate_limit_retries)
        (do_request http p request attempts cooldown)
unfolding do_request
do_request-Bounded http p request attempts cooldown =
    do_from-Bounded http p request attempts p.rate_limit_retries 0 cooldown (omega arith)
