-- ===== src/Server/Bucket/Limit.antt =====
-- How often a bucket allows a call.
use package_firewall.Common.{
  ℕ, ◌+◌, ◌-◌, ◌*◌, ◌≤◌, ◌≡◌, refl, Bool, true, false, List, [], ◌∷◌, ltb, if◌then◌else◌, arith,
  Bool-cases, inl, inr,
}
use package_firewall.Server.Bucket.{
  TokenBucket, one_token, new_token_bucket, refilled, allow, calls,
}

-- The times do not go back, from the first argument on to the second.
abbrev pub Forward : ℕ → List ℕ → ℕ → Type 0
Forward start [] end = start ≡ end
Forward start (now ∷ times) end = (start ≤ now) × Forward now times end

elapsed : (start now rate : ℕ) → start ≤ now → (now - start) * rate + start * rate ≡ now * rate
elapsed start now rate h = grind arith

refilled-le : (now : ℕ) (b : TokenBucket) → refilled now b ≤ b.tokens + (now - b.last) * b.rate
unfolding refilled
refilled-le now b = ground arith

Forward-le : (start end : ℕ) (times : List ℕ) → Forward start times end → start ≤ end
Forward-le start end [] h = omega (arith, h)
Forward-le start end (now ∷ times) (h, rest) = omega (arith, h, Forward-le now end times rest)

-- What one call takes and leaves.
record Spent (now : ℕ) (b : TokenBucket) (result : Bool × TokenBucket) : Type 0 where
  same_rate : result.1.rate ≡ b.rate
  read_clock : result.1.last ≡ now
  paid :
      (if result.0 then one_token else 0) + result.1.tokens + b.last * b.rate
      ≤ b.tokens + now * b.rate

allow-Spent : (now : ℕ) (b : TokenBucket) → b.last ≤ now → Spent now b (allow now b)
unfolding allow
allow-Spent now b h =
    let cap = refilled-le now b in
    let time = elapsed b.last now b.rate h in
    elim (Bool-cases (ltb (refilled now b) one_token)) [
      | inl low ↦
          rw low (record { same_rate = refl; read_clock = refl; paid = omega (arith, cap, time) })
      | inr enough ↦
          let full : one_token ≤ refilled now b = ground arith in
          rw enough
            (record { same_rate = refl; read_clock = refl; paid = omega (arith, cap, time, full) })
    ]

-- The balances of one call and of the calls after it add up.
combine :
    (allowed : Bool) (granted left tokens at_start at_call at_end : ℕ)
    → (if allowed then one_token else 0) + left + at_start ≤ tokens + at_call
    → granted * one_token + at_call ≤ left + at_end
    → (if allowed then 1 + granted else granted) * one_token + at_start ≤ tokens + at_end
combine true granted left tokens at_start at_call at_end h k = omega (arith, h, k)
combine false granted left tokens at_start at_call at_end h k = omega (arith, h, k)

calls-paid :
    (times : List ℕ) (b : TokenBucket) (end : ℕ)
    → Forward b.last times end
    → (calls times b).0 * one_token + b.last * b.rate ≤ b.tokens + end * b.rate
unfolding calls
calls-paid [] b end h = rw h (omega arith)
calls-paid (now ∷ times) b end (h, rest) =
    let spent = allow-Spent now b h in
    let later = calls-paid times (allow now b).1 end (rw spent.read_clock rest) in
    combine (allow now b).0 _ _ _ _ _ _ spent.paid (rw (spent.read_clock, spent.same_rate) at later)

-- Of calls at times that do not go back, a new bucket allows at most the burst and what the rate
-- gives from its start to the last call.
pub calls-limit :
    (rate burst start end : ℕ) (times : List ℕ)
    → Forward start times end
    → (calls times (new_token_bucket rate burst start)).0 * one_token
      ≤ burst * one_token + (end - start) * rate
unfolding new_token_bucket
calls-limit rate burst start end times h =
    let paid = calls-paid times (new_token_bucket rate burst start) end h in
    let time = elapsed start end rate (Forward-le start end times h) in omega (arith, paid, time)

-- A call is allowed if the bucket can hold a token and the time since the last call is enough for
-- one at the rate.
allow-refill :
    (now : ℕ) (b : TokenBucket)
    → one_token ≤ b.burst
    → one_token ≤ (now - b.last) * b.rate
    → (allow now b).0 ≡ true
unfolding allow refilled
allow-refill now b room wait = ground arith
