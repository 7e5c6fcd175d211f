-- ===== src/Server/Bucket.antt =====
-- internal/server/server.go, `tokenBucket`: the limiter of the explain endpoint. Tokens are counted
-- in billionths, in which a rate per second is a rate per nanosecond, so nothing is rounded as the
-- floats of the code are. The clock is an argument.
pub mod Limit
use package_firewall.Common.{
  ℕ, ◌+◌, ◌-◌, ◌*◌, min, Bool, true, false, List, [], ◌∷◌, ltb, if◌then◌else◌,
}

-- One token.
abbrev pub one_token : ℕ
one_token = 1000000000

pub record TokenBucket : Type 0 where
  pub rate : ℕ
  pub burst : ℕ
  pub tokens : ℕ
  pub last : ℕ

-- `newTokenBucket`
unfoldable pub new_token_bucket : ℕ → ℕ → ℕ → TokenBucket
new_token_bucket rate burst now = record {
  rate = rate;
  burst = burst * one_token;
  tokens = burst * one_token;
  last = now;
}

-- The tokens after the refill of `allow`.
unfoldable pub refilled : ℕ → TokenBucket → ℕ
refilled now b = min b.burst (b.tokens + (now - b.last) * b.rate)

-- `allow`
unfoldable pub allow : ℕ → TokenBucket → Bool × TokenBucket
allow now b =
    let tokens = refilled now b in
    if ltb tokens one_token
    then (false, record b { tokens = tokens; last = now })
    else (true, record b { tokens = tokens - one_token; last = now })

-- Calls at the given times: how many were allowed, and the bucket that is left.
unfoldable pub calls : List ℕ → TokenBucket → ℕ × TokenBucket
calls [] b = (0, b)
calls (now ∷ times) b =
    let (allowed, next) = allow now b in
    let (granted, rest) = calls times next in ((if allowed then 1 + granted else granted), rest)
