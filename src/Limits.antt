-- ===== src/Limits.antt =====
-- apps/server/src/tmdb/token-bucket.ts, geocode/token-bucket.ts and session/limiter.ts: the limits of a
-- rate. A bucket counts in fractions of a token that make its refill in a millisecond whole; instants
-- are milliseconds of a clock that does not go back. The redis set of a window, whose members are
-- distinct by a random suffix, is the list of its scores. The tokens of the code are doubles, whose
-- rounding is left out: at an exact boundary a round of the code may deny a token that is there here.
pub mod Bucket
pub mod Window
use seatfirst.Prelude.{
  ℕ, zero, suc, ◌+◌, ◌-◌, ◌*◌, ◌/◌, min, max, Bool, true, false, Option, none, some, List, [], ◌∷◌,
  length, replicate, ◌++◌, ltb, leb, if◌then◌else◌,
}

-- The numbers of a bucket in its unit: what it holds, what comes in a millisecond, and a token.
pub record Rate : Type 0 where
  pub capacity : ℕ
  pub refill : ℕ
  pub token : ℕ

-- 30 tokens of 1000 units, 30 tokens a second.
abbrev pub tmdb_rate : Rate
tmdb_rate = record { capacity = 30 * 1000; refill = 30; token = 1000 }

-- 750 tokens of 2000 units, 12.5 tokens a second.
abbrev pub geocode_rate : Rate
geocode_rate = record { capacity = 750 * 2000; refill = 25; token = 2000 }

pub record TokenBucket : Type 0 where
  pub tokens : ℕ
  pub last_refill : ℕ

unfoldable pub create_token_bucket : Rate → ℕ → TokenBucket
create_token_bucket rate now = record { tokens = rate.capacity; last_refill = now }

unfoldable pub refilled : Rate → TokenBucket → ℕ → TokenBucket
refilled rate bucket now = record {
  tokens = min rate.capacity (bucket.tokens + (now - bucket.last_refill) * rate.refill);
  last_refill = now;
}

-- One round of the loop of `acquire`: whether a token was taken.
pub record Attempt : Type 0 where
  pub bucket : TokenBucket
  pub granted : Bool

unfoldable pub take : Rate → TokenBucket → Attempt
take rate bucket =
    if leb rate.token bucket.tokens
    then record {
      bucket = record { tokens = bucket.tokens - rate.token; last_refill = bucket.last_refill };
      granted = true;
    }
    else record { bucket = bucket; granted = false }

unfoldable pub attempt : Rate → TokenBucket → ℕ → Attempt
unfolding refilled take
attempt rate bucket now = take rate (refilled rate bucket now)

-- What is missing for a token; the loop sleeps until it has come in.
unfoldable pub deficit : Rate → TokenBucket → ℕ
deficit rate bucket = rate.token - bucket.tokens

-- The rounds of all callers, in the order of the instants: the bucket after them and the tokens taken.
pub record Taken : Type 0 where
  pub bucket : TokenBucket
  pub grants : ℕ

unfoldable pub attempts : Rate → TokenBucket → List ℕ → Taken
unfolding attempt
attempts rate bucket [] = record { bucket = bucket; grants = 0 }
attempts rate bucket (now ∷ later) =
    let first = attempt rate bucket now in
    let rest = attempts rate first.bucket later in
    record { bucket = rest.bucket; grants = (if first.granted then 1 else 0) + rest.grants }

pub record RateLimitWindow : Type 0 where
  pub limit : ℕ
  pub window_ms : ℕ

-- ZREMRANGEBYSCORE key -inf (now - windowMs)
unfoldable pub prune : ℕ → ℕ → List ℕ → List ℕ
prune now window_ms [] = []
prune now window_ms (at ∷ later) =
    let rest = prune now window_ms later in if ltb now (at + window_ms) then at ∷ rest else rest

-- The least score, 0 for none: ZRANGE key 0 0 WITHSCORES.
unfoldable pub oldest : List ℕ → ℕ
oldest [] = 0
oldest (at ∷ []) = at
oldest (at ∷ next ∷ later) = min at (oldest (next ∷ later))

pub data RateLimitCheck : Type 0 where
  allowed : RateLimitCheck
  denied : ℕ → RateLimitCheck

unfoldable pub retry_after_seconds : RateLimitWindow → ℕ → ℕ → ℕ
retry_after_seconds window at oldest_at = max 1 ((window.window_ms - (at - oldest_at) + 999) / 1000)

-- The set that the check leaves is the pruned one.
unfoldable pub check : RateLimitWindow → ℕ → ℕ → List ℕ → RateLimitCheck
unfolding prune oldest retry_after_seconds
check window at weight log =
    let kept = prune at window.window_ms log in
    if ltb window.limit (length kept + weight)
    then denied (retry_after_seconds window at (oldest kept))
    else allowed

unfoldable pub charge : RateLimitWindow → ℕ → ℕ → List ℕ → List ℕ
unfolding prune
charge window at weight log = prune at window.window_ms log ++ replicate weight at
