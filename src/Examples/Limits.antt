-- ===== src/Examples/Limits.antt =====
-- apps/server/src/tmdb/token-bucket.ts and session/limiter.ts at small runs.
use seatfirst.Prelude.{ℕ, ◌+◌, ◌-◌, ◌*◌, ◌≤◌, ◌<◌, ◌≡◌, refl, List, [], ◌∷◌, length, arith}
use seatfirst.Limits.{
  tmdb_rate, TokenBucket, attempts, RateLimitWindow, allowed, denied, prune, check, charge,
}
use seatfirst.Limits.Bucket.{attempts_lem}
use seatfirst.Limits.Window.{Within, charge_lem, denied_lem}

-- One token left at instant 5.
abbrev bucket : TokenBucket
bucket = record { tokens = 1000; last_refill = 5 }

attempts_example :
    (attempts tmdb_rate bucket (5 ∷ 6 ∷ 39 ∷ [])).grants * 1000 ≤ 30 * 1000 + (39 - 5) * 30
attempts_example = attempts_lem tmdb_rate bucket (5 ∷ 6 ∷ 39 ∷ []) (omega arith) (ground arith)

-- Three in ten seconds, two of them charged and one of these stale.
abbrev window : RateLimitWindow
window = record { limit = 3; window_ms = 10000 }

abbrev log : List ℕ
log = 1000 ∷ 9000 ∷ []

log_permits : check window 12000 2 log ≡ allowed
unfolding check
log_permits = refl

charge_example :
    (length (charge window 12000 2 log) ≤ 3) × Within 12000 10000 (charge window 12000 2 log)
charge_example = charge_lem window 12000 2 log (omega arith) (ground arith) log_permits

log_denies : check window 12000 3 log ≡ denied 7
unfolding check
log_denies = refl

log_pruned : prune 12000 10000 log ≡ 9000 ∷ []
unfolding prune
log_pruned = refl

denied_example : length (prune (12000 + 7 * 1000) 10000 (9000 ∷ [])) < 1
denied_example = denied_lem window 12000 3 7 9000 log [] log_denies log_pruned (ground arith)
