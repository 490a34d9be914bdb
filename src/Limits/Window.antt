-- ===== src/Limits/Window.antt =====
-- apps/server/src/session/limiter.ts: the sliding window of a session.
use seatfirst.Prelude.{
  ℕ, zero, suc, ◌+◌, ◌-◌, ◌*◌, ◌/◌, ◌<◌, ◌≤◌, ◌≡◌, max, List, [], ◌∷◌, ◌++◌, length, replicate,
  length-append, length-replicate, All, ltb, ltb→lt, inl, inr, Bool-cases, arith,
}
use seatfirst.Limits.{
  RateLimitWindow, allowed, denied, prune, oldest, retry_after_seconds, check, charge,
}

length-prune : (now w : ℕ) (log : List ℕ) → length (prune now w log) ≤ length log
unfolding prune
length-prune now w [] = omega arith
length-prune now w (at ∷ later) = ground (arith, length-prune now w later)

-- All members are in the window that ends now.
abbrev pub Within : ℕ → ℕ → List ℕ → Type 0
Within now w = All (λ at. (at ≤ now) × (now < at + w))

prune-Within :
    (now w : ℕ) (log : List ℕ) → All (λ at. at ≤ now) log → Within now w (prune now w log)
unfolding prune
prune-Within now w [] h = tt
prune-Within now w (at ∷ later) h =
    let rest = prune-Within now w later h.1 in
    elim (Bool-cases (ltb now (at + w))) [
      | inl fresh ↦ rw fresh ((h.0, ltb→lt now (at + w) fresh), rest)
      | inr stale ↦ rw stale rest
    ]

Within-append :
    (now w : ℕ) (xs ys : List ℕ) → Within now w xs → Within now w ys → Within now w (xs ++ ys)
Within-append now w [] ys p q = q
Within-append now w (x ∷ xs) ys p q = (p.0, Within-append now w xs ys p.1 q)

Within-replicate : (now w weight : ℕ) → 0 < w → Within now w (replicate weight now)
Within-replicate now w zero h = tt
Within-replicate now w (suc weight) h =
    ((omega arith, omega arith), Within-replicate now w weight h)

-- For a window of positive length and a set without members of the future, a charge that the check
-- of the same instant and set allows leaves a set of at most the limit, all of whose members lie in
-- the window.
pub charge_lem :
    (window : RateLimitWindow) (now weight : ℕ) (log : List ℕ)
    → 0 < window.window_ms
    → All (λ at. at ≤ now) log
    → check window now weight log ≡ allowed
    → (length (charge window now weight log) ≤ window.limit)
      × Within now window.window_ms (charge window now weight log)
unfolding check charge
charge_lem window now weight log pos h permitted =
    let kept = prune now window.window_ms log in
    let fits : length kept + weight ≤ window.limit = ground (arith, permitted) in
    (
      omega (arith, length-append kept (replicate weight now), length-replicate weight now, fits),
      Within-append now window.window_ms kept (replicate weight now)
          (prune-Within now window.window_ms log h)
          (Within-replicate now window.window_ms weight pos),
    )

-- The oldest member leaves the window.
prune-oldest :
    (t w at : ℕ) (later : List ℕ)
    → oldest (at ∷ later) + w ≤ t
    → length (prune t w (at ∷ later)) < length (at ∷ later)
unfolding oldest prune
prune-oldest t w at [] h = ground arith
prune-oldest t w at (next ∷ later) h = elim (Bool-cases (ltb t (at + w))) [
  | inl fresh ↦
      let least : oldest (next ∷ later) + w ≤ t = ground arith in
      let rest = prune-oldest t w next later least in rw fresh (omega (arith, rest))
  | inr stale ↦ rw stale (omega (arith, length-prune t w (next ∷ later)))
]

oldest-le :
    (now at : ℕ) (later : List ℕ) → All (λ x. x ≤ now) (at ∷ later) → oldest (at ∷ later) ≤ now
unfolding oldest
oldest-le now at [] h = h.0
oldest-le now at (next ∷ later) h = omega (arith, h.0)

-- When a check denies, and members are left in the window, none of them of the future, then at the
-- retry time that it names at least one of them has left the window.
pub denied_lem :
    (window : RateLimitWindow) (now weight seconds at : ℕ) (log later : List ℕ)
    → check window now weight log ≡ denied seconds
    → prune now window.window_ms log ≡ at ∷ later
    → All (λ x. x ≤ now) (at ∷ later)
    → length (prune (now + seconds * 1000) window.window_ms (at ∷ later)) < length (at ∷ later)
unfolding check retry_after_seconds
denied_lem window now weight seconds at log later refused kept h =
    let first = oldest (at ∷ later) in
    let seconds_are : seconds ≡ max 1 ((window.window_ms - (now - first) + 999) / 1000) =
      ground (arith, refused, kept) in
    prune-oldest (now + seconds * 1000) window.window_ms at later
      (omega (arith, seconds_are, oldest-le now at later h))
