-- ===== src/Limits/Bucket.antt =====
-- apps/server/src/tmdb/token-bucket.ts and geocode/token-bucket.ts: how many tokens a bucket gives.
use seatfirst.Prelude.{
  ℕ, ◌+◌, ◌-◌, ◌*◌, ◌≤◌, ◌≡◌, sym, subst, Bool, true, false, List, [], ◌∷◌, leb, inl, inr,
  if◌then◌else◌, Bool-cases, arith,
}
use seatfirst.Limits.{Rate, TokenBucket, Attempt, refilled, take, attempt, attempts}

-- The instants do not go back, from one on.
abbrev pub Rising : ℕ → List ℕ → Type 0
Rising from [] = Unit
Rising from (now ∷ later) = (from ≤ now) × Rising now later

abbrev pub last_of : ℕ → List ℕ → ℕ
last_of from [] = from
last_of from (now ∷ later) = last_of now later

last_of-le : (from : ℕ) (instants : List ℕ) → Rising from instants → from ≤ last_of from instants
last_of-le from [] h = omega arith
last_of-le from (now ∷ later) h = omega (arith, h.0, last_of-le now later h.1)

abbrev spent : Rate → Attempt → ℕ
spent rate a = if a.granted then rate.token else 0

attempt_lem :
    (rate : Rate) (bucket : TokenBucket) (now : ℕ)
    → ((attempt rate bucket now).bucket.tokens + spent rate (attempt rate bucket now)
        ≤ bucket.tokens + (now - bucket.last_refill) * rate.refill)
      × ((attempt rate bucket now).bucket.tokens ≤ rate.capacity)
      × ((attempt rate bucket now).bucket.last_refill ≡ now)
unfolding attempt refilled take
attempt_lem rate bucket now = elim (Bool-cases (leb rate.token (refilled rate bucket now).tokens)) [
  | inl enough ↦ rw enough (ground arith)
  | inr short ↦ rw short (ground arith)
]

split_time : (a b c r : ℕ) → a ≤ b → b ≤ c → (b - a) * r + (c - b) * r ≡ (c - a) * r
split_time a b c r p q =
    let whole : c - a ≡ (b - a) + (c - b) = omega arith in rw whole (grind arith)

spent_and_rest :
    (rate : Rate) (granted : Bool) (grants : ℕ)
    → ((if granted then 1 else 0) + grants) * rate.token
      ≡ (if granted then rate.token else 0) + grants * rate.token
spent_and_rest rate true grants = grind arith
spent_and_rest rate false grants =
    let same : 0 + grants ≡ grants = omega arith in rw same (omega arith)

-- The tokens taken and left are those there at first and those that came in.
attempts_balance :
    (rate : Rate) (bucket : TokenBucket) (instants : List ℕ)
    → Rising bucket.last_refill instants
    → (attempts rate bucket instants).grants * rate.token
        + (attempts rate bucket instants).bucket.tokens
      ≤ bucket.tokens + (last_of bucket.last_refill instants - bucket.last_refill) * rate.refill
unfolding attempts
attempts_balance rate bucket [] h = omega arith
attempts_balance rate bucket (now ∷ later) h =
    let first = attempt rate bucket now in
    let (paid, full, at) = attempt_lem rate bucket now in
    let rising : Rising first.bucket.last_refill later = subst (λ t. Rising t later) (sym at) h.1 in
    let rest = attempts_balance rate first.bucket later rising in
    let rest' =
      subst
        (λ t.
          (attempts rate first.bucket later).grants * rate.token
            + (attempts rate first.bucket later).bucket.tokens
          ≤ first.bucket.tokens + (last_of t later - t) * rate.refill)
        at rest in
    omega (
      arith,
      paid,
      rest',
      spent_and_rest rate first.granted (attempts rate first.bucket later).grants,
      split_time bucket.last_refill now (last_of now later) rate.refill h.0
          (last_of-le now later h.1),
    )

-- From a bucket within its capacity, on a clock that does not go back, the rounds of all callers,
-- in any order, take no more tokens up to an instant than the capacity and what came in until then.
pub attempts_lem :
    (rate : Rate) (bucket : TokenBucket) (instants : List ℕ)
    → bucket.tokens ≤ rate.capacity
    → Rising bucket.last_refill instants
    → (attempts rate bucket instants).grants * rate.token
      ≤ rate.capacity + (last_of bucket.last_refill instants - bucket.last_refill) * rate.refill
attempts_lem rate bucket instants full h =
    omega (arith, full, attempts_balance rate bucket instants h)
