-- ===== src/Schedule/Dates.antt =====
-- packages/core/src/local-time.ts: the dates of canonical runs, in rising order.
use seatfirst.Prelude.{
  ℕ, zero, suc, ◌+◌, ◌-◌, ◌≤◌, ◌≡◌, refl, ap, true, ◌&&◌, ◌||◌, Option, List, [], ◌∷◌, ◌++◌, inl,
  inr, leb, ltb, ◌==◌, Bool-cases, arith,
}
use seatfirst.Schedule.{
  DateRun, DayWindow, days_from, all_dates, on_window, keep_dates, last_to, includes_day,
}
use seatfirst.Schedule.Runs.{covers, Separated}

includes_day-append :
    (xs ys : List ℕ) (day : ℕ)
    → includes_day (xs ++ ys) day ≡ (includes_day xs day || includes_day ys day)
includes_day-append [] ys day = refl
includes_day-append (x ∷ xs) ys day = ground (arith, includes_day-append xs ys day)

includes_day-days_from :
    (n start day : ℕ)
    → includes_day (days_from n start) day ≡ (leb start day && ltb day (start + n))
unfolding days_from
includes_day-days_from zero start day = ground arith
includes_day-days_from (suc n) start day = ground (arith, includes_day-days_from n (start + 1) day)

pub includes_day-all_dates :
    (rs : List DateRun) (day : ℕ) → includes_day (all_dates rs) day ≡ covers rs day
unfolding all_dates
includes_day-all_dates [] day = refl
includes_day-all_dates (r ∷ rs) day = ground (
  arith,
  includes_day-append (days_from (r.to + 1 - r.from) r.from) (all_dates rs) day,
  includes_day-days_from (r.to + 1 - r.from) r.from day,
  includes_day-all_dates rs day,
)

pub includes_day-keep_dates :
    (w : Option DayWindow) (days : List ℕ) (day : ℕ)
    → includes_day (keep_dates w days) day ≡ (includes_day days day && on_window w day)
unfolding keep_dates
includes_day-keep_dates w [] day = refl
includes_day-keep_dates w (d ∷ days) day = elim (Bool-cases (d == day)) [
  | inl here ↦
      let same : d ≡ day = ground arith in
      ground (arith, includes_day-keep_dates w days day, ap (on_window w) same)
  | inr other ↦ ground (arith, includes_day-keep_dates w days day)
]

-- Strictly increasing, from `low` on.
abbrev pub Rising : ℕ → List ℕ → Type 0
Rising low [] = Unit
Rising low (d ∷ ds) = (low ≤ d) × Rising (d + 1) ds

Rising-lower : (ds : List ℕ) (low high : ℕ) → low ≤ high → Rising high ds → Rising low ds
Rising-lower [] low high p h = tt
Rising-lower (d ∷ ds) low high p h = (omega (arith, h.0), h.1)

Rising-days_from :
    (n start low : ℕ) (after : List ℕ)
    → low ≤ start
    → Rising (start + n) after
    → Rising low (days_from n start ++ after)
unfolding days_from
Rising-days_from zero start low after p h = Rising-lower after low (start + 0) (omega arith) h
Rising-days_from (suc n) start low after p h = (
  p,
  Rising-days_from n (start + 1) (start + 1) after (omega arith)
      (Rising-lower after (start + 1 + n) (start + suc n) (omega arith) h),
)

pub Rising-all_dates : (rs : List DateRun) (low : ℕ) → Separated low rs → Rising low (all_dates rs)
unfolding all_dates
Rising-all_dates [] low s = tt
Rising-all_dates (r ∷ rs) low s =
    Rising-days_from (r.to + 1 - r.from) r.from low (all_dates rs) s.0 (
      Rising-lower (all_dates rs) _ (r.to + 2) (omega (arith, s.1))
        (Rising-all_dates rs (r.to + 2) s.2))

pub Rising-keep_dates :
    (w : Option DayWindow) (days : List ℕ) (low : ℕ)
    → Rising low days
    → Rising low (keep_dates w days)
unfolding keep_dates
Rising-keep_dates w [] low h = tt
Rising-keep_dates w (d ∷ days) low h =
    let rest = Rising-keep_dates w days (d + 1) h.1 in
    elim (Bool-cases (on_window w d)) [
      | inl kept ↦ rw (kept, Rising) (h.0, rest)
      | inr dropped ↦
          rw (dropped, Rising)
            (Rising-lower (keep_dates w days) low (d + 1) (omega (arith, h.0)) rest)
    ]

pub covers-range :
    (r : DateRun) (rs : List DateRun) (low day : ℕ)
    → Separated low (r ∷ rs)
    → covers (r ∷ rs) day ≡ true
    → (r.from ≤ day) × (day ≤ last_to r.to rs)
covers-range r [] low day s h = (ground arith, ground arith)
covers-range r (q ∷ rs) low day s h = elim (Bool-cases (leb r.from day && leb day r.to)) [
  | inl here ↦
      let first : covers (q ∷ rs) q.to ≡ true = ground (arith, s.2) in
      let later = covers-range q rs (r.to + 2) q.to s.2 first in
      (ground arith, omega (arith, later.1, s.2.0, s.2.1, le_of here))
  | inr there ↦
      let later = covers-range q rs (r.to + 2) day s.2 (ground arith) in
      (omega (arith, later.0, s.2.0, s.1), later.1)
]
  where
    le_of : (leb r.from day && leb day r.to) ≡ true → day ≤ r.to
    le_of here = ground arith
