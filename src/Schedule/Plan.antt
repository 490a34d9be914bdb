-- ===== src/Schedule/Plan.antt =====
-- packages/core/src/local-time.ts: the plan of `resolveScheduleWindowPlan` against the predicate.
use seatfirst.Prelude.{ℕ, ◌≤◌, ◌≡◌, String, true, ◌&&◌, List}
use seatfirst.Predicate.{PerformancePredicate, project, or_neutral}
use seatfirst.Schedule.{
  DateRun, Collected, ScheduleWindowPlan, walk, nothing_collected, on_window, includes_day,
}
use seatfirst.Schedule.Runs.{covers}
use seatfirst.Schedule.Dates.{Rising}
use seatfirst.Schedule.Walk.{IsChecked, date_leaf}

-- What a plan made of runs says.
record DatesOf (runs : List DateRun) (plan : ScheduleWindowPlan) : Type 0 where
  pub selected :
      (day : ℕ)
      → includes_day plan.schedule_dates day ≡ (covers runs day && on_window plan.window day)
  pub rising : Rising plan.from plan.schedule_dates
  pub envelope : (day : ℕ) → covers runs day ≡ true → (plan.from ≤ day) × (day ≤ plan.to)
  pub some_day : (day : ℕ) × (includes_day plan.schedule_dates day ≡ true)

-- The plan of a predicate. Its dates, in rising order, are the days on which the predicate holds, as
-- far as it speaks of dates, and whose weekday the time window lists; `from` and `to` enclose the
-- days of the predicate; there is at least one date.
pub record IsPlanOf {R : Type 0} (day_of : String → ℕ) (where_ : PerformancePredicate R)
    (plan : ScheduleWindowPlan) : Type 0 where
  pub selected :
      (day : ℕ)
      → includes_day plan.schedule_dates day
        ≡ (or_neutral (project (date_leaf day_of day) where_) && on_window plan.window day)
  pub rising : Rising plan.from plan.schedule_dates
  pub envelope :
      (day : ℕ)
      → or_neutral (project (date_leaf day_of day) where_) ≡ true
      → (plan.from ≤ day) × (day ≤ plan.to)
  pub some_day : (day : ℕ) × (includes_day plan.schedule_dates day ≡ true)

module _ {R : Type 0} (day_of minute_of : String → ℕ) (where_ : PerformancePredicate R)
    (checked : IsChecked day_of where_) where
  abbrev pub collected : Collected
  collected = walk day_of minute_of true where_ nothing_collected
