-- ===== src/Examples/Dates.antt =====
-- packages/core/src/search-spec.ts and local-time.ts at a week: a date is written as its day number,
-- a time of day as its hour.
use seatfirst.Prelude.{
  ℕ, ◌≡◌, refl, String, Option, none, some, List, [], ◌∷◌, All, if◌then◌else◌, arith,
}
use text.Mathlib.Text.{◌==◌ as same_text}
use seatfirst.Sorting.{sort}
use seatfirst.Predicate.{
  PerformancePredicate, movie, date_range, time_window, both, either, nil, cons,
}
use seatfirst.Schedule.{DateRun, ScheduleWindowPlan, canonicalize_date_runs, DayWindow}
use seatfirst.Schedule.Runs.{covers, IsRun, Separated, canonicalize_date_runs_lem}
use seatfirst.Schedule.Canonical.{canonicalize_date_runs_unique}

abbrev days : ℕ → ℕ → DateRun
days from to = record { from = from; to = to }

-- Two overlapping runs, one that adjoins them, and a repeated later one.
abbrev runs : List DateRun
runs = days 9 9 ∷ days 3 5 ∷ days 1 3 ∷ days 6 7 ∷ days 9 9 ∷ []

abbrev same_days : List DateRun
same_days = days 9 9 ∷ days 1 7 ∷ []

runs_run : canonicalize_date_runs runs ≡ days 1 7 ∷ days 9 9 ∷ []
unfolding canonicalize_date_runs sort
runs_run = refl

runs-IsRun : All IsRun runs
runs-IsRun = ground arith

same_days-IsRun : All IsRun same_days
same_days-IsRun = ground arith

covers_both : (day : ℕ) → covers runs day ≡ covers same_days day
covers_both day = ground arith

canonicalize_date_runs_example :
    Separated 0 (canonicalize_date_runs runs)
    × ((day : ℕ) → covers (canonicalize_date_runs runs) day ≡ covers runs day)
canonicalize_date_runs_example = canonicalize_date_runs_lem runs runs-IsRun

canonicalize_date_runs_unique_example :
    canonicalize_date_runs runs ≡ canonicalize_date_runs same_days
canonicalize_date_runs_unique_example =
    canonicalize_date_runs_unique runs same_days runs-IsRun same_days-IsRun covers_both

-- The strings that the example uses.
abbrev number_of : String → ℕ
number_of s =
    if same_text s "1970-01-02"
    then 1
    else if same_text s "1970-01-06"
    then 5
    else if same_text s "18:00"
    then 18
    else 23

-- The Fridays and Saturdays of the evenings from Friday to Tuesday, for a movie.
abbrev wish : PerformancePredicate ℕ
wish = both (
    cons (movie ("m1" ∷ []) none) (
      cons (either (cons (date_range "1970-01-02" "1970-01-06") nil))
        (cons (time_window ("FRIDAY" ∷ "SATURDAY" ∷ []) "18:00" "23:00") nil)))

abbrev window : Option DayWindow
window = some (record { days = "FRIDAY" ∷ "SATURDAY" ∷ []; start_local = 18; end_local = 23 })

abbrev plan : ScheduleWindowPlan
plan = record { from = 1; to = 5; window = window; schedule_dates = 1 ∷ 2 ∷ [] }
