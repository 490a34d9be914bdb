-- ===== src/Schedule.antt =====
-- packages/core/src/search-spec.ts and local-time.ts: the dates that a predicate selects and the plan
-- of the schedules to read. A date is the number of its day since 1 January 1970 and a local time its
-- minute: ISO strings, which the schemas check, order like these numbers. `day_of` and `minute_of`
-- read the strings. The tests for an unparsable date hold by the type and are left out.
pub mod Runs
pub mod Canonical
pub mod Walk
pub mod Scope
pub mod Dates
pub mod Plan
use seatfirst.Prelude.{
  ℕ, zero, suc, ◌+◌, ◌-◌, ◌%◌, String, Bool, true, false, not, ◌&&◌, ◌||◌, Option, none, some, List,
  [], ◌∷◌, ◌++◌, length, ltb, leb, ◌==◌, if◌then◌else◌,
}
use seatfirst.Prelude.Outcome.{Outcome, ok, throw, ◌>>=◌, ◌>>◌}
use seatfirst.Sorting.{sort, ascending, tied}
use seatfirst.Predicate.{
  PerformancePredicate, Predicates, movie, attribute, auditorium, price, runtime, date_range,
  time_window, format, both, either, never, nil, cons, includes_text,
}

pub record DateRun : Type 0 where
  pub from : ℕ
  pub to : ℕ

abbrev pub run_order : DateRun → DateRun → Bool
run_order = ascending (λ r. r.from) (ascending (λ r. r.to) tied)

-- The loop that skips a run equal to the one it pushed last.
unfoldable pub drop_repeats : DateRun → List DateRun → List DateRun
drop_repeats last [] = []
drop_repeats last (r ∷ rs) = elim (last.from == r.from && last.to == r.to) [
  | true ↦ drop_repeats last rs
  | false ↦ r ∷ drop_repeats r rs
]

unfoldable pub dedupe : List DateRun → List DateRun
unfolding drop_repeats
dedupe [] = []
dedupe (r ∷ rs) = r ∷ drop_repeats r rs

-- The next run overlaps the last one or starts on the day after it.
abbrev pub touches : DateRun → DateRun → Bool
touches last r = leb r.from last.to || r.from == last.to + 1

abbrev pub joined : DateRun → DateRun → DateRun
joined last r = record { from = last.from; to = if ltb last.to r.to then r.to else last.to }

unfoldable pub merge_from : DateRun → List DateRun → List DateRun
merge_from last [] = last ∷ []
merge_from last (r ∷ rs) = elim (touches last r) [
  | true ↦ merge_from (joined last r) rs
  | false ↦ last ∷ merge_from r rs
]

unfoldable pub merge : List DateRun → List DateRun
unfolding merge_from
merge [] = []
merge (r ∷ rs) = merge_from r rs

unfoldable pub canonicalize_date_runs : List DateRun → List DateRun
unfolding dedupe merge
canonicalize_date_runs runs = merge (dedupe (sort run_order runs))

pub record DayWindow : Type 0 where
  pub days : List String
  pub start_local : ℕ
  pub end_local : ℕ

pub data Refusal : Type 0 where
  ambiguous_predicate date_or_mixed missing_date_range multiple_date_ranges : Refusal
  multiple_time_windows crossing_time_window invalid_date_range empty_plan : Refusal

-- What the traversal collects.
pub record Collected : Type 0 where
  pub runs : List DateRun
  pub windows : List DayWindow
  pub violated : Option Refusal
  pub scopes : ℕ

pub record ScheduleWindowPlan : Type 0 where
  pub from : ℕ
  pub to : ℕ
  pub window : Option DayWindow
  pub schedule_dates : List ℕ

module _ {R : Type 0} where
  abbrev pub is_date_range : PerformancePredicate R → Bool
  is_date_range (date_range from to) = true
  is_date_range (movie ids titles) = false
  is_date_range (attribute code) = false
  is_date_range (auditorium numbers) = false
  is_date_range (price least most) = false
  is_date_range (runtime most) = false
  is_date_range (time_window days start end) = false
  is_date_range (format code) = false
  is_date_range (both of) = false
  is_date_range (either of) = false
  is_date_range (never of) = false

  abbrev pub every_date : Predicates R → Bool
  every_date nil = true
  every_date (cons p ps) = is_date_range p && every_date ps

  abbrev pub some_date : Predicates R → Bool
  some_date nil = false
  some_date (cons p ps) = is_date_range p || some_date ps

abbrev pub violate : Refusal → Collected → Collected
violate reason c = record c { violated = some reason }

-- An OR where a date scope is allowed: whether some child and whether every child is a DATE_RANGE, and
-- what the walk of the children collects.
abbrev pub or_scope : Bool → Bool → List DateRun → Collected → Collected → Collected
or_scope true true runs below c = record c { scopes = c.scopes + 1; runs = c.runs ++ runs }
or_scope true false runs below c = violate date_or_mixed c
or_scope false every runs below c = below

abbrev pub run_of : (String → ℕ) → String → String → DateRun
run_of day_of from to = record { from = day_of from; to = day_of to }

module _ {R : Type 0} (day_of : String → ℕ) where
  -- The runs of children that are all DATE_RANGE.
  abbrev pub runs_of : Predicates R → List DateRun
  runs_of nil = []
  runs_of (cons (date_range from to) ps) = run_of day_of from to ∷ runs_of ps
  runs_of (cons p ps) = runs_of ps

module _ {R : Type 0} (day_of minute_of : String → ℕ) where
  unfoldable mutual
    pub walk : Bool → PerformancePredicate R → Collected → Collected
    walk allowed (both of) c = walk_all allowed of c
    walk false (either of) c = walk_all false of c
    walk true (either of) c =
        or_scope (some_date of) (every_date of) (runs_of day_of of) (walk_all false of c) c
    walk allowed (never of) c = walk false of c
    walk true (date_range from to) c = record c {
      scopes = c.scopes + 1;
      runs = c.runs ++ (run_of day_of from to ∷ []);
    }
    walk false (date_range from to) c = violate ambiguous_predicate c
    walk true (time_window days start end) c = record c {
      windows =
          c.windows
          ++ (record { days = days; start_local = minute_of start; end_local = minute_of end }
              ∷ []);
    }
    walk false (time_window days start end) c = violate ambiguous_predicate c
    walk allowed (movie ids titles) c = c
    walk allowed (attribute code) c = c
    walk allowed (auditorium numbers) c = c
    walk allowed (price least most) c = c
    walk allowed (runtime most) c = c
    walk allowed (format code) c = c

    pub walk_all : Bool → Predicates R → Collected → Collected
    walk_all allowed nil c = c
    walk_all allowed (cons p ps) c = walk_all allowed ps (walk allowed p c)

-- 1 January 1970 was a Thursday.
unfoldable pub weekday_for_day : ℕ → String
weekday_for_day day =
    let index = (day + 4) % 7 in
    if index == 0
    then "SUNDAY"
    else if index == 1
    then "MONDAY"
    else if index == 2
    then "TUESDAY"
    else if index == 3
    then "WEDNESDAY"
    else if index == 4
    then "THURSDAY"
    else if index == 5
    then "FRIDAY"
    else "SATURDAY"

-- The days of a run: the loop from the first to the last instant in steps of a day.
unfoldable pub days_from : ℕ → ℕ → List ℕ
days_from zero day = []
days_from (suc n) day = day ∷ days_from n (day + 1)

unfoldable pub all_dates : List DateRun → List ℕ
unfolding days_from
all_dates [] = []
all_dates (r ∷ rs) = days_from (r.to + 1 - r.from) r.from ++ all_dates rs

abbrev pub on_window : Option DayWindow → ℕ → Bool
on_window none day = true
on_window (some w) day = includes_text w.days (weekday_for_day day)

unfoldable pub keep_dates : Option DayWindow → List ℕ → List ℕ
keep_dates w [] = []
keep_dates w (day ∷ days) =
    let rest = keep_dates w days in if on_window w day then day ∷ rest else rest

abbrev pub first_window : List DayWindow → Option DayWindow
first_window [] = none
first_window (w ∷ ws) = some w

abbrev pub crosses : Option DayWindow → Bool
crosses none = false
crosses (some w) = ltb w.end_local w.start_local

abbrev pub last_to : ℕ → List DateRun → ℕ
last_to to [] = to
last_to to (r ∷ rs) = last_to r.to rs

unfoldable pub plan_of_dates :
    ℕ → ℕ → Option DayWindow → List ℕ → Outcome Refusal ScheduleWindowPlan
plan_of_dates from to window [] = throw empty_plan
plan_of_dates from to window (day ∷ days) =
    ok (record { from = from; to = to; window = window; schedule_dates = day ∷ days })

unfoldable pub plan_of_runs : Option DayWindow → List DateRun → Outcome Refusal ScheduleWindowPlan
unfolding all_dates keep_dates plan_of_dates
plan_of_runs window [] = throw invalid_date_range
plan_of_runs window (r ∷ rs) =
    plan_of_dates r.from (last_to r.to rs) window (keep_dates window (all_dates (r ∷ rs)))

unfoldable pub plan_of : Collected → Outcome Refusal ScheduleWindowPlan
unfolding canonicalize_date_runs plan_of_runs
plan_of c = elim c.violated [
  | some reason ↦ throw reason
  | none ↦
      if c.scopes == 0
      then throw missing_date_range
      else if ltb 1 c.scopes
      then throw multiple_date_ranges
      else if ltb 1 (length c.windows)
      then throw multiple_time_windows
      else if crosses (first_window c.windows)
      then throw crossing_time_window
      else plan_of_runs (first_window c.windows) (canonicalize_date_runs c.runs)
]

abbrev pub nothing_collected : Collected
nothing_collected = record { runs = []; windows = []; violated = none; scopes = 0 }

unfoldable pub resolve_schedule_window_plan :
    {R : Type 0}
    → (String → ℕ)
    → (String → ℕ)
    → PerformancePredicate R
    → Outcome Refusal ScheduleWindowPlan
unfolding walk plan_of
resolve_schedule_window_plan day_of minute_of where_ =
    plan_of (walk day_of minute_of true where_ nothing_collected)

-- What `toTheatreLocal` derives from an instant and a time zone, as far as it is read.
pub record TheatreLocal : Type 0 where
  pub local_date : ℕ
  pub local_minute : ℕ
  pub weekday : String

abbrev pub in_window : TheatreLocal → DayWindow → Bool
in_window derived w =
    if includes_text w.days derived.weekday
    then (if leb w.start_local w.end_local
        then leb w.start_local derived.local_minute && leb derived.local_minute w.end_local
        else leb w.start_local derived.local_minute || leb derived.local_minute w.end_local)
    else false

unfoldable pub matches_day_windows : TheatreLocal → List DayWindow → Bool
matches_day_windows derived [] = false
matches_day_windows derived (w ∷ ws) = in_window derived w || matches_day_windows derived ws

abbrev pub includes_day : List ℕ → ℕ → Bool
includes_day [] day = false
includes_day (d ∷ ds) day = d == day || includes_day ds day

unfoldable pub matches_schedule_window : TheatreLocal → ScheduleWindowPlan → Bool
unfolding matches_day_windows
matches_schedule_window derived plan =
    if includes_day plan.schedule_dates derived.local_date
    then elim plan.window [ none ↦ true | some w ↦ matches_day_windows derived (w ∷ []) ]
    else false
