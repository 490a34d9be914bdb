-- ===== src/Ranking.antt =====
-- packages/core/src/candidate-rank.ts: what the ranking of candidates reads of the predicate, and its
-- format signal. The signals of distance and time, numbers with a fraction, are left out.
pub mod Signals
use seatfirst.Prelude.{
  ℕ, String, Bool, true, false, Option, none, some, List, [], ◌∷◌, ◌++◌, if◌then◌else◌,
}
use text.Mathlib.Text.{◌==◌ as same_text}
use seatfirst.Predicate.{
  PerformancePredicate, movie, attribute, auditorium, price, runtime, date_range, time_window,
  format, both, either, never, Predicates, nil, cons,
}

pub record TimeWindow : Type 0 where
  pub days : List String
  pub start_local : String
  pub end_local : String

-- The variables that the walk of collectTimeWindows writes.
pub record Walked : Type 0 where
  pub windows : List TimeWindow
  pub violated : Bool

abbrev pub see_window : TimeWindow → Bool → Walked → Walked
see_window w true s = record { windows = s.windows ++ (w ∷ []); violated = s.violated }
see_window w false s = record { windows = s.windows; violated = true }

module _ {R : Type 0} where
  mutual
    pub walk : PerformancePredicate R → Bool → Walked → Walked
    walk (both of) allowed s = walk_all of allowed s
    walk (either of) allowed s = walk_all of false s
    walk (never of) allowed s = walk of false s
    walk (time_window days from to) allowed s =
        see_window (record { days = days; start_local = from; end_local = to }) allowed s
    walk _ allowed s = s

    pub walk_all : Predicates R → Bool → Walked → Walked
    walk_all nil allowed s = s
    walk_all (cons p ps) allowed s = walk_all ps allowed (walk p allowed s)

  pub collect_time_windows : PerformancePredicate R → List TimeWindow
  unfolding walk
  collect_time_windows p =
      let s = walk p true (record { windows = []; violated = false }) in
      if s.violated then [] else s.windows

  mutual
    pub collect_format_codes : PerformancePredicate R → List String
    collect_format_codes (format code) = code ∷ []
    collect_format_codes (both of) = codes_of_all of
    collect_format_codes (either of) = codes_of_all of
    collect_format_codes (never of) = collect_format_codes of
    collect_format_codes _ = []

    pub codes_of_all : Predicates R → List String
    codes_of_all nil = []
    codes_of_all (cons p ps) = collect_format_codes p ++ codes_of_all ps

-- The test of one code: STANDARD asks for no format code.
abbrev pub code_matches : Option String → String → Bool
code_matches none code = same_text code "STANDARD"
code_matches (some f) code = if same_text code "STANDARD" then false else same_text f code

match_codes : Option String → List String → ℕ
match_codes format_code [] = 0
match_codes format_code (code ∷ codes) =
    let rest = match_codes format_code codes in if code_matches format_code code then 1 else rest

pub format_match_for_performance : {R : Type 0} → Option String → PerformancePredicate R → ℕ
unfolding match_codes collect_format_codes
format_match_for_performance format_code predicate =
    match_codes format_code (collect_format_codes predicate)
