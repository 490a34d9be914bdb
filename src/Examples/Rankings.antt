-- ===== src/Examples/Rankings.antt =====
-- packages/core/src/candidate-rank.ts: the signals at small predicates.
use seatfirst.Prelude.{ℕ, ◌≡◌, refl, true, none, some, [], ◌∷◌}
use seatfirst.Predicate.{
  PerformancePredicate, movie, format, time_window, both, either, never, nil, cons,
}
use seatfirst.Ranking.{collect_time_windows, format_match_for_performance}
use seatfirst.Ranking.Signals.{
  some_format, signal, format_match_lem, is_ambiguous, collect_time_windows-ambiguous,
}

-- A movie in one of two formats.
abbrev formats : PerformancePredicate ℕ
formats = both (
    cons (movie ("m1" ∷ []) none)
      (cons (either (cons (format "IMAX") (cons (format "STANDARD") nil))) nil))

format_match_example :
    format_match_for_performance (some "IMAX") formats ≡ signal (some_format (some "IMAX") formats)
format_match_example = format_match_lem (some "IMAX") formats

-- A window of the evening, and not one of the morning.
abbrev evening : PerformancePredicate ℕ
evening = both (
    cons (time_window ("FRI" ∷ []) "18:00" "22:00")
      (cons (never (time_window ("FRI" ∷ []) "08:00" "12:00")) nil))

evening-is_ambiguous : is_ambiguous evening ≡ true
unfolding is_ambiguous
evening-is_ambiguous = refl

collect_time_windows_example : collect_time_windows evening ≡ []
collect_time_windows_example = collect_time_windows-ambiguous evening evening-is_ambiguous
