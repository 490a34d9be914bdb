-- ===== src/Examples/Groups.antt =====
-- packages/core/src/group-assembly.ts at one row of three cells and two showtimes, one unresolved.
use seatfirst.Prelude.{
  ℕ, ◌+◌, ◌*◌, ◌≡◌, refl, sym, ap, subst, Bool, true, none, some, List, [], ◌∷◌, length,
  if◌then◌else◌, arith,
}
use seatfirst.Prelude.Outcome.{ok, throw, Yields}
use seatfirst.Fault.{invalid_group}
use seatfirst.Bitmap.{required_byte_length}
use seatfirst.Bitmap.Cells.{HasSize}
use seatfirst.Recovery.{Placement, LadderInput, KeyOf}
use seatfirst.Recovery.Rungs.{assemble_recovery_ladder}
use seatfirst.Recovery.Schema.{is_nonempty, all_nonempty, is_valid_placement}
use seatfirst.Recovery.Rungs.Valid.{IsParsed}
use seatfirst.Recovery.Rungs.Ladder.{LadderOffers}
use seatfirst.Group.{run, by_score, Scores, ShowtimeInput, Group, assembled, all_finite}
use seatfirst.Group.Result.{GroupInput, assemble_result_group}
use seatfirst.Group.Assembly.{IsGroupInput, GroupOf, assemble_result_group_lem}
use seatfirst.Group.Ladder.{recovery_of_group}
use seatfirst.Examples.Grids.{
  Decimal, decimals, grid, metrics, metrics-Spans, free-HasSize, pair-Denotes,
}

-- Scores that are whole numbers; the mean is the first one.
abbrev first_score : List ℕ → ℕ
first_score [] = 0
first_score (x ∷ xs) = x

abbrev scores : Scores
scores = record { is_finite = λ s. true; mean = first_score; nan = 0; position = λ s. s }

abbrev early : ShowtimeInput
early = record { showtime_id = "early"; availability = some (3 ∷ []) }

abbrev late : ShowtimeInput
late = record { showtime_id = "late"; availability = none }

abbrev input : GroupInput Decimal
input = record {
  layout_id = "hall";
  layout = grid;
  metrics = metrics;
  seat_scores = 5 ∷ 0 ∷ 7 ∷ [];
  pool_mask = 7 ∷ [];
  preview_region = none;
  placement_region = none;
  group = some (run 1);
  group_strict = true;
  rank = by_score;
  showtimes = early ∷ late ∷ [];
}

abbrev accepts : Group → Bool
accepts g = true

scores-finite : all_finite scores (5 ∷ 0 ∷ 7 ∷ []) ≡ true
unfolding all_finite
scores-finite = refl

ordinary-HasSize : HasSize (1 ∷ []) 3
unfolding required_byte_length
ordinary-HasSize = record { size = refl; bytes = (omega arith, tt) }

input-IsGroupInput : IsGroupInput scores input
input-IsGroupInput = record {
  rows_positive = omega arith;
  columns_positive = omega arith;
  spans = metrics-Spans;
  scored = refl;
  finite = scores-finite;
  ordinary = ordinary-HasSize;
  pool = free-HasSize;
  preview = tt;
  placement = tt;
  showtimes = (pair-Denotes, (tt, tt));
  few = omega arith;
  placeable = omega arith;
}

assemble_result_group_example :
    (g : Group) × GroupOf scores input g
    × (assemble_result_group decimals scores accepts input
        ≡ (if accepts g then ok (assembled g) else throw invalid_group))
assemble_result_group_example =
    assemble_result_group_lem decimals scores accepts input input-IsGroupInput refl

abbrev made :
    (g : Group) × GroupOf scores input g
    × (assemble_result_group decimals scores accepts input
        ≡ (if accepts g then ok (assembled g) else throw invalid_group))
made = assemble_result_group_lem decimals scores accepts input input-IsGroupInput refl

abbrev gone : Placement
gone = record {
  layout_id = "hall";
  row = 0;
  start_col = 0;
  row_span = 1;
  count = 1;
  seat_names = "A1" ∷ [];
  placement_key = 0;
}

abbrev ladder : LadderInput
ladder = record {
  gone_placement = gone;
  gone_showtime_id = "early";
  group = record {
    layout_id = "hall";
    columns = 3;
    seat_names = λ cell. some "A1";
    showtimes =
        record { showtime_id = "early"; time = 0 } ∷ record { showtime_id = "late"; time = 9 } ∷ [];
    group_hits = made.0.group_hits;
  };
  row_weight = 10;
}

abbrev keys : KeyOf
keys layout row start_col row_span count = row * 100 + start_col

names_same : {A : Type 0} {x y : A} → some x ≡ some y → x ≡ y
names_same e = ground (arith, e)

ladder-IsParsed : IsParsed ladder
unfolding is_valid_placement all_nonempty
ladder-IsParsed = record {
  gone_placement = refl;
  gone_showtime_id = refl;
  layout_id = refl;
  seat_names = λ cell name e. subst (λ n. is_nonempty n ≡ true) (names_same e) refl;
  showtimes = (refl, (refl, tt));
}

recovery_of_group_example : Yields (assemble_recovery_ladder keys ladder) (LadderOffers keys ladder)
recovery_of_group_example =
    recovery_of_group decimals scores accepts input made.0 keys ladder input-IsGroupInput refl
      made.2 refl (ap length (sym made.1.showtimes)) ladder-IsParsed
