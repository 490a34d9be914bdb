-- ===== src/Examples/Answers.antt =====
-- packages/core/src/recovery-ladder.ts and packages/durability/src/lifecycle.ts at small inputs.
use seatfirst.Prelude.{
  ℕ, ◌≡◌, ◌≢◌, ◌<◌, ◌+◌, ◌*◌, ◌⊎◌, refl, subst, true, Option, none, some, List, [], ◌∷◌, arith,
}
use seatfirst.Prelude.Outcome.{ok, throw, Yields}
use seatfirst.Recovery.{
  Placement, GroupHit, ResultGroup, LadderInput, KeyOf, ground_at, common_ground, invalid_option,
  resolve_gone_showtime_index,
}
use seatfirst.Recovery.Schema.{
  is_nonempty, all_nonempty, is_valid_placement, all_valid_relaxations, is_valid_option,
  parse_option, parse_built,
}
use seatfirst.Recovery.Rungs.{
  level_two_of, assemble_recovery_level_one, assemble_recovery_level_two,
  assemble_recovery_level_three, assemble_recovery_ladder, plain_option,
}
use seatfirst.Recovery.Rungs.Valid.{IsParsed, IsLadderInput}
use seatfirst.Recovery.Rungs.Window.{
  Choice, IsNear, IsFar, NoFarther, NoLowerScore, level_one_lem, level_three_lem,
}
use seatfirst.Recovery.Rungs.Elsewhere.{SecondRung, level_two_lem}
use seatfirst.Recovery.Rungs.Ladder.{LadderOffers, assemble_recovery_ladder_lem}
use seatfirst.Lifecycle.{
  complete, partial, no_cause, batch_deferred, partial_schedule, too_few_showtimes, mixed,
  empty_resolved, resolved, LifecycleFacts, TerminalCause, LifecycleStatus, ScheduleOutcome,
  AnswerEvidence, confident, hedged, empty, sold_out, derive_ranked_answer,
}
use seatfirst.Lifecycle.Matrix.{
  confident_lem, sold_out_lem, hedged_lem, has_row, is_ok, has_row_lem, with_cause,
  batch_deferred_lem,
}

abbrev gone_placement : Placement
gone_placement = record {
  layout_id = "layout";
  row = 4;
  start_col = 2;
  row_span = 1;
  count = 2;
  seat_names = "E3" ∷ "E4" ∷ [];
  placement_key = 7;
}

abbrev hit_at : ℕ → ℕ → List ℕ → GroupHit
hit_at row start_col showtimes = record {
  row = row;
  start_col = start_col;
  row_span = 1;
  run_score = 5;
  showtime_indices = showtimes;
}

-- The gone seats, a pair one row ahead, and a pair in the last row.
abbrev hits : List GroupHit
hits = hit_at 4 2 (0 ∷ 1 ∷ []) ∷ hit_at 3 2 (0 ∷ []) ∷ hit_at 9 5 (0 ∷ 1 ∷ []) ∷ []

abbrev group : ResultGroup
group = record {
  layout_id = "layout";
  columns = 10;
  seat_names = λ cell. some "seat";
  showtimes =
      record { showtime_id = "matinee"; time = 1000 }
      ∷ record { showtime_id = "late"; time = 5000 }
      ∷ [];
  group_hits = some hits;
}

abbrev input : LadderInput
input = record {
  gone_placement = gone_placement;
  gone_showtime_id = "matinee";
  group = group;
  row_weight = 10;
}

some_same : {A : Type 0} {x y : A} → some x ≡ some y → x ≡ y
some_same e = ground (arith, e)

abbrev keys : KeyOf
keys layout row start_col row_span count = row * 100 + start_col

input-common_ground : common_ground input ≡ ground_at 0 hits
unfolding common_ground resolve_gone_showtime_index
input-common_ground = refl

input-IsParsed : IsParsed input
unfolding is_valid_placement all_nonempty
input-IsParsed = record {
  gone_placement = refl;
  gone_showtime_id = refl;
  layout_id = refl;
  seat_names = λ cell name e. subst (λ n. is_nonempty n ≡ true) (some_same e) refl;
  showtimes = (refl, (refl, tt));
}

input-IsLadderInput : IsLadderInput input
input-IsLadderInput = record {
  parsed = input-IsParsed;
  spans = ground arith;
  in_range = ground arith;
}

level_one_example :
    Yields
      (assemble_recovery_level_one keys input)
      (Choice keys input 0 hits 1 (IsNear keys input 0 hits) (NoFarther keys input 0 hits))
level_one_example = level_one_lem keys input 0 hits input-IsLadderInput input-common_ground

level_three_example :
    Yields
      (assemble_recovery_level_three keys input)
      (Choice keys input 0 hits 3 (IsFar keys input 0 hits) (NoLowerScore keys input 0 hits))
level_three_example = level_three_lem keys input 0 hits input-IsLadderInput input-common_ground

level_two_example : Yields (assemble_recovery_level_two input) (SecondRung input 0 hits)
level_two_example = level_two_lem input 0 input-IsLadderInput hits input-common_ground

assemble_recovery_ladder_example :
    Yields (assemble_recovery_ladder keys input) (LadderOffers keys input)
assemble_recovery_ladder_example = assemble_recovery_ladder_lem keys input input-IsLadderInput

-- The gone seats are offered at the late showtime too.
late_run : assemble_recovery_level_two input ≡ ok (some (plain_option 2 gone_placement "late"))
unfolding assemble_recovery_level_two level_two_of parse_built parse_option is_valid_option
    is_valid_placement all_nonempty all_valid_relaxations common_ground resolve_gone_showtime_index
late_run = refl

-- A gone placement of no seats makes an option that the schema refuses.
refused_run :
    assemble_recovery_level_two
      (record input { gone_placement = record gone_placement { count = 0 } })
    ≡ throw invalid_option
unfolding assemble_recovery_level_two level_two_of parse_built parse_option is_valid_option
    is_valid_placement all_nonempty all_valid_relaxations common_ground resolve_gone_showtime_index
refused_run = refl

abbrev facts : LifecycleStatus → TerminalCause → ScheduleOutcome → ℕ → LifecycleFacts
facts status cause outcome fetches = record {
  status = status;
  terminal_cause = cause;
  schedule_outcome = outcome;
  accepted_fetches = fetches;
  free_seats = 0;
}

-- Evidence whose recommendations are numbers.
abbrev evidence : Option ℕ → Option ℕ → AnswerEvidence ℕ ℕ
evidence exact alternatives = record { exact = exact; alternatives = alternatives }

confident_run :
    derive_ranked_answer (facts complete no_cause resolved 3) (evidence (some 1) (some 2))
    ≡ ok (some (confident 1))
unfolding derive_ranked_answer
confident_run = refl

confident_example :
    (complete ≡ complete)
    × ((no_cause ≡ no_cause) × ((0 < 3) × (◌≡◌ {A = Option ℕ} (some 1) (some 1))))
confident_example =
    confident_lem (facts complete no_cause resolved 3) (evidence (some 1) (some 2)) 1 confident_run

sold_out_run :
    derive_ranked_answer (facts complete no_cause resolved 3) (evidence none none)
    ≡ ok (some (empty sold_out))
unfolding derive_ranked_answer
sold_out_run = refl

sold_out_example :
    ((complete ≡ complete) × (◌≡◌ {A = ℕ} 0 0))
    × ((0 < 3) × ((◌≡◌ {A = Option ℕ} none none) × (◌≡◌ {A = Option ℕ} none none)))
sold_out_example =
    sold_out_lem (facts complete no_cause resolved 3) (evidence none none) sold_out_run

hedged_run :
    derive_ranked_answer (facts partial partial_schedule mixed 0) (evidence none (some 2))
    ≡ ok (some (hedged 2))
unfolding derive_ranked_answer
hedged_run = refl

hedged_example :
    (◌≡◌ {A = Option ℕ} (some 2) (some 2))
    × (((partial ≡ partial) × ((partial_schedule ≡ partial_schedule) × (mixed ≡ mixed)))
        ⊎ ((0 < 0)
            × (((partial ≢ complete) ⊎ (◌≡◌ {A = Option ℕ} none none))
                × ((partial_schedule ≡ no_cause)
                    ⊎ ((partial_schedule ≡ batch_deferred) × (partial ≡ partial))))))
hedged_example =
    hedged_lem (facts partial partial_schedule mixed 0) (evidence none (some 2)) 2 hedged_run

has_row_example :
    is_ok (
      derive_ranked_answer (facts complete too_few_showtimes empty_resolved 0) (evidence none none))
    ≡ has_row complete too_few_showtimes empty_resolved
has_row_example =
    has_row_lem (facts complete too_few_showtimes empty_resolved 0) (evidence none none)

batch_deferred_example :
    derive_ranked_answer
      (with_cause batch_deferred (facts partial no_cause resolved 2))
      (evidence none (some 2))
    ≡ derive_ranked_answer
        (with_cause no_cause (facts partial no_cause resolved 2))
        (evidence none (some 2))
batch_deferred_example =
    batch_deferred_lem (facts partial no_cause resolved 2) (evidence none (some 2)) refl
