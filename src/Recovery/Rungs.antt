-- ===== src/Recovery/Rungs.antt =====
-- packages/core/src/recovery-ladder.ts: the four rungs and the ladder of them.
pub mod Valid
pub mod Seats
pub mod Near
pub mod Window
pub mod Elsewhere
pub mod Anytime
pub mod Ladder
use seatfirst.Prelude.{
  ℕ, ◌+◌, ◌*◌, String, Bool, true, false, not, ◌&&◌, ◌||◌, Option, none, some, List, [], ◌∷◌,
  get_elem?, ltb, leb, ◌==◌, if◌then◌else◌,
}
use seatfirst.Prelude.Outcome.{Outcome, ok, throw, ◌>>=◌}
use seatfirst.Sorting.{sort, ascending, tied}
use seatfirst.Recovery.{
  Placement, GroupHit, Showtime, ResultGroup, LadderInput, Ground, Relaxation, RecoveryOption,
  Crash, undefined_showtime, KeyOf, apart, member_columns, build_placement, offered_at, Candidate,
  by_quality, by_distance, Ground, no_ground, ground_at, common_ground,
}
use seatfirst.Recovery.Schema.{parse_option, parse_built}

-- A hit that passes the rung's tests becomes a candidate, unless a seat name is missing.
abbrev pub add_candidate :
    Option Placement → GroupHit → ℕ → List ℕ → List Candidate → List Candidate
add_candidate none hit distance eligible rest = rest
add_candidate (some placement) hit distance eligible rest =
    record { hit = hit; placement = placement; distance = distance; eligible = eligible } ∷ rest

abbrev pub distance_to : LadderInput → GroupHit → ℕ
distance_to input hit =
    apart hit.row input.gone_placement.row * input.row_weight
    + apart hit.start_col input.gone_placement.start_col

abbrev pub is_gone_seat : LadderInput → GroupHit → Bool
is_gone_seat input hit =
    hit.row == input.gone_placement.row && hit.start_col == input.gone_placement.start_col

-- Levels 1 and 3 differ in the test of the hit.
abbrev pub near_test : LadderInput → ℕ → GroupHit → Bool
near_test input gone hit =
    offered_at hit.showtime_indices gone
    && not (is_gone_seat input hit)
    && not (ltb 2 (apart hit.row input.gone_placement.row))

abbrev pub far_test : LadderInput → ℕ → GroupHit → Bool
far_test input gone hit =
    offered_at hit.showtime_indices gone && not (leb (apart hit.row input.gone_placement.row) 2)

-- showtimeIndices.filter(...)
pub without_gone : ℕ → List ℕ → List ℕ
without_gone gone [] = []
without_gone gone (i ∷ is) = let rest = without_gone gone is in if i == gone then rest else i ∷ rest

smallest : ℕ → List ℕ → ℕ
smallest i [] = i
smallest i (j ∷ js) = smallest (if ltb j i then j else i) js

abbrev pub is_gone_placement : LadderInput → GroupHit → Bool
is_gone_placement input hit =
    is_gone_seat input hit && hit.row_span == input.gone_placement.row_span

find_gone : LadderInput → List GroupHit → Option GroupHit
find_gone input [] = none
find_gone input (h ∷ hs) = if is_gone_placement input h then some h else find_gone input hs

abbrev pub plain_option : ℕ → Placement → String → RecoveryOption
plain_option level placement id = record {
  level = level;
  placement = placement;
  showtime_id = id;
  relaxed = [];
  requires_consent = false;
}

abbrev pub winner : List Candidate → Option Candidate
winner [] = none
winner (c ∷ cs) = some c

abbrev pub offer : ℕ → String → Option Candidate → Option RecoveryOption
offer level id none = none
offer level id (some c) = some (plain_option level c.placement id)

-- Level 2's choice among the showtimes of the gone placement's own hit.
level_two_at : LadderInput → List ℕ → Option RecoveryOption
unfolding smallest
level_two_at input [] = none
level_two_at input (i ∷ is) = elim (get_elem? input.group.showtimes (smallest i is)) [
  | none ↦ none
  | some s ↦ some (plain_option 2 input.gone_placement s.showtime_id)
]

pub level_two_on : LadderInput → ℕ → Option GroupHit → Option RecoveryOption
unfolding level_two_at without_gone
level_two_on input gone none = none
level_two_on input gone (some hit) = level_two_at input (without_gone gone hit.showtime_indices)

unfoldable pub level_two_of : LadderInput → Ground → Outcome Crash (Option RecoveryOption)
unfolding level_two_on find_gone parse_built
level_two_of input no_ground = ok none
level_two_of input (ground_at gone hits) =
    parse_built (level_two_on input gone (find_gone input hits))

unfoldable pub assemble_recovery_level_two : LadderInput → Outcome Crash (Option RecoveryOption)
unfolding level_two_of
assemble_recovery_level_two input = level_two_of input (common_ground input)

pub record Scored : Type 0 where
  pub showtime_index : ℕ
  pub time : ℕ
  pub diff : ℕ

abbrev pub by_nearness : Scored → Scored → Bool
by_nearness =
    ascending (λ s. s.diff) (ascending (λ s. s.time) (ascending (λ s. s.showtime_index) tied))

abbrev pub score_one : ℕ → ℕ → Option Showtime → Outcome Crash Scored
score_one gone_time i none = throw undefined_showtime
score_one gone_time i (some s) =
    ok (record { showtime_index = i; time = s.time; diff = apart s.time gone_time })

score_showtimes : List Showtime → ℕ → List ℕ → Outcome Crash (List Scored)
score_showtimes showtimes gone_time [] = ok []
score_showtimes showtimes gone_time (i ∷ is) =
    score_one gone_time i (get_elem? showtimes i) >>= λ x.
    score_showtimes showtimes gone_time is >>= λ rest. ok (x ∷ rest)

abbrev pub level_4_relaxation : Relaxation
level_4_relaxation = record { kind = "S32_LEVEL_4_RELAXED"; label = "Different showtime and seat" }

abbrev pub eligible_indices : LadderInput → ℕ → GroupHit → List ℕ
eligible_indices input gone hit =
    if is_gone_placement input hit then [] else without_gone gone hit.showtime_indices

unfoldable pub level_four_option :
    Placement → Option Showtime → Outcome Crash (Option RecoveryOption)
unfolding parse_option
level_four_option placement none = throw undefined_showtime
level_four_option placement (some chosen) = parse_option (record {
  level = 4;
  placement = placement;
  showtime_id = chosen.showtime_id;
  relaxed = level_4_relaxation ∷ [];
  requires_consent = true;
})

-- The showtime nearest in time, of those that the winning hit still has.
level_four_at : LadderInput → Placement → List Scored → Outcome Crash (Option RecoveryOption)
unfolding level_four_option
level_four_at input placement [] = throw undefined_showtime
level_four_at input placement (s ∷ ss) =
    level_four_option placement (get_elem? input.group.showtimes s.showtime_index)

level_four_from : LadderInput → Candidate → Option Showtime → Outcome Crash (Option RecoveryOption)
unfolding level_four_at score_showtimes
level_four_from input c none = throw undefined_showtime
level_four_from input c (some s) =
    score_showtimes input.group.showtimes s.time c.eligible >>= λ scored.
    level_four_at input c.placement (sort by_nearness scored)

level_four_of : LadderInput → ℕ → Option Candidate → Outcome Crash (Option RecoveryOption)
unfolding level_four_from
level_four_of input gone none = ok none
level_four_of input gone (some c) = level_four_from input c (get_elem? input.group.showtimes gone)

-- `rung(input) ?? next`
abbrev pub or_else :
    Outcome Crash (Option RecoveryOption)
    → Outcome Crash (Option RecoveryOption)
    → Outcome Crash (Option RecoveryOption)
or_else (throw e) next = throw e
or_else (ok (some o)) next = ok (some o)
or_else (ok none) next = next

module _ (key_of : KeyOf) where
  pub place : LadderInput → GroupHit → Option Placement
  place input hit =
      build_placement key_of input.group hit input.gone_placement.count
        (member_columns input.gone_placement)

  pub collect : LadderInput → (GroupHit → Bool) → List GroupHit → List Candidate
  unfolding place
  collect input test [] = []
  collect input test (h ∷ hs) =
      let rest = collect input test hs in
      if test h then add_candidate (place input h) h (distance_to input h) [] rest else rest

  pub level_one_on : LadderInput → Ground → Outcome Crash (Option RecoveryOption)
  unfolding collect parse_built
  level_one_on input no_ground = ok none
  level_one_on input (ground_at gone hits) = parse_built (
      offer 1 input.gone_showtime_id
        (winner (sort by_distance (collect input (near_test input gone) hits))))

  pub assemble_recovery_level_one : LadderInput → Outcome Crash (Option RecoveryOption)
  unfolding level_one_on
  assemble_recovery_level_one input = level_one_on input (common_ground input)

  pub level_three_on : LadderInput → Ground → Outcome Crash (Option RecoveryOption)
  unfolding collect parse_built
  level_three_on input no_ground = ok none
  level_three_on input (ground_at gone hits) = parse_built (
      offer 3 input.gone_showtime_id
        (winner (sort by_quality (collect input (far_test input gone) hits))))

  pub assemble_recovery_level_three : LadderInput → Outcome Crash (Option RecoveryOption)
  unfolding level_three_on
  assemble_recovery_level_three input = level_three_on input (common_ground input)

  add_eligible : LadderInput → GroupHit → List ℕ → List Candidate → List Candidate
  unfolding place
  add_eligible input h [] rest = rest
  add_eligible input h (i ∷ is) rest = add_candidate (place input h) h 0 (i ∷ is) rest

  collect_elsewhere : LadderInput → ℕ → List GroupHit → List Candidate
  unfolding add_eligible without_gone
  collect_elsewhere input gone [] = []
  collect_elsewhere input gone (h ∷ hs) =
      add_eligible input h (eligible_indices input gone h) (collect_elsewhere input gone hs)

  pub level_four_on : LadderInput → Ground → Outcome Crash (Option RecoveryOption)
  unfolding collect_elsewhere level_four_of
  level_four_on input no_ground = ok none
  level_four_on input (ground_at gone hits) =
      level_four_of input gone (winner (sort by_quality (collect_elsewhere input gone hits)))

  pub assemble_recovery_level_four : LadderInput → Outcome Crash (Option RecoveryOption)
  unfolding level_four_on
  assemble_recovery_level_four input = level_four_on input (common_ground input)

  -- The first rung that has an option.
  pub assemble_recovery_ladder : LadderInput → Outcome Crash (Option RecoveryOption)
  assemble_recovery_ladder input = or_else (assemble_recovery_level_one input) (
      or_else (assemble_recovery_level_two input)
        (or_else (assemble_recovery_level_three input) (assemble_recovery_level_four input)))
