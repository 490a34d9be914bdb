-- ===== src/Group/Result.antt =====
-- packages/core/src/group-assembly.ts: the gates of `assembleResultGroup` and the result group. `accepts`
-- is the schema of the result.
use seatfirst.Prelude.{ℕ, String, Bool, Option, none, some, List, if◌then◌else◌}
use seatfirst.Prelude.Outcome.{ok, throw, ◌>>=◌, ◌>>◌}
use seatfirst.Fault.{score_region, invalid_group}
use seatfirst.Sorting.{sort}
use seatfirst.Bitmap.{Bitmap, Run, per_position_popcount}
use seatfirst.Layout.{Geometry}
use seatfirst.Region.{
  SeatMetrics, Compiled, compiled, unsupported_score, cell_count, assert_metrics, compile_region,
}
use seatfirst.Region.Syntax.{Number, all}
use seatfirst.Recovery.{GroupHit}
use seatfirst.Group.{
  Assembled, Group, GroupShape, Rank, Scores, ShowtimeInput, assembled, assert_seat_scores, block,
  free_in_cells, hit_order, hit_sets, hits_of_rows, mask_to_bits, output_showtimes,
  resolved_availabilities, run, split, unsupported_depth, unsupported_region, unsupported_split,
  by_depth, by_score, by_availability,
}

pub record GroupInput (R : Type 0) : Type 0 where
  pub layout_id : String
  pub layout : Geometry
  pub metrics : SeatMetrics R
  pub seat_scores : List ℕ
  pub pool_mask : Bitmap
  pub preview_region : Option (Compiled R Bitmap)
  pub placement_region : Option (Compiled R Bitmap)
  pub group : Option GroupShape
  pub group_strict : Bool
  pub rank : Rank
  pub showtimes : List ShowtimeInput

module _ {R : Type 0} where
  abbrev pub region_gate : Option (Compiled R Bitmap) → Option (Assembled R) → Option (Assembled R)
  region_gate none next = next
  region_gate (some (compiled mask)) next = next
  region_gate (some (unsupported_score region)) next = some (unsupported_region region)

  abbrev pub depth_gate : Option GroupShape → Rank → Option (Assembled R)
  depth_gate (some shape) by_depth = some unsupported_depth
  depth_gate (some shape) by_score = none
  depth_gate (some shape) by_availability = none
  depth_gate none rank = none

  abbrev pub split_gate : Option GroupShape → Option (Assembled R) → Option (Assembled R)
  split_gate (some (split count groups same_row)) next =
      some (unsupported_split (split count groups same_row))
  split_gate (some (run count)) next = next
  split_gate (some (block rows cols)) next = next
  split_gate none next = next

  -- The gates, in their fixed order.
  abbrev pub first_gate : GroupInput R → Option (Assembled R)
  first_gate input = split_gate input.group (
      region_gate input.preview_region
        (region_gate input.placement_region (depth_gate input.group input.rank)))

  unfoldable pub preview_bits : ℕ → Option (Compiled R Bitmap) → Run (Option (List ℕ))
  unfolding mask_to_bits
  preview_bits n none = ok none
  preview_bits n (some (unsupported_score region)) = ok none
  preview_bits n (some (compiled mask)) = mask_to_bits mask n n 0 >>= λ bits. ok (some bits)

module _ (N : Number) (scores : Scores) (accepts : Group → Bool) where
  unfoldable pub placement_mask : GroupInput N.Real → Option (Compiled N.Real Bitmap) → Run Bitmap
  placement_mask input (some (compiled mask)) = ok mask
  placement_mask input (some (unsupported_score region)) = throw score_region
  placement_mask input none = compile_region N input.layout input.metrics all >>= λ c. elim c [
    | compiled mask ↦ ok mask
    | unsupported_score region ↦ throw score_region
  ]

  unfoldable pub group_hits : GroupInput N.Real → Option GroupShape → Run (Option (List GroupHit))
  unfolding placement_mask hit_sets hits_of_rows
  group_hits input none = ok none
  group_hits input (some shape) = do
    placement ← placement_mask input input.placement_region
    sets ←
        hit_sets input.layout input.pool_mask placement input.group_strict shape input.showtimes 0
    hits ← hits_of_rows scores input.layout shape input.seat_scores sets input.layout.rows 0
    ok (some (sort (hit_order scores.position input.rank) hits))

  unfoldable pub assemble_group : GroupInput N.Real → Run (Assembled N.Real)
  unfolding output_showtimes resolved_availabilities free_in_cells preview_bits group_hits
  assemble_group input = do
    let n = cell_count input.layout
    showtimes ← output_showtimes input.layout input.showtimes
    free_count ← per_position_popcount (resolved_availabilities input.showtimes) n
    free_in ← free_in_cells input.showtimes n n 0
    region_mask ← preview_bits n input.preview_region
    hits ← group_hits input input.group
    let result : Group = record {
      layout_id = input.layout_id;
      rows = input.layout.rows;
      columns = input.layout.columns;
      region_mask = region_mask;
      showtimes = showtimes;
      free_count = free_count;
      free_in = free_in;
      group_hits = hits;
    }
    if accepts result then ok (assembled result) else throw invalid_group

  unfoldable pub after_gates :
      GroupInput N.Real → Option (Assembled N.Real) → Run (Assembled N.Real)
  unfolding assemble_group
  after_gates input (some unsupported) = ok unsupported
  after_gates input none = assemble_group input

  unfoldable pub assemble_result_group : GroupInput N.Real → Run (Assembled N.Real)
  unfolding assert_seat_scores after_gates
  assemble_result_group input = do
    n ← assert_metrics input.layout input.metrics
    assert_seat_scores scores input.seat_scores n
    after_gates input (first_gate input)
