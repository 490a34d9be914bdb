-- ===== src/Group.antt =====
-- packages/core/src/group-assembly.ts: the result group of a layout's showtimes. The fields that the
-- code copies from its input to the result (identifiers, prices, links, instants) are left out. A score
-- is the bit pattern of a double, which `is_finite`, `mean` (runScore's quotient), `nan` and
-- `position` read.
pub mod Result
pub mod Sets
pub mod Hits
pub mod Members
pub mod Placed
pub mod Counts
pub mod Outputs
pub mod Assembly
pub mod Ladder
use seatfirst.Prelude.{
  ℕ, zero, suc, ◌+◌, ◌-◌, ◌*◌, ◌≤◌, String, Bool, true, false, not, ◌&&◌, ◌||◌, Option, none, some,
  List, [], ◌∷◌, ◌++◌, length, get_or, leb, ◌==◌, if◌then◌else◌,
}
use seatfirst.Prelude.Outcome.{Outcome, ok, throw, ◌>>=◌, ◌>>◌, for_range}
use seatfirst.Fault.{
  metric_length, score_length, infinite_score, no_members, score_region, invalid_group,
}
use seatfirst.Sorting.{sort, ascending, descending, tied}
use seatfirst.Bitmap.{
  Bitmap, Run, create_bitmap, get_bit, set_bit, open_count, per_position_popcount,
}
use seatfirst.Layout.{Geometry}
use seatfirst.Region.{
  SeatMetrics, Compiled, compiled, unsupported_score, cell_count, assert_metrics, compile_region,
}
use seatfirst.Region.Syntax.{Number, all}
use seatfirst.Region.Starts.{region_run_starts}
use seatfirst.Recovery.{GroupHit}

pub data GroupShape : Type 0 where
  run : ℕ → GroupShape
  block : ℕ → ℕ → GroupShape
  split : ℕ → ℕ → Bool → GroupShape

pub data Rank : Type 0 where
  by_score by_availability by_depth : Rank

-- `none` is a showtime that is not resolved.
pub record ShowtimeInput : Type 0 where
  pub showtime_id : String
  pub availability : Option Bitmap

pub record ShowtimeOutput : Type 0 where
  pub showtime_id : String
  pub open_seats : Option ℕ

pub record Group : Type 0 where
  pub layout_id : String
  pub rows : ℕ
  pub columns : ℕ
  pub region_mask : Option (List ℕ)
  pub showtimes : List ShowtimeOutput
  pub free_count : List ℕ
  pub free_in : List (List ℕ)
  pub group_hits : Option (List GroupHit)

pub data Assembled (R : Type 0) : Type 0 where
  unsupported_split : GroupShape → Assembled R
  unsupported_region : R → Assembled R
  unsupported_depth : Assembled R
  assembled : Group → Assembled R

pub record HitSet : Type 0 where
  pub mask : Bitmap
  pub showtime_index : ℕ

-- The reading of scores.
pub record Scores : Type 0 where
  pub is_finite : ℕ → Bool
  pub mean : List ℕ → ℕ
  pub nan : ℕ
  pub position : ℕ → ℕ

-- maskToBits
unfoldable pub mask_to_bits : Bitmap → ℕ → ℕ → ℕ → Run (List ℕ)
mask_to_bits mask n zero cell = ok []
mask_to_bits mask n (suc rest) cell = do
  bit ← get_bit mask cell n
  bits ← mask_to_bits mask n rest (cell + 1)
  ok ((if bit then 1 else 0) ∷ bits)

unfoldable pub output_showtime : Geometry → ShowtimeInput → Option Bitmap → Run ShowtimeOutput
output_showtime layout s none = ok (record { showtime_id = s.showtime_id; open_seats = none })
output_showtime layout s (some free) = do
  n ← open_count free layout.ordinary_mask (cell_count layout)
  ok (record { showtime_id = s.showtime_id; open_seats = some n })

unfoldable pub output_showtimes : Geometry → List ShowtimeInput → Run (List ShowtimeOutput)
unfolding output_showtime
output_showtimes layout [] = ok []
output_showtimes layout (s ∷ ss) = do
  o ← output_showtime layout s s.availability
  os ← output_showtimes layout ss
  ok (o ∷ os)

abbrev pub keep_some : Option Bitmap → List Bitmap → List Bitmap
keep_some none rest = rest
keep_some (some b) rest = b ∷ rest

unfoldable pub resolved_availabilities : List ShowtimeInput → List Bitmap
resolved_availabilities [] = []
resolved_availabilities (s ∷ ss) = keep_some s.availability (resolved_availabilities ss)

unfoldable pub is_free : Option Bitmap → ℕ → ℕ → Run Bool
is_free none cell n = ok false
is_free (some free) cell n = get_bit free cell n

-- The indices of the resolved showtimes at which a cell is free.
unfoldable pub free_indices : List ShowtimeInput → ℕ → ℕ → ℕ → Run (List ℕ)
unfolding is_free
free_indices [] cell n k = ok []
free_indices (s ∷ ss) cell n k = do
  free ← is_free s.availability cell n
  rest ← free_indices ss cell n (k + 1)
  ok (if free then k ∷ rest else rest)

unfoldable pub free_in_cells : List ShowtimeInput → ℕ → ℕ → ℕ → Run (List (List ℕ))
unfolding free_indices
free_in_cells showtimes n zero cell = ok []
free_in_cells showtimes n (suc rest) cell = do
  indices ← free_indices showtimes cell n 0
  more ← free_in_cells showtimes n rest (cell + 1)
  ok (indices ∷ more)

-- The rows of a block below the first: the loop that breaks at a row without a run.
unfoldable pub rows_present : Bitmap → ℕ → ℕ → ℕ → ℕ → Run Bool
rows_present runs n columns zero cell = ok true
rows_present runs n columns (suc rows) cell = get_bit runs cell n >>= λ present.
    if present then rows_present runs n columns rows (cell + columns) else ok false

unfoldable pub mark_block : Bitmap → ℕ → ℕ → ℕ → ℕ → Bitmap → Run Bitmap
unfolding rows_present
mark_block runs n columns block_rows cell blocks = do
  present ← rows_present runs n columns block_rows cell
  if present then set_bit blocks cell n true else ok blocks

-- The loop over rows and columns, up to the last row in which a block has room.
unfoldable pub block_starts : Geometry → Bitmap → ℕ → Run Bitmap
unfolding mark_block
block_starts layout runs block_rows =
    let n = cell_count layout in
    for_range (layout.rows + 1 - block_rows) 0
      (λ row.
        for_range layout.columns 0
          (λ column. mark_block runs n layout.columns block_rows (row * layout.columns + column)))
      (create_bitmap n)

module _ (layout : Geometry) (pool placement : Bitmap) (strict : Bool) where
  unfoldable pub shape_starts : GroupShape → Bitmap → Run Bitmap
  unfolding block_starts
  shape_starts (run count) free = region_run_starts free pool layout placement count strict
  shape_starts (block rows cols) free =
      region_run_starts free pool layout placement cols strict >>= λ runs.
      block_starts layout runs rows
  shape_starts (split count groups same_row) free = ok (create_bitmap (cell_count layout))

  unfoldable pub hit_set : GroupShape → Option Bitmap → ℕ → Run (List HitSet)
  unfolding shape_starts
  hit_set shape none k = ok []
  hit_set shape (some free) k =
      shape_starts shape free >>= λ mask. ok (record { mask = mask; showtime_index = k } ∷ [])

  unfoldable pub hit_sets : GroupShape → List ShowtimeInput → ℕ → Run (List HitSet)
  unfolding hit_set
  hit_sets shape [] k = ok []
  hit_sets shape (s ∷ ss) k = do
    here ← hit_set shape s.availability k
    rest ← hit_sets shape ss (k + 1)
    ok (here ++ rest)

-- The showtimes that offer a cell.
unfoldable pub offered_indices : List HitSet → ℕ → ℕ → Run (List ℕ)
offered_indices [] n cell = ok []
offered_indices (s ∷ ss) n cell = do
  offered ← get_bit s.mask cell n
  rest ← offered_indices ss n cell
  ok (if offered then s.showtime_index ∷ rest else rest)

abbrev pub row_span : GroupShape → ℕ
row_span (run count) = 1
row_span (block rows cols) = rows
row_span (split count groups same_row) = 1

abbrev pub member_cols : GroupShape → ℕ
member_cols (run count) = count
member_cols (block rows cols) = cols
member_cols (split count groups same_row) = count

module _ (scores : Scores) where
  open scores use {is_finite, mean, nan}

  unfoldable pub all_finite : List ℕ → Bool
  all_finite [] = true
  all_finite (x ∷ xs) = is_finite x && all_finite xs

  -- packages/core/src/scoring.ts
  unfoldable pub run_score : List ℕ → Run ℕ
  unfolding all_finite
  run_score [] = throw no_members
  run_score (x ∷ xs) = if all_finite (x ∷ xs) then ok (mean (x ∷ xs)) else throw infinite_score

  unfoldable pub assert_seat_scores : List ℕ → ℕ → Run (Unit {0})
  unfolding all_finite
  assert_seat_scores seat_scores n =
      if length seat_scores == n
      then (if all_finite seat_scores then ok tt else throw infinite_score)
      else throw score_length

  unfoldable pub members_of_row : List ℕ → ℕ → ℕ → List ℕ
  members_of_row seat_scores zero cell = []
  members_of_row seat_scores (suc cols) cell =
      get_or seat_scores cell nan ∷ members_of_row seat_scores cols (cell + 1)

  unfoldable pub members : List ℕ → ℕ → ℕ → ℕ → ℕ → List ℕ
  unfolding members_of_row
  members seat_scores zero cols columns cell = []
  members seat_scores (suc rows) cols columns cell =
      members_of_row seat_scores cols cell ++ members seat_scores rows cols columns (cell + columns)

  module _ (layout : Geometry) (shape : GroupShape) (seat_scores : List ℕ) where
    unfoldable pub hit_at : ℕ → ℕ → List ℕ → Run (List GroupHit)
    unfolding run_score members
    hit_at row column [] = ok []
    hit_at row column (i ∷ is) = do
      score ← run_score (
          members seat_scores (row_span shape) (member_cols shape) layout.columns
            (row * layout.columns + column))
      ok (
          record {
            row = row;
            start_col = column;
            row_span = row_span shape;
            run_score = score;
            showtime_indices = i ∷ is;
          }
          ∷ [])

    unfoldable pub hits_of_row : List HitSet → ℕ → ℕ → ℕ → Run (List GroupHit)
    unfolding offered_indices hit_at
    hits_of_row sets row zero column = ok []
    hits_of_row sets row (suc cols) column = do
      indices ← offered_indices sets (cell_count layout) (row * layout.columns + column)
      here ← hit_at row column indices
      rest ← hits_of_row sets row cols (column + 1)
      ok (here ++ rest)

    unfoldable pub hits_of_rows : List HitSet → ℕ → ℕ → Run (List GroupHit)
    unfolding hits_of_row
    hits_of_rows sets zero row = ok []
    hits_of_rows sets (suc rows) row = do
      here ← hits_of_row sets row layout.columns 0
      more ← hits_of_rows sets rows (row + 1)
      ok (here ++ more)

-- The comparisons of hits. `position` is the place of a double among the numbers, so the sign of a
-- difference of scores is that of their places.
abbrev pub row_major : GroupHit → GroupHit → Bool
row_major = ascending (λ h. h.row) (ascending (λ h. h.start_col) tied)

abbrev pub hit_order : (ℕ → ℕ) → Rank → GroupHit → GroupHit → Bool
hit_order position by_availability = descending (λ h. length h.showtime_indices) row_major
hit_order position by_score = descending (λ h. position h.run_score) row_major
hit_order position by_depth = descending (λ h. position h.run_score) row_major
