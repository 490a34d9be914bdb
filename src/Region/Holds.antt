-- ===== src/Region/Holds.antt =====
-- packages/core/src/region.ts: the set of seats that a region means, the masks of `allSeatMask` and
-- `predicateMask`.
use seatfirst.Prelude.{
  ℕ, ◌<◌, ◌≡◌, refl, Bool, true, false, not, ◌&&◌, ◌||◌, inl, inr, List, [], ◌∷◌, length, get_or,
  leb, ◌/◌, ◌==◌, if◌then◌else◌, Bool-cases, arith,
}
use seatfirst.Prelude.Int.{negsuc}
use seatfirst.Prelude.Outcome.{ok, Yields}
use seatfirst.Bitmap.{Bitmap, Run, set_bit}
use seatfirst.Bitmap.Cells.{Denotes}
use seatfirst.Bitmap.Access.{get_bit_ok}
use seatfirst.Layout.{SeatKind, seat_kind_code, Geometry}
use seatfirst.Bitmap.Marks.{mark_loop}
use seatfirst.Region.{
  SeatMetrics, cell_count, assert_metrics, is_seat, mark_seat, all_seat_mask, mark_matching,
  predicate_mask, wants,
}
use seatfirst.Region.Syntax.{
  Number, PresetName, SeatRegion, Regions, all, preset, depth, lateral, aisle, seat_type, score,
  row_range, both, either, never, nil, cons,
}

-- The metric arrays span the grid.
pub record Spans {R : Type 0} (layout : Geometry) (metrics : SeatMetrics R) : Type 0 where
  pub seats : length metrics.seat_index_in_row ≡ cell_count layout
  pub depths : length metrics.depths ≡ cell_count layout
  pub laterals : length metrics.laterals ≡ cell_count layout
  pub aisles : length metrics.aisle_distance ≡ cell_count layout

module _ {R : Type 0} {layout : Geometry} {metrics : SeatMetrics R}
    (spans : Spans layout metrics) where
  pub assert_metrics_lem : assert_metrics layout metrics ≡ ok (cell_count layout)
  unfolding assert_metrics
  assert_metrics_lem = ground (arith, spans.seats, spans.depths, spans.laterals, spans.aisles)

  pub all_seat_mask_lem :
      Yields
        (all_seat_mask layout metrics)
        (λ m. Denotes m (cell_count layout) (is_seat layout metrics))
  unfolding all_seat_mask mark_seat
  all_seat_mask_lem = rw assert_metrics_lem (
      mark_loop (is_seat layout metrics) (cell_count layout)
        (mark_seat layout metrics (cell_count layout)) (λ i m lt. refl))

  mark_matching_lem :
      (test : ℕ → Run Bool) (f : ℕ → Bool) (seats : Bitmap) (i : ℕ) (m : Bitmap)
      → Denotes seats (cell_count layout) (is_seat layout metrics)
      → i < cell_count layout
      → (is_seat layout metrics i ≡ true → test i ≡ ok (f i))
      → mark_matching layout metrics seats test (cell_count layout) i m
        ≡ (if is_seat layout metrics i && f i then set_bit m i (cell_count layout) true else ok m)
  unfolding mark_matching
  mark_matching_lem test f seats i m d lt runs =
      rw (get_bit_ok i lt d) (elim (Bool-cases (is_seat layout metrics i)) [
        | inl seat ↦ rw (seat, runs seat) refl
        | inr gap ↦ rw gap refl
      ])

  -- The seats at which a test, which need only run on seats, passes.
  pub predicate_mask_lem :
      (test : ℕ → Run Bool) (f : ℕ → Bool)
      → ((i : ℕ) → i < cell_count layout → is_seat layout metrics i ≡ true → test i ≡ ok (f i))
      → Yields
          (predicate_mask layout metrics test)
          (λ m. Denotes m (cell_count layout) (λ i. is_seat layout metrics i && f i))
  unfolding predicate_mask
  predicate_mask_lem test f runs =
      let (seats, e, d) = all_seat_mask_lem in
      let (m, e', w) =
        mark_loop (λ i. is_seat layout metrics i && f i) (cell_count layout)
          (mark_matching layout metrics seats test (cell_count layout))
          (λ i m lt. mark_matching_lem test f seats i m d lt (runs i lt)) in
      (m, rw e e', w)

-- The kind that a code names, as far as `included` goes.
abbrev pub code_in : List SeatKind → ℕ → Bool
code_in [] code = false
code_in (k ∷ ks) code = seat_kind_code k == code || code_in ks code

-- The set of seats that a region means; `named` gives the sets of the presets.
module _ (N : Number) (layout : Geometry) (metrics : SeatMetrics N.Real)
    (named : PresetName → ℕ → Bool) where
  open N use {Real, le, magnitude, minus_one, not_a_number}

  unfoldable mutual
    pub cells_of : SeatRegion Real → ℕ → Bool
    cells_of all i = is_seat layout metrics i
    cells_of (preset name) i = named name i
    cells_of (depth from to) i =
        is_seat layout metrics i
        && (le from (get_or metrics.depths i minus_one)
            && le (get_or metrics.depths i minus_one) to)
    cells_of (lateral max_offset) i =
        is_seat layout metrics i
        && le (magnitude (get_or metrics.laterals i not_a_number)) max_offset
    cells_of (aisle want) i =
        is_seat layout metrics i && wants want (get_or metrics.aisle_distance i (negsuc 0))
    cells_of (seat_type include) i =
        is_seat layout metrics i && code_in include (get_or layout.seat_kinds i 5)
    cells_of (score least) i = false
    cells_of (row_range from to) i =
        is_seat layout metrics i && (leb from (i / layout.columns) && leb (i / layout.columns) to)
    cells_of (both of) i = in_every of i
    cells_of (either of) i = in_some of i
    cells_of (never of) i = not (cells_of of i) && is_seat layout metrics i

    pub in_every : Regions Real → ℕ → Bool
    in_every nil i = true
    in_every (cons r rs) i = cells_of r i && in_every rs i

    pub in_some : Regions Real → ℕ → Bool
    in_some nil i = false
    in_some (cons r rs) i = cells_of r i || in_some rs i

-- No SCORE in the tree; `named` says it of the presets.
module _ {R : Type 0} (named : PresetName → Bool) where
  unfoldable mutual
    pub has_no_score : SeatRegion R → Bool
    has_no_score all = true
    has_no_score (preset name) = named name
    has_no_score (depth from to) = true
    has_no_score (lateral max_offset) = true
    has_no_score (aisle want) = true
    has_no_score (seat_type include) = true
    has_no_score (score least) = false
    has_no_score (row_range from to) = true
    has_no_score (both of) = none_has_score of
    has_no_score (either of) = none_has_score of
    has_no_score (never of) = has_no_score of

    pub none_has_score : Regions R → Bool
    none_has_score nil = true
    none_has_score (cons r rs) = has_no_score r && none_has_score rs
