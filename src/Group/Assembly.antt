-- ===== src/Group/Assembly.antt =====
-- packages/core/src/group-assembly.ts: `assembleResultGroup` as a whole.
use seatfirst.Prelude.{
  ℕ, ◌+◌, ◌*◌, ◌<◌, ◌≡◌, refl, sym, ap, ◌∙◌, Bool, true, false, Option, none, some, List, [], ◌∷◌,
  ◌^◌, ◌==◌, map, length, get_or, if◌then◌else◌, arith,
}
use seatfirst.Prelude.Outcome.{ok, throw, Yields}
use seatfirst.Fault.{invalid_group}
use seatfirst.Sorting.{sort}
use seatfirst.Bitmap.{Bitmap}
use seatfirst.Bitmap.Cells.{bit, HasSize, Denotes}
use seatfirst.Bitmap.Count.{per_position_popcount_lem}
use seatfirst.Layout.{Geometry}
use seatfirst.Region.{SeatMetrics, Compiled, compiled, unsupported_score, cell_count, is_seat}
use seatfirst.Region.Syntax.{Number}
use seatfirst.Region.Holds.{Spans, assert_metrics_lem}
use seatfirst.Region.Compile.{compile_region-all}
use seatfirst.Recovery.{GroupHit}
use seatfirst.Group.{
  GroupShape, Scores, Group, Assembled, assembled, resolved_availabilities, hit_order, all_finite,
  ShowtimeInput, assert_seat_scores,
}
use seatfirst.Group.Result.{
  GroupInput, first_gate, split_gate, region_gate, placement_mask, group_hits, assemble_group,
  after_gates, assemble_result_group,
}
use seatfirst.Group.Sets.{IsPlaceable}
use seatfirst.Group.Hits.{passing, hit_sets_lem, AllSizedShowtimes, SizedOption}
use seatfirst.Group.Placed.{placed, each_cell, hits_of_rows_lem}
use seatfirst.Group.Counts.{
  AllClean, CleanOption, free_at, free_in_cells_lem, length-passing, resolved-AllSized,
  length-resolved_availabilities,
}
use seatfirst.Group.Outputs.{
  describe, output_showtimes_lem, CleanRegion, digits_of, preview_bits_lem,
}

-- The cells that a placement region allows: all seats when there is none.
abbrev pub placement_cells :
    {R : Type 0} → Geometry → SeatMetrics R → Option (Compiled R Bitmap) → ℕ → Bool
placement_cells layout metrics none = is_seat layout metrics
placement_cells layout metrics (some (compiled mask)) = bit mask
placement_cells layout metrics (some (unsupported_score region)) = λ i. false

abbrev pub PlaceableOption : Option GroupShape → Type 0
PlaceableOption none = Unit
PlaceableOption (some shape) = IsPlaceable shape

-- An input on a grid: arrays of its size, finite scores, canonical bitmaps.
pub record IsGroupInput {R : Type 0} (scores : Scores) (input : GroupInput R) : Type 0 where
  pub rows_positive : 0 < input.layout.rows
  pub columns_positive : 0 < input.layout.columns
  pub spans : Spans input.layout input.metrics
  pub scored : length input.seat_scores ≡ cell_count input.layout
  pub finite : all_finite scores input.seat_scores ≡ true
  pub ordinary : HasSize input.layout.ordinary_mask (cell_count input.layout)
  pub pool : HasSize input.pool_mask (cell_count input.layout)
  pub preview : CleanRegion (cell_count input.layout) input.preview_region
  pub placement : CleanRegion (cell_count input.layout) input.placement_region
  pub showtimes : AllClean (cell_count input.layout) input.showtimes
  pub few : length input.showtimes < 2 ^ 32
  pub placeable : PlaceableOption input.group

-- The hits that a shape has: the cells at which some showtime offers it, in the order of the rank.
abbrev pub hits_of :
    {R : Type 0} → Scores → GroupInput R → Option GroupShape → Option (List GroupHit)
hits_of scores input none = none
hits_of scores input (some shape) = some (
    sort (hit_order scores.position input.rank) (
      each_cell
        (placed scores input.layout input.pool_mask
          (placement_cells input.layout input.metrics input.placement_region) input.group_strict
          shape input.seat_scores input.showtimes)
        (cell_count input.layout) 0))

-- What a group tells of its input. At each cell `free_in` lists the showtimes at which the cell is
-- free, and `free_count` is how many they are.
pub record GroupOf {R : Type 0} (scores : Scores) (input : GroupInput R) (g : Group) : Type 0 where
  pub free_in :
      (j : ℕ)
      → j < cell_count input.layout
      → get_or g.free_in j [] ≡ passing (free_at j) input.showtimes 0
  pub free_count :
      (j : ℕ)
      → j < cell_count input.layout
      → get_or g.free_count j 0 ≡ length (get_or g.free_in j [])
  pub sizes :
      (length g.free_in ≡ cell_count input.layout) × (length g.free_count ≡ cell_count input.layout)
  pub showtimes : g.showtimes ≡ map (describe input.layout) input.showtimes
  pub region_mask : g.region_mask ≡ digits_of (cell_count input.layout) input.preview_region
  pub group_hits : g.group_hits ≡ hits_of scores input input.group

sized-AllClean :
    (n : ℕ) (showtimes : List ShowtimeInput) → AllClean n showtimes → AllSizedShowtimes n showtimes
sized-AllClean n [] c = tt
sized-AllClean n (s ∷ ss) c = (
  elim s.availability as (λ a. CleanOption n a → SizedOption n a) [
    | none ↦ λ here. tt
    | some free ↦ λ here. here.has_size
  ]
      c.0,
  sized-AllClean n ss c.1,
)

NoScore : {R : Type 0} → Option (Compiled R Bitmap) → Type 0
NoScore none = Unit
NoScore (some (compiled mask)) = Unit
NoScore (some (unsupported_score region)) = ⊥

module _ (N : Number) (scores : Scores) (accepts : Group → Bool) (input : GroupInput N.Real)
    (v : IsGroupInput scores input) (open_gate : first_gate input ≡ none) where
  abbrev n : ℕ
  n = cell_count input.layout

  placement_mask_lem :
      (r : Option (Compiled N.Real Bitmap))
      → CleanRegion n r
      → NoScore r
      → Yields
          (placement_mask N scores accepts input r)
          (λ m. Denotes m n (placement_cells input.layout input.metrics r))
  unfolding placement_mask NoScore
  placement_mask_lem none c h = let (m, e, d) = compile_region-all N v.spans in (m, rw e refl, d)
  placement_mask_lem (some (compiled mask)) c h = (mask, refl, c)
  placement_mask_lem (some (unsupported_score region)) c h = absurd h

  group_hits_lem :
      (shape : Option GroupShape)
      → PlaceableOption shape
      → NoScore input.placement_region
      → group_hits N scores accepts input shape ≡ ok (hits_of scores input shape)
  unfolding group_hits
  group_hits_lem none s h = refl
  group_hits_lem (some shape) s h =
      let (mask, e, d) = placement_mask_lem input.placement_region v.placement h in
      let cells = placement_cells input.layout input.metrics input.placement_region in
      let (sets, e', offered) =
        hit_sets_lem input.layout cells input.group_strict shape s v.rows_positive
          v.columns_positive v.pool d input.showtimes 0
          (sized-AllClean n input.showtimes v.showtimes) in
      let hits =
        hits_of_rows_lem scores input.layout input.pool_mask cells input.group_strict shape
          input.seat_scores input.showtimes s v.scored v.finite sets offered input.layout.rows 0
          (omega arith) in
      let start : 0 * input.layout.columns ≡ 0 = omega arith in rw (e, e', hits, start) refl

  region_gate-NoScore :
      (group : Option GroupShape) (preview region : Option (Compiled N.Real Bitmap))
      (next : Option (Assembled N.Real))
      → split_gate group (region_gate preview (region_gate region next)) ≡ none
      → NoScore region
  unfolding NoScore
  region_gate-NoScore group preview none next h = tt
  region_gate-NoScore group preview (some (compiled mask)) next h = tt
  region_gate-NoScore group preview (some (unsupported_score region)) next h =
      absurd (ground (arith, h))

  group_of :
      (g : Group) × GroupOf scores input g
      × (assemble_group N scores accepts input
          ≡ (if accepts g then ok (assembled g) else throw invalid_group))
  unfolding assemble_group
  group_of =
      let (free, e, (free_size, lists)) =
        free_in_cells_lem input.showtimes n n 0 v.showtimes (omega arith) in
      let (counts, e', (counts_size, counted)) =
        per_position_popcount_lem (resolved_availabilities input.showtimes) n
          (resolved-AllSized input.showtimes n v.showtimes)
          (omega (arith, length-resolved_availabilities input.showtimes, v.few)) in
      let shown = output_showtimes_lem input.layout v.ordinary input.showtimes v.showtimes in
      let bits = preview_bits_lem n input.preview_region v.preview in
      let hits =
        group_hits_lem input.group v.placeable (
          region_gate-NoScore input.group input.preview_region input.placement_region _
            open_gate) in
      let listed : (j : ℕ) → j < n → get_or free j [] ≡ passing (free_at j) input.showtimes 0 =
        λ j lt.
          let start : 0 + j ≡ j = omega arith in
          lists j lt ∙ ap (λ i. passing (free_at i) input.showtimes 0) start in
      (
        record {
          layout_id = input.layout_id;
          rows = input.layout.rows;
          columns = input.layout.columns;
          region_mask = digits_of n input.preview_region;
          showtimes = map (describe input.layout) input.showtimes;
          free_count = counts;
          free_in = free;
          group_hits = hits_of scores input input.group;
        },
        record {
          free_in = listed;
          free_count = λ j lt.
              counted j lt ∙ sym (ap length (listed j lt) ∙ length-passing input.showtimes j 0);
          sizes = (free_size, counts_size);
          showtimes = refl;
          region_mask = refl;
          group_hits = refl;
        },
        rw (shown, e', e, bits, hits) refl,
      )

  -- For an input on a grid of positive dimensions (metrics and finite scores of its size, canonical
  -- bitmaps, fewer than 2^32 showtimes, a run or a block of positive numbers or no group) that no
  -- gate refuses, there is a group such that the assembly returns it if the schema accepts it and
  -- else throws the schema's error. At each cell the group lists exactly the resolved showtimes at
  -- which the cell is free, and counts them; its hits are sorted by the rank from one hit for each
  -- cell at which some showtime offers the shape, with these showtimes and the mean of the scores
  -- of its seats.
  pub assemble_result_group_lem :
      (g : Group) × GroupOf scores input g
      × (assemble_result_group N scores accepts input
          ≡ (if accepts g then ok (assembled g) else throw invalid_group))
  unfolding assemble_result_group assert_seat_scores after_gates
  assemble_result_group_lem =
      let (g, h, e) = group_of in
      let counted : (length input.seat_scores == n) ≡ true = ground (arith, v.scored) in
      (g, h, rw (assert_metrics_lem v.spans, counted, v.finite, open_gate) e)
