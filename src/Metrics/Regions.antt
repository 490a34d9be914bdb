-- ===== src/Metrics/Regions.antt =====
-- packages/core/src/metrics.ts and region.ts: the metrics of a layout are what its regions are
-- compiled on.
use seatfirst.Prelude.{
  ℕ, ◌*◌, ◌/◌, ◌<◌, ◌≤◌, ◌≡◌, refl, sym, ap, ◌∙◌, subst, String, Bool, true, not, ◌&&◌, Option,
  List, All, get_or, ltb, ◌==◌, lt→ltb, arith,
}
use seatfirst.Prelude.Grid.{row-lt}
use seatfirst.Prelude.Int.{ℤ, pos, negsuc}
use seatfirst.Prelude.Outcome.{Yields}
use seatfirst.Bitmap.Cells.{Denotes}
use seatfirst.Layout.{Geometry, Cell, Built, build_auditorium_layout}
use seatfirst.Layout.Placement.{
  BuiltFrom, Inside, Distinct, cell_at, code_at, visible_at, build_auditorium_layout-BuiltFrom,
}
use seatfirst.Region.{SeatMetrics, cell_count, is_seat, compile_region}
use seatfirst.Region.Syntax.{Number, SeatRegion, is_valid}
use seatfirst.Region.Holds.{Spans, has_no_score}
use seatfirst.Region.Compile.{
  CompilesTo, OrdersLiterals, preset_is_clean, region_cells, compile_region_lem,
}
use seatfirst.Metrics.{seat_index_in_row, lateral, normalized_lateral, compute_seat_metrics}
use seatfirst.Metrics.Rows.{IsGrid, seat_at, fill_rows_lem}
use seatfirst.Metrics.Lengths.{depth_lem, aisle_distance_lem}

-- The metrics of a grid: an entry for every cell; the ordinals and the lateral offsets of the seats.
pub record IsMetrics (N : Number) (ratio : ℤ → ℕ → N.Real) (layout : Geometry) (shown : ℕ → Bool)
    (m : SeatMetrics N.Real) : Type 0 where
  pub spans : Spans layout m
  pub seats : (j : ℕ) → j < cell_count layout → is_seat layout m j ≡ seat_at layout shown j

module _ (N : Number) (ratio : ℤ → ℕ → N.Real) {layout : Geometry} {shown : ℕ → Bool}
    (grid : IsGrid layout shown) where
  row_lt : (j : ℕ) → j < cell_count layout → ltb (j / layout.columns) layout.rows ≡ true
  row_lt j lt = lt→ltb _ _ (row-lt j layout.rows layout.columns grid.columns_positive lt)

  pub compute_seat_metrics_lem :
      Yields (compute_seat_metrics N ratio layout) (IsMetrics N ratio layout shown)
  unfolding compute_seat_metrics seat_index_in_row lateral
  compute_seat_metrics_lem =
      let (s, e, f) = fill_rows_lem grid (negsuc 0) (λ seats index. pos index) in
      let (d, e', size) = depth_lem grid N ratio in
      let (l, e'', g) = fill_rows_lem grid N.not_a_number (normalized_lateral N ratio) in
      let (a, e''', size') = aisle_distance_lem grid in
      (
        record { seat_index_in_row = s; depths = d; laterals = l; aisle_distance = a },
        rw (e, e', e'', e''') refl,
        record {
          spans = record { seats = f.size; depths = size; laterals = g.size; aisles = size' };
          seats = λ j lt. ground (arith, f.entries j lt, row_lt j lt);
        },
      )

  -- Any region that the schema accepts compiles on the metrics of a grid whose seats have known kinds.
  region_of_grid :
      OrdersLiterals N
      → ((i : ℕ) → i < cell_count layout → get_or layout.seat_kinds i 5 ≤ 4)
      → (m : SeatMetrics N.Real) → IsMetrics N ratio layout shown m
      → (r : SeatRegion N.Real) → is_valid N r ≡ true
      → CompilesTo
          (cell_count layout)
          (has_no_score (preset_is_clean N) r)
          (region_cells N layout m r)
          (compile_region N layout m r)
  region_of_grid order known m h r v =
      compile_region_lem N order h.spans (λ i lt seat. known i lt) r v

-- The display mask of built cells.
abbrev pub shown_cells : ℕ → List Cell → ℕ → Bool
shown_cells columns cells j = visible_at (cell_at columns cells j)

module _ {rows columns : ℕ} {cells : List Cell} {b : Built} (p : 0 < rows) (q : 0 < columns)
    (built : BuiltFrom rows columns cells b) where
  same_count : cell_count b.geometry ≡ rows * columns
  same_count = ground (arith, built.same_rows, built.same_columns)

  built-IsGrid : IsGrid b.geometry (shown_cells columns cells)
  built-IsGrid = record {
    rows_positive = omega (arith, p, built.same_rows);
    columns_positive = omega (arith, q, built.same_columns);
    kinds_size = built.kinds_size ∙ sym same_count;
    display =
        subst (λ n. Denotes b.geometry.display_mask n (shown_cells columns cells)) (sym same_count)
          built.display;
  }

  code_at-le : (c : Option Cell) → code_at c ≤ 4
  code_at-le c = ground arith

  known_kinds : (i : ℕ) → i < cell_count b.geometry → get_or b.geometry.seat_kinds i 5 ≤ 4
  known_kinds i lt =
      omega (arith, built.kinds i (omega (arith, same_count)), code_at-le (cell_at columns cells i))

-- The mask of a region on the layout and the metrics of the provider's cells: the seats that the
-- region means, and every cell that is shown and no gap is a seat.
pub record RegionOf (N : Number) (ratio : ℤ → ℕ → N.Real) (columns : ℕ) (cells : List Cell)
    (b : Built) (r : SeatRegion N.Real) (m : SeatMetrics N.Real) : Type 0 where
  pub seats :
      (j : ℕ)
      → j < cell_count b.geometry
      → is_seat b.geometry m j
        ≡ (shown_cells columns cells j && not (code_at (cell_at columns cells j) == 0))
  pub mask :
      CompilesTo
        (cell_count b.geometry)
        (has_no_score (preset_is_clean N) r)
        (region_cells N b.geometry m r)
        (compile_region N b.geometry m r)

module _ (N : Number) (ratio : ℤ → ℕ → N.Real) (order : OrdersLiterals N)
    (normalize : String → String) (fingerprint : Geometry → String) where
  -- For positive dimensions, cells inside the grid at distinct coordinates and a region that the
  -- schema accepts, the layout of the cells is built, its metrics are computed without an error,
  -- the cells that are seats by the metrics are exactly those that hold a shown cell that is no
  -- gap, and the region compiles on them: to the mask of the seats it admits if it has no SCORE in
  -- it, and else to the typed refusal. Assumed: number literals are ordered as their values.
  pub build_auditorium_layout-RegionOf :
      (rows columns : ℕ) (cells : List Cell) (r : SeatRegion N.Real)
      → 0 < rows
      → 0 < columns
      → All (Inside rows columns) cells
      → Distinct cells
      → is_valid N r ≡ true
      → Yields (build_auditorium_layout normalize fingerprint rows columns cells) (λ b.
        Yields (compute_seat_metrics N ratio b.geometry) (RegionOf N ratio columns cells b r))
  build_auditorium_layout-RegionOf rows columns cells r p q inside apart v =
      let (b, e, built) =
        build_auditorium_layout-BuiltFrom normalize fingerprint rows columns cells p q inside
          apart in
      let grid = built-IsGrid p q built in
      let (m, e', h) = compute_seat_metrics_lem N ratio grid in
      (
        b,
        e,
        (
          m,
          e',
          record {
            seats = λ j lt.
                h.seats j lt
                ∙ ap (λ (k : ℕ). shown_cells columns cells j && not (k == 0))
                    (built.kinds j (omega (arith, same_count p q built, lt)));
            mask = region_of_grid N ratio grid order (known_kinds p q built) m h r v;
          },
        ),
      )
