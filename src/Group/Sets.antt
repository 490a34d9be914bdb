-- ===== src/Group/Sets.antt =====
-- packages/core/src/group-assembly.ts: the start cells of a run or a block at one showtime.
use seatfirst.Prelude.{
  ℕ, zero, suc, ◌+◌, ◌-◌, ◌*◌, ◌/◌, ◌<◌, ◌≤◌, ◌≡◌, refl, subst, ◌∙◌, Bool, true, false, ◌&&◌, inl,
  inr, ltb, leb, ltb→lt, ltb→le, Bool-cases, arith,
}
use seatfirst.Prelude.Grid.{position-lt, row_of, before_row}
use seatfirst.Prelude.Outcome.{ok, Yields, for_range, for_range_inv}
use seatfirst.Bitmap.{Bitmap, create_bitmap}
use seatfirst.Bitmap.Cells.{HasSize, Denotes, create_bitmap-Denotes}
use seatfirst.Bitmap.Access.{get_bit_ok}
use seatfirst.Bitmap.Runs.{Denotes-cong}
use seatfirst.Bitmap.Marks.{upto, mark, mark_lem}
use seatfirst.Layout.{Geometry}
use seatfirst.Region.{cell_count}
use seatfirst.Region.Starts.{admits, region_run_starts_lem}
use seatfirst.Group.{
  GroupShape, run, block, split, rows_present, mark_block, block_starts, shape_starts,
}

-- The test holds at the cell and at those below it in the same column.
abbrev pub column_from : (ℕ → Bool) → ℕ → ℕ → ℕ → Bool
column_from f columns zero cell = true
column_from f columns (suc n) cell = f cell && column_from f columns n (cell + columns)

abbrev pub stacked : (ℕ → Bool) → ℕ → ℕ → ℕ → ℕ → Bool
stacked f rows columns block_rows cell =
    leb (cell / columns + block_rows) rows && column_from f columns block_rows cell

module _ (f : ℕ → Bool) (rows columns : ℕ) {runs : Bitmap}
    (d : Denotes runs (rows * columns) f) where
  rows_present_lem :
      (block_rows row column cell : ℕ)
      → cell ≡ row * columns + column
      → row + block_rows ≤ rows
      → column < columns
      → rows_present runs (rows * columns) columns block_rows cell
        ≡ ok (column_from f columns block_rows cell)
  unfolding rows_present
  rows_present_lem zero row column cell e room inside = refl
  rows_present_lem (suc n) row column cell e room inside =
      let next : cell + columns ≡ (row + 1) * columns + column = grind arith in
      let lt : cell < rows * columns =
        omega (arith, position-lt row column rows columns (omega arith) inside) in
      rw (get_bit_ok cell lt d) (
        ground
          (arith, rows_present_lem n (row + 1) column (cell + columns) next (omega arith) inside))

  module _ (block_rows : ℕ) where
    abbrev start : ℕ → Bool
    start = stacked f rows columns block_rows

    mark_block_lem :
        (row column : ℕ) (blocks : Bitmap)
        → row + block_rows ≤ rows
        → column < columns
        → mark_block runs (rows * columns) columns block_rows (row * columns + column) blocks
          ≡ mark start (rows * columns) (row * columns + column) blocks
    unfolding mark_block
    mark_block_lem row column blocks room inside =
        let at_row = row_of row column columns inside in
        let fits : leb ((row * columns + column) / columns + block_rows) rows ≡ true =
          rw at_row (ground arith) in
        rw (rows_present_lem block_rows row column (row * columns + column) refl room inside, fits)
          refl

    -- One row of the block loop.
    mark_row_lem :
        (row : ℕ) (blocks : Bitmap)
        → row + block_rows ≤ rows
        → 0 < block_rows
        → Denotes blocks (rows * columns) (upto start (row * columns))
        → Yields
            (for_range columns 0
              (λ column.
                mark_block runs (rows * columns) columns block_rows (row * columns + column))
              blocks)
            (λ c. Denotes c (rows * columns) (upto start ((row + 1) * columns)))
    mark_row_lem row blocks room pos h =
        let n : ℕ = rows * columns in
        let (c, e, w) =
          for_range_inv (λ column c. Denotes c n (upto start (row * columns + column)))
            (λ column. mark_block runs n columns block_rows (row * columns + column)) columns 0
            columns blocks (omega arith)
            (λ k t lt r.
              let (c, e, w) =
                mark_lem start n (row * columns + k) t
                  (position-lt row k rows columns (omega arith) lt) r in
              (
                c,
                mark_block_lem row k t room lt ∙ e,
                subst (λ m. Denotes c n (upto start m)) (omega arith) w,
              ))
            (subst (λ m. Denotes blocks n (upto start m)) (omega arith) h) in
        (c, e, subst (λ m. Denotes c n (upto start m)) (grind arith) w)

    -- Below the rows that the loop visits, a block has no room.
    unvisited : (j : ℕ) → 0 < columns → upto start ((rows + 1 - block_rows) * columns) j ≡ start j
    unvisited j pos = elim (Bool-cases (ltb (j / columns) (rows + 1 - block_rows))) [
      | inl visited ↦ ground (
        arith,
        before_row j (rows + 1 - block_rows) columns pos
            (ltb→lt (j / columns) (rows + 1 - block_rows) visited),
      )
      | inr below ↦ ground (arith, ltb→le (j / columns) (rows + 1 - block_rows) below)
    ]

block_starts_lem :
    (layout : Geometry) (f : ℕ → Bool) {runs : Bitmap} (block_rows : ℕ)
    → 0 < layout.columns
    → 0 < block_rows
    → Denotes runs (cell_count layout) f
    → Yields
        (block_starts layout runs block_rows)
        (λ c. Denotes c (cell_count layout) (stacked f layout.rows layout.columns block_rows))
unfolding block_starts
block_starts_lem layout f {runs} block_rows p q d =
    let n : ℕ = cell_count layout in
    let g : ℕ → Bool = stacked f layout.rows layout.columns block_rows in
    let rounds : ℕ = layout.rows + 1 - block_rows in
    let (c, e, w) =
      for_range_inv (λ row c. Denotes c n (upto g (row * layout.columns)))
        (λ row.
          for_range layout.columns 0
            (λ column. mark_block runs n layout.columns block_rows (row * layout.columns + column)))
        rounds 0 rounds (create_bitmap n) (omega arith)
        (λ k t lt r. mark_row_lem f layout.rows layout.columns d block_rows k t (omega arith) q r)
        (Denotes-cong (create_bitmap-Denotes n) (λ j lt. ground arith)) in
    (c, e, Denotes-cong w (λ j lt. unvisited f layout.rows layout.columns d block_rows j p))

-- A shape whose placements the code looks for; the numbers are those of the schema.
abbrev pub IsPlaceable : GroupShape → Type 0
IsPlaceable (run count) = 0 < count
IsPlaceable (block rows cols) = (0 < rows) × (0 < cols)
IsPlaceable (split count groups same_row) = ⊥

module _ (layout : Geometry) (pool : Bitmap) (placement : ℕ → Bool) (strict : Bool) where
  -- The cells at which a shape can start on the free seats.
  abbrev pub offers : GroupShape → Bitmap → ℕ → Bool
  offers (run count) free = admits free pool placement layout count strict
  offers (block rows cols) free =
      stacked (admits free pool placement layout cols strict) layout.rows layout.columns rows
  offers (split count groups same_row) free = λ cell. false

-- On a grid of positive dimensions, for bitmaps of its size, a run or a block of positive numbers
-- starts exactly where the region admits a run in each of the block's rows, all of them in the grid.
pub shape_starts_lem :
    {pool mask free : Bitmap} (layout : Geometry) (placement : ℕ → Bool) (strict : Bool)
    (shape : GroupShape)
    → IsPlaceable shape
    → 0 < layout.rows
    → 0 < layout.columns
    → HasSize free (cell_count layout)
    → HasSize pool (cell_count layout)
    → Denotes mask (cell_count layout) placement
    → Yields
        (shape_starts layout pool mask strict shape free)
        (λ c. Denotes c (cell_count layout) (offers layout pool placement strict shape free))
unfolding shape_starts
shape_starts_lem layout placement strict (run count) s p q sf sp d =
    region_run_starts_lem layout placement count strict p q s sf sp d
shape_starts_lem {pool} {mask} {free} layout placement strict (block rows cols) s p q sf sp d =
    let (runs, e, w) = region_run_starts_lem layout placement cols strict p q s.1 sf sp d in
    let (c, e', w') =
      block_starts_lem layout (admits free pool placement layout cols strict) rows q s.0 w in
    (c, rw e e', w')
shape_starts_lem layout placement strict (split count groups same_row) s p q sf sp d = absurd s
