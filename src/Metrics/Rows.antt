-- ===== src/Metrics/Rows.antt =====
-- packages/core/src/metrics.ts: what is written for the seats of each row.
use seatfirst.Prelude.{
  ℕ, zero, suc, ◌+◌, ◌*◌, ◌/◌, ◌%◌, ◌<◌, ◌≤◌, ◌≡◌, ◌⊎◌, refl, sym, ap, ◌∙◌, Bool, true, false, not,
  ◌&&◌, List, [], ◌∷◌, length, get_or, set, replicate, ltb, ◌==◌, if◌then◌else◌, Bool-cases, ==_iff,
  ltb→lt, inl, inr, get_or-set, get_or-replicate, length-set, length-replicate, arith,
}
use seatfirst.Prelude.Grid.{position_of, after_row, before_row}
use seatfirst.Prelude.Outcome.{ok, Yields, for_range_inv}
use seatfirst.Bitmap.Cells.{Denotes}
use seatfirst.Bitmap.Access.{get_bit_ok}
use seatfirst.Layout.{Geometry}
use seatfirst.Region.{cell_count}
use seatfirst.Metrics.{
  checked_cell_count, is_seat_position, seats_in, row_seat_indices, write_each, fill_row, fill_rows,
}

-- A geometry of positive dimensions with a kind for each cell and the canonical mask of the shown ones.
pub record IsGrid (layout : Geometry) (shown : ℕ → Bool) : Type 0 where
  pub rows_positive : 0 < layout.rows
  pub columns_positive : 0 < layout.columns
  pub kinds_size : length layout.seat_kinds ≡ cell_count layout
  pub display : Denotes layout.display_mask (cell_count layout) shown

-- A cell that is shown and whose kind is a seat.
abbrev pub seat_at : Geometry → (ℕ → Bool) → ℕ → Bool
seat_at layout shown j = shown j && not (get_or layout.seat_kinds j 5 == 0)

module _ (seat : ℕ → Bool) where
  unfoldable pub seats_from : ℕ → ℕ → List ℕ
  seats_from zero i = []
  seats_from (suc n) i = let rest = seats_from n (i + 1) in if seat i then i ∷ rest else rest

  -- The number of seats among the `n` cells from `i` on.
  unfoldable pub count_from : ℕ → ℕ → ℕ
  count_from zero i = 0
  count_from (suc n) i = (if seat i then 1 else 0) + count_from n (i + 1)

  length-seats_from : (n i : ℕ) → length (seats_from n i) ≡ count_from n i
  unfolding seats_from count_from
  length-seats_from zero i = refl
  length-seats_from (suc n) i = ground (arith, length-seats_from n (i + 1))

  module _ {A : Type 0} (value : ℕ → A) where
    write_each_outside :
        (n i k : ℕ) (r : List A) (j : ℕ) (d : A)
        → (j < i) ⊎ (i + n ≤ j)
        → get_or (write_each value k (seats_from n i) r) j d ≡ get_or r j d
    unfolding seats_from write_each
    write_each_outside zero i k r j d h = refl
    write_each_outside (suc n) i k r j d h = elim (Bool-cases (seat i)) [
      | inl here ↦ rw here (
          write_each_outside n (i + 1) (k + 1) (set r i (value k)) j d (ground (arith, h))
          ∙ get_or-set r i j (value k) d
          ∙ ground (arith, h))
      | inr gap ↦ rw gap (write_each_outside n (i + 1) k r j d (ground (arith, h)))
    ]

    write_each_inside :
        (n i k : ℕ) (r : List A) (o j m : ℕ) (d : A)
        → o < n
        → i + n ≤ length r
        → j ≡ i + o
        → m ≡ k + count_from o i
        → get_or (write_each value k (seats_from n i) r) j d
          ≡ (if seat j then value m else get_or r j d)
    unfolding seats_from count_from write_each
    write_each_inside zero i k r o j m d lt h at index = absurd (omega arith)
    write_each_inside (suc n) i k r zero j m d lt h at index = elim (Bool-cases (seat i)) [
      | inl here ↦
          let seat_here : seat j ≡ true = ap seat (omega arith) ∙ here in
          let same : value k ≡ value m = ap value (omega arith) in
          rw here (
            write_each_outside n (i + 1) (k + 1) (set r i (value k)) j d (inl (omega arith))
            ∙ get_or-set r i j (value k) d
            ∙ ground (arith, seat_here, same))
      | inr gap ↦
          let no_seat : seat j ≡ false = ap seat (omega arith) ∙ gap in
          rw gap
            (write_each_outside n (i + 1) k r j d (inl (omega arith)) ∙ ground (arith, no_seat))
    ]
    write_each_inside (suc n) i k r (suc o) j m d lt h at index = elim (Bool-cases (seat i)) [
      | inl here ↦
          let next : m ≡ k + 1 + count_from o (i + 1) = ground (arith, here, index) in
          rw here (
            write_each_inside n (i + 1) (k + 1) (set r i (value k)) o j m d (omega arith)
              (omega (arith, length-set r i (value k), h)) (omega (arith, at)) next
            ∙ ground (arith, get_or-set r i j (value k) d, at))
      | inr gap ↦
          let next : m ≡ k + count_from o (i + 1) = ground (arith, gap, index) in
          rw gap (
            write_each_inside n (i + 1) k r o j m d (omega arith) (omega arith) (omega (arith, at))
              next)
    ]

    length-write_each :
        (n i k : ℕ) (r : List A) → length (write_each value k (seats_from n i) r) ≡ length r
    unfolding seats_from write_each
    length-write_each zero i k r = refl
    length-write_each (suc n) i k r = elim (Bool-cases (seat i)) [
      | inl here ↦
          rw here
            (length-write_each n (i + 1) (k + 1) (set r i (value k)) ∙ length-set r i (value k))
      | inr gap ↦ rw gap (length-write_each n (i + 1) k r)
    ]

module _ {layout : Geometry} {shown : ℕ → Bool} (grid : IsGrid layout shown) where
  pub checked_cell_count_lem : checked_cell_count layout ≡ ok (cell_count layout)
  unfolding checked_cell_count
  checked_cell_count_lem = ground (
    arith, grid.rows_positive, grid.columns_positive, grid.kinds_size, grid.display.has_size.size,
  )

  pub is_seat_position_lem :
      (i : ℕ) → i < cell_count layout → is_seat_position layout i ≡ ok (seat_at layout shown i)
  unfolding is_seat_position
  is_seat_position_lem i lt = rw (get_bit_ok i lt grid.display) refl

  pub seats_in_lem :
      (n i : ℕ)
      → i + n ≤ cell_count layout
      → seats_in layout n i ≡ ok (seats_from (seat_at layout shown) n i)
  unfolding seats_in seats_from
  seats_in_lem zero i h = refl
  seats_in_lem (suc n) i h =
      rw (is_seat_position_lem i (omega arith), seats_in_lem n (i + 1) (omega arith)) refl

  -- The number of seats in the row of a cell, and of those before it.
  abbrev pub seats_of_row : ℕ → ℕ
  seats_of_row j =
      count_from (seat_at layout shown) layout.columns (j / layout.columns * layout.columns)

  abbrev pub seats_before : ℕ → ℕ
  seats_before j =
      count_from (seat_at layout shown) (j % layout.columns) (j / layout.columns * layout.columns)

  module _ {A : Type 0} (gap : A) (value : ℕ → ℕ → A) where
    -- What the rows below `row` have been given.
    pub record Filled (row : ℕ) (r : List A) : Type 0 where
      pub size : length r ≡ cell_count layout
      pub entries :
          (j : ℕ)
          → j < cell_count layout
          → get_or r j gap ≡ (
              if ltb (j / layout.columns) row && seat_at layout shown j
              then value (seats_of_row j) (seats_before j)
              else gap)

    row_written :
        (row : ℕ) (r : List A) (j : ℕ)
        → row < layout.rows
        → Filled row r
        → j < cell_count layout
        → j / layout.columns ≡ row
        → get_or
            (write_each
              (value
                (length (seats_from (seat_at layout shown) layout.columns (row * layout.columns))))
              0
              (seats_from (seat_at layout shown) layout.columns (row * layout.columns))
              r)
            j
            gap
          ≡ (if seat_at layout shown j then value (seats_of_row j) (seats_before j) else gap)
    row_written row r j lt f inside same =
        let start : ℕ = row * layout.columns in
        let seat : ℕ → Bool = seat_at layout shown in
        let (at, column) = position_of j layout.columns grid.columns_positive in
        let first : j / layout.columns * layout.columns ≡ start =
          ap (λ (x : ℕ). x * layout.columns) same in
        let index : seats_before j ≡ count_from seat (j % layout.columns) start =
          ap (count_from seat (j % layout.columns)) first in
        let total : length (seats_from seat layout.columns start) ≡ seats_of_row j =
          length-seats_from seat layout.columns start
          ∙ ap (count_from seat layout.columns) (sym first) in
        let room : start + layout.columns ≤ cell_count layout = grind arith in
        let old : get_or r j gap ≡ gap = ground (arith, f.entries j inside, same) in
        write_each_inside seat (value (length (seats_from seat layout.columns start)))
          layout.columns start 0 r (j % layout.columns) j (seats_before j) gap column
          (omega (arith, room, f.size)) (omega (arith, at, first)) (omega (arith, index))
        ∙ ground (arith, old, ap (λ (n : ℕ). value n (seats_before j)) total)

    row_kept :
        (row : ℕ) (r : List A) (j : ℕ) (v : ℕ → A)
        → Filled row r
        → j < cell_count layout
        → (j / layout.columns == row) ≡ false
        → get_or
            (write_each v 0
              (seats_from (seat_at layout shown) layout.columns (row * layout.columns))
              r)
            j
            gap
          ≡ get_or r j gap
    row_kept row r j v f inside elsewhere = elim (Bool-cases (ltb (j / layout.columns) row)) [
      | inl before ↦
          write_each_outside (seat_at layout shown) v layout.columns (row * layout.columns) 0 r j
            gap (inl (before_row j row layout.columns grid.columns_positive (ltb→lt _ _ before)))
      | inr after ↦
          write_each_outside (seat_at layout shown) v layout.columns (row * layout.columns) 0 r j
            gap
            (inr
              (omega (arith, after_row j row layout.columns grid.columns_positive (ground arith))))
    ]

    fill_row_lem :
        (row : ℕ) (r : List A)
        → row < layout.rows
        → Filled row r
        → Yields (fill_row layout value row r) (Filled (row + 1))
    unfolding fill_row row_seat_indices
    fill_row_lem row r lt f =
        let start : ℕ = row * layout.columns in
        let seat : ℕ → Bool = seat_at layout shown in
        let v : ℕ → A = value (length (seats_from seat layout.columns start)) in
        (
          write_each v 0 (seats_from seat layout.columns start) r,
          rw (seats_in_lem layout.columns start (grind arith)) refl,
          record {
            size = length-write_each seat v layout.columns start 0 r ∙ f.size;
            entries = λ j inside. elim (Bool-cases (j / layout.columns == row)) [
              | inl here ↦ ground (arith, row_written row r j lt f inside ((==_iff _ _).0 here))
              | inr elsewhere ↦
                  row_kept row r j v f inside elsewhere ∙ ground (arith, f.entries j inside)
            ];
          },
        )

    pub fill_rows_lem : Yields (fill_rows layout gap value) (Filled layout.rows)
    unfolding fill_rows
    fill_rows_lem = rw checked_cell_count_lem (
        for_range_inv Filled (fill_row layout value) layout.rows 0 layout.rows
          (replicate (cell_count layout) gap) (omega arith) (λ k t lt f. fill_row_lem k t lt f)
          (record {
            size = length-replicate (cell_count layout) gap;
            entries = λ j inside. ground (arith, get_or-replicate (cell_count layout) j gap);
          }))
