-- ===== src/Group/Placed.antt =====
-- packages/core/src/group-assembly.ts: the list of hits, cell after cell in row-major order.
use seatfirst.Prelude.{
  ℕ, zero, suc, ◌+◌, ◌*◌, ◌/◌, ◌%◌, ◌<◌, ◌≡◌, refl, sym, Bool, true, none, some, List, [], ◌∷◌,
  ◌++◌, length, append_assoc, inl, inr, Bool-cases, arith,
}
use seatfirst.Prelude.Grid.{position-lt, row_of, column_of}
use seatfirst.Prelude.Outcome.{ok}
use seatfirst.Bitmap.{Bitmap}
use seatfirst.Layout.{Geometry}
use seatfirst.Region.{cell_count}
use seatfirst.Recovery.{GroupHit}
use seatfirst.Group.{
  GroupShape, run, block, split, Scores, ShowtimeInput, HitSet, offered_indices, row_span,
  member_cols, all_finite, members, hit_at, hits_of_row, hits_of_rows,
}
use seatfirst.Group.Sets.{IsPlaceable, offers}
use seatfirst.Group.Hits.{passing}
use seatfirst.Group.Members.{offers-room, run_score-members}

-- The hit at a cell that the showtimes of a list offer, if any does.
abbrev pub hit_for : Scores → Geometry → GroupShape → List ℕ → ℕ → ℕ → List ℕ → List GroupHit
hit_for scores layout shape seat_scores row column [] = []
hit_for scores layout shape seat_scores row column (i ∷ is) =
    record {
      row = row;
      start_col = column;
      row_span = row_span shape;
      run_score = scores.mean (
          members scores seat_scores (row_span shape) (member_cols shape) layout.columns
            (row * layout.columns + column));
      showtime_indices = i ∷ is;
    }
    ∷ []

module _ {A : Type 0} (at : ℕ → List A) where
  -- What the cells from `j` on give.
  abbrev pub each_cell : ℕ → ℕ → List A
  each_cell zero j = []
  each_cell (suc n) j = at j ++ each_cell n (j + 1)

  each_cell-append : (m n j : ℕ) → each_cell (m + n) j ≡ each_cell m j ++ each_cell n (j + m)
  each_cell-append zero n j =
      let whole : 0 + n ≡ n = omega arith in
      let start : j + 0 ≡ j = omega arith in rw (whole, start) refl
  each_cell-append (suc m) n j =
      let step : j + 1 + m ≡ j + suc m = omega arith in
      let more : suc m + n ≡ suc (m + n) = omega arith in
      rw (more, each_cell-append m n (j + 1), step) (sym (append_assoc (at j) _ _))

module _ (scores : Scores) (layout : Geometry) (pool : Bitmap) (placement : ℕ → Bool)
    (strict : Bool) (shape : GroupShape) (seat_scores : List ℕ)
    (showtimes : List ShowtimeInput) where
  -- The hit of a cell: the showtimes at which the shape can start there.
  abbrev pub placed : ℕ → List GroupHit
  placed j =
      hit_for scores layout shape seat_scores (j / layout.columns) (j % layout.columns)
        (passing (λ free. offers layout pool placement strict shape free j) showtimes 0)

  module _ (s : IsPlaceable shape) (size : length seat_scores ≡ cell_count layout)
      (finite : all_finite scores seat_scores ≡ true) (sets : List HitSet)
      (offered : (cell : ℕ)
        → cell < cell_count layout
        → offered_indices sets (cell_count layout) cell
          ≡ ok (
              passing
                (λ free. offers layout pool placement strict shape free cell)
                showtimes
                0)) where
    shape-pos : (0 < row_span shape) × (0 < member_cols shape)
    shape-pos =
        elim shape as (λ g. IsPlaceable g → (0 < row_span g) × (0 < member_cols g)) [
          | run count ↦ λ h. (omega arith, h)
          | block rows cols ↦ λ h. h
          | split count groups same_row ↦ λ h. absurd h
        ]
          s

    -- A showtime in the list offers the cell.
    passing-some :
        (ss : List ShowtimeInput) (k i : ℕ) (is : List ℕ) (f : Bitmap → Bool)
        → passing f ss k ≡ i ∷ is
        → (free : Bitmap) × (f free ≡ true)
    passing-some [] k i is f e = cc
    passing-some (here ∷ ss) k i is f e =
        elim here.availability
            as (λ a. (here.availability ≡ a) → (free : Bitmap) × (f free ≡ true)) [
              | none ↦ λ same. passing-some ss (k + 1) i is f (ground (arith, same, e))
              | some free ↦ λ same. elim (Bool-cases (f free)) [
                | inl passes ↦ (free, passes)
                | inr fails ↦ passing-some ss (k + 1) i is f (ground (arith, same, e, fails))
              ]
            ]
          refl

    hit_at_lem :
        (row column : ℕ) (is : List ℕ)
        → row < layout.rows
        → column < layout.columns
        → passing
            (λ free. offers layout pool placement strict shape free (row * layout.columns + column))
            showtimes
            0
          ≡ is
        → hit_at scores layout shape seat_scores row column is
          ≡ ok (hit_for scores layout shape seat_scores row column is)
    unfolding hit_at
    hit_at_lem row column [] p q e = refl
    hit_at_lem row column (i ∷ is) p q e =
        let (free, offer) = passing-some showtimes 0 i is _ e in
        let (r, c) = offers-room layout pool placement strict shape free row column s p q offer in
        rw
          (run_score-members scores seat_scores finite layout.rows layout.columns (row_span shape)
            (member_cols shape) row column size shape-pos.0 shape-pos.1 r c)
          refl

    hits_of_row_lem :
        (row cols column : ℕ)
        → row < layout.rows
        → column + cols ≡ layout.columns
        → hits_of_row scores layout shape seat_scores sets row cols column
          ≡ ok (each_cell placed cols (row * layout.columns + column))
    unfolding hits_of_row
    hits_of_row_lem row zero column p q = refl
    hits_of_row_lem row (suc cols) column p q =
        let inside : column < layout.columns = omega arith in
        let lt = position-lt row column layout.rows layout.columns p inside in
        let next : row * layout.columns + column + 1 ≡ row * layout.columns + (column + 1) =
          omega arith in
        rw
          (
            offered (row * layout.columns + column) lt,
            hit_at_lem row column _ p inside refl,
            hits_of_row_lem row cols (column + 1) p (omega arith),
            row_of row column layout.columns inside,
            column_of row column layout.columns inside,
            next,
          )
          refl

    pub hits_of_rows_lem :
        (rows row : ℕ)
        → row + rows ≡ layout.rows
        → hits_of_rows scores layout shape seat_scores sets rows row
          ≡ ok (each_cell placed (rows * layout.columns) (row * layout.columns))
    unfolding hits_of_rows
    hits_of_rows_lem zero row p =
        let none_left : 0 * layout.columns ≡ 0 = omega arith in rw none_left refl
    hits_of_rows_lem (suc rows) row p =
        let next : row * layout.columns + layout.columns ≡ (row + 1) * layout.columns =
          grind arith in
        let start : row * layout.columns + 0 ≡ row * layout.columns = omega arith in
        let total : suc rows * layout.columns ≡ layout.columns + rows * layout.columns =
          grind arith in
        rw
          (
            hits_of_row_lem row layout.columns 0 (omega arith) (omega arith),
            hits_of_rows_lem rows (row + 1) (omega arith),
            start,
            total,
            each_cell-append placed layout.columns (rows * layout.columns) (row * layout.columns),
            next,
          )
          refl
