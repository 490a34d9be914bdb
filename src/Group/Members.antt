-- ===== src/Group/Members.antt =====
-- packages/core/src/group-assembly.ts and scoring.ts: the scores of a hit's seats.
use seatfirst.Prelude.{
  ℕ, zero, suc, ◌+◌, ◌*◌, ◌<◌, ◌≤◌, ◌≡◌, refl, Bool, true, List, [], ◌∷◌, ◌++◌, length, get_or,
  arith,
}
use seatfirst.Prelude.Grid.{row_of, column_of}
use seatfirst.Prelude.Outcome.{ok}
use seatfirst.Bitmap.{Bitmap}
use seatfirst.Layout.{Geometry}
use seatfirst.Region.Starts.{admits}
use seatfirst.Group.{
  GroupShape, run, block, split, Scores, row_span, member_cols, all_finite, run_score,
  members_of_row, members,
}
use seatfirst.Group.Sets.{IsPlaceable, offers}

module _ (layout : Geometry) (pool : Bitmap) (placement : ℕ → Bool) (strict : Bool) where
  admits-room :
      (free : Bitmap) (count row column : ℕ)
      → column < layout.columns
      → admits free pool placement layout count strict (row * layout.columns + column) ≡ true
      → column + count ≤ layout.columns
  admits-room free count row column lt h =
      let at_column = column_of row column layout.columns lt in ground (arith, at_column)

  -- A placement that is offered lies in the grid.
  pub offers-room :
      (shape : GroupShape) (free : Bitmap) (row column : ℕ)
      → IsPlaceable shape
      → row < layout.rows
      → column < layout.columns
      → offers layout pool placement strict shape free (row * layout.columns + column) ≡ true
      → (row + row_span shape ≤ layout.rows) × (column + member_cols shape ≤ layout.columns)
  offers-room (run count) free row column s p lt h =
      (omega arith, admits-room free count row column lt h)
  offers-room (block (suc rows) cols) free row column s p lt h =
      let at_row = row_of row column layout.columns lt in
      let here : admits free pool placement layout cols strict (row * layout.columns + column)
          ≡ true =
        ground arith in
      (ground (arith, at_row), admits-room free cols row column lt here)
  offers-room (block zero cols) free row column s p lt h = absurd (omega (arith, s.0))
  offers-room (split count groups same_row) free row column s p lt h = absurd s

module _ (scores : Scores) where
  finite-append :
      (xs ys : List ℕ)
      → all_finite scores xs ≡ true
      → all_finite scores ys ≡ true
      → all_finite scores (xs ++ ys) ≡ true
  unfolding all_finite
  finite-append [] ys p q = q
  finite-append (x ∷ xs) ys p q = ground (arith, finite-append xs ys (ground arith) q)

  finite-get_or :
      (xs : List ℕ) (i : ℕ)
      → all_finite scores xs ≡ true
      → i < length xs
      → scores.is_finite (get_or xs i scores.nan) ≡ true
  unfolding all_finite
  finite-get_or [] i h lt = absurd (omega arith)
  finite-get_or (x ∷ xs) zero h lt = ground arith
  finite-get_or (x ∷ xs) (suc i) h lt = finite-get_or xs i (ground arith) (omega arith)

  module _ (seat_scores : List ℕ) (finite : all_finite scores seat_scores ≡ true) where
    members_of_row-finite :
        (cols cell : ℕ)
        → cell + cols ≤ length seat_scores
        → all_finite scores (members_of_row scores seat_scores cols cell) ≡ true
    unfolding members_of_row all_finite
    members_of_row-finite zero cell h = refl
    members_of_row-finite (suc cols) cell h = ground (
      arith,
      finite-get_or seat_scores cell finite (omega arith),
      members_of_row-finite cols (cell + 1) (omega arith),
    )

    members-finite :
        (rows columns span cols row column cell : ℕ)
        → length seat_scores ≡ rows * columns
        → cell ≡ row * columns + column
        → row + span ≤ rows
        → column + cols ≤ columns
        → all_finite scores (members scores seat_scores span cols columns cell) ≡ true
    unfolding members all_finite
    members-finite rows columns zero cols row column cell size e p q = refl
    members-finite rows columns (suc span) cols row column cell size e p q =
        let next : cell + columns ≡ (row + 1) * columns + column = grind arith in
        let inside : cell + cols ≤ length seat_scores = grind arith in
        finite-append (members_of_row scores seat_scores cols cell)
          (members scores seat_scores span cols columns (cell + columns))
          (members_of_row-finite cols cell inside)
          (members-finite rows columns span cols (row + 1) column (cell + columns) size next
            (omega arith) q)

    -- The score of a placement inside the grid is the mean of its seats' scores.
    pub run_score-members :
        (rows columns span cols row column : ℕ)
        → length seat_scores ≡ rows * columns
        → 0 < span
        → 0 < cols
        → row + span ≤ rows
        → column + cols ≤ columns
        → run_score scores (members scores seat_scores span cols columns (row * columns + column))
          ≡ ok (scores.mean (members scores seat_scores span cols columns (row * columns + column)))
    unfolding run_score members members_of_row
    run_score-members rows columns (suc span) (suc cols) row column size s c p q =
        rw
          (members-finite rows columns (suc span) (suc cols) row column (row * columns + column)
            size refl p q)
          refl
    run_score-members rows columns zero cols row column size s c p q = absurd (omega arith)
    run_score-members rows columns (suc span) zero row column size s c p q = absurd (omega arith)
