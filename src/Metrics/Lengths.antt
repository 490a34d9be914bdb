-- ===== src/Metrics/Lengths.antt =====
-- packages/core/src/metrics.ts: each metric has an entry for every cell, and none of them throws.
use seatfirst.Prelude.{
  ℕ, zero, suc, ◌+◌, ◌*◌, ◌<◌, ◌≤◌, ◌≡◌, refl, ◌∙◌, Bool, List, [], ◌∷◌, length, set, replicate,
  All, ◌++◌, Bool-cases, inl, inr, length-set, length-replicate, arith,
}
use seatfirst.Prelude.Int.{ℤ, negsuc}
use seatfirst.Prelude.Outcome.{ok, Yields, for_range_inv}
use seatfirst.Layout.{Geometry}
use seatfirst.Region.{cell_count}
use seatfirst.Region.Syntax.{Number}
use seatfirst.Metrics.{
  row_seat_indices, write_each, some_seat, occupied_rows, flush_segment, to_edge, walk_columns,
  walk_row, aisle_distance, normalized_depth, depth_rows, depth,
}
use seatfirst.Metrics.Rows.{
  IsGrid, seat_at, seats_from, checked_cell_count_lem, is_seat_position_lem, seats_in_lem,
}

length-write_each :
    {A : Type 0} (value : ℕ → A) (k : ℕ) (is : List ℕ) (r : List A)
    → length (write_each value k is r) ≡ length r
unfolding write_each
length-write_each value k [] r = refl
length-write_each value k (i ∷ is) r =
    length-write_each value (k + 1) is (set r i (value k)) ∙ length-set r i (value k)

module _ {layout : Geometry} {shown : ℕ → Bool} (grid : IsGrid layout shown) where
  row_seat_indices_lem :
      (row : ℕ)
      → row < layout.rows
      → row_seat_indices layout row
        ≡ ok (seats_from (seat_at layout shown) layout.columns (row * layout.columns))
  unfolding row_seat_indices
  row_seat_indices_lem row lt =
      seats_in_lem grid layout.columns (row * layout.columns) (grind arith)

  occupied_rows_lem :
      (n row : ℕ)
      → row + n ≤ layout.rows
      → Yields (occupied_rows layout n row) (All (λ x. x < layout.rows))
  unfolding occupied_rows
  occupied_rows_lem zero row h = ([], refl, tt)
  occupied_rows_lem (suc n) row h =
      let seats = seats_from (seat_at layout shown) layout.columns (row * layout.columns) in
      let (rest, e, a) = occupied_rows_lem n (row + 1) (omega arith) in
      rw (row_seat_indices_lem row (omega arith), e)
        (elim (Bool-cases (some_seat seats)) [
          | inl some ↦ rw some (row ∷ rest, refl, (omega arith, a))
          | inr no_seat ↦ rw no_seat (rest, refl, a)
        ])

  walk_columns_lem :
      (n i : ℕ) (segment : List ℕ) (r : List ℤ)
      → i + n ≤ cell_count layout
      → length r ≡ cell_count layout
      → Yields (walk_columns layout n i segment r) (λ s. length s ≡ cell_count layout)
  unfolding walk_columns flush_segment
  walk_columns_lem zero i segment r h size = (
    flush_segment segment r,
    refl,
    length-write_each (to_edge (length segment)) 0 segment r ∙ size,
  )
  walk_columns_lem (suc n) i segment r h size =
      rw (is_seat_position_lem grid i (omega arith)) (elim (Bool-cases (seat_at layout shown i)) [
        | inl seat ↦ rw seat (walk_columns_lem n (i + 1) (segment ++ (i ∷ [])) r (omega arith) size)
        | inr gap ↦ rw gap (
            walk_columns_lem n (i + 1) [] (flush_segment segment r) (omega arith)
              (length-write_each (to_edge (length segment)) 0 segment r ∙ size))
      ])

  pub aisle_distance_lem : Yields (aisle_distance layout) (λ s. length s ≡ cell_count layout)
  unfolding aisle_distance walk_row
  aisle_distance_lem = rw (checked_cell_count_lem grid) (
      for_range_inv (λ row s. length s ≡ cell_count layout) (walk_row layout) layout.rows 0
        layout.rows (replicate (cell_count layout) (negsuc 0)) (omega arith)
        (λ row s lt size.
          walk_columns_lem layout.columns (row * layout.columns) [] s (grind arith) size)
        (length-replicate (cell_count layout) (negsuc 0)))

  module _ (N : Number) (ratio : ℤ → ℕ → N.Real) where
    depth_rows_lem :
        (rows k : ℕ) (occupied : List ℕ) (r : List N.Real)
        → All (λ x. x < layout.rows) occupied
        → length r ≡ cell_count layout
        → Yields (depth_rows N ratio layout rows k occupied r) (λ s. length s ≡ cell_count layout)
    unfolding depth_rows
    depth_rows_lem rows k [] r a size = (r, refl, size)
    depth_rows_lem rows k (row ∷ more) r a size =
        let seats = seats_from (seat_at layout shown) layout.columns (row * layout.columns) in
        let v : ℕ → N.Real = λ index. normalized_depth N ratio rows k in
        rw (row_seat_indices_lem row a.0) (
          depth_rows_lem rows (k + 1) more (write_each v 0 seats r) a.1
            (length-write_each v 0 seats r ∙ size))

    pub depth_lem : Yields (depth N ratio layout) (λ s. length s ≡ cell_count layout)
    unfolding depth
    depth_lem =
        let (occupied, e, a) = occupied_rows_lem layout.rows 0 (omega arith) in
        rw (checked_cell_count_lem grid, e)
          (depth_rows_lem (length occupied) 0 occupied (replicate (cell_count layout) N.minus_one) a
            (length-replicate (cell_count layout) N.minus_one))
