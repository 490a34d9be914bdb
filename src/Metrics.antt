-- ===== src/Metrics.antt =====
-- packages/core/src/metrics.ts: the four geometry metrics of a layout. A quotient of integers in
-- floating point is a parameter, `ratio`; `(index - center) / center` with `center = (n - 1) / 2` is
-- the quotient of `2 * index - (n - 1)` and `n - 1`, since doubling is exact.
pub mod Rows
pub mod Lengths
pub mod Regions
use seatfirst.Prelude.{
  ℕ, zero, suc, ◌+◌, ◌-◌, ◌*◌, min, max, Bool, true, false, not, ◌&&◌, ◌||◌, List, [], ◌∷◌, ◌++◌,
  length, get_or, set, replicate, leb, ◌==◌, if◌then◌else◌,
}
use seatfirst.Prelude.Int.{ℤ, pos, negsuc}
use seatfirst.Prelude.Outcome.{Outcome, ok, throw, ◌>>=◌, ◌>>◌, for_range}
use seatfirst.Fault.{bad_geometry}
use seatfirst.Bitmap.{Run, required_byte_length, get_bit}
use seatfirst.Layout.{Geometry}
use seatfirst.Region.{SeatMetrics, cell_count}
use seatfirst.Region.Syntax.{Number}

-- cellCount, which checks the geometry.
pub checked_cell_count : Geometry → Run ℕ
unfolding required_byte_length
checked_cell_count layout =
    let n = cell_count layout in
    if layout.rows == 0
      || layout.columns == 0
      || not (length layout.seat_kinds == n)
      || not (length layout.display_mask == required_byte_length n)
    then throw bad_geometry
    else ok n

pub is_seat_position : Geometry → ℕ → Run Bool
is_seat_position layout i = do
  displayed ← get_bit layout.display_mask i (cell_count layout)
  ok (displayed && not (get_or layout.seat_kinds i 5 == 0))

-- The seats among the `n` cells from `i` on, in order.
pub seats_in : Geometry → ℕ → ℕ → Run (List ℕ)
unfolding is_seat_position
seats_in layout zero i = ok []
seats_in layout (suc n) i = do
  seat ← is_seat_position layout i
  rest ← seats_in layout n (i + 1)
  ok (if seat then i ∷ rest else rest)

pub row_seat_indices : Geometry → ℕ → Run (List ℕ)
unfolding seats_in
row_seat_indices layout row = seats_in layout layout.columns (row * layout.columns)

-- indices.forEach((flatIndex, index) => { result[flatIndex] = value(index); })
pub write_each : {A : Type 0} → (ℕ → A) → ℕ → List ℕ → List A → List A
write_each value k [] result = result
write_each value k (i ∷ is) result = write_each value (k + 1) is (set result i (value k))

-- Each row's seats get the value of their index in the row, which may depend on their number.
pub fill_row : {A : Type 0} → Geometry → (ℕ → ℕ → A) → ℕ → List A → Run (List A)
unfolding row_seat_indices write_each
fill_row layout value row result = do
  seats ← row_seat_indices layout row
  ok (write_each (value (length seats)) 0 seats result)

pub fill_rows : {A : Type 0} → Geometry → A → (ℕ → ℕ → A) → Run (List A)
unfolding fill_row
fill_rows layout gap value = do
  n ← checked_cell_count layout
  for_range layout.rows 0 (fill_row layout value) (replicate n gap)

pub seat_index_in_row : Geometry → Run (List ℤ)
unfolding fill_rows
seat_index_in_row layout = fill_rows layout (negsuc 0) (λ seats index. pos index)

some_seat : List ℕ → Bool
some_seat [] = false
some_seat (i ∷ is) = true

-- The rows that have a seat, from `row` on.
occupied_rows : Geometry → ℕ → ℕ → Run (List ℕ)
unfolding row_seat_indices some_seat
occupied_rows layout zero row = ok []
occupied_rows layout (suc n) row = do
  seats ← row_seat_indices layout row
  rest ← occupied_rows layout n (row + 1)
  ok (if some_seat seats then row ∷ rest else rest)

-- The cells of a segment get the lesser number of seats to either end of it.
abbrev pub to_edge : ℕ → ℕ → ℤ
to_edge seats index = pos (min index (seats - 1 - index))

flush_segment : List ℕ → List ℤ → List ℤ
unfolding write_each
flush_segment segment result = write_each (to_edge (length segment)) 0 segment result

-- The columns of a row, with the segment of seats that is open.
walk_columns : Geometry → ℕ → ℕ → List ℕ → List ℤ → Run (List ℤ)
unfolding flush_segment is_seat_position
walk_columns layout zero i segment result = ok (flush_segment segment result)
walk_columns layout (suc n) i segment result = is_seat_position layout i >>= λ seat.
    walk_columns layout n (i + 1) (if seat then segment ++ (i ∷ []) else [])
      (if seat then result else flush_segment segment result)

walk_row : Geometry → ℕ → List ℤ → Run (List ℤ)
unfolding walk_columns
walk_row layout row result = walk_columns layout layout.columns (row * layout.columns) [] result

pub aisle_distance : Geometry → Run (List ℤ)
unfolding walk_row
aisle_distance layout = do
  n ← checked_cell_count layout
  for_range layout.rows 0 (walk_row layout) (replicate n (negsuc 0))

-- index - center, doubled
abbrev pub twice_offset : ℕ → ℕ → ℤ
twice_offset seats index =
    if leb (seats - 1) (2 * index)
    then pos (2 * index - (seats - 1))
    else negsuc (seats - 1 - 2 * index - 1)

module _ (N : Number) (ratio : ℤ → ℕ → N.Real) where
  open N use {Real, minus_one, not_a_number}

  abbrev pub normalized_depth : ℕ → ℕ → Real
  normalized_depth rows index =
      if rows == 1 then ratio (pos 1) 2 else ratio (pos index) (max 1 (rows - 1))

  depth_rows : Geometry → ℕ → ℕ → List ℕ → List Real → Run (List Real)
  unfolding row_seat_indices write_each
  depth_rows layout rows k [] result = ok result
  depth_rows layout rows k (row ∷ more) result = row_seat_indices layout row >>= λ seats.
      depth_rows layout rows (k + 1) more
        (write_each (λ index. normalized_depth rows k) 0 seats result)

  pub depth : Geometry → Run (List Real)
  unfolding depth_rows occupied_rows
  depth layout = do
    n ← checked_cell_count layout
    occupied ← occupied_rows layout layout.rows 0
    depth_rows layout (length occupied) 0 occupied (replicate n minus_one)

  abbrev pub normalized_lateral : ℕ → ℕ → Real
  normalized_lateral seats index =
      if seats == 1 then ratio (pos 0) 1 else ratio (twice_offset seats index) (seats - 1)

  pub lateral : Geometry → Run (List Real)
  unfolding fill_rows
  lateral layout = fill_rows layout not_a_number normalized_lateral

  pub compute_seat_metrics : Geometry → Run (SeatMetrics Real)
  unfolding depth lateral seat_index_in_row aisle_distance
  compute_seat_metrics layout = do
    seats ← seat_index_in_row layout
    depths ← depth layout
    laterals ← lateral layout
    aisles ← aisle_distance layout
    ok (record {
      seat_index_in_row = seats;
      depths = depths;
      laterals = laterals;
      aisle_distance = aisles;
    })
