-- ===== src/Prelude/Grid.antt =====
-- Row-major positions in a grid of `columns` columns.
use Prim.Native.Nat.{ℕ, ◌+◌, ◌*◌, ◌/◌, ◌%◌, ◌<◌, ◌≤◌}
use mathlib.Core.Path.{◌≡◌, sym, ap, ◌∙◌}
use native.Mathlib.Nat.{mul-add-div_right, div-eq_of_lt, mod-lt, mul-le-mul_right}
use native.Mathlib.Omega.{arith, div_any}
use mathlib.Core.Logic.{inl, inr}
use seatfirst.Prelude.Tests.{ltb, ltb→lt, ltb→le, Bool-cases}

pub column_of :
    (row column columns : ℕ) → column < columns → (row * columns + column) % columns ≡ column
column_of row column columns h = grind arith

pub row_of : (row column columns : ℕ) → column < columns → (row * columns + column) / columns ≡ row
row_of row column columns h =
    mul-add-div_right (omega arith) row column ∙ omega (arith, div-eq_of_lt h)

pub position-lt :
    (row column rows columns : ℕ)
    → row < rows
    → column < columns
    → row * columns + column < rows * columns
position-lt row column rows columns p q = grind arith

-- A position determines its row and its column.
pub position_unique :
    (row column row' column' columns : ℕ)
    → column < columns
    → column' < columns
    → row * columns + column ≡ row' * columns + column'
    → (row ≡ row') × (column ≡ column')
position_unique row column row' column' columns p q e = (
  sym (row_of row column columns p) ∙ ap (λ (n : ℕ). n / columns) e ∙ row_of row' column' columns q,
  sym (column_of row column columns p)
      ∙ ap (λ (n : ℕ). n % columns) e
      ∙ column_of row' column' columns q,
)

-- A cell from its row and its column.
pub position_of :
    (j columns : ℕ)
    → 0 < columns
    → (j ≡ j / columns * columns + j % columns) × (j % columns < columns)
position_of j columns h = (grind (arith, div_any j columns), mod-lt j h)

pub after_row : (j row columns : ℕ) → 0 < columns → row < j / columns → (row + 1) * columns ≤ j
after_row j row columns h lt =
    let below : row + 1 ≤ j / columns = omega arith in
    omega (arith, mul-le-mul_right columns below, (position_of j columns h).0)

pub before_row : (j row columns : ℕ) → 0 < columns → j / columns < row → j < row * columns
before_row j row columns h lt =
    let below : j / columns + 1 ≤ row = omega arith in
    let (at, inside) = position_of j columns h in
    grind (arith, mul-le-mul_right columns below, at, inside)

pub row-lt : (j rows columns : ℕ) → 0 < columns → j < rows * columns → j / columns < rows
row-lt j rows columns h lt = elim (Bool-cases (ltb (j / columns) rows)) [
  | inl below ↦ ltb→lt (j / columns) rows below
  | inr above ↦
      let least : rows ≤ j / columns = ltb→le (j / columns) rows above in
      absurd (omega (arith, mul-le-mul_right columns least, (position_of j columns h).0, lt))
]
