-- ===== src/Bitmap/Runs.antt =====
-- packages/core/src/bitmap.ts: `shiftRight` and `adjacentRunStarts`. A cell starts a run when the
-- cells after it, in its own row, all hold the bit.
use seatfirst.Prelude.{
  ℕ, zero, suc, ◌+◌, ◌-◌, ◌*◌, ◌%◌, ◌<◌, ◌≡◌, refl, ap, subst, Bool, true, false, ◌&&◌, ◌||◌, inl,
  inr, ◌⊎◌, [], ◌∷◌, ltb, leb, ◌==◌, Bool-cases, arith,
}
use seatfirst.Prelude.Grid.{column_of, position-lt}
use seatfirst.Prelude.Outcome.{throw, Yields, for_range, for_range_inv}
use seatfirst.Fault.{bad_dimensions, bad_count}
use seatfirst.Bitmap.{
  Bitmap, create_bitmap, shift_right, shift_step, narrow_step, clear_overflow, clear_row,
  adjacent_run_starts,
}
use seatfirst.Bitmap.Cells.{bit, HasSize, Denotes, create_bitmap-Denotes}
use seatfirst.Bitmap.Access.{get_bit_ok, set_bit-Denotes, update}
use seatfirst.Bitmap.Algebra.{bitmap_and_lem, bitmap_and-Denotes}

-- One set of cells may be given by two tests.
pub Denotes-cong :
    {bm : Bitmap} {n : ℕ} {f g : ℕ → Bool}
    → Denotes bm n f
    → ((i : ℕ) → i < n → f i ≡ g i)
    → Denotes bm n g
Denotes-cong {bm} {n} {f} {g} d h = record { has_size = d.has_size; reads = same }
  where
    same : (i : ℕ) → bit bm i ≡ (ltb i n && g i)
    same i = elim (Bool-cases (ltb i n)) [
      | inl inside ↦ ground (arith, d.reads i, h i (ground arith))
      | inr outside ↦ ground (arith, d.reads i)
    ]

abbrev shifted : (ℕ → Bool) → ℕ → ℕ → ℕ → Bool
shifted f amount done j = ltb j done && f (j + amount)

shifted_next :
    (f : ℕ → Bool) (amount i j : ℕ) (value : Bool)
    → f (i + amount) ≡ value
    → update (shifted f amount i) i value j ≡ shifted f amount (i + 1) j
shifted_next f amount i j value h = elim (Bool-cases (i == j)) [
  | inl e ↦ let same : i ≡ j = ground arith in ground (arith, ap (λ (k : ℕ). f (k + amount)) same)
  | inr e ↦ ground arith
]

shift_step_lem :
    {bm result : Bitmap} {n : ℕ} {f : ℕ → Bool} (amount i : ℕ)
    → Denotes bm n f
    → i < n - amount
    → Denotes result n (shifted f amount i)
    → Yields (shift_step bm amount n i result) (λ c. Denotes c n (shifted f amount (i + 1)))
unfolding shift_step
shift_step_lem {bm} {result} {n} {f} amount i d h r =
    rw (get_bit_ok (i + amount) (omega arith) d) (elim (Bool-cases (f (i + amount))) [
      | inl found ↦
          let (c, e, w) = set_bit-Denotes i true (omega arith) r in
          rw found (c, e, Denotes-cong w (λ j lt. shifted_next f amount i j true found))
      | inr lost ↦ rw lost (
        result,
        refl,
        Denotes-cong r (λ j lt. ground (arith, shifted_next f amount i j false lost)),
      )
    ])

-- On a canonical bitmap shiftRight returns the canonical bitmap whose cells are those that lie the
-- amount further on, and nothing past the end.
pub shift_right_lem :
    {bm : Bitmap} {n : ℕ} {f : ℕ → Bool} (amount : ℕ)
    → Denotes bm n f
    → Yields
        (shift_right bm amount n)
        (λ c. Denotes c n (λ j. ltb (j + amount) n && f (j + amount)))
unfolding shift_right
shift_right_lem {bm} {n} {f} amount d =
    let (c, e, w) =
      for_range_inv (λ i c. Denotes c n (shifted f amount i)) (shift_step bm amount n) (n - amount)
        0 (n - amount) (create_bitmap n) (omega arith) (λ k t lt p. shift_step_lem amount k d lt p)
        (Denotes-cong (create_bitmap-Denotes n) (λ j lt. ground arith)) in
    (c, e, Denotes-cong w (λ j lt. ground arith))

-- The `m` cells from `i` on are below `n` and hold the bit.
abbrev pub run_from : (ℕ → Bool) → ℕ → ℕ → ℕ → Bool
run_from f n zero i = true
run_from f n (suc m) i = run_from f n m i && (ltb (i + m) n && f (i + m))

pub run_from-cong :
    (n m j : ℕ) {f g : ℕ → Bool}
    → ((i : ℕ) → i < n → f i ≡ g i)
    → run_from f n m j ≡ run_from g n m j
run_from-cong n zero j h = refl
run_from-cong n (suc m) j h = elim (Bool-cases (ltb (j + m) n)) [
  | inl inside ↦ ground (arith, run_from-cong n m j h, h (j + m) (ground arith))
  | inr outside ↦ ground (arith, run_from-cong n m j h)
]

run_from-front :
    (f : ℕ → Bool) (n m i : ℕ)
    → run_from f n (suc m) i ≡ ((ltb i n && f i) && run_from f n m (i + 1))
run_from-front f n zero i = let here : i + 0 ≡ i = omega arith in ground (arith, ap f here)
run_from-front f n (suc m) i =
    let here : i + suc m ≡ i + 1 + m = omega arith in
    ground (arith, ap f here, run_from-front f n m i)

-- Intersecting runs with their own shift makes them one longer.
run_from-longer :
    (f : ℕ → Bool) (n m i : ℕ)
    → i < n
    → (run_from f n (suc m) i && (ltb (i + 1) n && run_from f n (suc m) (i + 1)))
      ≡ run_from f n (suc (suc m)) i
run_from-longer f n m i h =
    let here : i + 1 + m ≡ i + suc m = omega arith in
    ground (arith, ap f here, run_from-front f n (suc m) i)

narrow_step_lem :
    {runs : Bitmap} {n : ℕ} (f : ℕ → Bool) (k : ℕ)
    → 0 < k
    → Denotes runs n (run_from f n k)
    → Yields (narrow_step n k runs) (λ c. Denotes c n (run_from f n (suc k)))
unfolding narrow_step
narrow_step_lem f zero pos d = absurd (omega arith)
narrow_step_lem {runs} {n} f (suc m) pos d =
    let (s, e, shifted_runs) = shift_right_lem 1 d in
    let (c, e', both) = bitmap_and-Denotes d shifted_runs in
    (c, rw e e', Denotes-cong both (λ i lt. run_from-longer f n m i lt))

narrow_lem :
    {runs : Bitmap} {n : ℕ} {f : ℕ → Bool} (count : ℕ)
    → 0 < count
    → Denotes runs n f
    → Yields (for_range (count - 1) 1 (narrow_step n) runs) (λ c. Denotes c n (run_from f n count))
narrow_lem {runs} {n} {f} count pos d =
    let (c, e, r) =
      for_range_inv (λ k c. (0 < k) × Denotes c n (run_from f n k)) (narrow_step n) (count - 1) 1
        count runs (omega arith)
        (λ k t lt p.
          let (c, e, q) = narrow_step_lem f k p.0 p.1 in
          (c, e, (omega arith, subst (λ m. Denotes c n (run_from f n m)) (later k) q)))
        (omega arith, Denotes-cong d (λ j lt. ground (arith, ap f (here j)))) in
    (c, e, r.1)
  where
    later : (k : ℕ) → suc k ≡ k + 1
    later k = omega arith

    here : (j : ℕ) → j + 0 ≡ j
    here j = omega arith

-- The run from cell `j` stays in the row of `j`.
abbrev fits : ℕ → ℕ → ℕ → Bool
fits columns count j = leb (j % columns + count) columns

-- What is left when the overflowing starts before `pos` are cleared.
abbrev cleared : (ℕ → Bool) → ℕ → ℕ → ℕ → ℕ → Bool
cleared f columns count pos j = f j && (leb pos j || fits columns count j)

cleared_kept :
    (f : ℕ → Bool) (columns count pos j : ℕ)
    → fits columns count pos ≡ true
    → cleared f columns count pos j ≡ cleared f columns count (pos + 1) j
cleared_kept f columns count pos j h = elim (Bool-cases (pos == j)) [
  | inl e ↦ let same : pos ≡ j = ground arith in ground (arith, ap (fits columns count) same)
  | inr e ↦ ground arith
]

cleared_dropped :
    (f : ℕ → Bool) (columns count pos j : ℕ)
    → fits columns count pos ≡ false
    → update (cleared f columns count pos) pos false j ≡ cleared f columns count (pos + 1) j
cleared_dropped f columns count pos j h = elim (Bool-cases (pos == j)) [
  | inl e ↦ let same : pos ≡ j = ground arith in ground (arith, ap (fits columns count) same)
  | inr e ↦ ground arith
]

clear_overflow_lem :
    {runs : Bitmap} {n : ℕ} (f : ℕ → Bool) (rows columns count row column : ℕ)
    → row < rows
    → column < columns
    → rows * columns ≡ n
    → Denotes runs n (cleared f columns count (row * columns + column))
    → Yields
        (clear_overflow n columns count row column runs)
        (λ c. Denotes c n (cleared f columns count (row * columns + column + 1)))
unfolding clear_overflow
clear_overflow_lem {runs} {n} f rows columns count row column p q e d =
    let at_column = column_of row column columns q in
    let pos : ℕ = row * columns + column in
    let inside : pos < n = omega (arith, position-lt row column rows columns p q) in
    elim (Bool-cases (ltb columns (column + count))) [
      | inl over ↦
          let (c, e', w) = set_bit-Denotes pos false inside d in
          rw over (
            c,
            e',
            Denotes-cong w
                (λ j lt. cleared_dropped f columns count pos j (rw at_column (ground arith))),
          )
      | inr within ↦ rw within (
        runs,
        refl,
        Denotes-cong d (λ j lt. cleared_kept f columns count pos j (rw at_column (ground arith))),
      )
    ]

clear_row_lem :
    {runs : Bitmap} {n : ℕ} (f : ℕ → Bool) (rows columns count row : ℕ)
    → row < rows
    → rows * columns ≡ n
    → Denotes runs n (cleared f columns count (row * columns))
    → Yields
        (clear_row n columns count row runs)
        (λ c. Denotes c n (cleared f columns count ((row + 1) * columns)))
unfolding clear_row
clear_row_lem {runs} {n} f rows columns count row p e d =
    let P : ℕ → Bitmap → Type 0 =
      λ column c. Denotes c n (cleared f columns count (row * columns + column)) in
    let (c, e', w) =
      for_range_inv P (clear_overflow n columns count row) columns 0 columns runs (omega arith)
        (λ k t lt h.
          let (c, e', w) = clear_overflow_lem f rows columns count row k p lt e h in
          (c, e', subst (λ m. Denotes c n (cleared f columns count m)) (omega arith) w))
        (subst (λ m. Denotes runs n (cleared f columns count m)) (omega arith) d) in
    (c, e', subst (λ m. Denotes c n (cleared f columns count m)) (omega arith) w)

clear_rows_lem :
    {runs : Bitmap} (f : ℕ → Bool) (rows columns count : ℕ)
    → Denotes runs (rows * columns) f
    → Yields
        (for_range rows 0 (clear_row (rows * columns) columns count) runs)
        (λ c. Denotes c (rows * columns) (λ j. f j && fits columns count j))
clear_rows_lem {runs} f rows columns count d =
    let n : ℕ = rows * columns in
    let (c, e, w) =
      for_range_inv (λ row c. Denotes c n (cleared f columns count (row * columns)))
        (clear_row n columns count) rows 0 rows runs (omega arith)
        (λ k t lt h. clear_row_lem f rows columns count k lt refl h)
        (Denotes-cong d (λ j lt. ground arith)) in
    (c, e, Denotes-cong w (λ j lt. ground arith))

-- On a grid of positive dimensions, for a positive party size and two bitmaps of the grid's size,
-- adjacent_run_starts returns the canonical bitmap of exactly those cells from which the party's
-- number of consecutive cells are set in both bitmaps and stay within the row.
pub adjacent_run_starts_lem :
    {a b : Bitmap} (rows columns count : ℕ)
    → 0 < rows
    → 0 < columns
    → 0 < count
    → HasSize a (rows * columns)
    → HasSize b (rows * columns)
    → Yields (adjacent_run_starts a b rows columns count) (λ c. Denotes c (rows * columns) (λ j.
      run_from (λ i. bit a i && bit b i) (rows * columns) count j
      && leb (j % columns + count) columns))
unfolding adjacent_run_starts
adjacent_run_starts_lem {a} {b} rows columns count p q r sa sb =
    let (c, e, meet) = bitmap_and_lem a (b ∷ []) (rows * columns) (sa, (sb, tt)) in
    let both : Denotes c (rows * columns) (λ i. bit a i && bit b i) =
      Denotes-cong meet (λ i lt. ground arith) in
    let (c', e', runs) = narrow_lem count r both in
    let (c'', e'', w) = clear_rows_lem _ rows columns count runs in
    let sized : (rows == 0 || columns == 0) ≡ false = ground arith in
    let counted : (count == 0) ≡ false = ground arith in (c'', rw (sized, counted, e, e') e'', w)

-- Degenerate dimensions and party sizes are refused before the bitmaps are looked at.
pub adjacent_run_starts_refused :
    (a b : Bitmap) (rows columns count : ℕ)
    → ((rows ≡ 0) ⊎ (columns ≡ 0)
        → adjacent_run_starts a b rows columns count ≡ throw bad_dimensions)
      × (0 < rows
          → 0 < columns
          → count ≡ 0
          → adjacent_run_starts a b rows columns count ≡ throw bad_count)
unfolding adjacent_run_starts
adjacent_run_starts_refused a b rows columns count = (λ h. ground arith, λ p q e. ground arith)
