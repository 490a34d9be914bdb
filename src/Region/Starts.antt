-- ===== src/Region/Starts.antt =====
-- packages/core/src/region.ts: `midpointMask` and `regionRunStarts`, and what they compute.
use seatfirst.Prelude.{
  ℕ, ◌+◌, ◌-◌, ◌*◌, ◌/◌, ◌%◌, ◌<◌, ◌≤◌, ◌≡◌, refl, ap, subst, ◌∙◌, Bool, true, false, ◌&&◌, ◌||◌,
  inl, inr, List, [], ◌∷◌, length, ltb, leb, ◌==◌, if◌then◌else◌, Bool-cases, arith,
}
use seatfirst.Prelude.Grid.{column_of, position-lt}
use seatfirst.Prelude.Outcome.{ok, throw, Yields, ◌>>=◌, for_range, for_range_inv}
use seatfirst.Fault.{bad_count, region_length}
use seatfirst.Bitmap.{
  Bitmap, Run, create_bitmap, get_bit, set_bit, bitmap_and, adjacent_run_starts,
  required_byte_length,
}
use seatfirst.Bitmap.Cells.{bit, HasSize, Denotes, create_bitmap-Denotes}
use seatfirst.Bitmap.Access.{get_bit_ok}
use seatfirst.Bitmap.Algebra.{bitmap_and_lem, bitmap_and-Denotes}
use seatfirst.Bitmap.Runs.{Denotes-cong, run_from, run_from-cong, adjacent_run_starts_lem}
use seatfirst.Layout.{Geometry}
use seatfirst.Bitmap.Marks.{upto, mark, mark_lem}
use seatfirst.Region.{cell_count}

-- centerOffsets
abbrev pub center_offsets : ℕ → List ℕ
center_offsets count =
    if count % 2 == 0 then (count / 2 - 1) ∷ (count / 2) ∷ [] else (count / 2) ∷ []

-- centerOffsets.some((offset) => getBit(...))
some_center : Bitmap → ℕ → ℕ → List ℕ → Run Bool
some_center mask n start [] = ok false
some_center mask n start (offset ∷ offsets) = do
  found ← get_bit mask (start + offset) n
  let rest = some_center mask n start offsets
  if found then ok true else rest

mark_start : Bitmap → ℕ → ℕ → ℕ → ℕ → ℕ → Bitmap → Run Bitmap
unfolding some_center
mark_start mask n columns count row column result = do
  qualifies ← some_center mask n (row * columns + column) (center_offsets count)
  if qualifies then set_bit result (row * columns + column) n true else ok result

mark_starts : Bitmap → ℕ → ℕ → ℕ → ℕ → Bitmap → Run Bitmap
unfolding mark_start
mark_starts mask n columns count row result =
    for_range (columns + 1 - count) 0 (mark_start mask n columns count row) result

pub midpoint_mask : Bitmap → ℕ → ℕ → ℕ → Run Bitmap
unfolding mark_starts
midpoint_mask mask count rows columns =
    let n = rows * columns in
    if count == 0
    then throw bad_count
    else if length mask == required_byte_length n
    then for_range rows 0 (mark_starts mask n columns count) (create_bitmap n)
    else throw region_length

pub region_run_starts : Bitmap → Bitmap → Geometry → Bitmap → ℕ → Bool → Run Bitmap
region_run_starts availability pool layout region count strict = do
  let n = cell_count layout
  base ←
      bitmap_and (if strict then availability ∷ pool ∷ region ∷ [] else availability ∷ pool ∷ []) n
  starts ← adjacent_run_starts base pool layout.rows layout.columns count
  if strict
      then ok starts
      else (midpoint_mask region count layout.rows layout.columns >>= λ middles.
          bitmap_and (starts ∷ middles ∷ []) n)

-- One of the centre seats of the run from `start` is in the set.
abbrev pub center_in : (ℕ → Bool) → ℕ → List ℕ → Bool
center_in f start [] = false
center_in f start (offset ∷ offsets) = f (start + offset) || center_in f start offsets

-- The run from `j` stays in its row, and the set holds one of its centre seats.
abbrev pub centered : (ℕ → Bool) → ℕ → ℕ → ℕ → Bool
centered f columns count j =
    leb (j % columns + count) columns && center_in f j (center_offsets count)

abbrev AllBelow : ℕ → List ℕ → Type 0
AllBelow n [] = Unit
AllBelow n (x ∷ xs) = (x < n) × AllBelow n xs

center_offsets-lt : (count : ℕ) → 0 < count → AllBelow count (center_offsets count)
center_offsets-lt count h = elim (Bool-cases (count % 2 == 0)) [
  | inl even ↦ let e : count % 2 ≡ 0 = ground arith in rw even (omega arith, (omega arith, tt))
  | inr odd ↦ rw odd (omega arith, tt)
]

some_center_lem :
    {mask : Bitmap} {n : ℕ} {f : ℕ → Bool} (start count : ℕ) (offsets : List ℕ)
    → Denotes mask n f
    → AllBelow count offsets
    → start + count ≤ n
    → some_center mask n start offsets ≡ ok (center_in f start offsets)
unfolding some_center
some_center_lem start count [] d h room = refl
some_center_lem start count (offset ∷ offsets) d h room =
    rw (get_bit_ok (start + offset) (omega arith) d)
      (ground (arith, some_center_lem start count offsets d h.1 room))

room_in_row :
    (row column rows columns count : ℕ)
    → row < rows
    → column + count ≤ columns
    → row * columns + column + count ≤ rows * columns
room_in_row row column rows columns count p q = grind arith

module _ {mask : Bitmap} {f : ℕ → Bool} (rows columns count : ℕ) (pos : 0 < count)
    (d : Denotes mask (rows * columns) f) where
  -- The body of the inner loop marks the cell if it is centred.
  mark_start_lem :
      (row column : ℕ) (result : Bitmap)
      → row < rows
      → column + count ≤ columns
      → mark_start mask (rows * columns) columns count row column result
        ≡ mark (centered f columns count) (rows * columns) (row * columns + column) result
  unfolding mark_start
  mark_start_lem row column result p q =
      let at_column = column_of row column columns (omega arith) in
      let fits : leb ((row * columns + column) % columns + count) columns ≡ true =
        rw at_column (ground arith) in
      rw
        (
          some_center_lem (row * columns + column) count (center_offsets count) d
              (center_offsets-lt count pos) (room_in_row row column rows columns count p q),
          fits,
        )
        refl

  -- Past the last start of a row nothing is centred until the next row.
  rest_of_row :
      (row j : ℕ)
      → upto (centered f columns count) (row * columns + (columns + 1 - count)) j
        ≡ upto (centered f columns count) ((row + 1) * columns) j
  rest_of_row row j = elim (Bool-cases (ltb j (row * columns + (columns + 1 - count)))) [
    | inl before ↦ ground arith
    | inr after ↦ elim (Bool-cases (ltb j ((row + 1) * columns))) [
      | inl inside ↦
          let column : ℕ = j - row * columns in
          let here : j ≡ row * columns + column = ground arith in
          let at_column : j % columns ≡ column =
            ap (λ (p : ℕ). p % columns) here ∙ column_of row column columns (ground arith) in
          let over : leb (j % columns + count) columns ≡ false = rw at_column (ground arith) in
          ground arith
      | inr outside ↦ ground arith
    ]
  ]

  mark_starts_lem :
      (row : ℕ) (result : Bitmap)
      → row < rows
      → Denotes result (rows * columns) (upto (centered f columns count) (row * columns))
      → Yields
          (mark_starts mask (rows * columns) columns count row result)
          (λ c. Denotes c (rows * columns) (upto (centered f columns count) ((row + 1) * columns)))
  unfolding mark_starts
  mark_starts_lem row result p h =
      let n : ℕ = rows * columns in
      let g : ℕ → Bool = centered f columns count in
      let (c, e, w) =
        for_range_inv (λ column c. Denotes c n (upto g (row * columns + column)))
          (mark_start mask n columns count row) (columns + 1 - count) 0 (columns + 1 - count) result
          (omega arith)
          (λ k t lt r.
            let (c, e, w) =
              mark_lem g n (row * columns + k) t (position-lt row k rows columns p (omega arith))
                r in
            (
              c,
              mark_start_lem row k t p (omega arith) ∙ e,
              subst (λ m. Denotes c n (upto g m)) (omega arith) w,
            ))
          (subst (λ m. Denotes result n (upto g m)) (omega arith) h) in
      (c, e, Denotes-cong w (λ j lt. rest_of_row row j))

  -- For a positive party size and a canonical mask, midpointMask returns the canonical bitmap of
  -- the run starts whose run stays in its row and has one of its centre seats in the mask, both
  -- centres of an even party counting.
  pub midpoint_mask_lem :
      Yields
        (midpoint_mask mask count rows columns)
        (λ c. Denotes c (rows * columns) (centered f columns count))
  unfolding midpoint_mask
  midpoint_mask_lem =
      let n : ℕ = rows * columns in
      let g : ℕ → Bool = centered f columns count in
      let (c, e, w) =
        for_range_inv (λ row c. Denotes c n (upto g (row * columns)))
          (mark_starts mask n columns count) rows 0 rows (create_bitmap n) (omega arith)
          (λ k t lt r. mark_starts_lem k t lt r)
          (Denotes-cong (create_bitmap-Denotes n) (λ j lt. ground arith)) in
      let counted : (count == 0) ≡ false = ground arith in
      let sized : (length mask == required_byte_length n) ≡ true =
        ground (arith, d.has_size.size) in
      (c, rw (counted, sized) e, Denotes-cong w (λ j lt. ground arith))

-- The run starts of `count` seats that are free and in the pool: with a strict region all of them in
-- it, else one centre seat of the run.
abbrev pub admits : Bitmap → Bitmap → (ℕ → Bool) → Geometry → ℕ → Bool → ℕ → Bool
admits availability pool region layout count strict j =
    let free : ℕ → Bool = λ i. bit availability i && bit pool i in
    let n : ℕ = cell_count layout in
    let whole_row = leb (j % layout.columns + count) layout.columns in
    if strict
    then run_from (λ i. free i && region i) n count j && whole_row
    else (run_from free n count j && whole_row) && center_in region j (center_offsets count)

-- On a grid of positive dimensions, for a positive party size, bitmaps of the grid's size and a
-- canonical region mask, region_run_starts returns the canonical bitmap of the run starts of free
-- pool seats: with a strict region all seats of the run lie in it, otherwise at least one centre
-- seat does.
pub region_run_starts_lem :
    {availability pool mask : Bitmap} (layout : Geometry) (region : ℕ → Bool) (count : ℕ)
    (strict : Bool)
    → 0 < layout.rows
    → 0 < layout.columns
    → 0 < count
    → HasSize availability (cell_count layout)
    → HasSize pool (cell_count layout)
    → Denotes mask (cell_count layout) region
    → Yields
        (region_run_starts availability pool layout mask count strict)
        (λ c. Denotes c (cell_count layout) (admits availability pool region layout count strict))
unfolding region_run_starts
region_run_starts_lem {availability} {pool} {mask} layout region count true p q r sa sp d =
    let n : ℕ = cell_count layout in
    let (base, e, b) =
      bitmap_and_lem availability (pool ∷ mask ∷ []) n (sa, (sp, (d.has_size, tt))) in
    let (s, e', w) =
      adjacent_run_starts_lem {a = base} {b = pool} layout.rows layout.columns count p q r
        b.has_size sp in
    let same = λ (j : ℕ).
      run_from-cong n count j {f = λ i. bit base i && bit pool i}
        {g = λ i. (bit availability i && bit pool i) && region i}
        (λ i lt. ground (arith, b.reads i, d.reads i)) in
    (s, rw (e, e') refl, Denotes-cong w (λ j lt. ground (arith, same j)))
region_run_starts_lem {availability} {pool} {mask} layout region count false p q r sa sp d =
    let n : ℕ = cell_count layout in
    let (base, e, b) = bitmap_and_lem availability (pool ∷ []) n (sa, (sp, tt)) in
    let (s, e', w) =
      adjacent_run_starts_lem {a = base} {b = pool} layout.rows layout.columns count p q r
        b.has_size sp in
    let (middles, e'', m) = midpoint_mask_lem layout.rows layout.columns count r d in
    let (c, met, v) = bitmap_and-Denotes w m in
    let same = λ (j : ℕ).
      run_from-cong n count j {f = λ i. bit base i && bit pool i}
        {g = λ i. bit availability i && bit pool i} (λ i lt. ground (arith, b.reads i)) in
    (c, rw (e, e', e'', met) refl, Denotes-cong v (λ j lt. ground (arith, same j)))
