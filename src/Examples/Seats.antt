-- ===== src/Examples/Seats.antt =====
-- packages/core/src/bitmap.ts at two rows of four seats.
use seatfirst.Prelude.{
  ℕ, ◌≡◌, sym, ◌∙◌, subst, ◌<◌, ◌+◌, ◌%◌, refl, ◌&&◌, [], ◌∷◌, length, get_or, ltb, leb,
  if◌then◌else◌, arith,
}
use seatfirst.Prelude.Outcome.{Outcome, ok, throw, Yields}
use seatfirst.Fault.{Fault, index_bounds}
use seatfirst.Bitmap.{
  Bitmap, assert_bitmap_length, clear_tail, tail_mask, required_byte_length, canonicalize_bitmap,
  get_bit, per_position_popcount, adjacent_run_starts,
}
use seatfirst.Bitmap.Cells.{bit, HasSize, Denotes, canonicalize_bitmap_lem}
use seatfirst.Bitmap.Access.{get_bit_lem}
use seatfirst.Bitmap.Count.{holders, per_position_popcount_lem}
use seatfirst.Bitmap.Runs.{run_from, adjacent_run_starts_lem}

-- Cells 1 to 5, and cells 0 to 3.
abbrev middle : Bitmap
middle = 62 ∷ []

abbrev front : Bitmap
front = 15 ∷ []

middle-HasSize : HasSize middle 8
unfolding required_byte_length
middle-HasSize = record { size = refl; bytes = (omega arith, tt) }

front-HasSize : HasSize front 8
unfolding required_byte_length
front-HasSize = record { size = refl; bytes = (omega arith, tt) }

-- Seven cells in a byte with dirty padding.
dirty-HasSize : HasSize (254 ∷ []) 7
unfolding required_byte_length
dirty-HasSize = record { size = refl; bytes = (omega arith, tt) }

same_value : (a b : Bitmap) → ◌≡◌ {A = Outcome Fault Bitmap} (ok a) (ok b) → a ≡ b
same_value a b e = ground (arith, e)

canonical_run : canonicalize_bitmap middle 8 ≡ ok middle
unfolding canonicalize_bitmap assert_bitmap_length required_byte_length clear_tail tail_mask
canonical_run = refl

middle-Denotes : Denotes middle 8 (bit middle)
middle-Denotes =
    let (c, e, d) = canonicalize_bitmap_lem middle-HasSize in
    subst (λ bm. Denotes bm 8 (bit middle)) (same_value c middle (sym e ∙ canonical_run)) d

adjacent_run_starts_example :
    Yields (adjacent_run_starts middle front 2 4 2) (λ c.
      Denotes c 8 (λ j. run_from (λ i. bit middle i && bit front i) 8 2 j && leb (j % 4 + 2) 4))
adjacent_run_starts_example =
    adjacent_run_starts_lem 2 4 2 (omega arith) (omega arith) (omega arith) middle-HasSize
      front-HasSize

get_bit_example : get_bit middle 9 8 ≡ (if ltb 9 8 then ok (bit middle 9) else throw index_bounds)
get_bit_example = get_bit_lem 9 middle-Denotes

per_position_popcount_example : Yields (per_position_popcount (middle ∷ front ∷ []) 8) (λ counts.
    (length counts ≡ 8) × ((i : ℕ) → i < 8 → get_or counts i 0 ≡ holders (middle ∷ front ∷ []) i))
per_position_popcount_example =
    per_position_popcount_lem (middle ∷ front ∷ []) 8 (middle-HasSize, (front-HasSize, tt))
      (omega arith)
