-- ===== src/Bitmap.antt =====
-- packages/core/src/bitmap.ts: a bitmap is a `Uint8Array`, here the list of its bytes, lowest bit
-- first. A function that writes its argument (`setBit`) returns the new bytes. Lengths and indices
-- are natural numbers, so the tests for integers and signs hold by their type and are left out.
-- For a byte `b`, `~b` stored in a byte is `255 - b`, and `i >>> 3`, `i & 7` are `i / 8`, `i % 8`.
pub mod Cells
pub mod Access
pub mod Algebra
pub mod Count
pub mod Runs
pub mod Marks
use seatfirst.Prelude.{
  ℕ, zero, suc, ◌+◌, ◌-◌, ◌*◌, ◌/◌, ◌%◌, ◌^◌, bit_and, bit_or, Bool, true, false, not, ◌&&◌, ◌||◌,
  List, [], ◌∷◌, map, length, get_or, set, replicate, ltb, ◌==◌, if◌then◌else◌,
}
use seatfirst.Prelude.Outcome.{Outcome, ok, throw, ◌>>=◌, ◌>>◌, for_range, for_each}
use seatfirst.Fault.{
  Fault, bitmap_length, dirty_padding, index_bounds, no_bitmaps, bad_dimensions, bad_count,
}

abbrev pub Bitmap : Type 0
Bitmap = List ℕ

abbrev pub Run {ℓ} : Type ℓ → Type ℓ
Run A = Outcome Fault A

-- Math.ceil(bitLength / 8)
unfoldable pub required_byte_length : ℕ → ℕ
required_byte_length n = (n + 7) / 8

unfoldable pub assert_bitmap_length : Bitmap → ℕ → Run (Unit {0})
assert_bitmap_length bm n =
    if length bm == required_byte_length n then ok tt else throw bitmap_length

unfoldable pub tail_mask : ℕ → ℕ
tail_mask n = let used = n % 8 in if used == 0 then 0xff else 2 ^ used - 1

unfoldable pub has_dirty_tail : Bitmap → ℕ → Bool
has_dirty_tail bm n =
    if length bm == 0 || n % 8 == 0
    then false
    else not (bit_and (get_or bm (length bm - 1) 0) (255 - tail_mask n) == 0)

-- result[lastIndex] = (result[lastIndex] ?? 0) & tailMask(bitLength)
unfoldable pub clear_tail : Bitmap → ℕ → Bitmap
clear_tail bm n =
    if ltb 0 (length bm)
    then set bm (length bm - 1) (bit_and (get_or bm (length bm - 1) 0) (tail_mask n))
    else bm

unfoldable pub canonicalize_bitmap : Bitmap → ℕ → Run Bitmap
canonicalize_bitmap bm n = do assert_bitmap_length bm n; ok (clear_tail bm n)

unfoldable pub create_bitmap : ℕ → Bitmap
create_bitmap n = replicate (required_byte_length n) 0

unfoldable pub get_bit : Bitmap → ℕ → ℕ → Run Bool
get_bit bm i n = do
  assert_bitmap_length bm n
  if has_dirty_tail bm n
      then throw dirty_padding
      else if ltb i n
      then ok (not (bit_and (get_or bm (i / 8) 0) (2 ^ (i % 8)) == 0))
      else throw index_bounds

-- bitmap[byteIndex] = value ? byte | bit : byte & ~bit
unfoldable pub write_bit : Bitmap → ℕ → Bool → Bitmap
write_bit bm i value =
    let byte = get_or bm (i / 8) 0 in
    let bit = 2 ^ (i % 8) in
    set bm (i / 8) (if value then bit_or byte bit else bit_and byte (255 - bit))

unfoldable pub set_bit : Bitmap → ℕ → ℕ → Bool → Run Bitmap
set_bit bm i n value = do
  assert_bitmap_length bm n
  if ltb i n then ok (write_bit (clear_tail bm n) i value) else throw index_bounds

-- The inner loops of `bitmapOr` and `bitmapAnd`, over the bytes of the result.
unfoldable pub zip_bytes : (ℕ → ℕ → ℕ) → Bitmap → Bitmap → Bitmap
zip_bytes op [] bs = []
zip_bytes op (r ∷ rs) [] = op r 0 ∷ zip_bytes op rs []
zip_bytes op (r ∷ rs) (b ∷ bs) = op r b ∷ zip_bytes op rs bs

combine : (ℕ → ℕ → ℕ) → ℕ → Bitmap → Bitmap → Run Bitmap
combine op n bm result = do assert_bitmap_length bm n; ok (zip_bytes op result bm)

unfoldable pub bitmap_or : List Bitmap → ℕ → Run Bitmap
unfolding combine
bitmap_or bitmaps n = do
  result ← for_each bitmaps (combine bit_or n) (create_bitmap n)
  canonicalize_bitmap result n

unfoldable pub bitmap_and : List Bitmap → ℕ → Run Bitmap
unfolding combine
bitmap_and [] n = throw no_bitmaps
bitmap_and (first ∷ rest) n = do
  assert_bitmap_length first n
  result ← for_each rest (combine bit_and n) first
  canonicalize_bitmap result n

unfoldable pub bitmap_not : Bitmap → ℕ → Run Bitmap
bitmap_not bm n = do assert_bitmap_length bm n; canonicalize_bitmap (map (λ byte. 255 - byte) bm) n

-- while (value !== 0) { value &= value - 1; count += 1; }, on fuel
unfoldable pub clear_lowest : ℕ → ℕ → ℕ → ℕ
clear_lowest zero value count = count
clear_lowest (suc fuel) value count =
    let rest = clear_lowest fuel (bit_and value (value - 1)) (count + 1) in
    if value == 0 then count else rest

-- Each round clears a bit, and a byte has eight.
abbrev pub rounds_of_byte : ℕ
rounds_of_byte = 9

unfoldable pub count_bytes : Bitmap → ℕ → ℕ
unfolding clear_lowest
count_bytes [] count = count
count_bytes (byte ∷ bytes) count = count_bytes bytes (clear_lowest rounds_of_byte byte count)

unfoldable pub popcount : Bitmap → ℕ → Run ℕ
unfolding count_bytes
popcount bm n = do canonical ← canonicalize_bitmap bm n; ok (count_bytes canonical 0)

unfoldable pub open_count : Bitmap → Bitmap → ℕ → Run ℕ
open_count availability mask n = do both ← bitmap_and (availability ∷ mask ∷ []) n; popcount both n

canonicalize_all : List Bitmap → ℕ → Run (List Bitmap)
canonicalize_all [] n = ok []
canonicalize_all (bm ∷ bms) n = do
  first ← canonicalize_bitmap bm n
  rest ← canonicalize_all bms n
  ok (first ∷ rest)

-- counts[index] + 1 for each bitmap with the bit, in a Uint32Array
abbrev pub u32 : ℕ → ℕ
u32 n = n % 2 ^ 32

tally : ℕ → ℕ → Bitmap → List ℕ → Run (List ℕ)
tally n i bm counts = do
  found ← get_bit bm i n
  ok (if found then set counts i (u32 (get_or counts i 0 + 1)) else counts)

tally_all : List Bitmap → ℕ → ℕ → List ℕ → Run (List ℕ)
unfolding tally
tally_all bms n i = for_each bms (tally n i)

pub per_position_popcount : List Bitmap → ℕ → Run (List ℕ)
per_position_popcount bms n = do
  canonical ← canonicalize_all bms n
  for_range n 0 (tally_all canonical n) (replicate n 0)

shift_step : Bitmap → ℕ → ℕ → ℕ → Bitmap → Run Bitmap
shift_step bm amount n i result = do
  found ← get_bit bm (i + amount) n
  if found then set_bit result i n true else ok result

-- The loop runs while `index + amount < bitLength`.
unfoldable pub shift_right : Bitmap → ℕ → ℕ → Run Bitmap
unfolding shift_step
shift_right bm amount n = for_range (n - amount) 0 (shift_step bm amount n) (create_bitmap n)

narrow_step : ℕ → ℕ → Bitmap → Run Bitmap
narrow_step n offset runs = do shifted ← shift_right runs 1 n; bitmap_and (runs ∷ shifted ∷ []) n

clear_overflow : ℕ → ℕ → ℕ → ℕ → ℕ → Bitmap → Run Bitmap
clear_overflow n columns count row column runs =
    if ltb columns (column + count) then set_bit runs (row * columns + column) n false else ok runs

clear_row : ℕ → ℕ → ℕ → ℕ → Bitmap → Run Bitmap
unfolding clear_overflow
clear_row n columns count row runs = for_range columns 0 (clear_overflow n columns count row) runs

-- Loops `offset` from 1 to `count - 1`, then over rows and columns.
unfoldable pub adjacent_run_starts : Bitmap → Bitmap → ℕ → ℕ → ℕ → Run Bitmap
unfolding narrow_step clear_row
adjacent_run_starts availability ordinary rows columns count =
    if rows == 0 || columns == 0
    then throw bad_dimensions
    else if count == 0
    then throw bad_count
    else do
      let n = rows * columns
      runs ← bitmap_and (availability ∷ ordinary ∷ []) n
      narrowed ← for_range (count - 1) 1 (narrow_step n) runs
      for_range rows 0 (clear_row n columns count) narrowed
