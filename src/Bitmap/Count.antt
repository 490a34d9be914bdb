-- ===== src/Bitmap/Count.antt =====
-- packages/core/src/bitmap.ts: `popcount`, `openCount` and `perPositionPopcount` count cells.
use seatfirst.Prelude.{
  ℕ, zero, suc, ◌+◌, ◌-◌, ◌*◌, ◌/◌, ◌%◌, ◌^◌, ◌<◌, ◌≤◌, bit_and, ◌≡◌, refl, ap, ◌∙◌, Bool, true,
  ◌&&◌, inl, inr, List, [], ◌∷◌, length, get_or, set, replicate, All, get_or-set, length-set,
  length-replicate, get_or-replicate, ltb, ◌==◌, if◌then◌else◌, Bool-cases, ==_iff, arith,
}
use seatfirst.Prelude.Bits.{bit_at, holds_up_to, holds_up_to_at}
use seatfirst.Prelude.Outcome.{ok, Yields, for_range_inv, for_each}
use seatfirst.Bitmap.{
  Bitmap, u32, required_byte_length, clear_lowest, rounds_of_byte, count_bytes, popcount,
  open_count, canonicalize_all, tally_all, per_position_popcount,
}
use seatfirst.Bitmap.Cells.{bit, IsByte, HasSize, Denotes, canonicalize_bitmap_lem}
use seatfirst.Bitmap.Access.{get_bit_ok}
use seatfirst.Bitmap.Algebra.{bitmap_and_lem, AllSized}

-- How many of the cells 0 to `n - 1` pass the test.
abbrev pub count_cells : ℕ → (ℕ → Bool) → ℕ
count_cells zero f = 0
count_cells (suc n) f = (if f 0 then 1 else 0) + count_cells n (λ i. f (suc i))

pub count_cells-cong :
    (n : ℕ) {f g : ℕ → Bool} → ((i : ℕ) → i < n → f i ≡ g i) → count_cells n f ≡ count_cells n g
count_cells-cong zero h = refl
count_cells-cong (suc n) h =
    ground (arith, h 0 (omega arith), count_cells-cong n (λ i lt. h (suc i) (omega arith)))

-- Cells past `n` that do not count add nothing.
count_cells-cut :
    (m n : ℕ) (f : ℕ → Bool) → n ≤ m → count_cells m (λ i. ltb i n && f i) ≡ count_cells n f
count_cells-cut zero zero f h = refl
count_cells-cut zero (suc n) f h = absurd (omega arith)
count_cells-cut (suc m) zero f h = ground (
  arith,
  count_cells-cut m zero (λ i. f (suc i)) (omega arith),
  count_cells-cong m {f = λ i. ltb (suc i) 0 && f (suc i)} {g = λ i. ltb i 0 && f (suc i)}
      (λ i lt. ground arith),
)
count_cells-cut (suc m) (suc n) f h = ground (
  arith,
  count_cells-cut m n (λ i. f (suc i)) (omega arith),
  count_cells-cong m {f = λ i. ltb (suc i) (suc n) && f (suc i)} {g = λ i. ltb i n && f (suc i)}
      (λ i lt. ground arith),
)

-- Kernighan's loop counts the digits of every byte within its rounds.
kernighan_table :
    holds_up_to 256 (λ x. clear_lowest rounds_of_byte x 0 == count_cells 8 (bit_at x)) ≡ true
unfolding clear_lowest holds_up_to
kernighan_table = refl

clear_lowest-add :
    (fuel value count : ℕ) → clear_lowest fuel value count ≡ count + clear_lowest fuel value 0
unfolding clear_lowest
clear_lowest-add zero value count = omega arith
clear_lowest-add (suc fuel) value count = ground (
  arith,
  clear_lowest-add fuel (bit_and value (value - 1)) (count + 1),
  clear_lowest-add fuel (bit_and value (value - 1)) (0 + 1),
)

clear_lowest_lem :
    (x count : ℕ) → x < 256 → clear_lowest rounds_of_byte x count ≡ count + count_cells 8 (bit_at x)
clear_lowest_lem x count h = omega (
  arith,
  clear_lowest-add rounds_of_byte x count,
  (==_iff (clear_lowest rounds_of_byte x 0) (count_cells 8 (bit_at x))).0
      (holds_up_to_at 256 _ x kernighan_table h),
)

later_byte :
    (b : ℕ) (bs : Bitmap) (i : ℕ)
    → bit (b ∷ bs) (suc (suc (suc (suc (suc (suc (suc (suc i)))))))) ≡ bit bs i
later_byte b bs i =
    let byte : suc (suc (suc (suc (suc (suc (suc (suc i))))))) / 8 ≡ suc (i / 8) = omega arith in
    let digit : suc (suc (suc (suc (suc (suc (suc (suc i))))))) % 8 ≡ i % 8 = omega arith in
    rw (byte, digit) refl

abbrev cells_of : Bitmap → ℕ
cells_of [] = 0
cells_of (b ∷ bs) = suc (suc (suc (suc (suc (suc (suc (suc (cells_of bs))))))))

cells_of_lem : (bs : Bitmap) → cells_of bs ≡ 8 * length bs
cells_of_lem [] = refl
cells_of_lem (b ∷ bs) = omega (arith, cells_of_lem bs)

count_bytes_lem :
    (bs : Bitmap) (count : ℕ)
    → All IsByte bs
    → count_bytes bs count ≡ count + count_cells (cells_of bs) (bit bs)
unfolding count_bytes
count_bytes_lem [] count h = omega arith
count_bytes_lem (b ∷ bs) count h = omega (
  arith,
  clear_lowest_lem b count h.0,
  count_bytes_lem bs (clear_lowest rounds_of_byte b count) h.1,
  count_cells-cong (cells_of bs) (λ i lt. later_byte b bs i),
)

bytes_cover : (n : ℕ) → n ≤ 8 * required_byte_length n
unfolding required_byte_length
bytes_cover n = omega arith

count_bytes-Denotes :
    {c : Bitmap} {n : ℕ} {f : ℕ → Bool} → Denotes c n f → count_bytes c 0 ≡ count_cells n f
count_bytes-Denotes {c} {n} {f} d = omega (
  arith,
  count_bytes_lem c 0 d.has_size.bytes,
  count_cells-cong (cells_of c) {f = bit c} {g = λ i. ltb i n && f i} (λ i lt. d.reads i),
  count_cells-cut (cells_of c) n f (omega (arith, cells_of_lem c, bytes_cover n, d.has_size.size)),
)

-- For a bitmap of the size of the bit length popcount returns the number of set cells below the bit
-- length, padding bits ignored.
pub popcount_lem :
    {bm : Bitmap} {n : ℕ} → HasSize bm n → popcount bm n ≡ ok (count_cells n (bit bm))
unfolding popcount
popcount_lem h = let (c, e, d) = canonicalize_bitmap_lem h in rw e (ap ok (count_bytes-Denotes d))

-- For two bitmaps of the size of the bit length openCount returns the number of cells set in both.
pub open_count_lem :
    {a m : Bitmap} {n : ℕ}
    → HasSize a n
    → HasSize m n
    → open_count a m n ≡ ok (count_cells n (λ i. bit a i && bit m i))
unfolding open_count
open_count_lem {a} {m} {n} h k =
    let (c, e, d) = bitmap_and_lem a (m ∷ []) n (h, (k, tt)) in
    rw e (popcount_lem d.has_size ∙ ap ok (count_cells-cong n (λ i lt. ground (arith, d.reads i))))

-- How many of the bitmaps hold cell `i`.
abbrev pub holders : List Bitmap → ℕ → ℕ
holders [] i = 0
holders (bm ∷ bms) i = (if bit bm i then 1 else 0) + holders bms i

abbrev AllCanonical : List Bitmap → ℕ → Type 0
AllCanonical bms n = All (λ bm. Denotes bm n (bit bm)) bms

canonicalize_all_lem :
    (bms : List Bitmap) (n : ℕ)
    → AllSized bms n
    → Yields (canonicalize_all bms n) (λ cs.
      AllCanonical cs n
      × ((i : ℕ) → i < n → holders cs i ≡ holders bms i)
      × (length cs ≡ length bms))
unfolding canonicalize_all
canonicalize_all_lem [] n h = ([], refl, (tt, (λ i lt. refl), refl))
canonicalize_all_lem (bm ∷ bms) n h =
    let (c, e, d) = canonicalize_bitmap_lem h.0 in
    let (cs, e', rest) = canonicalize_all_lem bms n h.1 in
    (
      c ∷ cs,
      rw (e, e'),
      (
        (record { has_size = d.has_size; reads = λ i. ground (arith, d.reads i) }, rest.0),
        (λ i lt. ground (arith, d.reads i, rest.1 i lt)),
        ap suc rest.2,
      ),
    )

-- The counters after the inner loop: only counter `i` has changed.
tally_all_lem :
    (bms : List Bitmap) (n i : ℕ) (counts : List ℕ)
    → AllCanonical bms n
    → i < n
    → length counts ≡ n
    → get_or counts i 0 + length bms < 2 ^ 32
    → Yields (tally_all bms n i counts) (λ c.
      (length c ≡ n)
      × ((j : ℕ) → get_or c j 0 ≡ get_or counts j 0 + (if i == j then holders bms i else 0)))
unfolding tally_all for_each
tally_all_lem [] n i counts h lt size room = (counts, refl, (size, λ j. ground arith))
tally_all_lem (bm ∷ bms) n i counts h lt size room =
    let next : List ℕ = if bit bm i then set counts i (u32 (get_or counts i 0 + 1)) else counts in
    let at = get_or-set counts i i (u32 (get_or counts i 0 + 1)) 0 in
    let (c, e, rest) =
      tally_all_lem bms n i next h.1 lt
        (ground (arith, length-set counts i (u32 (get_or counts i 0 + 1)))) (ground (arith, at)) in
    (
      c,
      rw (get_bit_ok i lt h.0) e,
      (
        rest.0,
        λ j. ground (
          arith,
          rest.1 j,
          get_or-set counts i j (u32 (get_or counts i 0 + 1)) 0,
          same_counter counts i j,
        ),
      ),
    )
  where
    same_counter :
        (counts : List ℕ) (i j : ℕ) → (i == j) ≡ true → get_or counts i 0 ≡ get_or counts j 0
    same_counter counts i j h = ap (λ (k : ℕ). get_or counts k 0) ((==_iff i j).0 h)

counted_next :
    (cs : List Bitmap) (before after : List ℕ) (k j : ℕ)
    → get_or before j 0 ≡ (if ltb j k then holders cs j else 0)
    → get_or after j 0 ≡ get_or before j 0 + (if k == j then holders cs k else 0)
    → get_or after j 0 ≡ (if ltb j (k + 1) then holders cs j else 0)
counted_next cs before after k j p q = elim (Bool-cases (k == j)) [
  | inl e ↦ ground (arith, ap (holders cs) ((==_iff k j).0 e))
  | inr e ↦ ground arith
]

-- For fewer than 2^32 bitmaps of the size of the bit length, there is a counter for each cell, and
-- it holds the number of bitmaps with that cell: the 32-bit counters do not wrap.
pub per_position_popcount_lem :
    (bms : List Bitmap) (n : ℕ)
    → AllSized bms n
    → length bms < 2 ^ 32
    → Yields
        (per_position_popcount bms n)
        (λ counts. (length counts ≡ n) × ((i : ℕ) → i < n → get_or counts i 0 ≡ holders bms i))
unfolding per_position_popcount
per_position_popcount_lem bms n h few =
    let (cs, e, canonical) = canonicalize_all_lem bms n h in
    let P : ℕ → List ℕ → Type 0 = λ k counts.
      (length counts ≡ n) × ((j : ℕ) → get_or counts j 0 ≡ (if ltb j k then holders cs j else 0)) in
    let (c, e', w) =
      for_range_inv P (tally_all cs n) n 0 n (replicate n 0) (omega arith)
        (λ k t lt p.
          let (c, e'', q) =
            tally_all_lem cs n k t canonical.0 lt p.0 (ground (arith, p.1 k, canonical.2)) in
          (c, e'', (q.0, λ j. counted_next cs t c k j (p.1 j) (q.1 j))))
        (length-replicate n 0, λ j. ground (arith, get_or-replicate {A = ℕ} n j 0)) in
    (c, rw e e', (w.0, λ i lt. ground (arith, w.1 i, canonical.1 i lt)))
