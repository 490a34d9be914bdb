-- ===== src/Bitmap/Cells.antt =====
-- packages/core/src/bitmap.ts: a bitmap as the set of cells whose bit it holds. `Denotes` is the
-- abstraction that the operations of the other modules are proved against.
use seatfirst.Prelude.{
  ℕ, suc, ◌+◌, ◌-◌, ◌/◌, ◌%◌, ◌<◌, ◌≤◌, bit_and, ◌≡◌, ap, ◌∙◌, Bool, true, false, ◌&&◌, ◌||◌, inl,
  inr, length, get_or, All, All-set, All-get_or, All-replicate, get_or-set, get_or-replicate,
  length-set, length-replicate, get_or-beyond, ltb, ◌==◌, Bool-cases, arith,
}
use seatfirst.Prelude.Bits.{bit_at, bit_at-zero, bit_at-ones, bit_at-bit_and, bit_and-le}
use seatfirst.Prelude.Outcome.{ok, Yields}
use seatfirst.Bitmap.{
  Bitmap, required_byte_length, assert_bitmap_length, tail_mask, clear_tail, canonicalize_bitmap,
  create_bitmap,
}

-- The bit of cell `i`.
abbrev pub bit : Bitmap → ℕ → Bool
bit bm i = bit_at (get_or bm (i / 8) 0) (i % 8)

abbrev pub IsByte : ℕ → Type 0
IsByte b = b < 256

-- Bytes of the right number, padding allowed.
pub record HasSize (bm : Bitmap) (n : ℕ) : Type 0 where
  pub size : length bm ≡ required_byte_length n
  pub bytes : All IsByte bm

-- The canonical bitmap of the cells below `n` at which `f` holds: the padding bits are zero.
pub record Denotes (bm : Bitmap) (n : ℕ) (f : ℕ → Bool) : Type 0 where
  pub has_size : HasSize bm n
  pub reads : (i : ℕ) → bit bm i ≡ (ltb i n && f i)

pub assert_lem : {bm : Bitmap} {n : ℕ} → HasSize bm n → assert_bitmap_length bm n ≡ ok tt
unfolding assert_bitmap_length
assert_lem h = ground (arith, h.size)

-- The digits that the mask of the last byte keeps are those of the cells below `n`.
pub bit_at-tail_mask : (n k : ℕ) → k < 8 → bit_at (tail_mask n) k ≡ (n % 8 == 0 || ltb k (n % 8))
unfolding tail_mask
bit_at-tail_mask n k h = ground (arith, bit_at-ones 8 k, bit_at-ones (n % 8) k)

-- A bit past the last byte reads as 0.
pub bit-beyond : (bm : Bitmap) (i : ℕ) → length bm ≤ i / 8 → bit bm i ≡ false
bit-beyond bm i h = rw (get_or-beyond bm (i / 8) 0 h) (bit_at-zero (i % 8))

last-clear_tail :
    (bm : Bitmap) (n : ℕ) (i : ℕ)
    → length bm ≡ suc (i / 8)
    → bit (clear_tail bm n) i ≡ (bit bm i && bit_at (tail_mask n) (i % 8))
unfolding clear_tail
last-clear_tail bm n i h =
    let last : length bm - 1 ≡ i / 8 = omega arith in
    let there : get_or (clear_tail bm n) (i / 8) 0 ≡ bit_and (get_or bm (i / 8) 0) (tail_mask n) =
      ground (
        arith,
        ap (λ (j : ℕ). bit_and (get_or bm j 0) (tail_mask n)) last,
        get_or-set bm (length bm - 1) (i / 8) (bit_and (get_or bm (length bm - 1) 0) (tail_mask n))
            0,
      ) in
    rw there (bit_at-bit_and (i % 8) (get_or bm (i / 8) 0) (tail_mask n))

other-clear_tail :
    (bm : Bitmap) (n : ℕ) (j : ℕ)
    → (length bm == suc j) ≡ false
    → get_or (clear_tail bm n) j 0 ≡ get_or bm j 0
unfolding clear_tail
other-clear_tail bm n j h =
    ground (
      arith,
      get_or-set bm (length bm - 1) j (bit_and (get_or bm (length bm - 1) 0) (tail_mask n)) 0,
    )

-- `i` is in the last byte, in an earlier one, or in none.
pub last_byte_range :
    (n i : ℕ) → (n + 7) / 8 ≡ suc (i / 8) → (n % 8 == 0 || ltb (i % 8) (n % 8)) ≡ ltb i n
last_byte_range n i h = ground arith

earlier_byte_range : (n i : ℕ) → suc (i / 8) < (n + 7) / 8 → ltb i n ≡ true
earlier_byte_range n i h = ground arith

pub bit-clear_tail :
    (bm : Bitmap) (n i : ℕ)
    → length bm ≡ required_byte_length n
    → bit (clear_tail bm n) i ≡ (ltb i n && bit bm i)
unfolding required_byte_length
bit-clear_tail bm n i h = elim (Bool-cases (length bm == suc (i / 8))) [
  | inl e ↦
      let at_last : length bm ≡ suc (i / 8) = ground arith in
      ground (
        arith,
        last-clear_tail bm n i at_last,
        bit_at-tail_mask n (i % 8) (omega arith),
        last_byte_range n i (omega arith),
      )
  | inr e ↦ rw (other-clear_tail bm n (i / 8) e) (elim (Bool-cases (ltb (i / 8) (length bm))) [
    | inl inside ↦ ground (arith, earlier_byte_range n i (ground arith))
    | inr outside ↦ ground (arith, bit-beyond bm i (ground arith))
  ])
]

pub clear_tail-HasSize : {bm : Bitmap} {n : ℕ} → HasSize bm n → HasSize (clear_tail bm n) n
unfolding clear_tail
clear_tail-HasSize {bm} {n} h = elim (Bool-cases (ltb 0 (length bm))) [
  | inl e ↦ rw e (record {
    size = length-set bm (length bm - 1) (masked) ∙ h.size;
    bytes =
        All-set IsByte bm (length bm - 1) masked h.bytes
          (omega (arith, bit_and-le last (tail_mask n) last (omega arith), last_byte));
  })
  | inr e ↦ rw e h
]
  where
    last : ℕ
    last = get_or bm (length bm - 1) 0

    masked : ℕ
    masked = bit_and last (tail_mask n)

    last_byte : last < 256
    last_byte = All-get_or IsByte bm (length bm - 1) 0 h.bytes (omega arith)

-- For a bitmap of the size of the bit length, canonicalizeBitmap returns the canonical bitmap of
-- its cells below the bit length, whatever its padding bits are.
pub canonicalize_bitmap_lem :
    {bm : Bitmap} {n : ℕ}
    → HasSize bm n
    → Yields (canonicalize_bitmap bm n) (λ c. Denotes c n (bit bm))
unfolding canonicalize_bitmap
canonicalize_bitmap_lem {bm} {n} h = (
  clear_tail bm n,
  rw (assert_lem h),
  record { has_size = clear_tail-HasSize h; reads = λ i. bit-clear_tail bm n i h.size },
)

pub create_bitmap-Denotes : (n : ℕ) → Denotes (create_bitmap n) n (λ i. false)
unfolding create_bitmap
create_bitmap-Denotes n = record {
  has_size = record {
    size = length-replicate (required_byte_length n) 0;
    bytes = All-replicate IsByte (required_byte_length n) 0 (omega arith);
  };
  reads = λ i.
      rw (get_or-replicate {A = ℕ} (required_byte_length n) (i / 8) 0)
        (ground (arith, bit_at-zero (i % 8)));
}
