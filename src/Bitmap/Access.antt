-- ===== src/Bitmap/Access.antt =====
-- packages/core/src/bitmap.ts: `getBit` and `setBit` against the set of cells.
use seatfirst.Prelude.{
  ℕ, ◌+◌, ◌-◌, ◌*◌, ◌/◌, ◌%◌, ◌^◌, ◌<◌, ◌≤◌, bit_and, bit_or, ◌≡◌, refl, ap, ◌∙◌, Bool, true, false,
  inl, inr, length, get_or, set, All-set, All-get_or, get_or-set, length-set, ltb, ◌==◌,
  if◌then◌else◌, Bool-cases, arith,
}
use seatfirst.Prelude.Bits.{
  bit_at, bit_at-none, bit_at-bit_and, bit_at-bit_or, bit_at-byte, bit_at-complement, bit_at-pow,
  pow-byte, bit_and-pow, bit_and-le, bit_or-lt,
}
use seatfirst.Prelude.Outcome.{ok, throw, Yields}
use seatfirst.Fault.{index_bounds}
use seatfirst.Bitmap.{
  Bitmap, required_byte_length, tail_mask, has_dirty_tail, clear_tail, get_bit, write_bit, set_bit,
}
use seatfirst.Bitmap.Cells.{
  bit, IsByte, HasSize, Denotes, assert_lem, bit_at-tail_mask, bit-clear_tail, clear_tail-HasSize,
  last_byte_range,
}

tail_mask-lt : (n : ℕ) → tail_mask n < 256
unfolding tail_mask
tail_mask-lt n = ground (arith, pow-byte (n % 8) (omega arith))

-- The last byte of a canonical bitmap has no digit outside the mask.
last_byte_clean :
    (bm : Bitmap) (n : ℕ)
    → HasSize bm n
    → ((i : ℕ) → n ≤ i → bit bm i ≡ false)
    → 0 < length bm
    → (k : ℕ) → bit_at (bit_and (get_or bm (length bm - 1) 0) (255 - tail_mask n)) k ≡ false
unfolding required_byte_length
last_byte_clean bm n h clean pos k = elim (Bool-cases (ltb k 8)) [
  | inl small ↦
      let k<8 : k < 8 = ground arith in
      let i : ℕ = (length bm - 1) * 8 + k in
      let byte : i / 8 ≡ length bm - 1 = omega arith in
      let digit : i % 8 ≡ k = omega arith in
      let here : bit bm i ≡ bit_at (get_or bm (length bm - 1) 0) k = rw (byte, digit) refl in
      elim (Bool-cases (ltb i n)) [
        | inl inside ↦ ground (
          arith,
          bit_at-bit_and k (get_or bm (length bm - 1) 0) (255 - tail_mask n),
          bit_at-complement (tail_mask n) k (tail_mask-lt n) k<8,
          bit_at-tail_mask n k k<8,
          last_byte_range n i (omega (arith, h.size)),
        )
        | inr outside ↦ ground (
          arith,
          bit_at-bit_and k (get_or bm (length bm - 1) 0) (255 - tail_mask n),
          clean i (ground arith),
          here,
        )
      ]
  | inr big ↦ ground (
    arith,
    bit_at-bit_and k (get_or bm (length bm - 1) 0) (255 - tail_mask n),
    bit_at-byte (get_or bm (length bm - 1) 0) k
        (All-get_or IsByte bm (length bm - 1) 0 h.bytes (omega arith)) (ground arith),
  )
]

pub Denotes-clean :
    {bm : Bitmap} {n : ℕ} {f : ℕ → Bool} → Denotes bm n f → has_dirty_tail bm n ≡ false
unfolding has_dirty_tail
Denotes-clean {bm} {n} d = elim (Bool-cases (length bm == 0)) [
  | inl e ↦ rw e
  | inr e ↦ ground (
    arith,
    bit_at-none (bit_and (get_or bm (length bm - 1) 0) (255 - tail_mask n))
        (bit_and (get_or bm (length bm - 1) 0) (255 - tail_mask n)) (omega arith)
        (last_byte_clean bm n d.has_size (λ i h. ground (arith, d.reads i)) (ground arith)),
  )
]

-- On a canonical bitmap getBit returns the cell for an index in bounds and throws the bounds error
-- for any other.
pub get_bit_lem :
    {bm : Bitmap} {n : ℕ} {f : ℕ → Bool} (i : ℕ)
    → Denotes bm n f
    → get_bit bm i n ≡ (if ltb i n then ok (f i) else throw index_bounds)
unfolding get_bit
get_bit_lem {bm} {n} {f} i d =
    rw (assert_lem d.has_size)
      (rw (Denotes-clean d) (ground (arith, bit_and-pow (i % 8) (get_or bm (i / 8) 0), d.reads i)))

pub get_bit_ok :
    {bm : Bitmap} {n : ℕ} {f : ℕ → Bool} (i : ℕ)
    → i < n
    → Denotes bm n f
    → get_bit bm i n ≡ ok (f i)
get_bit_ok i h d = get_bit_lem i d ∙ ground arith

updated_byte : ℕ → ℕ → Bool → ℕ
updated_byte byte k value = if value then bit_or byte (2 ^ k) else bit_and byte (255 - 2 ^ k)

updated_digit :
    (byte k j : ℕ) (value : Bool)
    → k < 8
    → j < 8
    → bit_at (updated_byte byte k value) j ≡ (if k == j then value else bit_at byte j)
unfolding updated_byte
updated_digit byte k j true p q = ground (arith, bit_at-bit_or j byte (2 ^ k), bit_at-pow k j)
updated_digit byte k j false p q = ground (
  arith,
  bit_at-bit_and j byte (255 - 2 ^ k),
  bit_at-pow k j,
  pow-byte k p,
  bit_at-complement (2 ^ k) j (omega (arith, pow-byte k p)) q,
)

updated_byte-lt : (byte k : ℕ) (value : Bool) → k < 8 → byte < 256 → updated_byte byte k value < 256
unfolding updated_byte
updated_byte-lt byte k true p h = bit_or-lt 8 byte (2 ^ k) h (omega (arith, pow-byte k p))
updated_byte-lt byte k false p h = omega (arith, bit_and-le byte (255 - 2 ^ k) byte (omega arith))

-- A write to the byte of cell `i`, seen from cell `j`.
bit-write_bit :
    (bm : Bitmap) (n i j : ℕ) (value : Bool)
    → HasSize bm n
    → i < n
    → bit (write_bit bm i value) j ≡ (if i == j then value else bit bm j)
unfolding write_bit required_byte_length updated_byte
bit-write_bit bm n i j value h inside =
    let inside_bytes : i / 8 < length bm = omega (arith, h.size) in
    let new = updated_byte (get_or bm (i / 8) 0) (i % 8) value in
    let written = get_or-set bm (i / 8) (j / 8) new 0 in
    elim (Bool-cases (i / 8 == j / 8)) [
      | inl same ↦
          let byte : i / 8 ≡ j / 8 = ground arith in
          let old : get_or bm (i / 8) 0 ≡ get_or bm (j / 8) 0 =
            ap (λ (b : ℕ). get_or bm b 0) byte in
          let there : get_or (set bm (i / 8) new) (j / 8) 0 ≡ new = ground (arith, written) in
          let digit =
            updated_digit (get_or bm (i / 8) 0) (i % 8) (j % 8) value (omega arith) (omega arith) in
          rw there (ground (arith, digit, ap (λ (b : ℕ). bit_at b (j % 8)) old))
      | inr other ↦
          let there : get_or (set bm (i / 8) new) (j / 8) 0 ≡ get_or bm (j / 8) 0 =
            ground (arith, written) in
          rw there (ground arith)
    ]

pub write_bit-HasSize :
    {bm : Bitmap} {n : ℕ} (i : ℕ) (value : Bool) → HasSize bm n → HasSize (write_bit bm i value) n
unfolding write_bit updated_byte
write_bit-HasSize {bm} i value h = record {
  size = length-set bm (i / 8) new ∙ h.size;
  bytes = All-set IsByte bm (i / 8) new h.bytes (
      updated_byte-lt byte (i % 8) value (omega arith)
        (All-get_or IsByte bm (i / 8) 0 h.bytes (omega arith)));
}
  where
    byte : ℕ
    byte = get_or bm (i / 8) 0

    new : ℕ
    new = updated_byte byte (i % 8) value

pub set_bit_lem :
    {bm : Bitmap} {n : ℕ} (i : ℕ) (value : Bool)
    → HasSize bm n
    → i < n
    → Yields (set_bit bm i n value) (λ c. Denotes c n (λ j. if i == j then value else bit bm j))
unfolding set_bit
set_bit_lem {bm} {n} i value h inside =
    let cleared = clear_tail-HasSize h in
    (
      write_bit (clear_tail bm n) i value,
      rw (assert_lem h) (ground arith),
      record {
        has_size = write_bit-HasSize i value cleared;
        reads = λ j. ground (
          arith,
          bit-write_bit (clear_tail bm n) n i j value cleared inside,
          bit-clear_tail bm n j h.size,
        );
      },
    )

abbrev pub update : (ℕ → Bool) → ℕ → Bool → ℕ → Bool
update f i value j = if i == j then value else f j

-- On a canonical bitmap and an index in bounds, setBit returns the canonical bitmap that has the
-- value at the index and is unchanged at every other cell.
pub set_bit-Denotes :
    {bm : Bitmap} {n : ℕ} {f : ℕ → Bool} (i : ℕ) (value : Bool)
    → i < n
    → Denotes bm n f
    → Yields (set_bit bm i n value) (λ c. Denotes c n (update f i value))
set_bit-Denotes i value inside d =
    let (c, e, w) = set_bit_lem i value d.has_size inside in
    (c, e, record { has_size = w.has_size; reads = λ j. ground (arith, w.reads j, d.reads j) })
