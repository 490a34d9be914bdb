-- ===== src/Bitmap/Algebra.antt =====
-- packages/core/src/bitmap.ts: `bitmapAnd`, `bitmapOr` and `bitmapNot` are intersection, union and
-- complement of the sets of cells, and a canonical bitmap is determined by its cells.
use seatfirst.Prelude.{
  ℕ, zero, suc, ◌+◌, ◌-◌, ◌*◌, ◌/◌, ◌%◌, ◌^◌, ◌<◌, bit_and, bit_or, ◌≡◌, refl, ap, sym, ◌∙◌, Bool,
  true, false, not, ◌&&◌, ◌||◌, inl, inr, List, [], ◌∷◌, map, length, get_or, All, All-get_or, ltb,
  Bool-cases, arith,
}
use seatfirst.Prelude.Bits.{
  bit_at, bit_at-bit_and, bit_at-bit_or, bit_at-complement, bit_and-le, bit_or-lt,
}
use native.Mathlib.Nat.{pow-suc}
use seatfirst.Prelude.Outcome.{Yields, for_each}
use seatfirst.Bitmap.{
  Bitmap, required_byte_length, create_bitmap, zip_bytes, combine, bitmap_and, bitmap_or,
  bitmap_not,
}
use seatfirst.Bitmap.Cells.{
  bit, IsByte, HasSize, Denotes, assert_lem, canonicalize_bitmap_lem, create_bitmap-Denotes,
}

abbrev pub every_bit : List Bitmap → ℕ → Bool
every_bit [] i = true
every_bit (bm ∷ bms) i = bit bm i && every_bit bms i

abbrev pub some_bit : List Bitmap → ℕ → Bool
some_bit [] i = false
some_bit (bm ∷ bms) i = bit bm i || some_bit bms i

-- An operation on bytes that acts on each digit by `b`, and makes bytes of bytes.
record IsBitwise (op : ℕ → ℕ → ℕ) (b : Bool → Bool → Bool) : Type 0 where
  digits : (k x y : ℕ) → bit_at (op x y) k ≡ b (bit_at x k) (bit_at y k)
  bytes : (x y : ℕ) → x < 256 → y < 256 → op x y < 256
  nothing : op 0 0 ≡ 0

and-IsBitwise : IsBitwise bit_and ◌&&◌
and-IsBitwise = record {
  digits = bit_at-bit_and;
  bytes = λ x y p q. omega (arith, bit_and-le x y x (omega arith));
  nothing = refl;
}

or-IsBitwise : IsBitwise bit_or ◌||◌
or-IsBitwise = record { digits = bit_at-bit_or; bytes = bit_or-lt 8; nothing = refl }

module _ {op : ℕ → ℕ → ℕ} {b : Bool → Bool → Bool} (w : IsBitwise op b) where
  length-zip_bytes : (rs bs : Bitmap) → length (zip_bytes op rs bs) ≡ length rs
  unfolding zip_bytes
  length-zip_bytes [] bs = refl
  length-zip_bytes (r ∷ rs) [] = ap suc (length-zip_bytes rs [])
  length-zip_bytes (r ∷ rs) (x ∷ bs) = ap suc (length-zip_bytes rs bs)

  bytes-zip_bytes :
      (rs bs : Bitmap) → All IsByte rs → All IsByte bs → All IsByte (zip_bytes op rs bs)
  unfolding zip_bytes
  bytes-zip_bytes [] bs p q = tt
  bytes-zip_bytes (r ∷ rs) [] p q = (w.bytes r 0 p.0 (omega arith), bytes-zip_bytes rs [] p.1 tt)
  bytes-zip_bytes (r ∷ rs) (x ∷ bs) p q = (w.bytes r x p.0 q.0, bytes-zip_bytes rs bs p.1 q.1)

  get_or-zip_bytes :
      (rs bs : Bitmap) (j : ℕ)
      → length bs ≡ length rs
      → get_or (zip_bytes op rs bs) j 0 ≡ op (get_or rs j 0) (get_or bs j 0)
  unfolding zip_bytes
  get_or-zip_bytes [] [] j h = sym w.nothing
  get_or-zip_bytes [] (x ∷ bs) j h = absurd (omega arith)
  get_or-zip_bytes (r ∷ rs) [] j h = absurd (omega arith)
  get_or-zip_bytes (r ∷ rs) (x ∷ bs) zero h = refl
  get_or-zip_bytes (r ∷ rs) (x ∷ bs) (suc j) h = get_or-zip_bytes rs bs j (omega arith)

  bit-zip_bytes :
      (rs bs : Bitmap) (i : ℕ)
      → length bs ≡ length rs
      → bit (zip_bytes op rs bs) i ≡ b (bit rs i) (bit bs i)
  bit-zip_bytes rs bs i h =
      rw (get_or-zip_bytes rs bs (i / 8) h)
        (w.digits (i % 8) (get_or rs (i / 8) 0) (get_or bs (i / 8) 0))

  zip_bytes-HasSize :
      {rs bs : Bitmap} {n : ℕ} → HasSize rs n → HasSize bs n → HasSize (zip_bytes op rs bs) n
  zip_bytes-HasSize {rs} {bs} p q = record {
    size = length-zip_bytes rs bs ∙ p.size;
    bytes = bytes-zip_bytes rs bs p.bytes q.bytes;
  }

  combine_lem :
      {rs bs : Bitmap} {n : ℕ}
      → HasSize rs n
      → HasSize bs n
      → Yields
          (combine op n bs rs)
          (λ c. HasSize c n × ((i : ℕ) → bit c i ≡ b (bit rs i) (bit bs i)))
  unfolding combine
  combine_lem {rs} {bs} p q = (
    zip_bytes op rs bs,
    rw (assert_lem q),
    (zip_bytes-HasSize p q, λ i. bit-zip_bytes rs bs i (q.size ∙ sym p.size)),
  )

abbrev pub AllSized : List Bitmap → ℕ → Type 0
AllSized bms n = All (λ bm. HasSize bm n) bms

-- The loop of `bitmapAnd`, from any accumulated bytes.
and_loop :
    (bms : List Bitmap) {n : ℕ} (acc : Bitmap)
    → HasSize acc n
    → AllSized bms n
    → Yields
        (for_each bms (combine bit_and n) acc)
        (λ c. HasSize c n × ((i : ℕ) → bit c i ≡ (bit acc i && every_bit bms i)))
unfolding for_each
and_loop [] acc h hs = (acc, refl, (h, λ i. ground arith))
and_loop (bm ∷ bms) acc h hs =
    let (c, e, one) = combine_lem and-IsBitwise h hs.0 in
    let (c', e', rest) = and_loop bms c one.0 hs.1 in
    (c', rw e e', (rest.0, λ i. ground (arith, one.1 i, rest.1 i)))

or_loop :
    (bms : List Bitmap) {n : ℕ} (acc : Bitmap)
    → HasSize acc n
    → AllSized bms n
    → Yields
        (for_each bms (combine bit_or n) acc)
        (λ c. HasSize c n × ((i : ℕ) → bit c i ≡ (bit acc i || some_bit bms i)))
unfolding for_each
or_loop [] acc h hs = (acc, refl, (h, λ i. ground arith))
or_loop (bm ∷ bms) acc h hs =
    let (c, e, one) = combine_lem or-IsBitwise h hs.0 in
    let (c', e', rest) = or_loop bms c one.0 hs.1 in
    (c', rw e e', (rest.0, λ i. ground (arith, one.1 i, rest.1 i)))

-- For bitmaps of the size of the bit length, of which there is at least one, the intersection is
-- the canonical bitmap of the cells set in every one; padding bits of the arguments are ignored.
pub bitmap_and_lem :
    (bm : Bitmap) (bms : List Bitmap) (n : ℕ)
    → AllSized (bm ∷ bms) n
    → Yields (bitmap_and (bm ∷ bms) n) (λ c. Denotes c n (every_bit (bm ∷ bms)))
unfolding bitmap_and
bitmap_and_lem bm bms n hs =
    let (c, e, loop) = and_loop bms bm hs.0 hs.1 in
    let (c', e', d) = canonicalize_bitmap_lem loop.0 in
    (
      c',
      rw (assert_lem hs.0) (rw e e'),
      record { has_size = d.has_size; reads = λ i. ground (arith, d.reads i, loop.1 i) },
    )

-- For bitmaps of the size of the bit length the union is the canonical bitmap of the cells set in
-- at least one.
pub bitmap_or_lem :
    (bms : List Bitmap) (n : ℕ)
    → AllSized bms n
    → Yields (bitmap_or bms n) (λ c. Denotes c n (some_bit bms))
unfolding bitmap_or
bitmap_or_lem bms n hs =
    let zeros = create_bitmap-Denotes n in
    let (c, e, loop) = or_loop bms (create_bitmap n) zeros.has_size hs in
    let (c', e', d) = canonicalize_bitmap_lem loop.0 in
    (
      c',
      rw e e',
      record {
        has_size = d.has_size;
        reads = λ i. ground (arith, d.reads i, loop.1 i, zeros.reads i);
      },
    )

-- The intersection of two canonical bitmaps.
pub bitmap_and-Denotes :
    {a b : Bitmap} {n : ℕ} {f g : ℕ → Bool}
    → Denotes a n f
    → Denotes b n g
    → Yields (bitmap_and (a ∷ b ∷ []) n) (λ c. Denotes c n (λ i. f i && g i))
bitmap_and-Denotes {a} {b} {n} p q =
    let (c, e, d) = bitmap_and_lem a (b ∷ []) n (p.has_size, (q.has_size, tt)) in
    (
      c,
      e,
      record {
        has_size = d.has_size;
        reads = λ i. ground (arith, d.reads i, p.reads i, q.reads i);
      },
    )

complement-length : (bm : Bitmap) → length (map (λ byte. 255 - byte) bm) ≡ length bm
complement-length [] = refl
complement-length (x ∷ bm) = ap suc (complement-length bm)

complement-bytes : (bm : Bitmap) → All IsByte (map (λ byte. 255 - byte) bm)
complement-bytes [] = tt
complement-bytes (x ∷ bm) = (omega arith, complement-bytes bm)

complement-get :
    (bm : Bitmap) (j : ℕ)
    → j < length bm
    → get_or (map (λ byte. 255 - byte) bm) j 0 ≡ 255 - get_or bm j 0
complement-get [] j h = absurd (omega arith)
complement-get (x ∷ bm) zero h = refl
complement-get (x ∷ bm) (suc j) h = complement-get bm j (omega arith)

bit-complement :
    (bm : Bitmap) (n i : ℕ)
    → HasSize bm n
    → i < n
    → bit (map (λ byte. 255 - byte) bm) i ≡ not (bit bm i)
unfolding required_byte_length
bit-complement bm n i h inside = rw (complement-get bm (i / 8) (omega (arith, h.size))) (
    bit_at-complement (get_or bm (i / 8) 0) (i % 8)
      (All-get_or IsByte bm (i / 8) 0 h.bytes (omega arith)) (omega arith))

-- For a bitmap of the size of the bit length the complement is the canonical bitmap of the cells
-- below the bit length that are not set in it.
pub bitmap_not_lem :
    {bm : Bitmap} {n : ℕ}
    → HasSize bm n
    → Yields (bitmap_not bm n) (λ c. Denotes c n (λ i. not (bit bm i)))
unfolding bitmap_not
bitmap_not_lem {bm} {n} h =
    let (c, e, d) = canonicalize_bitmap_lem {bm = map (λ byte. 255 - byte) bm} {n = n} flipped in
    (
      c,
      rw (assert_lem h) e,
      record {
        has_size = d.has_size;
        reads = λ i. elim (Bool-cases (ltb i n)) [
          | inl inside ↦ ground (arith, d.reads i, bit-complement bm n i h (ground arith))
          | inr outside ↦ ground (arith, d.reads i)
        ];
      },
    )
  where
    flipped : HasSize (map (λ byte. 255 - byte) bm) n
    flipped = record { size = complement-length bm ∙ h.size; bytes = complement-bytes bm }

-- A byte is determined by its eight digits.
digits_determine :
    (w x y : ℕ) → x < 2 ^ w → y < 2 ^ w → ((k : ℕ) → k < w → bit_at x k ≡ bit_at y k) → x ≡ y
digits_determine zero x y p q h = omega arith
digits_determine (suc w) x y p q h =
    let high : x / 2 ≡ y / 2 =
      digits_determine w (x / 2) (y / 2) (omega (arith, pow-suc 2 w)) (omega (arith, pow-suc 2 w))
        (λ k lt. h (suc k) (omega arith)) in
    ground (arith, h 0 (omega arith), high)

bytes_determine :
    (xs ys : Bitmap)
    → length xs ≡ length ys
    → All IsByte xs
    → All IsByte ys
    → ((j k : ℕ) → k < 8 → bit_at (get_or xs j 0) k ≡ bit_at (get_or ys j 0) k)
    → xs ≡ ys
bytes_determine [] [] e p q h = refl
bytes_determine [] (y ∷ ys) e p q h = absurd (omega arith)
bytes_determine (x ∷ xs) [] e p q h = absurd (omega arith)
bytes_determine (x ∷ xs) (y ∷ ys) e p q h = cc (
  digits_determine 8 x y p.0 q.0 (h 0),
  bytes_determine xs ys (omega arith) p.1 q.1 (λ j. h (suc j)),
)

cell_of : (j k : ℕ) → k < 8 → ((j * 8 + k) / 8 ≡ j) × ((j * 8 + k) % 8 ≡ k)
cell_of j k h = omega arith

digit_of_cell : (bm : Bitmap) (j k : ℕ) → k < 8 → bit bm (j * 8 + k) ≡ bit_at (get_or bm j 0) k
digit_of_cell bm j k h = let e = cell_of j k h in rw (e.0, e.1) refl
