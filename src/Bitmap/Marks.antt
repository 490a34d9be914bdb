-- ===== src/Bitmap/Marks.antt =====
-- The loop that packages/core repeats over a fresh bitmap: set the bit of each cell that passes a test.
use seatfirst.Prelude.{
  ℕ, ◌+◌, ◌<◌, ◌≡◌, refl, ap, ◌∙◌, Bool, true, false, ◌&&◌, inl, inr, ltb, ◌==◌, if◌then◌else◌,
  Bool-cases, ==_iff, arith,
}
use seatfirst.Prelude.Outcome.{ok, Yields, for_range, for_range_inv}
use seatfirst.Bitmap.{Bitmap, Run, create_bitmap, set_bit}
use seatfirst.Bitmap.Cells.{Denotes, create_bitmap-Denotes}
use seatfirst.Bitmap.Access.{set_bit-Denotes, update}
use seatfirst.Bitmap.Runs.{Denotes-cong}

abbrev pub upto : (ℕ → Bool) → ℕ → ℕ → Bool
upto f i j = ltb j i && f j

-- The test of the cells below `i + 1`, from that of the cells below `i`.
pub upto_next :
    (f : ℕ → Bool) (i j : ℕ) (value : Bool)
    → f i ≡ value
    → update (upto f i) i value j ≡ upto f (i + 1) j
upto_next f i j value h = elim (Bool-cases (i == j)) [
  | inl e ↦ ground (arith, ap f ((==_iff i j).0 e))
  | inr e ↦ ground arith
]

pub upto_skip : (f : ℕ → Bool) (i j : ℕ) → f i ≡ false → upto f i j ≡ upto f (i + 1) j
upto_skip f i j h = elim (Bool-cases (i == j)) [
  | inl e ↦ ground (arith, ap f ((==_iff i j).0 e))
  | inr e ↦ ground arith
]

abbrev pub mark : (ℕ → Bool) → ℕ → ℕ → Bitmap → Run Bitmap
mark f n i m = if f i then set_bit m i n true else ok m

pub mark_lem :
    (f : ℕ → Bool) (n i : ℕ) (m : Bitmap)
    → i < n
    → Denotes m n (upto f i)
    → Yields (mark f n i m) (λ c. Denotes c n (upto f (i + 1)))
mark_lem f n i m lt d = elim (Bool-cases (f i)) [
  | inl h ↦
      let (c, e, w) = set_bit-Denotes i true lt d in
      rw h (c, e, Denotes-cong w (λ j q. upto_next f i j true h))
  | inr h ↦ rw h (m, refl, Denotes-cong d (λ j q. upto_skip f i j h))
]

-- A loop over all cells whose body marks the cells of `f` makes the bitmap of `f`.
pub mark_loop :
    (f : ℕ → Bool) (n : ℕ) (body : ℕ → Bitmap → Run Bitmap)
    → ((i : ℕ) (m : Bitmap) → i < n → body i m ≡ mark f n i m)
    → Yields (for_range n 0 body (create_bitmap n)) (λ m. Denotes m n f)
mark_loop f n body same =
    let (m, e, d) =
      for_range_inv (λ k m. Denotes m n (upto f k)) body n 0 n (create_bitmap n) (omega arith)
        (λ k m lt d. let (c, e, w) = mark_lem f n k m lt d in (c, same k m lt ∙ e, w))
        (Denotes-cong (create_bitmap-Denotes n) (λ j lt. ground arith)) in
    (m, e, Denotes-cong d (λ j lt. ground arith))
