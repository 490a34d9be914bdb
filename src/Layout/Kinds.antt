-- ===== src/Layout/Kinds.antt =====
-- packages/core/src/layout.ts: `deriveKindMasks` and `seatKindFromCode`.
use seatfirst.Prelude.{
  ℕ, ◌+◌, ◌<◌, ◌≡◌, refl, Bool, true, ◌&&◌, ◌||◌, inl, inr, List, get_or, ltb, ◌==◌, Bool-cases,
  arith,
}
use seatfirst.Prelude.Outcome.{ok, throw, Yields, for_range_inv}
use seatfirst.Fault.{unknown_code}
use seatfirst.Bitmap.{create_bitmap}
use seatfirst.Bitmap.Cells.{Denotes, create_bitmap-Denotes}
use seatfirst.Bitmap.Access.{set_bit-Denotes}
use seatfirst.Bitmap.Runs.{Denotes-cong}
use seatfirst.Bitmap.Marks.{upto_next, upto_skip}
use seatfirst.Layout.{
  SeatKind, seat_kind_code, seat_kind_from_code, Masks, derive_step, derive_kind_masks,
}

-- Every seat kind comes back from its code.
pub seat_kind_from_code_lem :
    (kind : SeatKind) → seat_kind_from_code (seat_kind_code kind) ≡ ok kind
unfolding seat_kind_from_code
seat_kind_from_code_lem kind = ground arith

pub seat_kind_from_code_refused :
    (code : ℕ) → 4 < code → seat_kind_from_code code ≡ throw unknown_code
unfolding seat_kind_from_code
seat_kind_from_code_refused code h = ground arith

abbrev pub is_ordinary : List ℕ → ℕ → Bool
is_ordinary kinds i = get_or kinds i 5 == 1

abbrev pub is_accessible : List ℕ → ℕ → Bool
is_accessible kinds i = get_or kinds i 5 == 2 || get_or kinds i 5 == 3

pub record MasksOf (kinds : List ℕ) (n upto : ℕ) (masks : Masks) : Type 0 where
  pub ordinary : Denotes masks.ordinary n (λ j. ltb j upto && is_ordinary kinds j)
  pub accessible : Denotes masks.accessible n (λ j. ltb j upto && is_accessible kinds j)

derive_step_lem :
    (kinds : List ℕ) (n i : ℕ) (masks : Masks)
    → i < n
    → MasksOf kinds n i masks
    → Yields (derive_step kinds n i masks) (MasksOf kinds n (i + 1))
unfolding derive_step
derive_step_lem kinds n i masks lt h = elim (Bool-cases (is_ordinary kinds i)) [
  | inl is_one ↦
      let (c, e, w) = set_bit-Denotes i true lt h.ordinary in
      rw is_one (
        rw e (
          record masks { ordinary = c },
          refl,
          record {
            ordinary = Denotes-cong w (λ j q. upto_next (is_ordinary kinds) i j true is_one);
            accessible =
                Denotes-cong h.accessible
                  (λ j q. upto_skip (is_accessible kinds) i j (ground arith));
          },
        ))
  | inr not_one ↦ rw not_one (elim (Bool-cases (is_accessible kinds i)) [
    | inl reached ↦
        let (c, e, w) = set_bit-Denotes i true lt h.accessible in
        rw reached (
          rw e (
            record masks { accessible = c },
            refl,
            record {
              ordinary = Denotes-cong h.ordinary (λ j q. upto_skip (is_ordinary kinds) i j not_one);
              accessible = Denotes-cong w (λ j q. upto_next (is_accessible kinds) i j true reached);
            },
          ))
    | inr neither ↦ rw neither (
      masks,
      refl,
      record {
        ordinary = Denotes-cong h.ordinary (λ j q. upto_skip (is_ordinary kinds) i j not_one);
        accessible = Denotes-cong h.accessible (λ j q. upto_skip (is_accessible kinds) i j neither);
      },
    )
  ])
]

-- For any codes the two derived masks are the canonical bitmaps of the standard seats and of the
-- wheelchair and companion seats; no code makes it throw.
pub derive_kind_masks_lem :
    (kinds : List ℕ) (n : ℕ)
    → Yields (derive_kind_masks kinds n) (λ masks.
      Denotes masks.ordinary n (is_ordinary kinds)
      × Denotes masks.accessible n (is_accessible kinds))
unfolding derive_kind_masks
derive_kind_masks_lem kinds n =
    let zeros = create_bitmap-Denotes n in
    let start : MasksOf kinds n 0
        (record { ordinary = create_bitmap n; accessible = create_bitmap n }) =
      record {
        ordinary = Denotes-cong zeros (λ j lt. ground arith);
        accessible = Denotes-cong zeros (λ j lt. ground arith);
      } in
    let (masks, e, w) =
      for_range_inv (MasksOf kinds n) (derive_step kinds n) n 0 n _ (omega arith)
        (λ k t lt h. derive_step_lem kinds n k t lt h) start in
    (
      masks,
      e,
      (
        Denotes-cong w.ordinary (λ j lt. ground arith),
        Denotes-cong w.accessible (λ j lt. ground arith),
      ),
    )
