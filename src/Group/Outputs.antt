-- ===== src/Group/Outputs.antt =====
-- packages/core/src/group-assembly.ts: the showtimes and the preview mask of a result group.
use seatfirst.Prelude.{
  ℕ, zero, suc, ◌+◌, ◌≡◌, refl, ◌&&◌, Option, none, some, List, [], ◌∷◌, map, if◌then◌else◌, arith,
}
use seatfirst.Prelude.Outcome.{ok}
use seatfirst.Bitmap.{Bitmap}
use seatfirst.Bitmap.Cells.{bit, HasSize, Denotes}
use seatfirst.Bitmap.Access.{get_bit_ok}
use seatfirst.Bitmap.Count.{count_cells, open_count_lem}
use seatfirst.Layout.{Geometry}
use seatfirst.Region.{Compiled, compiled, unsupported_score, cell_count}
use seatfirst.Group.{ShowtimeInput, ShowtimeOutput, output_showtime, output_showtimes, mask_to_bits}
use seatfirst.Group.Result.{preview_bits}
use seatfirst.Group.Counts.{CleanOption, AllClean}

-- The free ordinary seats of a resolved showtime.
abbrev pub open_seats_of : Geometry → Option Bitmap → Option ℕ
open_seats_of layout none = none
open_seats_of layout (some free) =
    some (count_cells (cell_count layout) (λ i. bit free i && bit layout.ordinary_mask i))

abbrev pub describe : Geometry → ShowtimeInput → ShowtimeOutput
describe layout s = record {
  showtime_id = s.showtime_id;
  open_seats = open_seats_of layout s.availability;
}

module _ (layout : Geometry) (ordinary : HasSize layout.ordinary_mask (cell_count layout)) where
  output_showtime_lem :
      (s : ShowtimeInput) (a : Option Bitmap)
      → CleanOption (cell_count layout) a
      → output_showtime layout s a
        ≡ ok (record { showtime_id = s.showtime_id; open_seats = open_seats_of layout a })
  unfolding output_showtime
  output_showtime_lem s none c = refl
  output_showtime_lem s (some free) c = rw (open_count_lem c.has_size ordinary) refl

  pub output_showtimes_lem :
      (showtimes : List ShowtimeInput)
      → AllClean (cell_count layout) showtimes
      → output_showtimes layout showtimes ≡ ok (map (describe layout) showtimes)
  unfolding output_showtimes
  output_showtimes_lem [] c = refl
  output_showtimes_lem (s ∷ ss) c =
      rw (output_showtime_lem s s.availability c.0, output_showtimes_lem ss c.1) refl

-- The digits of the cells from `cell` on.
abbrev pub digits : Bitmap → ℕ → ℕ → List ℕ
digits mask zero cell = []
digits mask (suc rest) cell = (if bit mask cell then 1 else 0) ∷ digits mask rest (cell + 1)

mask_to_bits_lem :
    (mask : Bitmap) (n rest cell : ℕ)
    → Denotes mask n (bit mask)
    → cell + rest ≡ n
    → mask_to_bits mask n rest cell ≡ ok (digits mask rest cell)
unfolding mask_to_bits
mask_to_bits_lem mask n zero cell d e = refl
mask_to_bits_lem mask n (suc rest) cell d e =
    rw (get_bit_ok cell (omega arith) d, mask_to_bits_lem mask n rest (cell + 1) d (omega arith))
      refl

module _ {R : Type 0} where
  abbrev pub CleanRegion : ℕ → Option (Compiled R Bitmap) → Type 0
  CleanRegion n none = Unit
  CleanRegion n (some (compiled mask)) = Denotes mask n (bit mask)
  CleanRegion n (some (unsupported_score region)) = Unit

  abbrev pub digits_of : ℕ → Option (Compiled R Bitmap) → Option (List ℕ)
  digits_of n none = none
  digits_of n (some (compiled mask)) = some (digits mask n 0)
  digits_of n (some (unsupported_score region)) = none

  pub preview_bits_lem :
      (n : ℕ) (preview : Option (Compiled R Bitmap))
      → CleanRegion n preview
      → preview_bits n preview ≡ ok (digits_of n preview)
  unfolding preview_bits
  preview_bits_lem n none c = refl
  preview_bits_lem n (some (compiled mask)) c =
      rw (mask_to_bits_lem mask n n 0 c (omega arith)) refl
  preview_bits_lem n (some (unsupported_score region)) c = refl
