-- ===== src/Examples/Grids.antt =====
-- packages/core/src/layout.ts and region.ts at one row of three cells: two seats and a gap.
use seatfirst.Prelude.{
  ℕ, zero, suc, ◌≡◌, sym, ◌∙◌, subst, ◌<◌, refl, String, Bool, true, false, none, List, [], ◌∷◌,
  All, leb, arith,
}
use seatfirst.Prelude.Int.{ℤ, pos, negsuc}
use seatfirst.Prelude.Outcome.{Outcome, ok, Yields}
use seatfirst.Fault.{Fault}
use seatfirst.Bitmap.{
  Bitmap, assert_bitmap_length, clear_tail, tail_mask, required_byte_length, canonicalize_bitmap,
}
use seatfirst.Bitmap.Cells.{bit, HasSize, Denotes, canonicalize_bitmap_lem}
use seatfirst.Layout.{SeatKind, standard, wheelchair, Geometry, Cell, build_auditorium_layout}
use seatfirst.Layout.Placement.{Inside, Distinct, BuiltFrom, build_auditorium_layout-BuiltFrom}
use seatfirst.Layout.Refusal.{build_auditorium_layout-eq-ok}
use seatfirst.Region.{SeatMetrics, cell_count, compile_region}
use seatfirst.Region.Syntax.{
  Number, SeatRegion, preset, never, seat_type, both, nil, cons, outer_ring, is_valid,
}
use seatfirst.Region.Holds.{Spans, has_no_score}
use seatfirst.Region.Compile.{
  CompilesTo, HasKinds, OrdersLiterals, preset_is_clean, region_cells, compile_region_lem,
}
use seatfirst.Metrics.{compute_seat_metrics}
use seatfirst.Metrics.Regions.{RegionOf, build_auditorium_layout-RegionOf}
use seatfirst.Region.Starts.{region_run_starts, admits, region_run_starts_lem}

abbrev cell : ℕ → SeatKind → Cell
cell column kind = record {
  row = 1;
  column = column;
  kind = kind;
  tier = none;
  available = true;
  name = none;
  visible = true;
}

abbrev cells : List Cell
cells = cell 1 standard ∷ cell 3 wheelchair ∷ []

abbrev plain_name : String → String
plain_name s = s

abbrev no_fingerprint : Geometry → String
no_fingerprint g = ""

cells-Inside : All (Inside 1 3) cells
cells-Inside = ground arith

cells-Distinct : Distinct cells
cells-Distinct = ground arith

build_auditorium_layout_example :
    Yields (build_auditorium_layout plain_name no_fingerprint 1 3 cells) (BuiltFrom 1 3 cells)
build_auditorium_layout_example =
    build_auditorium_layout-BuiltFrom plain_name no_fingerprint 1 3 cells (omega arith)
      (omega arith) cells-Inside cells-Distinct

-- What the cells are built into.
abbrev built :
    Yields (build_auditorium_layout plain_name no_fingerprint 1 3 cells) (BuiltFrom 1 3 cells)
built =
    build_auditorium_layout-BuiltFrom plain_name no_fingerprint 1 3 cells (omega arith)
      (omega arith) cells-Inside cells-Distinct

build_auditorium_layout-eq-ok_example : (0 < 1) × (0 < 3) × All (Inside 1 3) cells × Distinct cells
build_auditorium_layout-eq-ok_example =
    build_auditorium_layout-eq-ok plain_name no_fingerprint 1 3 cells built.0 built.1

-- Numbers of hundredths, with a sign.
pub data Decimal : Type 0 where
  exact : ℕ → Decimal
  minus : ℕ → Decimal
  undefined : Decimal

abbrev at_most : Decimal → Decimal → Bool
at_most (exact a) (exact b) = leb a b
at_most (exact a) _ = false
at_most (minus a) (exact b) = true
at_most (minus a) (minus b) = leb b a
at_most (minus a) undefined = false
at_most undefined _ = false

abbrev size_of : Decimal → Decimal
size_of (exact a) = exact a
size_of (minus a) = exact a
size_of undefined = undefined

abbrev pub decimals : Number
decimals = record {
  Real = Decimal;
  le = at_most;
  magnitude = size_of;
  hundredths = exact;
  minus_one = minus 100;
  not_a_number = undefined;
}

abbrev pub grid : Geometry
grid = record {
  rows = 1;
  columns = 3;
  seat_kinds = 1 ∷ 0 ∷ 2 ∷ [];
  tiers = none ∷ none ∷ none ∷ [];
  ordinary_mask = 1 ∷ [];
  accessible_mask = 4 ∷ [];
  display_mask = 7 ∷ [];
  seat_names = none;
}

abbrev pub metrics : SeatMetrics Decimal
metrics = record {
  seat_index_in_row = pos 0 ∷ negsuc 0 ∷ pos 1 ∷ [];
  depths = exact 50 ∷ minus 100 ∷ exact 50 ∷ [];
  laterals = minus 100 ∷ undefined ∷ exact 100 ∷ [];
  aisle_distance = pos 0 ∷ negsuc 0 ∷ pos 0 ∷ [];
}

pub metrics-Spans : Spans grid metrics
metrics-Spans = record { seats = refl; depths = refl; laterals = refl; aisles = refl }

metrics-HasKinds : HasKinds grid metrics
metrics-HasKinds zero h s = omega arith
metrics-HasKinds (suc zero) h s = omega arith
metrics-HasKinds (suc (suc zero)) h s = omega arith
metrics-HasKinds (suc (suc (suc i))) h s = absurd (omega arith)

decimals-OrdersLiterals : OrdersLiterals decimals
decimals-OrdersLiterals a b = refl

-- Seats in the outer ring that are no wheelchair spaces.
abbrev outer_seats : SeatRegion Decimal
outer_seats = both (cons (preset outer_ring) (cons (never (seat_type (wheelchair ∷ []))) nil))

outer_seats-is_valid : is_valid decimals outer_seats ≡ true
unfolding is_valid
outer_seats-is_valid = refl

compile_region_example :
    CompilesTo
      (cell_count grid)
      (has_no_score (preset_is_clean decimals) outer_seats)
      (region_cells decimals grid metrics outer_seats)
      (compile_region decimals grid metrics outer_seats)
compile_region_example =
    compile_region_lem decimals decimals-OrdersLiterals metrics-Spans metrics-HasKinds outer_seats
      outer_seats-is_valid

pub free-HasSize : HasSize (7 ∷ []) (cell_count grid)
unfolding required_byte_length
free-HasSize = record { size = refl; bytes = (omega arith, tt) }

-- The first two of the three cells.
pair-HasSize : HasSize (3 ∷ []) 3
unfolding required_byte_length
pair-HasSize = record { size = refl; bytes = (omega arith, tt) }

same_bytes : (a b : Bitmap) → ◌≡◌ {A = Outcome Fault Bitmap} (ok a) (ok b) → a ≡ b
same_bytes a b e = ground (arith, e)

pair_run : canonicalize_bitmap (3 ∷ []) 3 ≡ ok (3 ∷ [])
unfolding canonicalize_bitmap assert_bitmap_length required_byte_length clear_tail tail_mask
pair_run = refl

pub pair-Denotes : Denotes (3 ∷ []) 3 (bit (3 ∷ []))
pair-Denotes =
    let (c, e, d) = canonicalize_bitmap_lem pair-HasSize in
    subst (λ bm. Denotes bm 3 (bit (3 ∷ []))) (same_bytes c (3 ∷ []) (sym e ∙ pair_run)) d

region_run_starts_example :
    Yields
      (region_run_starts (7 ∷ []) (7 ∷ []) grid (3 ∷ []) 2 true)
      (λ c. Denotes c 3 (admits (7 ∷ []) (7 ∷ []) (bit (3 ∷ [])) grid 2 true))
region_run_starts_example =
    region_run_starts_lem grid (bit (3 ∷ [])) 2 true (omega arith) (omega arith) (omega arith)
      free-HasSize free-HasSize pair-Denotes

abbrev ratio : ℤ → ℕ → Decimal
ratio a b = exact 0

build_auditorium_layout-RegionOf_example :
    Yields (build_auditorium_layout plain_name no_fingerprint 1 3 cells) (λ b.
      Yields
        (compute_seat_metrics decimals ratio b.geometry)
        (RegionOf decimals ratio 3 cells b outer_seats))
build_auditorium_layout-RegionOf_example =
    build_auditorium_layout-RegionOf decimals ratio decimals-OrdersLiterals plain_name
      no_fingerprint 1 3 cells outer_seats (omega arith) (omega arith) cells-Inside cells-Distinct
      outer_seats-is_valid
