-- ===== src/Layout.antt =====
-- packages/core/src/layout.ts: a dense row-major geometry from sparse, 1-based cells. Coordinates
-- are natural numbers (a negative one is refused like 0). `normalize` is `String.normalize("NFC")`
-- and `fingerprint` is `layoutFingerprint`; both are parameters. The object of seat names is a list
-- of its entries, the latest first.
pub mod Kinds
pub mod Placement
pub mod Refusal
use seatfirst.Prelude.{
  ℕ, ◌+◌, ◌-◌, ◌*◌, String, Bool, true, false, ◌||◌, Option, none, some, List, [], ◌∷◌, set, get_or,
  replicate, ltb, ◌==◌, if◌then◌else◌,
}
use seatfirst.Prelude.Outcome.{Outcome, ok, throw, ◌>>=◌, ◌>>◌, for_range, for_each}
use seatfirst.Bitmap.{Bitmap, Run, create_bitmap, set_bit}
use seatfirst.Fault.{Fault, unknown_code}

pub data SeatKind : Type 0 where
  not_a_seat standard wheelchair companion unknown : SeatKind

-- SEAT_KIND_CODE
abbrev pub seat_kind_code : SeatKind → ℕ
seat_kind_code not_a_seat = 0
seat_kind_code standard = 1
seat_kind_code wheelchair = 2
seat_kind_code companion = 3
seat_kind_code unknown = 4

unfoldable pub seat_kind_from_code : ℕ → Run SeatKind
seat_kind_from_code code =
    if code == 0
    then ok not_a_seat
    else if code == 1
    then ok standard
    else if code == 2
    then ok wheelchair
    else if code == 3
    then ok companion
    else if code == 4
    then ok unknown
    else throw unknown_code

pub record Geometry : Type 0 where
  pub rows : ℕ
  pub columns : ℕ
  pub seat_kinds : List ℕ
  pub tiers : List (Option String)
  pub ordinary_mask : Bitmap
  pub accessible_mask : Bitmap
  pub display_mask : Bitmap
  pub seat_names : Option (List (ℕ × String))

pub record Cell : Type 0 where
  pub row : ℕ
  pub column : ℕ
  pub kind : SeatKind
  pub tier : Option String
  pub available : Bool
  pub name : Option String
  pub visible : Bool

pub data LayoutError : Type 0 where
  invalid_dimensions invalid_coordinate coordinate_out_of_bounds duplicate_coordinate : LayoutError
  fault : Fault → LayoutError

-- An error of the bitmap functions passes through.
abbrev pub lift {ℓ} : {A : Type ℓ} → Run A → Outcome LayoutError A
lift (ok a) = ok a
lift (throw e) = throw (fault e)

pub record Masks : Type 0 where
  pub ordinary : Bitmap
  pub accessible : Bitmap

derive_step : List ℕ → ℕ → ℕ → Masks → Run Masks
derive_step kinds n i masks =
    let code = get_or kinds i 5 in
    if code == 1
    then (set_bit masks.ordinary i n true >>= λ bm. ok (record masks { ordinary = bm }))
    else if code == 2 || code == 3
    then (set_bit masks.accessible i n true >>= λ bm. ok (record masks { accessible = bm }))
    else ok masks

pub derive_kind_masks : List ℕ → ℕ → Run Masks
derive_kind_masks kinds n =
    for_range n 0 (derive_step kinds n)
      (record { ordinary = create_bitmap n; accessible = create_bitmap n })

-- The arrays that the loop over the cells fills.
pub record Build : Type 0 where
  pub seat_kinds : List ℕ
  pub tiers : List (Option String)
  pub display_mask : Bitmap
  pub availability : Bitmap
  pub seat_names : List (ℕ × String)
  pub occupied : List ℕ
  pub unknown_kind_count : ℕ

-- occupied.has(flatIndex)
abbrev pub has : List ℕ → ℕ → Bool
has [] i = false
has (j ∷ js) i = j == i || has js i

abbrev pub is_unknown : SeatKind → Bool
is_unknown unknown = true
is_unknown _ = false

abbrev pub flat_index : ℕ → Cell → ℕ
flat_index columns cell = (cell.row - 1) * columns + (cell.column - 1)

set_bit_when : Bool → Bitmap → ℕ → ℕ → Run Bitmap
set_bit_when wanted bm i n = if wanted then set_bit bm i n true else ok bm

add_name : (String → String) → Option String → ℕ → List (ℕ × String) → List (ℕ × String)
add_name normalize none i names = names
add_name normalize (some name) i names = (i, normalize name) ∷ names

write_cell : (String → String) → ℕ → ℕ → Cell → Build → Run Build
unfolding set_bit_when
write_cell normalize n i cell s = do
  displayed ← set_bit_when cell.visible s.display_mask i n
  open_seats ← set_bit_when cell.available s.availability i n
  ok (record {
    seat_kinds = set s.seat_kinds i (seat_kind_code cell.kind);
    tiers = set s.tiers i cell.tier;
    display_mask = displayed;
    availability = open_seats;
    seat_names = add_name normalize cell.name i s.seat_names;
    occupied = i ∷ s.occupied;
    unknown_kind_count =
        if is_unknown cell.kind then s.unknown_kind_count + 1 else s.unknown_kind_count;
  })

-- The body of the loop over `input.cells`, its three refusals first.
place_cell : (String → String) → ℕ → ℕ → Cell → Build → Outcome LayoutError Build
place_cell normalize rows columns cell s =
    let i = flat_index columns cell in
    if cell.row == 0 || cell.column == 0
    then throw invalid_coordinate
    else if ltb rows cell.row || ltb columns cell.column
    then throw coordinate_out_of_bounds
    else if has s.occupied i
    then throw duplicate_coordinate
    else lift (write_cell normalize (rows * columns) i cell s)

abbrev pub empty_build : ℕ → Build
empty_build n = record {
  seat_kinds = replicate n 0;
  tiers = replicate n none;
  display_mask = create_bitmap n;
  availability = create_bitmap n;
  seat_names = [];
  occupied = [];
  unknown_kind_count = 0;
}

pub record Built : Type 0 where
  pub geometry : Geometry
  pub fingerprint : String
  pub availability : Bitmap
  pub unknown_kind_count : ℕ

names_or_null : List (ℕ × String) → Option (List (ℕ × String))
names_or_null [] = none
names_or_null (n ∷ ns) = some (n ∷ ns)

finish : (Geometry → String) → ℕ → ℕ → Build → Masks → Built
finish fingerprint rows columns s masks =
    let geometry : Geometry = record {
      rows = rows;
      columns = columns;
      seat_kinds = s.seat_kinds;
      tiers = s.tiers;
      ordinary_mask = masks.ordinary;
      accessible_mask = masks.accessible;
      display_mask = s.display_mask;
      seat_names = names_or_null s.seat_names;
    } in
    record {
      geometry = geometry;
      fingerprint = fingerprint geometry;
      availability = s.availability;
      unknown_kind_count = s.unknown_kind_count;
    }

pub build_auditorium_layout :
    (String → String) → (Geometry → String) → ℕ → ℕ → List Cell → Outcome LayoutError Built
build_auditorium_layout normalize fingerprint rows columns cells =
    if rows == 0 || columns == 0 then throw invalid_dimensions else do
      s ← for_each cells (place_cell normalize rows columns) (empty_build (rows * columns))
      masks ← lift (derive_kind_masks s.seat_kinds (rows * columns))
      ok (finish fingerprint rows columns s masks)
