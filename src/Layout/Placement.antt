-- ===== src/Layout/Placement.antt =====
-- packages/core/src/layout.ts: what `buildAuditoriumLayout` builds from cells that have their own
-- places inside the grid.
use seatfirst.Prelude.{
  ℕ, zero, suc, ◌+◌, ◌-◌, ◌*◌, ◌<◌, ◌≤◌, ◌≡◌, refl, sym, ap, ◌∙◌, String, Bool, true, false, ◌||◌,
  Option, none, some, List, [], ◌∷◌, inl, inr, length, set, get_or, get_or-set, get_or-replicate,
  length-set, length-replicate, replicate, subst, All, ltb, ◌==◌, if◌then◌else◌, Bool-cases, ==_iff,
  arith,
}
use seatfirst.Prelude.Grid.{position-lt, position_unique}
use mathlib.Core.Path.{fun_ext}
use seatfirst.Prelude.Outcome.{Yields, for_each}
use seatfirst.Bitmap.{Bitmap}
use seatfirst.Bitmap.Cells.{Denotes, create_bitmap-Denotes}
use seatfirst.Bitmap.Access.{set_bit-Denotes, update}
use seatfirst.Bitmap.Runs.{Denotes-cong}
use seatfirst.Layout.{
  Cell, Build, Built, Geometry, seat_kind_code, flat_index, has, set_bit_when, write_cell, add_name,
  place_cell, empty_build, is_unknown, build_auditorium_layout, finish,
}
use seatfirst.Layout.Kinds.{derive_kind_masks_lem}

-- The cell at a flat index, of the cells given.
abbrev pub cell_at : ℕ → List Cell → ℕ → Option Cell
cell_at columns [] i = none
cell_at columns (c ∷ cs) i =
    let rest = cell_at columns cs i in
    elim rest [ some d ↦ some d | none ↦ if flat_index columns c == i then some c else none ]

abbrev pub code_at : Option Cell → ℕ
code_at none = 0
code_at (some c) = seat_kind_code c.kind

abbrev pub tier_at : Option Cell → Option String
tier_at none = none
tier_at (some c) = c.tier

abbrev pub visible_at : Option Cell → Bool
visible_at none = false
visible_at (some c) = c.visible

abbrev pub available_at : Option Cell → Bool
available_at none = false
available_at (some c) = c.available

abbrev is_filled : Option Cell → Bool
is_filled none = false
is_filled (some c) = true

-- The arrays hold the cells that `look` finds.
record Holds (n : ℕ) (look : ℕ → Option Cell) (s : Build) : Type 0 where
  kinds_size : length s.seat_kinds ≡ n
  kinds : (j : ℕ) → j < n → get_or s.seat_kinds j 5 ≡ code_at (look j)
  tiers_size : length s.tiers ≡ n
  tiers : (j : ℕ) → get_or s.tiers j none ≡ (if ltb j n then tier_at (look j) else none)
  display : Denotes s.display_mask n (λ j. visible_at (look j))
  availability : Denotes s.availability n (λ j. available_at (look j))
  occupied : (j : ℕ) → has s.occupied j ≡ is_filled (look j)

empty_build-Holds : (n : ℕ) → Holds n (λ j. none) (empty_build n)
empty_build-Holds n = record {
  kinds_size = length-replicate n 0;
  kinds = λ j lt. zeros n j lt;
  tiers_size = length-replicate n none;
  tiers = λ j. get_or-replicate {A = Option String} n j none ∙ ground arith;
  display = create_bitmap-Denotes n;
  availability = create_bitmap-Denotes n;
  occupied = λ j. refl;
}
  where
    zeros : (n j : ℕ) → j < n → get_or {A = ℕ} (replicate n 0) j 5 ≡ 0
    zeros zero j h = absurd (omega arith)
    zeros (suc n) zero h = refl
    zeros (suc n) (suc j) h = zeros n j (omega arith)

set_bit_when_lem :
    {bm : Bitmap} {n : ℕ} {f : ℕ → Bool} (wanted : Bool) (i : ℕ)
    → i < n
    → f i ≡ false
    → Denotes bm n f
    → Yields (set_bit_when wanted bm i n) (λ c. Denotes c n (update f i wanted))
unfolding set_bit_when
set_bit_when_lem true i lt h d = set_bit-Denotes i true lt d
set_bit_when_lem {bm} {n} {f} false i lt h d = (bm, refl, Denotes-cong d (λ j q. same j))
  where
    same : (j : ℕ) → f j ≡ update f i false j
    same j = elim (Bool-cases (i == j)) [
      | inl e ↦ ground (arith, ap f ((==_iff i j).0 e))
      | inr e ↦ ground arith
    ]

-- One more cell, at a place that was free.
abbrev put : (ℕ → Option Cell) → ℕ → Cell → ℕ → Option Cell
put look i c j = if i == j then some c else look j

put_field {ℓ} :
    {A : Type ℓ} (g : Option Cell → A) (look : ℕ → Option Cell) (i : ℕ) (c : Cell) (j : ℕ)
    → g (put look i c j) ≡ (if i == j then g (some c) else g (look j))
put_field g look i c j = elim (Bool-cases (i == j)) [ inl e ↦ rw e | inr e ↦ rw e ]

abbrev written : (String → String) → ℕ → Cell → Build → Bitmap → Bitmap → Build
written normalize i c s displayed opened = record {
  seat_kinds = set s.seat_kinds i (seat_kind_code c.kind);
  tiers = set s.tiers i c.tier;
  display_mask = displayed;
  availability = opened;
  seat_names = add_name normalize c.name i s.seat_names;
  occupied = i ∷ s.occupied;
  unknown_kind_count = if is_unknown c.kind then s.unknown_kind_count + 1 else s.unknown_kind_count;
}

write_cell-Holds :
    (normalize : String → String) (n i : ℕ) (c : Cell) (look : ℕ → Option Cell) (s : Build)
    → i < n
    → look i ≡ none
    → Holds n look s
    → Yields (write_cell normalize n i c s) (Holds n (put look i c))
unfolding write_cell
write_cell-Holds normalize n i c look s lt free h =
    let (d, e, shown) = set_bit_when_lem c.visible i lt (rw free refl) h.display in
    let (a, e', opened) = set_bit_when_lem c.available i lt (rw free refl) h.availability in
    (
      written normalize i c s d a,
      rw (e, e') refl,
      record {
        kinds_size = length-set s.seat_kinds i (seat_kind_code c.kind) ∙ h.kinds_size;
        kinds = λ j q. ground (
          arith,
          put_field code_at look i c j,
          h.kinds j q,
          h.kinds_size,
          get_or-set s.seat_kinds i j (seat_kind_code c.kind) 5,
        );
        tiers_size = length-set s.tiers i c.tier ∙ h.tiers_size;
        tiers = λ j.
            get_or-set s.tiers i j c.tier none
            ∙ ground (arith, put_field tier_at look i c j, h.tiers j, h.tiers_size);
        display = Denotes-cong shown (λ j q. sym (put_field visible_at look i c j));
        availability = Denotes-cong opened (λ j q. sym (put_field available_at look i c j));
        occupied = λ j. ground (arith, put_field is_filled look i c j, h.occupied j);
      },
    )

-- A cell of the grid: its coordinates count from 1.
abbrev pub Inside : ℕ → ℕ → Cell → Type 0
Inside rows columns c = (0 < c.row) × (c.row ≤ rows) × (0 < c.column) × (c.column ≤ columns)

-- No two cells have the same coordinates.
abbrev pub Distinct : List Cell → Type 0
Distinct [] = Unit
Distinct (c ∷ cs) = All (λ d. ¬ ((c.row ≡ d.row) × (c.column ≡ d.column))) cs × Distinct cs

flat_index-lt :
    (rows columns : ℕ) (c : Cell) → Inside rows columns c → flat_index columns c < rows * columns
flat_index-lt rows columns c h =
    position-lt (c.row - 1) (c.column - 1) rows columns (omega arith) (omega arith)

-- Inside the grid the flat index determines the coordinates.
flat_index-injective :
    (rows columns : ℕ) (c d : Cell)
    → Inside rows columns c
    → Inside rows columns d
    → flat_index columns c ≡ flat_index columns d
    → (c.row ≡ d.row) × (c.column ≡ d.column)
flat_index-injective rows columns c d h k e = omega (
  arith,
  position_unique (c.row - 1) (c.column - 1) (d.row - 1) (d.column - 1) columns (omega arith)
      (omega arith) e,
)

-- The cells still to come have free places.
abbrev AllFree : ℕ → (ℕ → Option Cell) → List Cell → Type 0
AllFree columns look cs = All (λ c. look (flat_index columns c) ≡ none) cs

still_free :
    (rows columns : ℕ) (look : ℕ → Option Cell) (c : Cell) (cs : List Cell)
    → Inside rows columns c
    → All (Inside rows columns) cs
    → All (λ d. ¬ ((c.row ≡ d.row) × (c.column ≡ d.column))) cs
    → AllFree columns look cs
    → AllFree columns (put look (flat_index columns c) c) cs
still_free rows columns look c [] h hs apart free = tt
still_free rows columns look c (d ∷ cs) h hs apart free = (
  elim (Bool-cases (flat_index columns c == flat_index columns d)) [
    | inl e ↦ absurd (apart.0 (flat_index-injective rows columns c d h hs.0 ((==_iff _ _).0 e)))
    | inr e ↦ rw e free.0
  ],
  still_free rows columns look c cs h hs.1 apart.1 free.1,
)

place_cell-ok :
    (normalize : String → String) (rows columns : ℕ) (c : Cell) (look : ℕ → Option Cell) (s : Build)
    → Inside rows columns c
    → look (flat_index columns c) ≡ none
    → Holds (rows * columns) look s
    → Yields
        (place_cell normalize rows columns c s)
        (Holds (rows * columns) (put look (flat_index columns c) c))
unfolding place_cell
place_cell-ok normalize rows columns c look s h free p =
    let (t, e, q) =
      write_cell-Holds normalize (rows * columns) (flat_index columns c) c look s
        (flat_index-lt rows columns c h) free p in
    let counted : (c.row == 0 || c.column == 0) ≡ false = ground arith in
    let within : (ltb rows c.row || ltb columns c.column) ≡ false = ground arith in
    let unused : has s.occupied (flat_index columns c) ≡ false =
      p.occupied (flat_index columns c) ∙ rw free refl in
    (t, rw (counted, within, unused, e) refl, q)

abbrev found : ℕ → List Cell → (ℕ → Option Cell) → ℕ → Option Cell
found columns cs look j = elim (cell_at columns cs j) [ some d ↦ some d | none ↦ look j ]

found-cons :
    (columns : ℕ) (c : Cell) (cs : List Cell) (look : ℕ → Option Cell) (j : ℕ)
    → found columns cs (put look (flat_index columns c) c) j ≡ found columns (c ∷ cs) look j
found-cons columns c cs look j = ground arith

place_cells :
    (normalize : String → String) (rows columns : ℕ) (cs : List Cell) (look : ℕ → Option Cell)
    (s : Build)
    → All (Inside rows columns) cs
    → Distinct cs
    → AllFree columns look cs
    → Holds (rows * columns) look s
    → Yields
        (for_each cs (place_cell normalize rows columns) s)
        (Holds (rows * columns) (found columns cs look))
unfolding for_each
place_cells normalize rows columns [] look s hs apart free p = (s, refl, p)
place_cells normalize rows columns (c ∷ cs) look s hs apart free p =
    let (t, e, q) = place_cell-ok normalize rows columns c look s hs.0 free.0 p in
    let (u, e', r) =
      place_cells normalize rows columns cs (put look (flat_index columns c) c) t hs.1 apart.1
        (still_free rows columns look c cs hs.0 hs.1 apart.0 free.1) q in
    (u, rw e e', subst (λ f. Holds (rows * columns) f u) (fun_ext (found-cons columns c cs look)) r)

all_free : (columns : ℕ) (cs : List Cell) → AllFree columns (λ j. none) cs
all_free columns [] = tt
all_free columns (c ∷ cs) = (refl, all_free columns cs)

-- What the arrays of a layout say of the cells that it was built from.
pub record BuiltFrom (rows columns : ℕ) (cells : List Cell) (b : Built) : Type 0 where
  pub same_rows : b.geometry.rows ≡ rows
  pub same_columns : b.geometry.columns ≡ columns
  pub kinds_size : length b.geometry.seat_kinds ≡ rows * columns
  pub kinds :
      (j : ℕ)
      → j < rows * columns
      → get_or b.geometry.seat_kinds j 5 ≡ code_at (cell_at columns cells j)
  pub tiers :
      (j : ℕ)
      → j < rows * columns
      → get_or b.geometry.tiers j none ≡ tier_at (cell_at columns cells j)
  pub display :
      Denotes b.geometry.display_mask (rows * columns) (λ j. visible_at (cell_at columns cells j))
  pub availability :
      Denotes b.availability (rows * columns) (λ j. available_at (cell_at columns cells j))
  pub ordinary :
      Denotes b.geometry.ordinary_mask
        (rows * columns)
        (λ j. code_at (cell_at columns cells j) == 1)
  pub accessible :
      Denotes b.geometry.accessible_mask
        (rows * columns)
        (λ j. code_at (cell_at columns cells j) == 2 || code_at (cell_at columns cells j) == 3)

-- With positive dimensions and cells inside the grid at distinct coordinates, the layout is built,
-- and its kind codes, tiers, display mask, availability, ordinary mask and accessible mask hold at
-- each position what the cell at that position says, and the values of a gap elsewhere.
pub build_auditorium_layout-BuiltFrom :
    (normalize : String → String) (fingerprint : Geometry → String) (rows columns : ℕ)
    (cells : List Cell)
    → 0 < rows
    → 0 < columns
    → All (Inside rows columns) cells
    → Distinct cells
    → Yields
        (build_auditorium_layout normalize fingerprint rows columns cells)
        (BuiltFrom rows columns cells)
unfolding build_auditorium_layout finish
build_auditorium_layout-BuiltFrom normalize fingerprint rows columns cells p q inside apart =
    let n : ℕ = rows * columns in
    let (s, e, h) =
      place_cells normalize rows columns cells (λ j. none) (empty_build n) inside apart
        (all_free columns cells) (empty_build-Holds n) in
    let (masks, e', m) = derive_kind_masks_lem s.seat_kinds n in
    let sized : (rows == 0 || columns == 0) ≡ false = ground arith in
    let same : (j : ℕ) → found columns cells (λ j. none) j ≡ cell_at columns cells j =
      λ j. ground arith in
    (
      finish fingerprint rows columns s masks,
      rw (sized, e, e') refl,
      record {
        same_rows = refl;
        same_columns = refl;
        kinds_size = h.kinds_size;
        kinds = λ j lt. h.kinds j lt ∙ ap code_at (same j);
        tiers = λ j lt. h.tiers j ∙ ground (arith, ap tier_at (same j));
        display = Denotes-cong h.display (λ j lt. ap visible_at (same j));
        availability = Denotes-cong h.availability (λ j lt. ap available_at (same j));
        ordinary =
            Denotes-cong m.0 (λ j lt. ap (λ (k : ℕ). k == 1) (h.kinds j lt ∙ ap code_at (same j)));
        accessible =
            Denotes-cong m.1
              (λ j lt. ap (λ (k : ℕ). k == 2 || k == 3) (h.kinds j lt ∙ ap code_at (same j)));
      },
    )
