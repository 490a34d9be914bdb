-- ===== src/Recovery/Rungs/Valid.antt =====
-- packages/core/src/recovery-ladder.ts: what the ladder is given, and the options the schema accepts.
use seatfirst.Prelude.{
  ℕ, zero, suc, ◌+◌, ◌-◌, ◌*◌, ◌/◌, ◌<◌, ◌≡◌, refl, sym, subst, String, true, Option, none, some,
  List, [], ◌∷◌, ◌++◌, inl, inr, All, length, Option-cases, arith,
}
use seatfirst.Prelude.Outcome.{ok}
use native.Mathlib.Nat.{add-div_right}
use seatfirst.Recovery.{
  Placement, GroupHit, Showtime, LadderInput, RecoveryOption, KeyOf, member_columns, names_of_row,
  names_of_columns, names_of_block, build_placement, Ground, no_ground, ground_at, hits_or_none,
  common_ground, resolve_gone_showtime_index,
}
use seatfirst.Recovery.Schema.{
  is_nonempty, all_nonempty, is_valid_placement, has_kind, is_valid_relaxation,
  all_valid_relaxations, is_valid_option, parse_option,
}
use seatfirst.Sorting.{In}
use seatfirst.Recovery.Rungs.{place, plain_option, level_4_relaxation}

abbrev pub AllHits : (GroupHit → Type 0) → Option (List GroupHit) → Type 0
AllHits P none = Unit
AllHits P (some hits) = All P hits

-- Every showtime index of the hit is one of the group's.
abbrev pub InRange : LadderInput → GroupHit → Type 0
InRange input h = All (λ i. i < length input.group.showtimes) h.showtime_indices

-- What PlacementSchema grants of the gone placement, and ResultGroupSchema of the group's names.
pub record IsParsed (input : LadderInput) : Type 0 where
  pub gone_placement : is_valid_placement input.gone_placement ≡ true
  pub gone_showtime_id : is_nonempty input.gone_showtime_id ≡ true
  pub layout_id : is_nonempty input.group.layout_id ≡ true
  pub seat_names :
      (cell : ℕ) (name : String) → input.group.seat_names cell ≡ some name → is_nonempty name ≡ true
  pub showtimes : All (λ (s : Showtime). is_nonempty s.showtime_id ≡ true) input.group.showtimes

-- Also the group's hits have passed ResultGroupSchema.
pub record IsLadderInput (input : LadderInput) : Type 0 where
  pub parsed : IsParsed input
  pub spans : AllHits (λ h. 0 < h.row_span) input.group.group_hits
  pub in_range : AllHits (InRange input) input.group.group_hits

-- What the schema demands of a placement.
record PlacementParts (p : Placement) : Type 0 where
  layout_id : is_nonempty p.layout_id ≡ true
  row_span : 0 < p.row_span
  count : 0 < p.count
  seats : 0 < length p.seat_names
  seat_names : all_nonempty p.seat_names ≡ true

placement-parts : (p : Placement) → is_valid_placement p ≡ true → PlacementParts p
unfolding is_valid_placement
placement-parts p v = record {
  layout_id = ground (arith, v);
  row_span = ground (arith, v);
  count = ground (arith, v);
  seats = ground (arith, v);
  seat_names = ground (arith, v);
}

pub valid-span : (p : Placement) → is_valid_placement p ≡ true → 0 < p.row_span
valid-span p v = (placement-parts p v).row_span

parts-placement : (p : Placement) → PlacementParts p → is_valid_placement p ≡ true
unfolding is_valid_placement
parts-placement p v = ground (arith, v.layout_id, v.row_span, v.count, v.seats, v.seat_names)

member_columns-pos :
    (p : Placement) → 0 < p.row_span → 0 < p.count → (k : ℕ) × (member_columns p ≡ some (suc k))
member_columns-pos p span count =
    let e : p.count + p.row_span - 1 ≡ (p.count - 1) + p.row_span = omega (arith, span, count) in
    let q = add-div_right (p.count - 1) span in
    ((p.count - 1) / p.row_span, ground (arith, e, q, span))

all_nonempty-append :
    (xs ys : List String)
    → all_nonempty xs ≡ true
    → all_nonempty ys ≡ true
    → all_nonempty (xs ++ ys) ≡ true
unfolding all_nonempty
all_nonempty-append [] ys p q = q
all_nonempty-append (x ∷ xs) ys p q = ground (arith, p, all_nonempty-append xs ys, q)

length-append_pos : (xs ys : List String) → 0 < length xs → 0 < length (xs ++ ys)
length-append_pos [] ys h = absurd (omega (arith, h))
length-append_pos (x ∷ xs) ys h = omega arith

module _ (name_of : ℕ → Option String)
    (nonempty : (cell : ℕ) (name : String)
      → name_of cell ≡ some name
      → is_nonempty name ≡ true) where
  names_of_row-nonempty :
      (n cell : ℕ) (names : List String)
      → names_of_row name_of n cell ≡ some names
      → (all_nonempty names ≡ true) × (length names ≡ n)
  unfolding names_of_row all_nonempty
  names_of_row-nonempty zero cell names e = ground (arith, e)
  names_of_row-nonempty (suc n) cell names e = elim (Option-cases (name_of cell)) [
    | inl missing ↦ absurd (ground (arith, missing, e))
    | inr (name, at) ↦ elim (Option-cases (names_of_row name_of n (cell + 1))) [
      | inl missing ↦ absurd (ground (arith, at, missing, e))
      | inr (rest, later) ↦
          let (v, size) = names_of_row-nonempty n (cell + 1) rest later in
          ground (arith, at, later, e, v, size, nonempty cell name at)
    ]
  ]

  names_of_block-nonempty :
      (span k columns cell : ℕ) (names : List String)
      → names_of_block name_of span (some (suc k)) columns cell ≡ some names
      → (all_nonempty names ≡ true) × (0 < span → 0 < length names)
  unfolding names_of_block names_of_columns all_nonempty
  names_of_block-nonempty zero k columns cell names e =
      (ground (arith, e), λ h. absurd (omega (arith, h)))
  names_of_block-nonempty (suc span) k columns cell names e =
      elim (Option-cases (names_of_row name_of (suc k) cell)) [
        | inl missing ↦ absurd (ground (arith, missing, e))
        | inr (here, at) ↦
            elim (Option-cases
              (names_of_block name_of span (some (suc k)) columns (cell + columns))) [
                | inl missing ↦ absurd (ground (arith, at, missing, e))
                | inr (rest, later) ↦
                    let (v, size) = names_of_row-nonempty (suc k) cell here at in
                    let (w, _) =
                      names_of_block-nonempty span k columns (cell + columns) rest later in
                    let joined : names ≡ here ++ rest = ground (arith, at, later, e) in
                    rw joined (
                      all_nonempty-append here rest v w,
                      λ h. length-append_pos here rest (omega (arith, size)),
                    )
              ]
      ]

module _ (key_of : KeyOf) (input : LadderInput) (v : IsLadderInput input) where
  -- The placement of a hit passes PlacementSchema.
  pub place-valid :
      (h : GroupHit) (p : Placement)
      → 0 < h.row_span
      → place key_of input h ≡ some p
      → is_valid_placement p ≡ true
  unfolding place build_placement
  place-valid h p span e =
      let gone = placement-parts input.gone_placement v.parsed.gone_placement in
      let (k, columns) = member_columns-pos input.gone_placement gone.row_span gone.count in
      let cell = h.row * input.group.columns + h.start_col in
      elim (Option-cases (
        names_of_block input.group.seat_names h.row_span (some (suc k)) input.group.columns cell)) [
          | inl missing ↦ absurd (ground (arith, columns, missing, e))
          | inr (names, found) ↦
              let (w, size) =
                names_of_block-nonempty input.group.seat_names v.parsed.seat_names h.row_span k
                  input.group.columns cell names found in
              parts-placement p record {
                layout_id = ground (arith, columns, found, e, v.parsed.layout_id);
                row_span = ground (arith, columns, found, e, span);
                count = ground (arith, columns, found, e, gone.count);
                seats = ground (arith, columns, found, e, size span);
                seat_names = ground (arith, columns, found, e, w);
              }
        ]

-- An option of the levels 1 to 3 passes, if its placement and its showtime do.
pub plain-parsed :
    (level : ℕ) (p : Placement) (id : String)
    → 0 < level
    → level < 4
    → is_valid_placement p ≡ true
    → is_nonempty id ≡ true
    → parse_option (plain_option level p id) ≡ ok (some (plain_option level p id))
unfolding parse_option is_valid_option all_valid_relaxations
plain-parsed level p id low high placed named = ground (arith, low, high, placed, named)

-- An option of level 4.
abbrev pub far_option : Placement → String → RecoveryOption
far_option p id = record {
  level = 4;
  placement = p;
  showtime_id = id;
  relaxed = level_4_relaxation ∷ [];
  requires_consent = true;
}

level_4_relaxation-valid : all_valid_relaxations (level_4_relaxation ∷ []) ≡ true
unfolding all_valid_relaxations is_valid_relaxation has_kind
level_4_relaxation-valid = refl

pub far-parsed :
    (p : Placement) (id : String)
    → is_valid_placement p ≡ true
    → is_nonempty id ≡ true
    → parse_option (far_option p id) ≡ ok (some (far_option p id))
unfolding parse_option is_valid_option
far-parsed p id placed named = ground (arith, placed, named, level_4_relaxation-valid)

pub In-All : {A : Type 0} (P : A → Type 0) (xs : List A) (x : A) → All P xs → In x xs → P x
In-All P [] x a m = absurd m
In-All P (y ∷ ys) x a (inl e) = subst P (sym e) a.0
In-All P (y ∷ ys) x a (inr m) = In-All P ys x a.1 m

-- What a ground comes from.
unfoldable pub GroundOf : LadderInput → Ground → Type 0
GroundOf input no_ground = Unit
GroundOf input (ground_at gone hits) =
    (resolve_gone_showtime_index input.group input.gone_showtime_id ≡ some gone)
    × (input.group.group_hits ≡ some hits)

pub common_ground-GroundOf : (input : LadderInput) → GroundOf input (common_ground input)
unfolding GroundOf common_ground hits_or_none
common_ground-GroundOf input = ground arith

pub ground_of :
    (input : LadderInput) (gone : ℕ) (hits : List GroupHit)
    → common_ground input ≡ ground_at gone hits
    → (resolve_gone_showtime_index input.group input.gone_showtime_id ≡ some gone)
      × (input.group.group_hits ≡ some hits)
unfolding GroundOf
ground_of input gone hits e = subst (GroundOf input) e (common_ground-GroundOf input)
