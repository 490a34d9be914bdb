-- ===== src/Region/Syntax.antt =====
-- packages/core/src/search-spec.ts and region.ts: the tree of a seat region, its schema and its
-- presets. Numbers with a fraction are of an abstract type with the operations that the code uses.
use seatfirst.Prelude.{ℕ, Bool, true, false, ◌&&◌, List, [], ◌∷◌, leb}
use seatfirst.Layout.{SeatKind}

-- JavaScript's numbers, as far as regions use them: `hundredths n` is the literal n / 100.
pub record Number : Type 1 where
  pub Real : Type 0
  pub le : Real → Real → Bool
  pub magnitude : Real → Real
  pub hundredths : ℕ → Real
  pub minus_one : Real
  pub not_a_number : Real

pub data PresetName : Type 0 where
  sweet_spot center_block back_center avoid_front legroom outer_ring : PresetName

pub data AisleWish : Type 0 where
  adjacent avoid : AisleWish

mutual
  pub data SeatRegion (R : Type 0) : Type 0 where
    all : SeatRegion R
    preset : PresetName → SeatRegion R
    depth : R → R → SeatRegion R
    lateral : R → SeatRegion R
    aisle : AisleWish → SeatRegion R
    seat_type : List SeatKind → SeatRegion R
    score : R → SeatRegion R
    row_range : ℕ → ℕ → SeatRegion R
    both : Regions R → SeatRegion R
    either : Regions R → SeatRegion R
    never : SeatRegion R → SeatRegion R

  pub data Regions (R : Type 0) : Type 0 where
    nil : Regions R
    cons : SeatRegion R → Regions R → Regions R

module _ (N : Number) where
  open N use {Real, le, hundredths}

  -- presetRegion
  unfoldable pub preset_region : PresetName → SeatRegion Real
  preset_region sweet_spot = score (hundredths 75)
  preset_region center_block = lateral (hundredths 35)
  preset_region back_center =
      both (cons (depth (hundredths 60) (hundredths 100)) (cons (lateral (hundredths 40)) nil))
  preset_region avoid_front = depth (hundredths 25) (hundredths 100)
  preset_region legroom = aisle adjacent
  preset_region outer_ring = never (lateral (hundredths 35))

  pub in_unit : Real → Bool
  in_unit x = le (hundredths 0) x && le x (hundredths 100)

abbrev pub some_kind : List SeatKind → Bool
some_kind [] = false
some_kind (k ∷ ks) = true

abbrev pub some_region : {R : Type 0} → Regions R → Bool
some_region nil = false
some_region (cons r rs) = true

module _ (N : Number) where
  open N use {Real, le}

  -- SeatRegionSchema accepts the tree.
  unfoldable mutual
    unfolding in_unit

    pub is_valid : SeatRegion Real → Bool
    is_valid all = true
    is_valid (preset name) = true
    is_valid (depth from to) = in_unit N from && in_unit N to && le from to
    is_valid (lateral max_offset) = in_unit N max_offset
    is_valid (aisle want) = true
    is_valid (seat_type include) = some_kind include
    is_valid (score least) = in_unit N least
    is_valid (row_range from to) = leb from to
    is_valid (both of) = some_region of && all_valid of
    is_valid (either of) = some_region of && all_valid of
    is_valid (never of) = is_valid of

    pub all_valid : Regions Real → Bool
    all_valid nil = true
    all_valid (cons r rs) = is_valid r && all_valid rs
