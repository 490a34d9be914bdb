-- ===== src/Recovery.antt =====
-- packages/core/src/recovery-ladder.ts: the alternatives offered when a placement is gone. Numbers are
-- natural. A run score, which is only compared, is the bit pattern of the nonnegative double: it
-- orders alike. A placement key, 16 hex digits that are only compared, is the number they spell;
-- `key_of` is the hash of its five fields.
pub mod Schema
pub mod Rungs
use seatfirst.Prelude.{
  ℕ, zero, suc, ◌+◌, ◌-◌, ◌*◌, ◌/◌, String, Bool, true, false, not, ◌&&◌, ◌||◌, Option, none, some,
  List, [], ◌∷◌, ◌++◌, length, ltb, leb, ◌==◌, if◌then◌else◌,
}
use seatfirst.Prelude.Outcome.{Outcome, ok, throw, ◌>>=◌, ◌>>◌}
use text.Mathlib.Text.{◌==◌ as same_text}
use seatfirst.Sorting.{sort, ascending, descending, tied}

pub record Placement : Type 0 where
  pub layout_id : String
  pub row : ℕ
  pub start_col : ℕ
  pub row_span : ℕ
  pub count : ℕ
  pub seat_names : List String
  pub placement_key : ℕ

pub record GroupHit : Type 0 where
  pub row : ℕ
  pub start_col : ℕ
  pub row_span : ℕ
  pub run_score : ℕ
  pub showtime_indices : List ℕ

-- Of a showtime the ladder reads its id and its instant, in milliseconds.
pub record Showtime : Type 0 where
  pub showtime_id : String
  pub time : ℕ

pub record ResultGroup : Type 0 where
  pub layout_id : String
  pub columns : ℕ
  pub seat_names : ℕ → Option String
  pub showtimes : List Showtime
  pub group_hits : Option (List GroupHit)

pub record LadderInput : Type 0 where
  pub gone_placement : Placement
  pub gone_showtime_id : String
  pub group : ResultGroup
  pub row_weight : ℕ

pub record Relaxation : Type 0 where
  pub kind : String
  pub label : String

pub record RecoveryOption : Type 0 where
  pub level : ℕ
  pub placement : Placement
  pub showtime_id : String
  pub relaxed : List Relaxation
  pub requires_consent : Bool

-- A TypeError, where a property of an undefined showtime is read, or the ZodError of an option that
-- the schema refuses.
pub data Crash : Type 0 where
  undefined_showtime invalid_option : Crash

-- sha256 of layoutId|row|startCol|rowSpan|count, cut to 16 hex digits
abbrev pub KeyOf : Type 0
KeyOf = String → ℕ → ℕ → ℕ → ℕ → ℕ

abbrev pub apart : ℕ → ℕ → ℕ
apart a b = (a - b) + (b - a)

-- The loop `columnOffset < count / rowSpan` makes this many rounds, also where the quotient is no
-- integer; `none` for infinitely many, where the divisor alone is 0. 0 / 0 is NaN: no round.
abbrev pub member_columns : Placement → Option ℕ
member_columns p =
    if p.row_span == 0
    then if p.count == 0 then some 0 else none
    else some ((p.count + p.row_span - 1) / p.row_span)

pub names_of_row : (ℕ → Option String) → ℕ → ℕ → Option (List String)
names_of_row name_of zero cell = some []
names_of_row name_of (suc n) cell = elim (name_of cell) [
  | none ↦ none
  | some name ↦ elim (names_of_row name_of n (cell + 1)) [
    | none ↦ none
    | some rest ↦ some (name ∷ rest)
  ]
]

-- The names are those of a finite object, so a row without end meets a cell that has none.
pub names_of_columns : (ℕ → Option String) → Option ℕ → ℕ → Option (List String)
unfolding names_of_row
names_of_columns name_of none cell = none
names_of_columns name_of (some n) cell = names_of_row name_of n cell

pub names_of_block : (ℕ → Option String) → ℕ → Option ℕ → ℕ → ℕ → Option (List String)
unfolding names_of_columns
names_of_block name_of zero cols columns cell = some []
names_of_block name_of (suc span) cols columns cell = elim (names_of_columns name_of cols cell) [
  | none ↦ none
  | some names ↦ elim (names_of_block name_of span cols columns (cell + columns)) [
    | none ↦ none
    | some rest ↦ some (names ++ rest)
  ]
]

module _ (key_of : KeyOf) where
  pub build_placement : ResultGroup → GroupHit → ℕ → Option ℕ → Option Placement
  unfolding names_of_block
  build_placement group hit count member_cols =
      elim (names_of_block group.seat_names hit.row_span member_cols group.columns
        (hit.row * group.columns + hit.start_col)) [
          | none ↦ none
          | some names ↦ some (record {
            layout_id = group.layout_id;
            row = hit.row;
            start_col = hit.start_col;
            row_span = hit.row_span;
            count = count;
            seat_names = names;
            placement_key = key_of group.layout_id hit.row hit.start_col hit.row_span count;
          })
        ]

-- showtimes.findIndex, with `none` for -1
pub index_from : String → ℕ → List Showtime → Option ℕ
index_from id i [] = none
index_from id i (s ∷ ss) = if same_text s.showtime_id id then some i else index_from id (i + 1) ss

unfoldable pub resolve_gone_showtime_index : ResultGroup → String → Option ℕ
unfolding index_from
resolve_gone_showtime_index group id = index_from id 0 group.showtimes

-- showtimeIndices.includes
abbrev pub offered_at : List ℕ → ℕ → Bool
offered_at [] i = false
offered_at (j ∷ js) i = j == i || offered_at js i

pub record Candidate : Type 0 where
  pub hit : GroupHit
  pub placement : Placement
  pub distance : ℕ
  pub eligible : List ℕ

-- compareRecoveryCandidates
abbrev pub by_quality : Candidate → Candidate → Bool
by_quality =
    descending (λ c. c.hit.run_score)
      (descending (λ c. length c.hit.showtime_indices)
        (ascending (λ c. c.hit.start_col) (ascending (λ c. c.placement.placement_key) tied)))

abbrev pub by_distance : Candidate → Candidate → Bool
by_distance = ascending (λ c. c.distance) by_quality

-- What the rungs share: the gone group, the gone showtime's index and at least one hit.
pub data Ground : Type 0 where
  no_ground : Ground
  ground_at : ℕ → List GroupHit → Ground

pub hits_or_none : Option (List GroupHit) → ℕ → Ground
hits_or_none none i = no_ground
hits_or_none (some []) i = no_ground
hits_or_none (some (h ∷ hs)) i = ground_at i (h ∷ hs)

unfoldable pub common_ground : LadderInput → Ground
unfolding hits_or_none
common_ground input =
    if same_text input.group.layout_id input.gone_placement.layout_id
    then elim (resolve_gone_showtime_index input.group input.gone_showtime_id) [
      | none ↦ no_ground
      | some i ↦ hits_or_none input.group.group_hits i
    ]
    else no_ground
