-- ===== src/Answer.antt =====
-- packages/core/src/answer-assembly.ts: the recommendations made of the hits of the result groups.
-- Of a showtime the code's test reads `resolved`; what an offer copies from it is its identifier here.
-- `Measure` is the arithmetic of doubles that the code uses, `key_of` the hash of a placement.
pub mod Built
pub mod Conditions
pub mod Origins
pub mod Ranked
pub mod Selection
pub mod Totality
pub mod Served
use seatfirst.Prelude.{
  ℕ, zero, suc, ◌+◌, ◌-◌, ◌*◌, String, Bool, true, false, not, ◌&&◌, ◌||◌, Option, none, some, List,
  [], ◌∷◌, ◌++◌, map, length, get_elem?, get_or, ltb, leb, ◌==◌, if◌then◌else◌,
}
use seatfirst.Prelude.Int.{ℤ, negsuc, is_zero}
use seatfirst.Prelude.Outcome.{Outcome, ok, throw, ◌>>=◌, ◌>>◌}
use seatfirst.Sorting.{sort, ascending, descending, tied}
use seatfirst.Region.{SeatMetrics}
use seatfirst.Recovery.{Placement, GroupHit, KeyOf}
use seatfirst.Group.{GroupShape, run, block, split}

pub record Measure : Type 1 where
  pub Real : Type 0
  pub zero_real : Real
  pub mean : List Real → Real
  pub magnitude : Real → Real
  pub le : Real → Real → Bool
  -- |depth - 0.65|, round(x * 100), a / b >= c, and the literals 0.15, 1 / 3 and 2 / 3
  pub from_sweet_spot : Real → Real
  pub percent : Real → ℤ
  pub at_least_fraction : ℕ → ℕ → Real → Bool
  pub centered_max : Real
  pub front_third : Real
  pub middle_third_back : Real
  -- The places of a number and of a run score among the numbers.
  pub position : Real → ℕ
  pub score_position : ℕ → ℕ

pub data Threshold (R : Type 0) : Type 0 where
  no_threshold : Threshold R
  at_least : ℕ → Threshold R
  all_showtimes : Threshold R
  fraction : R → Threshold R

pub data Reason : Type 0 where
  together : ℕ → Reason
  multi_showtime : ℕ → Reason
  centered_at : ℤ → Reason
  middle_third aisle_adjacent avoids_front : Reason

pub data Relaxed : Type 0 where
  outside_region : String → Relaxed
  fewer_showtimes : Relaxed
  unresolved_showtimes : ℕ → Relaxed

pub record GroupShowtime : Type 0 where
  pub showtime_id : String
  pub is_resolved : Bool

pub record AnswerGroup (R : Type 0) : Type 0 where
  pub layout_id : String
  pub columns : ℕ
  pub metrics : SeatMetrics R
  pub seat_names : ℕ → Option String
  pub region_mask : Option (List ℕ)
  pub showtimes : List GroupShowtime
  pub group_hits : Option (List GroupHit)

-- `region_label` is `regionLabel` of the region of the spec, where it has one.
pub record Spec (R : Type 0) : Type 0 where
  pub region_label : Option String
  pub threshold : Threshold R
  pub group : Option GroupShape

pub record Dimensions : Type 0 where
  pub count : ℕ
  pub columns_of : ℕ

pub record Recommendation : Type 0 where
  pub placement : Placement
  pub reasons : List Reason
  pub relaxed : List Relaxed
  pub showtimes : List String

pub record Candidate (R : Type 0) : Type 0 where
  pub score : ℕ
  pub showtime_count : ℕ
  pub mean_depth : R
  pub start_col : ℕ
  pub placement_key : ℕ
  pub recommendation : Recommendation

pub data Alternatives : Type 0 where
  two : Recommendation → Recommendation → Alternatives
  three : Recommendation → Recommendation → Recommendation → Alternatives

pub record Evidence : Type 0 where
  pub exact : Option Recommendation
  pub hedged : Option Alternatives
  pub hit_placements : List (List (Option Placement))

pub data AnswerError : Type 0 where
  undefined_showtime unresolved_showtime : AnswerError

abbrev pub group_dimensions : Option GroupShape → Option Dimensions
group_dimensions none = none
group_dimensions (some (run count)) = some (record { count = count; columns_of = count })
group_dimensions (some (block rows cols)) = some (record { count = rows * cols; columns_of = cols })
group_dimensions (some (split count groups same_row)) = none

-- A row of member cells with their names, if all have one.
unfoldable pub cells_of_row : (ℕ → Option String) → ℕ → ℕ → Option (List (ℕ × String))
cells_of_row name_of zero cell = some []
cells_of_row name_of (suc n) cell = elim (name_of cell) [
  | none ↦ none
  | some name ↦ elim (cells_of_row name_of n (cell + 1)) [
    | none ↦ none
    | some rest ↦ some ((cell, name) ∷ rest)
  ]
]

unfoldable pub member_cells : (ℕ → Option String) → ℕ → ℕ → ℕ → ℕ → Option (List (ℕ × String))
unfolding cells_of_row
member_cells name_of columns zero cols cell = some []
member_cells name_of columns (suc rows) cols cell = elim (cells_of_row name_of cols cell) [
  | none ↦ none
  | some here ↦ elim (member_cells name_of columns rows cols (cell + columns)) [
    | none ↦ none
    | some rest ↦ some (here ++ rest)
  ]
]

pub count_resolved : List GroupShowtime → ℕ
count_resolved [] = 0
count_resolved (s ∷ ss) = (if s.is_resolved then 1 else 0) + count_resolved ss

some_aisle : List ℤ → List ℕ → Bool
some_aisle distances [] = false
some_aisle distances (cell ∷ cells) =
    is_zero (get_or distances cell (negsuc 0)) || some_aisle distances cells

pub some_outside : Option (List ℕ) → List ℕ → Bool
some_outside none cells = false
some_outside (some mask) [] = false
some_outside (some mask) (cell ∷ cells) = get_or mask cell 1 == 0 || some_outside (some mask) cells

abbrev pub when : {A : Type 0} → Bool → A → List A
when true a = a ∷ []
when false a = []

abbrev pub outside_label : Bool → Option String → List Relaxed
outside_label outside none = []
outside_label outside (some label) = when outside (outside_region label)

abbrev pub hits_of_group : Option (List GroupHit) → List GroupHit
hits_of_group none = []
hits_of_group (some hits) = hits

-- toShowtimeOffer
unfoldable pub offer_of : Option GroupShowtime → Outcome AnswerError String
offer_of none = throw undefined_showtime
offer_of (some s) = if s.is_resolved then ok s.showtime_id else throw unresolved_showtime

unfoldable pub offers_of : List GroupShowtime → List ℕ → Outcome AnswerError (List String)
unfolding offer_of
offers_of showtimes [] = ok []
offers_of showtimes (i ∷ is) = do
  offer ← offer_of (get_elem? showtimes i)
  rest ← offers_of showtimes is
  ok (offer ∷ rest)

module _ (M : Measure) (key_of : KeyOf) where
  open M use {Real, mean, magnitude, le}

  pub threshold_met : Threshold Real → ℕ → ℕ → Bool
  threshold_met no_threshold showtimes resolved = true
  threshold_met (at_least n) showtimes resolved = leb n showtimes
  threshold_met all_showtimes showtimes resolved = showtimes == resolved
  threshold_met (fraction least) showtimes resolved = M.at_least_fraction showtimes resolved least

  reasons_for : ℕ → ℕ → Real → Real → Real → Bool → List Reason
  reasons_for count showtimes depth lateral off_center aisle =
      together count ∷ when (ltb 1 showtimes) (multi_showtime showtimes)
      ++ when (le off_center M.centered_max) (centered_at (M.percent lateral))
      ++ when (le M.front_third depth && le depth M.middle_third_back) middle_third
      ++ when aisle aisle_adjacent
      ++ when (le M.front_third depth) avoids_front

  pub relaxed_for : Spec Real → AnswerGroup Real → ℕ → List ℕ → List Relaxed
  unfolding count_resolved some_outside threshold_met
  relaxed_for spec group showtimes cells =
      let resolved = count_resolved group.showtimes in
      let unresolved = length group.showtimes - resolved in
      outside_label (some_outside group.region_mask cells) spec.region_label
      ++ when (not (threshold_met spec.threshold showtimes resolved)) fewer_showtimes
      ++ when (ltb 0 unresolved) (unresolved_showtimes unresolved)

  unfoldable pub candidate_of :
      Spec Real
      → AnswerGroup Real
      → GroupHit
      → Dimensions
      → List (ℕ × String)
      → List String
      → Candidate Real
  unfolding reasons_for relaxed_for some_aisle
  candidate_of spec group hit d members offers =
      let cells = map (λ m. m.0) members in
      let depth = mean (map (λ cell. get_or group.metrics.depths cell M.zero_real) cells) in
      let laterals = map (λ cell. get_or group.metrics.laterals cell M.zero_real) cells in
      let key = key_of group.layout_id hit.row hit.start_col hit.row_span d.count in
      let showtimes = length hit.showtime_indices in
      record {
        score = hit.run_score;
        showtime_count = showtimes;
        mean_depth = depth;
        start_col = hit.start_col;
        placement_key = key;
        recommendation = record {
          placement = record {
            layout_id = group.layout_id;
            row = hit.row;
            start_col = hit.start_col;
            row_span = hit.row_span;
            count = d.count;
            seat_names = map (λ m. m.1) members;
            placement_key = key;
          };
          reasons =
              reasons_for d.count showtimes depth (mean laterals) (mean (map magnitude laterals))
                (some_aisle group.metrics.aisle_distance cells);
          relaxed = relaxed_for spec group showtimes cells;
          showtimes = offers;
        };
      }

  unfoldable pub candidate_when_named :
      Spec Real
      → AnswerGroup Real
      → Dimensions
      → GroupHit
      → Option (List (ℕ × String))
      → Outcome AnswerError (Option (Candidate Real))
  unfolding candidate_of offers_of
  candidate_when_named spec group d hit none = ok none
  candidate_when_named spec group d hit (some members) =
      offers_of group.showtimes hit.showtime_indices >>= λ offers.
      ok (some (candidate_of spec group hit d members offers))

  unfoldable pub build_candidate :
      Spec Real
      → AnswerGroup Real
      → Dimensions
      → GroupHit
      → Outcome AnswerError (Option (Candidate Real))
  unfolding member_cells candidate_when_named
  build_candidate spec group d hit = candidate_when_named spec group d hit (
      member_cells group.seat_names group.columns hit.row_span d.columns_of
        (hit.row * group.columns + hit.start_col))

  unfoldable pub build_hits :
      Spec Real
      → AnswerGroup Real
      → Dimensions
      → List GroupHit
      → Outcome AnswerError (List (Option (Candidate Real)))
  unfolding build_candidate
  build_hits spec group d [] = ok []
  build_hits spec group d (hit ∷ hits) = do
    first ← build_candidate spec group d hit
    rest ← build_hits spec group d hits
    ok (first ∷ rest)

  -- The candidates of each group, `none` for a hit that has none.
  unfoldable pub build_groups :
      Spec Real
      → Dimensions
      → List (AnswerGroup Real)
      → Outcome AnswerError (List (List (Option (Candidate Real))))
  unfolding build_hits
  build_groups spec d [] = ok []
  build_groups spec d (g ∷ gs) = do
    first ← build_hits spec g d (hits_of_group g.group_hits)
    rest ← build_groups spec d gs
    ok (first ∷ rest)

  abbrev pub candidate_order : Candidate Real → Candidate Real → Bool
  candidate_order =
      descending (λ c. M.score_position c.score)
        (descending (λ c. c.showtime_count)
          (ascending (λ c. M.position (M.from_sweet_spot c.mean_depth))
            (ascending (λ c. M.position c.mean_depth)
              (ascending (λ c. c.start_col) (ascending (λ c. c.placement_key) tied)))))
