-- ===== src/Region.antt =====
-- packages/core/src/region.ts: a region compiled to the mask of its seats, and the run starts that
-- a region admits. `SeatRegionSchema.parse` is `is_valid`; a number that is missing from a metric
-- array is read as in the source (-1 or NaN).
pub mod Syntax
pub mod Holds
pub mod Compile
pub mod Starts
use seatfirst.Prelude.{
  ℕ, zero, suc, ◌+◌, ◌-◌, ◌*◌, ◌/◌, ◌%◌, Bool, true, false, not, ◌&&◌, ◌||◌, List, [], ◌∷◌, ◌++◌,
  length, get_or, ltb, leb, ◌==◌, if◌then◌else◌,
}
use seatfirst.Prelude.Int.{ℤ, negsuc, is_nonnegative, is_zero, is_positive}
use seatfirst.Prelude.Outcome.{Outcome, ok, throw, ◌>>=◌, ◌>>◌, for_range}
use seatfirst.Fault.{metric_length, invalid_region}
use seatfirst.Bitmap.{
  Bitmap, Run, create_bitmap, get_bit, set_bit, bitmap_and, bitmap_or, bitmap_not,
}
use seatfirst.Layout.{SeatKind, Geometry, seat_kind_code, seat_kind_from_code}
use Syntax.{
  Number, PresetName, AisleWish, SeatRegion, Regions, all, preset, depth, lateral, aisle, seat_type,
  score, row_range, both, either, never, nil, cons, adjacent, avoid, preset_region, is_valid,
}

-- packages/core/src/metrics.ts, SeatMetrics
pub record SeatMetrics (R : Type 0) : Type 0 where
  pub seat_index_in_row : List ℤ
  pub depths : List R
  pub laterals : List R
  pub aisle_distance : List ℤ

-- A compiled mask, or the SCORE region that has no meaning yet.
pub data Compiled (R A : Type 0) : Type 0 where
  compiled : A → Compiled R A
  unsupported_score : R → Compiled R A

abbrev pub cell_count : Geometry → ℕ
cell_count layout = layout.rows * layout.columns

module _ {R : Type 0} (layout : Geometry) (metrics : SeatMetrics R) where
  pub assert_metrics : Run ℕ
  assert_metrics =
      let n = cell_count layout in
      if length metrics.seat_index_in_row == n
        && length metrics.depths == n
        && length metrics.laterals == n
        && length metrics.aisle_distance == n
      then ok n
      else throw metric_length

  abbrev pub is_seat : ℕ → Bool
  is_seat i = is_nonnegative (get_or metrics.seat_index_in_row i (negsuc 0))

  mark_seat : ℕ → ℕ → Bitmap → Run Bitmap
  mark_seat n i mask = if is_seat i then set_bit mask i n true else ok mask

  pub all_seat_mask : Run Bitmap
  all_seat_mask = assert_metrics >>= λ n. for_range n 0 (mark_seat n) (create_bitmap n)

  -- getBit(all, index) && predicate(index)
  mark_matching : Bitmap → (ℕ → Run Bool) → ℕ → ℕ → Bitmap → Run Bitmap
  mark_matching seats predicate n i mask = do
    seat ← get_bit seats i n
    matching ← if seat then predicate i else ok false
    if matching then set_bit mask i n true else ok mask

  pub predicate_mask : (ℕ → Run Bool) → Run Bitmap
  predicate_mask predicate = do
    seats ← all_seat_mask
    let n = cell_count layout
    for_range n 0 (mark_matching seats predicate n) (create_bitmap n)

-- included.has(kind)
abbrev pub includes : List SeatKind → SeatKind → Bool
includes [] kind = false
includes (k ∷ ks) kind = seat_kind_code k == seat_kind_code kind || includes ks kind

abbrev pub wants : AisleWish → ℤ → Bool
wants adjacent distance = is_zero distance
wants avoid distance = is_positive distance

abbrev pub Compilation : Number → Type 0
Compilation N = Run (Compiled N.Real Bitmap)

keep_mask : {R : Type 0} → Run Bitmap → Run (Compiled R Bitmap)
keep_mask m = m >>= λ mask. ok (compiled mask)

-- `if (!compiled.ok) return compiled`, else go on with the mask.
abbrev pub and_then :
    {R A B : Type 0} → Run (Compiled R A) → (A → Run (Compiled R B)) → Run (Compiled R B)
and_then m k =
    m >>= λ c. elim c [ compiled a ↦ k a | unsupported_score r ↦ ok (unsupported_score r) ]

module _ (N : Number) (layout : Geometry) (metrics : SeatMetrics N.Real)
    (on_preset : PresetName → Compilation N) where
  open N use {Real, le, magnitude, minus_one, not_a_number}

  depth_test : Real → Real → ℕ → Run Bool
  depth_test from to i = let d = get_or metrics.depths i minus_one in ok (le from d && le d to)

  lateral_test : Real → ℕ → Run Bool
  lateral_test max_offset i =
      ok (le (magnitude (get_or metrics.laterals i not_a_number)) max_offset)

  aisle_test : AisleWish → ℕ → Run Bool
  aisle_test want i = ok (wants want (get_or metrics.aisle_distance i (negsuc 0)))

  -- A code that is missing reads as 5, which names no kind, like -1.
  seat_type_test : List SeatKind → ℕ → Run Bool
  seat_type_test include i =
      seat_kind_from_code (get_or layout.seat_kinds i 5) >>= λ kind. ok (includes include kind)

  row_test : ℕ → ℕ → ℕ → Run Bool
  row_test from to i = let row = i / layout.columns in ok (leb from row && leb row to)

  complement_of : Bitmap → Run Bitmap
  complement_of mask = do
    let n = cell_count layout
    outside ← bitmap_not mask n
    seats ← all_seat_mask layout metrics
    bitmap_and (outside ∷ seats ∷ []) n

  -- SeatRegionSchema.parse, then assertMetrics, then the branch of the kind.
  parsed : SeatRegion Real → Compilation N → Compilation N
  parsed region branch =
      if is_valid N region
      then (assert_metrics layout metrics >>= λ n. branch)
      else throw invalid_region

  -- compileRegion on a tree whose presets are compiled by `on_preset`.
  mutual
    unfolding parsed depth_test lateral_test aisle_test seat_type_test row_test complement_of
        keep_mask

    pub compile_tree : SeatRegion Real → Compilation N
    compile_tree all = parsed all (keep_mask (all_seat_mask layout metrics))
    compile_tree (preset name) = parsed (preset name) (on_preset name)
    compile_tree (depth from to) =
        parsed (depth from to) (keep_mask (predicate_mask layout metrics (depth_test from to)))
    compile_tree (lateral max_offset) =
        parsed (lateral max_offset)
          (keep_mask (predicate_mask layout metrics (lateral_test max_offset)))
    compile_tree (aisle want) =
        parsed (aisle want) (keep_mask (predicate_mask layout metrics (aisle_test want)))
    compile_tree (seat_type include) =
        parsed (seat_type include)
          (keep_mask (predicate_mask layout metrics (seat_type_test include)))
    compile_tree (score least) = parsed (score least) (ok (unsupported_score least))
    compile_tree (row_range from to) =
        parsed (row_range from to) (keep_mask (predicate_mask layout metrics (row_test from to)))
    compile_tree (both of) =
        parsed (both of)
          (and_then (compile_children of) λ masks. keep_mask (bitmap_and masks (cell_count layout)))
    compile_tree (either of) =
        parsed (either of)
          (and_then (compile_children of) λ masks. keep_mask (bitmap_or masks (cell_count layout)))
    compile_tree (never of) =
        parsed (never of) (and_then (compile_tree of) λ mask. keep_mask (complement_of mask))

    pub compile_children : Regions Real → Run (Compiled Real (List Bitmap))
    compile_children nil = ok (compiled [])
    compile_children (cons r rs) =
        and_then (compile_tree r)
          λ mask. and_then (compile_children rs) λ masks. ok (compiled (mask ∷ masks))

module _ (N : Number) (layout : Geometry) (metrics : SeatMetrics N.Real) where
  -- A preset is compiled as its tree, which holds no preset: the recursion is one level deep.
  compile_preset : PresetName → Compilation N
  compile_preset name =
      compile_tree N layout metrics (λ nested. throw invalid_region) (preset_region N name)

  pub compile_region : SeatRegion N.Real → Compilation N
  unfolding compile_preset
  compile_region = compile_tree N layout metrics compile_preset
