-- ===== src/Region/Compile.antt =====
-- packages/core/src/region.ts: `compileRegion` makes the canonical mask of the seats that the region
-- means, or reports a SCORE region.
use seatfirst.Prelude.{
  ℕ, zero, suc, ◌<◌, ◌≤◌, ◌≡◌, refl, ap, ◌∙◌, Bool, true, false, not, ◌&&◌, ◌||◌, List, [], ◌∷◌,
  get_or, leb, ◌==◌, arith,
}
use seatfirst.Prelude.Outcome.{ok, ◌>>=◌}
use seatfirst.Bitmap.{Bitmap, Run, bitmap_and, bitmap_or}
use seatfirst.Bitmap.Cells.{Denotes}
use seatfirst.Bitmap.Algebra.{
  every_bit, some_bit, AllSized, bitmap_and_lem, bitmap_or_lem, bitmap_not_lem, bitmap_and-Denotes,
}
use seatfirst.Bitmap.Runs.{Denotes-cong}
use seatfirst.Layout.{
  SeatKind, Geometry, not_a_seat, standard, wheelchair, companion, unknown, seat_kind_from_code,
  seat_kind_code,
}
use seatfirst.Region.{
  SeatMetrics, Compiled, compiled, unsupported_score, Compilation, cell_count, is_seat, keep_mask,
  predicate_mask, includes, depth_test, lateral_test, aisle_test, complement_of, parsed,
  compile_tree, compile_children, compile_preset, compile_region, and_then,
}
use seatfirst.Region.Syntax.{
  Number, PresetName, SeatRegion, Regions, all, preset, depth, lateral, aisle, seat_type, score,
  row_range, both, either, never, nil, cons, is_valid, all_valid, some_region, preset_region,
  sweet_spot, center_block, back_center, avoid_front, legroom, outer_ring,
}
use seatfirst.Region.Holds.{
  Spans, assert_metrics_lem, all_seat_mask_lem, predicate_mask_lem, code_in, cells_of, in_every,
  in_some, has_no_score, none_has_score,
}

-- The compilation of a region: the mask of `f` if the region has no SCORE, else the SCORE's bound.
abbrev pub CompilesTo : {R : Type 0} → ℕ → Bool → (ℕ → Bool) → Run (Compiled R Bitmap) → Type 0
CompilesTo n true f r = (m : Bitmap) × (r ≡ ok (compiled m)) × Denotes m n f
CompilesTo {R} n false f r = (least : R) × (r ≡ ok (unsupported_score least))

-- Every seat has a code that names a kind.
abbrev pub HasKinds : {R : Type 0} → Geometry → SeatMetrics R → Type 0
HasKinds layout metrics =
    (i : ℕ)
    → i < cell_count layout
    → is_seat layout metrics i ≡ true
    → get_or layout.seat_kinds i 5 ≤ 4

includes_lem :
    (include : List SeatKind) (kind : SeatKind)
    → includes include kind ≡ code_in include (seat_kind_code kind)
includes_lem [] kind = refl
includes_lem (k ∷ ks) kind =
    ap (λ b. seat_kind_code k == seat_kind_code kind || b) (includes_lem ks kind)

seat_type_code :
    (include : List SeatKind) (code : ℕ)
    → code ≤ 4
    → (seat_kind_from_code code >>= λ kind. ok (includes include kind)) ≡ ok (code_in include code)
unfolding seat_kind_from_code
seat_type_code include zero h = ap ok (includes_lem include not_a_seat)
seat_type_code include (suc zero) h = ap ok (includes_lem include standard)
seat_type_code include (suc (suc zero)) h = ap ok (includes_lem include wheelchair)
seat_type_code include (suc (suc (suc zero))) h = ap ok (includes_lem include companion)
seat_type_code include (suc (suc (suc (suc zero)))) h = ap ok (includes_lem include unknown)
seat_type_code include (suc (suc (suc (suc (suc code))))) h = absurd (omega arith)

abbrev any : List Bitmap → Bool
any [] = false
any (m ∷ ms) = true

module _ (N : Number) {layout : Geometry} {metrics : SeatMetrics N.Real}
    (spans : Spans layout metrics) (kinds : HasKinds layout metrics)
    (on_preset : PresetName → Compilation N) (named : PresetName → ℕ → Bool)
    (clean : PresetName → Bool)
    (presets : (name : PresetName)
      → CompilesTo (cell_count layout) (clean name) (named name) (on_preset name)) where
  open N use {Real}

  parsed_lem :
      (region : SeatRegion Real) (branch : Compilation N)
      → is_valid N region ≡ true
      → parsed N layout metrics on_preset region branch ≡ branch
  unfolding parsed
  parsed_lem region branch h = rw (h, assert_metrics_lem spans) refl

  leaf :
      (test : ℕ → Run Bool) (f : ℕ → Bool)
      → ((i : ℕ) → i < cell_count layout → is_seat layout metrics i ≡ true → test i ≡ ok (f i))
      → CompilesTo {R = Real}
          (cell_count layout)
          true
          (λ i. is_seat layout metrics i && f i)
          (keep_mask (predicate_mask layout metrics test))
  unfolding keep_mask
  leaf test f runs = let (m, e, d) = predicate_mask_lem spans test f runs in (m, rw e refl, d)

  complement_lem :
      (mask : Bitmap) (f : ℕ → Bool)
      → Denotes mask (cell_count layout) f
      → CompilesTo {R = Real}
          (cell_count layout)
          true
          (λ i. not (f i) && is_seat layout metrics i)
          (keep_mask (complement_of N layout metrics on_preset mask))
  unfolding keep_mask complement_of
  complement_lem mask f d =
      let (o, e, outside) = bitmap_not_lem d.has_size in
      let (s, e', seats) = all_seat_mask_lem spans in
      let (m, e'', w) = bitmap_and-Denotes outside seats in
      (m, rw (e, e', e'') refl, Denotes-cong w (λ i lt. ground (arith, d.reads i)))

  never_lem :
      (c : Bool) (f : ℕ → Bool) (x : Compilation N)
      → CompilesTo (cell_count layout) c f x
      → CompilesTo
          (cell_count layout)
          c
          (λ i. not (f i) && is_seat layout metrics i)
          (and_then x λ mask. keep_mask (complement_of N layout metrics on_preset mask))
  never_lem true f x (m, e, d) = let (o, e', w) = complement_lem m f d in (o, rw e e', w)
  never_lem false f x (least, e) = (least, rw e refl)

  -- The masks of the children of AND and OR.
  abbrev ChildrenTo : Bool → (rs : Regions Real) → Run (Compiled Real (List Bitmap)) → Type 0
  ChildrenTo true rs r =
      (ms : List Bitmap) × (r ≡ ok (compiled ms))
      × AllSized ms (cell_count layout)
      × (any ms ≡ some_region rs)
      × ((i : ℕ) → i < cell_count layout → every_bit ms i ≡ in_every N layout metrics named rs i)
      × ((i : ℕ) → i < cell_count layout → some_bit ms i ≡ in_some N layout metrics named rs i)
  ChildrenTo false rs r = (least : Real) × (r ≡ ok (unsupported_score least))

  children_cons :
      (a b : Bool) (r : SeatRegion Real) (rs : Regions Real) (x : Compilation N)
      (y : Run (Compiled Real (List Bitmap)))
      → CompilesTo (cell_count layout) a (cells_of N layout metrics named r) x
      → ChildrenTo b rs y
      → ChildrenTo
          (a && b)
          (cons r rs)
          (and_then x λ mask. and_then y λ masks. ok (compiled (mask ∷ masks)))
  unfolding in_every in_some
  children_cons false b r rs x y (least, e) q = (least, rw e refl)
  children_cons true false r rs x y (m, e, d) (least, e') = (least, rw (e, e') refl)
  children_cons true true r rs x y (m, e, d) (ms, e', sized, shape, every, some_of) = (
    m ∷ ms,
    rw (e, e') refl,
    (d.has_size, sized),
    refl,
    (λ i lt. ground (arith, d.reads i, every i lt)),
    (λ i lt. ground (arith, d.reads i, some_of i lt)),
  )

  both_lem :
      (c : Bool) (rs : Regions Real) (y : Run (Compiled Real (List Bitmap)))
      → some_region rs ≡ true
      → ChildrenTo c rs y
      → CompilesTo
          (cell_count layout)
          c
          (in_every N layout metrics named rs)
          (and_then y λ ms. keep_mask (bitmap_and ms (cell_count layout)))
  unfolding keep_mask
  both_lem false rs y h (least, e) = (least, rw e refl)
  both_lem true rs y h ([], e, sized, shape, every, some_of) = cc
  both_lem true rs y h (m ∷ ms, e, sized, shape, every, some_of) =
      let (o, e', d) = bitmap_and_lem m ms (cell_count layout) sized in
      (o, rw (e, e') refl, Denotes-cong d every)

  either_lem :
      (c : Bool) (rs : Regions Real) (y : Run (Compiled Real (List Bitmap)))
      → ChildrenTo c rs y
      → CompilesTo
          (cell_count layout)
          c
          (in_some N layout metrics named rs)
          (and_then y λ ms. keep_mask (bitmap_or ms (cell_count layout)))
  unfolding keep_mask
  either_lem false rs y (least, e) = (least, rw e refl)
  either_lem true rs y (ms, e, sized, shape, every, some_of) =
      let (o, e', d) = bitmap_or_lem ms (cell_count layout) sized in
      (o, rw (e, e') refl, Denotes-cong d some_of)

  -- Every valid tree compiles, by recursion on the tree.
  mutual
    unfolding compile_tree compile_children cells_of in_every in_some has_no_score none_has_score
        is_valid

    tree_lem :
        (r : SeatRegion Real)
        → is_valid N r ≡ true
        → CompilesTo
            (cell_count layout)
            (has_no_score clean r)
            (cells_of N layout metrics named r)
            (compile_tree N layout metrics on_preset r)
    tree_lem all v =
        let (m, e, d) = all_seat_mask_lem spans in (m, parsed_lem all _ v ∙ rw e refl, d)
    tree_lem (preset name) v = rw (parsed_lem (preset name) (on_preset name) v) (presets name)
    tree_lem (depth from to) v = rw (parsed_lem (depth from to) _ v) (leaf _ _ (λ i lt seat. refl))
    tree_lem (lateral max_offset) v =
        rw (parsed_lem (lateral max_offset) _ v) (leaf _ _ (λ i lt seat. refl))
    tree_lem (aisle want) v = rw (parsed_lem (aisle want) _ v) (leaf _ _ (λ i lt seat. refl))
    tree_lem (seat_type include) v =
        rw (parsed_lem (seat_type include) _ v)
          (leaf _ _ (λ i lt seat. seat_type_code include _ (kinds i lt seat)))
    tree_lem (score least) v = (least, parsed_lem (score least) _ v)
    tree_lem (row_range from to) v =
        rw (parsed_lem (row_range from to) _ v) (leaf _ _ (λ i lt seat. refl))
    tree_lem (both of) v =
        let w : (some_region of ≡ true) × (all_valid N of ≡ true) = ground arith in
        rw (parsed_lem (both of) _ v)
          (both_lem (none_has_score clean of) of _ w.0 (children_lem of w.1))
    tree_lem (either of) v =
        let w : (some_region of ≡ true) × (all_valid N of ≡ true) = ground arith in
        rw (parsed_lem (either of) _ v)
          (either_lem (none_has_score clean of) of _ (children_lem of w.1))
    tree_lem (never of) v =
        rw (parsed_lem (never of) _ v) (never_lem (has_no_score clean of) _ _ (tree_lem of v))

    children_lem :
        (rs : Regions Real)
        → all_valid N rs ≡ true
        → ChildrenTo (none_has_score clean rs) rs (compile_children N layout metrics on_preset rs)
    children_lem nil v = ([], refl, tt, refl, (λ i lt. refl), (λ i lt. refl))
    children_lem (cons r rs) v =
        let w : (is_valid N r ≡ true) × (all_valid N rs ≡ true) = ground arith in
        children_cons (has_no_score clean r) (none_has_score clean rs) r rs _ _ (tree_lem r w.0)
          (children_lem rs w.1)

-- The order of JavaScript's number literals.
abbrev pub OrdersLiterals : Number → Type 0
OrdersLiterals N = (a b : ℕ) → N.le (N.hundredths a) (N.hundredths b) ≡ leb a b

preset_region-valid :
    (N : Number) → OrdersLiterals N → (name : PresetName) → is_valid N (preset_region N name) ≡ true
unfolding is_valid preset_region
preset_region-valid N order sweet_spot = ground (arith, order 0 75, order 75 100)
preset_region-valid N order center_block = ground (arith, order 0 35, order 35 100)
preset_region-valid N order back_center =
    ground (arith, order 0 60, order 60 100, order 0 100, order 100 100, order 0 40, order 40 100)
preset_region-valid N order avoid_front =
    ground (arith, order 0 25, order 25 100, order 0 100, order 100 100)
preset_region-valid N order legroom = refl
preset_region-valid N order outer_ring = ground (arith, order 0 35, order 35 100)

module _ (N : Number) (layout : Geometry) (metrics : SeatMetrics N.Real) where
  -- The seats of a preset, and of a region that may name presets.
  abbrev pub preset_cells : PresetName → ℕ → Bool
  preset_cells name = cells_of N layout metrics (λ nested i. false) (preset_region N name)

  abbrev pub region_cells : SeatRegion N.Real → ℕ → Bool
  region_cells = cells_of N layout metrics preset_cells

  -- A preset's tree names no preset, so it compiles alike whatever would compile those.
  preset_alone :
      (name : PresetName) (on_preset : PresetName → Compilation N)
      → compile_preset N layout metrics name
        ≡ compile_tree N layout metrics on_preset (preset_region N name)
  unfolding compile_preset compile_tree preset_region complement_of parsed depth_test lateral_test
      aisle_test
  preset_alone sweet_spot on_preset = refl
  preset_alone center_block on_preset = refl
  preset_alone back_center on_preset = refl
  preset_alone avoid_front on_preset = refl
  preset_alone legroom on_preset = refl
  preset_alone outer_ring on_preset = refl

abbrev pub preset_is_clean : (N : Number) → PresetName → Bool
preset_is_clean N name = has_no_score (λ nested. false) (preset_region N name)

module _ (N : Number) (order : OrdersLiterals N) {layout : Geometry} {metrics : SeatMetrics N.Real}
    (spans : Spans layout metrics) (kinds : HasKinds layout metrics) where
  preset_lem :
      (name : PresetName)
      → CompilesTo
          (cell_count layout)
          (preset_is_clean N name)
          (preset_cells N layout metrics name)
          (compile_preset N layout metrics name)
  preset_lem name =
      let refuse : PresetName → Compilation N = λ nested. ok (unsupported_score (N.hundredths 0)) in
      rw (preset_alone N layout metrics name refuse) (
        tree_lem N spans kinds refuse (λ nested i. false) (λ nested. false)
          (λ nested. (N.hundredths 0, refl)) (preset_region N name)
          (preset_region-valid N order name))

  -- A region that the schema accepts, on metrics that span the grid and codes that name kinds for
  -- every seat, compiles: to the canonical mask of exactly the seats that the region's meaning
  -- admits if it has no SCORE in it, also inside a preset, and else to the typed refusal. Nothing
  -- is thrown. Assumed: number literals are ordered as their values.
  pub compile_region_lem :
      (r : SeatRegion N.Real)
      → is_valid N r ≡ true
      → CompilesTo
          (cell_count layout)
          (has_no_score (preset_is_clean N) r)
          (region_cells N layout metrics r)
          (compile_region N layout metrics r)
  unfolding compile_region
  compile_region_lem r v =
      tree_lem N spans kinds (compile_preset N layout metrics) (preset_cells N layout metrics)
        (preset_is_clean N) preset_lem r v

-- The region ALL compiles to the seats.
pub compile_region-all :
    (N : Number) {layout : Geometry} {metrics : SeatMetrics N.Real}
    → Spans layout metrics
    → CompilesTo
        (cell_count layout)
        true
        (is_seat layout metrics)
        (compile_region N layout metrics all)
unfolding compile_region compile_tree parsed keep_mask is_valid
compile_region-all N spans =
    let (m, e, d) = all_seat_mask_lem spans in (m, rw (assert_metrics_lem spans, e) refl, d)
