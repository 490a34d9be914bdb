-- ===== src/Group/Hits.antt =====
-- packages/core/src/group-assembly.ts: the hits of a shape, as a list over the cells of the grid.
use seatfirst.Prelude.{
  ℕ, ◌+◌, ◌<◌, ◌≡◌, refl, Bool, false, Option, none, some, List, [], ◌∷◌, ◌++◌, All, if◌then◌else◌,
  arith,
}
use seatfirst.Prelude.Outcome.{ok, Yields}
use seatfirst.Bitmap.{Bitmap}
use seatfirst.Bitmap.Cells.{HasSize, Denotes}
use seatfirst.Bitmap.Access.{get_bit_ok}
use seatfirst.Layout.{Geometry}
use seatfirst.Region.{cell_count}
use seatfirst.Group.{GroupShape, ShowtimeInput, HitSet, hit_set, hit_sets, offered_indices}
use seatfirst.Group.Sets.{IsPlaceable, offers, shape_starts_lem}

-- The bitmap of a resolved showtime has the size of the grid.
abbrev pub SizedOption : ℕ → Option Bitmap → Type 0
SizedOption n none = Unit
SizedOption n (some free) = HasSize free n

abbrev pub AllSizedShowtimes : ℕ → List ShowtimeInput → Type 0
AllSizedShowtimes n = All (λ s. SizedOption n s.availability)

-- A resolved showtime whose free seats pass the test.
abbrev pub when_resolved : (Bitmap → Bool) → Option Bitmap → Bool
when_resolved f none = false
when_resolved f (some free) = f free

-- The indices, from `k` on, of the resolved showtimes that pass the test.
abbrev pub passing : (Bitmap → Bool) → List ShowtimeInput → ℕ → List ℕ
passing f [] k = []
passing f (s ∷ ss) k =
    if when_resolved f s.availability then k ∷ passing f ss (k + 1) else passing f ss (k + 1)

module _ (layout : Geometry) {pool mask : Bitmap} (placement : ℕ → Bool) (strict : Bool)
    (shape : GroupShape) (s : IsPlaceable shape) (p : 0 < layout.rows) (q : 0 < layout.columns)
    (sp : HasSize pool (cell_count layout)) (d : Denotes mask (cell_count layout) placement) where
  abbrev pub test : ℕ → Bitmap → Bool
  test cell free = offers layout pool placement strict shape free cell

  -- The sets of showtimes tell at each cell which of them offer it.
  abbrev Offered : List ShowtimeInput → ℕ → List HitSet → Type 0
  Offered showtimes k sets =
      (cell : ℕ)
      → cell < cell_count layout
      → offered_indices sets (cell_count layout) cell ≡ ok (passing (test cell) showtimes k)

  add_set :
      (a : Option Bitmap) (here : ShowtimeInput) (ss : List ShowtimeInput) (k : ℕ)
      (rest : List HitSet)
      → here.availability ≡ a
      → SizedOption (cell_count layout) a
      → Offered ss (k + 1) rest
      → Yields
          (hit_set layout pool mask strict shape a k)
          (λ sets. Offered (here ∷ ss) k (sets ++ rest))
  unfolding hit_set offered_indices
  add_set none here ss k rest same sized o = ([], refl, λ cell lt. rw same (o cell lt))
  add_set (some free) here ss k rest same sized o =
      let (set, e, w) = shape_starts_lem layout placement strict shape s p q sized sp d in
      (
        record { mask = set; showtime_index = k } ∷ [],
        rw e refl,
        λ cell lt. rw (same, get_bit_ok cell lt w, o cell lt) (ground arith),
      )

  pub hit_sets_lem :
      (showtimes : List ShowtimeInput) (k : ℕ)
      → AllSizedShowtimes (cell_count layout) showtimes
      → Yields (hit_sets layout pool mask strict shape showtimes k) (Offered showtimes k)
  unfolding hit_sets offered_indices
  hit_sets_lem [] k sized = ([], refl, λ cell lt. refl)
  hit_sets_lem (here ∷ ss) k sized =
      let (rest, e, o) = hit_sets_lem ss (k + 1) sized.1 in
      let (sets, e', o') = add_set here.availability here ss k rest refl sized.0 o in
      (sets ++ rest, rw (e', e) refl, o')
