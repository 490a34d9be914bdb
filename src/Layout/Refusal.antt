-- ===== src/Layout/Refusal.antt =====
-- packages/core/src/layout.ts: the inputs that `buildAuditoriumLayout` refuses, and with which error.
use seatfirst.Prelude.{
  ℕ, ◌+◌, ◌-◌, ◌*◌, ◌<◌, ◌≡◌, ap, String, false, ◌||◌, List, [], ◌∷◌, inl, inr, All, ◌==◌,
  Bool-cases, arith,
}
use seatfirst.Prelude.Outcome.{ok, for_each, >>=-eq-ok}
use seatfirst.Layout.{
  Cell, Build, Built, Geometry, flat_index, has, write_cell, place_cell, empty_build,
  build_auditorium_layout, lift,
}
use seatfirst.Layout.Placement.{Inside, Distinct}

write_cell-occupied :
    (normalize : String → String) (n i : ℕ) (c : Cell) (s t : Build)
    → lift (write_cell normalize n i c s) ≡ ok t
    → t.occupied ≡ i ∷ s.occupied
unfolding write_cell
write_cell-occupied normalize n i c s t h = ground arith

-- A cell that is placed is inside the grid, at a place that was not taken before.
place_cell-eq-ok :
    (normalize : String → String) (rows columns : ℕ) (c : Cell) (s t : Build)
    → place_cell normalize rows columns c s ≡ ok t
    → Inside rows columns c
      × (has s.occupied (flat_index columns c) ≡ false)
      × (t.occupied ≡ flat_index columns c ∷ s.occupied)
unfolding place_cell
place_cell-eq-ok normalize rows columns c s t h =
    ground (arith, write_cell-occupied normalize (rows * columns) (flat_index columns c) c s t)

not_taken :
    (columns i : ℕ) (taken after : List ℕ) (cs : List Cell)
    → after ≡ i ∷ taken
    → All (λ d. has after (flat_index columns d) ≡ false) cs
    → All (λ d. has taken (flat_index columns d) ≡ false) cs
not_taken columns i taken after [] e h = tt
not_taken columns i taken after (d ∷ cs) e h = (
  ground (arith, ap (λ (l : List ℕ). has l (flat_index columns d)) e),
  not_taken columns i taken after cs e h.1,
)

apart_from :
    (columns : ℕ) (c : Cell) (taken after : List ℕ) (cs : List Cell)
    → after ≡ flat_index columns c ∷ taken
    → All (λ d. has after (flat_index columns d) ≡ false) cs
    → All (λ d. ¬ ((c.row ≡ d.row) × (c.column ≡ d.column))) cs
apart_from columns c taken after [] e h = tt
apart_from columns c taken after (d ∷ cs) e h = (
  (λ same.
      let index : flat_index columns c ≡ flat_index columns d =
        λ i. (same.0 i - 1) * columns + (same.1 i - 1) in
      let other = ap (λ (l : List ℕ). has l (flat_index columns d)) e in
      ground (arith, index, other)),
  apart_from columns c taken after cs e h.1,
)

place_cells-eq-ok :
    (normalize : String → String) (rows columns : ℕ) (cs : List Cell) (s : Build) {t : Build}
    → for_each cs (place_cell normalize rows columns) s ≡ ok t
    → All (Inside rows columns) cs
      × Distinct cs
      × All (λ d. has s.occupied (flat_index columns d) ≡ false) cs
unfolding for_each
place_cells-eq-ok normalize rows columns [] s h = (tt, tt, tt)
place_cells-eq-ok normalize rows columns (c ∷ cs) s h =
    let (t, e, rest) =
      >>=-eq-ok (place_cell normalize rows columns c s)
        (for_each cs (place_cell normalize rows columns)) h in
    let (inside, free, taken) = place_cell-eq-ok normalize rows columns c s t e in
    let (all_inside, apart, others) = place_cells-eq-ok normalize rows columns cs t rest in
    (
      (inside, all_inside),
      (apart_from columns c s.occupied t.occupied cs taken others, apart),
      (free, not_taken columns (flat_index columns c) s.occupied t.occupied cs taken others),
    )

-- If a layout is built, its dimensions are positive, every cell lies inside the grid and no two
-- cells have the same coordinates.
pub build_auditorium_layout-eq-ok :
    (normalize : String → String) (fingerprint : Geometry → String) (rows columns : ℕ)
    (cells : List Cell) (b : Built)
    → build_auditorium_layout normalize fingerprint rows columns cells ≡ ok b
    → (0 < rows) × (0 < columns) × All (Inside rows columns) cells × Distinct cells
unfolding build_auditorium_layout
build_auditorium_layout-eq-ok normalize fingerprint rows columns cells b h =
    elim (Bool-cases (rows == 0 || columns == 0)) [
      | inl empty ↦ ground arith
      | inr sized ↦
          let (t, e, rest) =
            >>=-eq-ok
              (for_each cells (place_cell normalize rows columns) (empty_build (rows * columns))) _
              (rw sized at h) in
          let (inside, apart, free) = place_cells-eq-ok normalize rows columns cells _ e in
          (ground arith, ground arith, inside, apart)
    ]
