-- ===== src/Recovery/Rungs/Seats.antt =====
-- packages/core/src/recovery-ladder.ts: the names of the seats that `buildPlacement` reads.
use seatfirst.Prelude.{
  ℕ, zero, suc, ◌+◌, ◌-◌, ◌*◌, ◌/◌, ◌<◌, ◌≡◌, refl, subst, String, Option, none, some, List, ◌∷◌,
  ◌++◌, inl, inr, arith,
}
use seatfirst.Blocks.{
  row_cells, block_cells, Named, Unnamed, In-append_left, In-append_right, Named-append,
}
use seatfirst.Recovery.{
  Placement, GroupHit, LadderInput, KeyOf, member_columns, names_of_row, names_of_columns,
  names_of_block, build_placement,
}
use seatfirst.Recovery.Rungs.{place}

module _ (name_of : ℕ → Option String) where
  abbrev NamesOf : List ℕ → Option (List String) → Type 0
  NamesOf cells none = Unnamed name_of cells
  NamesOf cells (some names) = Named name_of cells names

  abbrev put : Option String → Option (List String) → Option (List String)
  put none rest = none
  put (some n) none = none
  put (some n) (some rest) = some (n ∷ rest)

  put-same :
      (o : Option String) (r : Option (List String))
      → put o r ≡ elim o [
        | none ↦ none
        | some name ↦ elim r [ none ↦ none | some rest ↦ some (name ∷ rest) ]
      ]
  put-same none r = refl
  put-same (some n) none = refl
  put-same (some n) (some rest) = refl

  put_lem :
      (c : ℕ) (cs : List ℕ) (n : Option String) (r : Option (List String))
      → name_of c ≡ n
      → NamesOf cs r
      → NamesOf (c ∷ cs) (put n r)
  put_lem c cs none r e m = (c, inl refl, e)
  put_lem c cs (some n) none e (d, k, u) = (d, inr k, u)
  put_lem c cs (some n) (some ns) e m = (e, m)

  names_of_row_lem : (n cell : ℕ) → NamesOf (row_cells n cell) (names_of_row name_of n cell)
  unfolding names_of_row
  names_of_row_lem zero cell = tt
  names_of_row_lem (suc n) cell =
      let rest = names_of_row name_of n (cell + 1) in
      subst (NamesOf (row_cells (suc n) cell)) (put-same (name_of cell) rest) (
        put_lem cell (row_cells n (cell + 1)) (name_of cell) rest refl
          (names_of_row_lem n (cell + 1)))

  abbrev both : Option (List String) → Option (List String) → Option (List String)
  both none rest = none
  both (some here) none = none
  both (some here) (some rest) = some (here ++ rest)

  both-same :
      (o r : Option (List String))
      → both o r ≡ elim o [
        | none ↦ none
        | some here ↦ elim r [ none ↦ none | some rest ↦ some (here ++ rest) ]
      ]
  both-same none r = refl
  both-same (some here) none = refl
  both-same (some here) (some rest) = refl

  both_lem :
      (xs ys : List ℕ) (o r : Option (List String))
      → NamesOf xs o
      → NamesOf ys r
      → NamesOf (xs ++ ys) (both o r)
  both_lem xs ys none r (c, m, u) q = (c, In-append_left c xs ys m, u)
  both_lem xs ys (some here) none p (c, m, u) = (c, In-append_right c xs ys m, u)
  both_lem xs ys (some here) (some rest) p q = Named-append name_of xs ys here rest p q

  names_of_block_lem :
      (span cols columns cell : ℕ)
      → NamesOf
          (block_cells columns span cols cell)
          (names_of_block name_of span (some cols) columns cell)
  unfolding names_of_block names_of_columns
  names_of_block_lem zero cols columns cell = tt
  names_of_block_lem (suc span) cols columns cell =
      let here = names_of_row name_of cols cell in
      let rest = names_of_block name_of span (some cols) columns (cell + columns) in
      subst (NamesOf (block_cells columns (suc span) cols cell)) (both-same here rest) (
        both_lem (row_cells cols cell) (block_cells columns span cols (cell + columns)) here rest
          (names_of_row_lem cols cell) (names_of_block_lem span cols columns (cell + columns)))

module _ (key_of : KeyOf) (input : LadderInput) where
  -- The cells of as many columns as the lost seats took, in the rows of the hit.
  abbrev pub cells_at : GroupHit → List ℕ
  cells_at h =
      block_cells input.group.columns h.row_span
        ((input.gone_placement.count + input.gone_placement.row_span - 1)
          / input.gone_placement.row_span)
        (h.row * input.group.columns + h.start_col)

  member_columns-some :
      (p : Placement)
      → 0 < p.row_span
      → member_columns p ≡ some ((p.count + p.row_span - 1) / p.row_span)
  member_columns-some p h = ground (arith, h)

  module _ (span : 0 < input.gone_placement.row_span) (h : GroupHit) where
    NamesAt : Option (List String) → Type 0
    NamesAt r =
        (names_of_block input.group.seat_names h.row_span (member_columns input.gone_placement)
            input.group.columns (h.row * input.group.columns + h.start_col)
          ≡ r)
        × NamesOf input.group.seat_names (cells_at h) r

    names_found : (r : Option (List String)) × NamesAt r
    unfolding NamesAt
    names_found =
        let cols =
          (input.gone_placement.count + input.gone_placement.row_span - 1)
          / input.gone_placement.row_span in
        let start = h.row * input.group.columns + h.start_col in
        (
          names_of_block input.group.seat_names h.row_span (some cols) input.group.columns start,
          (
            rw (member_columns-some input.gone_placement span) refl,
            names_of_block_lem input.group.seat_names h.row_span cols input.group.columns start,
          ),
        )

    placed_when :
        (r : Option (List String))
        → NamesAt r
        → ((place key_of input h ≡ none) → Unnamed input.group.seat_names (cells_at h))
          × ((p : Placement)
              → place key_of input h ≡ some p
              → Named input.group.seat_names (cells_at h) p.seat_names)
    unfolding NamesAt place build_placement
    placed_when none (e, u) = (λ n. u, λ p f. absurd (ground (arith, e, f)))
    placed_when (some names) (e, named) = (
      λ n. absurd (ground (arith, e, n)),
      λ p f.
          let same : names ≡ p.seat_names = ground (arith, e, f) in
          subst (Named input.group.seat_names (cells_at h)) same named,
    )

    pub place-Unnamed : place key_of input h ≡ none → Unnamed input.group.seat_names (cells_at h)
    place-Unnamed = (placed_when names_found.0 names_found.1).0

    pub place-Named :
        (p : Placement)
        → place key_of input h ≡ some p
        → Named input.group.seat_names (cells_at h) p.seat_names
    place-Named = (placed_when names_found.0 names_found.1).1
