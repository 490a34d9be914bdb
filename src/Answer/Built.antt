-- ===== src/Answer/Built.antt =====
-- packages/core/src/answer-assembly.ts: the member cells of a hit, their names, and its offers.
use seatfirst.Prelude.{
  ℕ, zero, suc, ◌+◌, ◌≡◌, refl, ap, subst, String, true, Option, none, some, List, [], ◌∷◌, ◌++◌,
  map, get_elem?, inl, inr, All,
}
use seatfirst.Prelude.Outcome.{Yields}
use seatfirst.Blocks.{row_cells, block_cells, Named, Unnamed, In-append_left, In-append_right}
use seatfirst.Answer.{GroupShowtime, cells_of_row, member_cells, offer_of, offers_of}

-- The showtimes at the indices, all of them resolved, have these identifiers.
abbrev pub OffersAt : List GroupShowtime → List ℕ → List String → Type 0
OffersAt showtimes [] [] = Unit
OffersAt showtimes [] (o ∷ os) = ⊥
OffersAt showtimes (i ∷ is) [] = ⊥
OffersAt showtimes (i ∷ is) (o ∷ os) =
    ((s : GroupShowtime) × (get_elem? showtimes i ≡ some s)
      × (s.is_resolved ≡ true)
      × (o ≡ s.showtime_id))
    × OffersAt showtimes is os

module _ (name_of : ℕ → Option String) where
  abbrev pub MembersOf : List ℕ → Option (List (ℕ × String)) → Type 0
  MembersOf cells none = Unnamed name_of cells
  MembersOf cells (some ms) = (map (λ m. m.0) ms ≡ cells) × Named name_of cells (map (λ m. m.1) ms)

  abbrev put : ℕ → Option String → Option (List (ℕ × String)) → Option (List (ℕ × String))
  put c none rest = none
  put c (some n) none = none
  put c (some n) (some rest) = some ((c, n) ∷ rest)

  put_lem :
      (c : ℕ) (cs : List ℕ) (n : Option String) (r : Option (List (ℕ × String)))
      → name_of c ≡ n
      → MembersOf cs r
      → MembersOf (c ∷ cs) (put c n r)
  put_lem c cs none r e m = (c, inl refl, e)
  put_lem c cs (some n) none e (d, k, u) = (d, inr k, u)
  put_lem c cs (some n) (some ms) e (same, named) = (ap (λ xs. c ∷ xs) same, (e, named))

  MembersOf-append :
      (xs ys : List ℕ) (ms ns : List (ℕ × String))
      → MembersOf xs (some ms)
      → MembersOf ys (some ns)
      → MembersOf (xs ++ ys) (some (ms ++ ns))
  MembersOf-append [] ys [] ns p q = q
  MembersOf-append [] ys (m ∷ ms) ns p q = absurd (p.1)
  MembersOf-append (x ∷ xs) ys [] ns p q = absurd (p.1)
  MembersOf-append (x ∷ xs) ys (m ∷ ms) ns p q =
      let same : (m.0 ≡ x) × (map (λ k. k.0) ms ≡ xs) = (cc, cc) in
      let rest = MembersOf-append xs ys ms ns (same.1, p.1.1) q in
      (rw (same.0, rest.0) refl, (p.1.0, rest.1))

  put-same :
      (c : ℕ) (o : Option String) (r : Option (List (ℕ × String)))
      → put c o r ≡ elim o [
        | none ↦ none
        | some name ↦ elim r [ none ↦ none | some rest ↦ some ((c, name) ∷ rest) ]
      ]
  put-same c none r = refl
  put-same c (some n) none = refl
  put-same c (some n) (some rest) = refl

  cells_of_row_lem : (n cell : ℕ) → MembersOf (row_cells n cell) (cells_of_row name_of n cell)
  unfolding cells_of_row
  cells_of_row_lem zero cell = (refl, tt)
  cells_of_row_lem (suc n) cell =
      let rest = cells_of_row name_of n (cell + 1) in
      subst (MembersOf (row_cells (suc n) cell)) (put-same cell (name_of cell) rest) (
        put_lem cell (row_cells n (cell + 1)) (name_of cell) rest refl
          (cells_of_row_lem n (cell + 1)))

  abbrev both : Option (List (ℕ × String)) → Option (List (ℕ × String)) → Option (List (ℕ × String))
  both none rest = none
  both (some here) none = none
  both (some here) (some rest) = some (here ++ rest)

  both-same :
      (o r : Option (List (ℕ × String)))
      → both o r ≡ elim o [
        | none ↦ none
        | some here ↦ elim r [ none ↦ none | some rest ↦ some (here ++ rest) ]
      ]
  both-same none r = refl
  both-same (some here) none = refl
  both-same (some here) (some rest) = refl

  both_lem :
      (xs ys : List ℕ) (o r : Option (List (ℕ × String)))
      → MembersOf xs o
      → MembersOf ys r
      → MembersOf (xs ++ ys) (both o r)
  both_lem xs ys none r (c, m, u) q = (c, In-append_left c xs ys m, u)
  both_lem xs ys (some here) none p (c, m, u) = (c, In-append_right c xs ys m, u)
  both_lem xs ys (some here) (some rest) p q = MembersOf-append xs ys here rest p q

  pub member_cells_lem :
      (columns rows cols cell : ℕ)
      → MembersOf (block_cells columns rows cols cell) (member_cells name_of columns rows cols cell)
  unfolding member_cells
  member_cells_lem columns zero cols cell = (refl, tt)
  member_cells_lem columns (suc rows) cols cell =
      let here = cells_of_row name_of cols cell in
      let rest = member_cells name_of columns rows cols (cell + columns) in
      subst (MembersOf (block_cells columns (suc rows) cols cell)) (both-same here rest) (
        both_lem (row_cells cols cell) (block_cells columns rows cols (cell + columns)) here rest
          (cells_of_row_lem cols cell) (member_cells_lem columns rows cols (cell + columns)))

-- The index of a resolved showtime.
abbrev pub Resolves : List GroupShowtime → ℕ → Type 0
Resolves showtimes i =
    (s : GroupShowtime) × (get_elem? showtimes i ≡ some s) × (s.is_resolved ≡ true)

pub offers_of_lem :
    (showtimes : List GroupShowtime) (is : List ℕ)
    → All (Resolves showtimes) is
    → Yields (offers_of showtimes is) (OffersAt showtimes is)
unfolding offers_of offer_of
offers_of_lem showtimes [] a = ([], refl, tt)
offers_of_lem showtimes (i ∷ is) a =
    let (s, at, resolved) = a.0 in
    let (offers, e, o) = offers_of_lem showtimes is a.1 in
    (s.showtime_id ∷ offers, rw (at, resolved, e) refl, ((s, at, resolved, refl), o))
