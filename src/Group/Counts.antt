-- ===== src/Group/Counts.antt =====
-- packages/core/src/group-assembly.ts: the free showtimes of each cell, listed and counted.
use seatfirst.Prelude.{
  ℕ, zero, suc, ◌+◌, ◌<◌, ◌≤◌, ◌≡◌, refl, ap, ◌∙◌, Bool, Option, none, some, List, [], ◌∷◌, length,
  get_or, All, arith,
}
use seatfirst.Prelude.Outcome.{ok, Yields}
use seatfirst.Bitmap.{Bitmap}
use seatfirst.Bitmap.Cells.{bit, Denotes}
use seatfirst.Bitmap.Access.{get_bit_ok}
use seatfirst.Bitmap.Algebra.{AllSized}
use seatfirst.Bitmap.Count.{holders}
use seatfirst.Group.{
  ShowtimeInput, keep_some, resolved_availabilities, is_free, free_indices, free_in_cells,
}
use seatfirst.Group.Hits.{passing, when_resolved}

-- A canonical bitmap of the grid, where there is one.
abbrev pub CleanOption : ℕ → Option Bitmap → Type 0
CleanOption n none = Unit
CleanOption n (some free) = Denotes free n (bit free)

abbrev pub AllClean : ℕ → List ShowtimeInput → Type 0
AllClean n = All (λ s. CleanOption n s.availability)

abbrev pub free_at : ℕ → Bitmap → Bool
free_at cell free = bit free cell

is_free_lem :
    (a : Option Bitmap) (n cell : ℕ)
    → CleanOption n a
    → cell < n
    → is_free a cell n ≡ ok (when_resolved (free_at cell) a)
unfolding is_free
is_free_lem none n cell c lt = refl
is_free_lem (some free) n cell c lt = get_bit_ok cell lt c

free_indices_lem :
    (showtimes : List ShowtimeInput) (n cell k : ℕ)
    → AllClean n showtimes
    → cell < n
    → free_indices showtimes cell n k ≡ ok (passing (free_at cell) showtimes k)
unfolding free_indices
free_indices_lem [] n cell k c lt = refl
free_indices_lem (s ∷ ss) n cell k c lt =
    rw (is_free_lem s.availability n cell c.0 lt, free_indices_lem ss n cell (k + 1) c.1 lt) refl

-- The entries of the cells from `cell` on.
pub free_in_cells_lem :
    (showtimes : List ShowtimeInput) (n rest cell : ℕ)
    → AllClean n showtimes
    → cell + rest ≡ n
    → Yields (free_in_cells showtimes n rest cell) (λ lists.
      (length lists ≡ rest)
      × ((j : ℕ) → j < rest → get_or lists j [] ≡ passing (free_at (cell + j)) showtimes 0))
unfolding free_in_cells
free_in_cells_lem showtimes n zero cell c e = ([], refl, (refl, λ j lt. absurd (omega arith)))
free_in_cells_lem showtimes n (suc rest) cell c e =
    let (lists, e', (size, entries)) =
      free_in_cells_lem showtimes n rest (cell + 1) c (omega arith) in
    (
      passing (free_at cell) showtimes 0 ∷ lists,
      rw (free_indices_lem showtimes n cell 0 c (omega arith), e') refl,
      (ap suc size, at_entry lists entries),
    )
  where
    at_entry :
        (lists : List (List ℕ))
        → ((j : ℕ) → j < rest → get_or lists j [] ≡ passing (free_at (cell + 1 + j)) showtimes 0)
        → (j : ℕ) → j < suc rest
        → get_or (passing (free_at cell) showtimes 0 ∷ lists) j []
          ≡ passing (free_at (cell + j)) showtimes 0
    at_entry lists entries zero lt = let here : cell + 0 ≡ cell = omega arith in rw here refl
    at_entry lists entries (suc j) lt =
        let there : cell + 1 + j ≡ cell + suc j = omega arith in
        entries j (omega arith) ∙ ap (λ i. passing (free_at i) showtimes 0) there

-- As many showtimes are listed as bitmaps are counted.
pub length-passing :
    (showtimes : List ShowtimeInput) (cell k : ℕ)
    → length (passing (free_at cell) showtimes k) ≡ holders (resolved_availabilities showtimes) cell
unfolding resolved_availabilities
length-passing [] cell k = refl
length-passing (s ∷ ss) cell k =
    elim s.availability
        as (λ a.
          (s.availability ≡ a)
          → length (passing (free_at cell) (s ∷ ss) k)
            ≡ holders (resolved_availabilities (s ∷ ss)) cell) [
              | none ↦ λ same. rw same (length-passing ss cell (k + 1))
              | some free ↦ λ same. rw same (ground (arith, length-passing ss cell (k + 1)))
            ]
      refl

pub resolved-AllSized :
    (showtimes : List ShowtimeInput) (n : ℕ)
    → AllClean n showtimes
    → AllSized (resolved_availabilities showtimes) n
unfolding resolved_availabilities
resolved-AllSized [] n c = tt
resolved-AllSized (s ∷ ss) n c =
    elim s.availability
        as (λ a. CleanOption n a → AllSized (keep_some a (resolved_availabilities ss)) n) [
          | none ↦ λ here. resolved-AllSized ss n c.1
          | some free ↦ λ here. (here.has_size, resolved-AllSized ss n c.1)
        ]
      c.0

pub length-resolved_availabilities :
    (showtimes : List ShowtimeInput) → length (resolved_availabilities showtimes) ≤ length showtimes
unfolding resolved_availabilities
length-resolved_availabilities [] = omega arith
length-resolved_availabilities (s ∷ ss) =
    elim s.availability
      as (λ a. length (keep_some a (resolved_availabilities ss)) ≤ suc (length ss)) [
        | none ↦ omega (arith, length-resolved_availabilities ss)
        | some free ↦ omega (arith, length-resolved_availabilities ss)
      ]
