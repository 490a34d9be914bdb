-- ===== src/Blocks.antt =====
-- The cells of a block of a grid, and the names that they have: packages/core/src/answer-assembly.ts
-- and recovery-ladder.ts read them in the same order.
use seatfirst.Prelude.{
  ℕ, zero, suc, ◌+◌, ◌≡◌, String, Option, none, some, List, [], ◌∷◌, ◌++◌, inl, inr,
}
use seatfirst.Sorting.{In}

-- The cells of a block, row by row.
abbrev pub row_cells : ℕ → ℕ → List ℕ
row_cells zero cell = []
row_cells (suc n) cell = cell ∷ row_cells n (cell + 1)

abbrev pub block_cells : ℕ → ℕ → ℕ → ℕ → List ℕ
block_cells columns zero cols cell = []
block_cells columns (suc rows) cols cell =
    row_cells cols cell ++ block_cells columns rows cols (cell + columns)

pub In-append_left : (c : ℕ) (xs ys : List ℕ) → In c xs → In c (xs ++ ys)
In-append_left c [] ys m = absurd m
In-append_left c (x ∷ xs) ys (inl e) = inl e
In-append_left c (x ∷ xs) ys (inr m) = inr (In-append_left c xs ys m)

pub In-append_right : (c : ℕ) (xs ys : List ℕ) → In c ys → In c (xs ++ ys)
In-append_right c [] ys m = m
In-append_right c (x ∷ xs) ys m = inr (In-append_right c xs ys m)

module _ (name_of : ℕ → Option String) where
  -- The cells have these names.
  abbrev pub Named : List ℕ → List String → Type 0
  Named [] [] = Unit
  Named [] (n ∷ ns) = ⊥
  Named (c ∷ cs) [] = ⊥
  Named (c ∷ cs) (n ∷ ns) = (name_of c ≡ some n) × Named cs ns

  abbrev pub Unnamed : List ℕ → Type 0
  Unnamed cells = (c : ℕ) × In c cells × (name_of c ≡ none)

  pub Named-append :
      (xs ys : List ℕ) (ms ns : List String)
      → Named xs ms
      → Named ys ns
      → Named (xs ++ ys) (ms ++ ns)
  Named-append [] ys [] ns p q = q
  Named-append [] ys (m ∷ ms) ns p q = absurd p
  Named-append (x ∷ xs) ys [] ns p q = absurd p
  Named-append (x ∷ xs) ys (m ∷ ms) ns p q = (p.0, Named-append xs ys ms ns p.1 q)
