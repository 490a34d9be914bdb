-- ===== src/Group/Ladder.antt =====
-- packages/core/src/group-assembly.ts and recovery-ladder.ts: the ladder on an assembled group.
use seatfirst.Prelude.{
  ℕ, zero, suc, ◌+◌, ◌<◌, ◌≡◌, refl, sym, subst, ap, ◌∙◌, Bool, Option, none, some, List, [], ◌∷◌,
  ◌++◌, map, length, All, inl, inr, Bool-cases, arith,
}
use seatfirst.Prelude.Outcome.{ok, Yields}
use seatfirst.Sorting.{All-sort}
use seatfirst.Bitmap.{Bitmap}
use seatfirst.Region.Syntax.{Number}
use seatfirst.Recovery.{GroupHit, KeyOf, LadderInput}
use seatfirst.Recovery.Rungs.{assemble_recovery_ladder}
use seatfirst.Recovery.Rungs.Valid.{AllHits, InRange, IsParsed, IsLadderInput}
use seatfirst.Recovery.Rungs.Ladder.{LadderOffers, assemble_recovery_ladder_lem}
use seatfirst.Group.{
  GroupShape, run, block, split, Scores, ShowtimeInput, Group, assembled, row_span,
}
use seatfirst.Group.Sets.{IsPlaceable}
use seatfirst.Group.Result.{GroupInput, first_gate, assemble_result_group}
use seatfirst.Group.Hits.{passing, when_resolved}
use seatfirst.Group.Placed.{hit_for, each_cell}
use seatfirst.Group.Outputs.{describe}
use seatfirst.Group.Assembly.{IsGroupInput, PlaceableOption, hits_of, assemble_result_group_lem}

module _ {A : Type 0} (P : A → Type 0) where
  All-append : (xs ys : List A) → All P xs → All P ys → All P (xs ++ ys)
  All-append [] ys p q = q
  All-append (x ∷ xs) ys p q = (p.0, All-append xs ys p.1 q)

  All-each_cell : (at : ℕ → List A) (n j : ℕ) → ((i : ℕ) → All P (at i)) → All P (each_cell at n j)
  All-each_cell at zero j h = tt
  All-each_cell at (suc n) j h =
      All-append (at j) (each_cell at n (j + 1)) (h j) (All-each_cell at n (j + 1) h)

passing-lt :
    (f : Bitmap → Bool) (showtimes : List ShowtimeInput) (k bound : ℕ)
    → k + length showtimes ≡ bound
    → All (λ i. i < bound) (passing f showtimes k)
passing-lt f [] k bound e = tt
passing-lt f (s ∷ ss) k bound e =
    let later = passing-lt f ss (k + 1) bound (omega arith) in
    elim (Bool-cases (when_resolved f s.availability)) [
      | inl passes ↦ rw passes (omega arith, later)
      | inr fails ↦ rw fails later
    ]

-- The hit has rows, and its showtime indices are below a bound.
abbrev InBounds : ℕ → GroupHit → Type 0
InBounds bound h = (0 < h.row_span) × All (λ i. i < bound) h.showtime_indices

length-describe : {A B : Type 0} (f : A → B) (xs : List A) → length (map f xs) ≡ length xs
length-describe f [] = refl
length-describe f (x ∷ xs) = ap suc (length-describe f xs)

hit_for-InBounds :
    (scores : Scores) {R : Type 0} (input : GroupInput R) (shape : GroupShape)
    (row column bound : ℕ) (is : List ℕ)
    → 0 < row_span shape
    → All (λ i. i < bound) is
    → All (InBounds bound) (hit_for scores input.layout shape input.seat_scores row column is)
hit_for-InBounds scores input shape row column bound [] span h = tt
hit_for-InBounds scores input shape row column bound (i ∷ is) span h = ((span, h), tt)

abbrev HitsInBounds : ℕ → Option (List GroupHit) → Type 0
HitsInBounds bound none = Unit
HitsInBounds bound (some hits) = All (InBounds bound) hits

span-pos : (shape : GroupShape) → IsPlaceable shape → 0 < row_span shape
span-pos (run count) p = omega arith
span-pos (block rows cols) p = p.0
span-pos (split count groups same_row) p = absurd p

hits_of-InBounds :
    {R : Type 0} (scores : Scores) (input : GroupInput R) (shape : Option GroupShape)
    → PlaceableOption shape
    → HitsInBounds (length input.showtimes) (hits_of scores input shape)
hits_of-InBounds scores input none p = tt
hits_of-InBounds scores input (some shape) p = All-sort _ _ _ (
    All-each_cell _ _ _ 0 λ i.
      hit_for-InBounds scores input shape _ _ (length input.showtimes) _ (span-pos shape p)
        (passing-lt _ input.showtimes 0 (length input.showtimes) (omega arith)))

All-map :
    {P Q : GroupHit → Type 0} (hits : List GroupHit)
    → ((h : GroupHit) → P h → Q h)
    → All P hits
    → All Q hits
All-map [] f a = tt
All-map (h ∷ hs) f a = (f h a.0, All-map hs f a.1)

ladder_input :
    (ladder : LadderInput)
    → IsParsed ladder
    → (hits : Option (List GroupHit)) → ladder.group.group_hits ≡ hits
    → HitsInBounds (length ladder.group.showtimes) hits
    → IsLadderInput ladder
ladder_input ladder p none e h = record {
  parsed = p;
  spans = subst (AllHits (λ h. 0 < h.row_span)) (sym e) tt;
  in_range = subst (AllHits (InRange ladder)) (sym e) tt;
}
ladder_input ladder p (some hits) e h = record {
  parsed = p;
  spans = subst (AllHits (λ h. 0 < h.row_span)) (sym e) (All-map hits (λ x a. a.0) h);
  in_range = subst (AllHits (InRange ladder)) (sym e) (All-map hits (λ x a. a.1) h);
}

-- On a group that the assembly returned for an input on a grid that no gate refuses, with its hits
-- and as many showtimes, and names, identifiers and a gone placement that have passed the schemas,
-- the recovery ladder returns without crashing, and an option it returns has a level from 1 to 4,
-- asks for consent exactly at level 4, and either places the party away from the gone row and
-- column or names a showtime of another index than the gone one.
pub recovery_of_group :
    (N : Number) (scores : Scores) (accepts : Group → Bool) (input : GroupInput N.Real) (g : Group)
    (key_of : KeyOf) (ladder : LadderInput)
    → IsGroupInput scores input
    → first_gate input ≡ none
    → assemble_result_group N scores accepts input ≡ ok (assembled g)
    → ladder.group.group_hits ≡ g.group_hits
    → length ladder.group.showtimes ≡ length g.showtimes
    → IsParsed ladder
    → Yields (assemble_recovery_ladder key_of ladder) (LadderOffers key_of ladder)
recovery_of_group N scores accepts input g key_of ladder v gate e hits size parsed =
    let (g', of, e') = assemble_result_group_lem N scores accepts input v gate in
    elim (Bool-cases (accepts g')) [
      | inl accepted ↦
          let same : g ≡ g' = ground (arith, e, e', accepted) in
          let count : length ladder.group.showtimes ≡ length input.showtimes =
            size
            ∙ ap (λ (x : Group). length x.showtimes) same
            ∙ ap length of.showtimes
            ∙ length-describe (describe input.layout) input.showtimes in
          assemble_recovery_ladder_lem key_of ladder (
            ladder_input ladder parsed (hits_of scores input input.group)
              (hits ∙ ap (λ (x : Group). x.group_hits) same ∙ of.group_hits)
              (subst (λ n. HitsInBounds n (hits_of scores input input.group)) (sym count)
                (hits_of-InBounds scores input input.group v.placeable)))
      | inr refused ↦ absurd (ground (arith, e, e', refused))
    ]
