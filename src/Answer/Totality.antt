-- ===== src/Answer/Totality.antt =====
-- packages/core/src/answer-assembly.ts: `assembleAnswerEvidence` on hits that name resolved showtimes.
use seatfirst.Prelude.{
  ◌≡◌, refl, sym, ap, subst, suc, Option, none, some, List, [], ◌∷◌, map, length, All,
}
use seatfirst.Prelude.Outcome.{Yields}
use seatfirst.Recovery.{KeyOf, GroupHit, Placement}
use seatfirst.Answer.{
  Measure, Spec, AnswerGroup, Dimensions, Candidate, Evidence, hits_of_group, group_dimensions,
}
use seatfirst.Answer.Ranked.{
  placement_of, no_placement, assemble_with, assemble_answer_evidence, select,
}
use seatfirst.Answer.Selection.{IsSelection, select_lem}
use seatfirst.Answer.Origins.{GroupResolves, BuiltHits, BuiltGroups, build_groups_lem}

length-mapped : {A B : Type 0} (f : A → B) (xs : List A) → length (map f xs) ≡ length xs
length-mapped f [] = refl
length-mapped f (x ∷ xs) = ap suc (length-mapped f xs)

module _ (M : Measure) (key_of : KeyOf) (spec : Spec M.Real) where
  -- The placements of the hits of each group, one for one.
  abbrev pub Aligned : List (AnswerGroup M.Real) → List (List (Option Placement)) → Type 0
  Aligned groups placements =
      map (λ ps. length ps) placements ≡ map (λ g. length (hits_of_group g.group_hits)) groups

  length-BuiltHits :
      (d : Dimensions) (g : AnswerGroup M.Real) (hits : List GroupHit)
      (cs : List (Option (Candidate M.Real)))
      → BuiltHits M key_of spec d g hits cs
      → length cs ≡ length hits
  length-BuiltHits d g [] [] b = refl
  length-BuiltHits d g [] (c ∷ cs) b = absurd b
  length-BuiltHits d g (h ∷ hs) [] b = absurd b
  length-BuiltHits d g (h ∷ hs) (c ∷ cs) b = ap suc (length-BuiltHits d g hs cs b.1)

  BuiltGroups-Aligned :
      (d : Dimensions) (groups : List (AnswerGroup M.Real))
      (built : List (List (Option (Candidate M.Real))))
      → BuiltGroups M key_of spec d groups built
      → Aligned groups (map (map placement_of) built)
  BuiltGroups-Aligned d [] [] b = refl
  BuiltGroups-Aligned d [] (cs ∷ css) b = absurd b
  BuiltGroups-Aligned d (g ∷ gs) [] b = absurd b
  BuiltGroups-Aligned d (g ∷ gs) (cs ∷ css) b =
      rw
        (
          length-mapped placement_of cs,
          length-BuiltHits d g (hits_of_group g.group_hits) cs b.0,
          BuiltGroups-Aligned d gs css b.1,
        )
        refl

  unplaced :
      (groups : List (AnswerGroup M.Real))
      → Aligned groups (map (λ g. map no_placement (hits_of_group g.group_hits)) groups)
  unplaced [] = refl
  unplaced (g ∷ gs) = rw (length-mapped no_placement (hits_of_group g.group_hits), unplaced gs) refl

  -- What the evidence is: nothing for a group shape without dimensions, or a selection among the
  -- candidates of the groups' hits.
  pub data EvidenceFrom (groups : List (AnswerGroup M.Real))
      : Option Dimensions → Evidence → Type 0 where
    nothing : {e : Evidence} → e.exact ≡ none → e.hedged ≡ none → EvidenceFrom groups none e
    selected :
        {d : Dimensions} {e : Evidence} (built : List (List (Option (Candidate M.Real))))
        → BuiltGroups M key_of spec d groups built
        → IsSelection M key_of built e
        → EvidenceFrom groups (some d) e

  assemble_with_lem :
      (groups : List (AnswerGroup M.Real)) (d : Option Dimensions)
      → All GroupResolves groups
      → Yields
          (assemble_with M key_of spec groups d)
          (λ e. Aligned groups e.hit_placements × EvidenceFrom groups d e)
  unfolding assemble_with
  assemble_with_lem groups none a = (_, refl, (unplaced groups, nothing refl refl))
  assemble_with_lem groups (some d) a =
      let (built, e, b) = build_groups_lem M key_of spec d groups a in
      let s = select_lem M key_of built in
      (
        select M key_of built,
        rw e refl,
        (
          subst (Aligned groups) (sym s.placements) (BuiltGroups-Aligned d groups built b),
          selected built b s,
        ),
      )

  -- If every hit names only resolved showtimes of its group, the evidence is returned without an
  -- error, and its placements stand one for one with the hits of the groups. For a group shape with
  -- dimensions it is a selection among candidates that stand one for one with the hits: a hit has
  -- none exactly when one of its block's cells has no name, and else one that copies the hit's
  -- place and score, names the seats of the block in row-major order and the hit's showtimes, and
  -- is without relaxations if and only if the hit is offered at as many showtimes as the threshold
  -- asks for, the group has no unresolved showtime and the cells are inside the region. The exact
  -- recommendation is that of an exact candidate that no exact candidate comes before, without
  -- alternatives; or no candidate is exact and the alternatives are the first two or three of the
  -- sorted candidates, or none for fewer than two.
  pub assemble_answer_evidence_lem :
      (groups : List (AnswerGroup M.Real))
      → All GroupResolves groups
      → Yields (assemble_answer_evidence M key_of spec groups) (λ e.
        Aligned groups e.hit_placements × EvidenceFrom groups (group_dimensions spec.group) e)
  unfolding assemble_answer_evidence
  assemble_answer_evidence_lem groups a = assemble_with_lem groups (group_dimensions spec.group) a
