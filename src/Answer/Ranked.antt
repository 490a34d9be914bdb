-- ===== src/Answer/Ranked.antt =====
-- packages/core/src/answer-assembly.ts: the choice among the candidates and the whole assembly.
use seatfirst.Prelude.{
  Bool, Option, none, some, List, [], ◌∷◌, ◌++◌, map, length, ◌==◌, if◌then◌else◌,
}
use seatfirst.Prelude.Outcome.{Outcome, ok, ◌>>=◌}
use seatfirst.Sorting.{sort}
use seatfirst.Recovery.{Placement, GroupHit, KeyOf}
use seatfirst.Answer.{
  Alternatives, AnswerError, AnswerGroup, Candidate, Dimensions, Evidence, Measure, Spec,
  build_groups, candidate_order, group_dimensions, hits_of_group, three, two,
}

abbrev pub is_exact : {R : Type 0} → Candidate R → Bool
is_exact c = length c.recommendation.relaxed == 0

unfoldable pub find_exact : {R : Type 0} → List (Candidate R) → Option (Candidate R)
find_exact [] = none
find_exact (c ∷ cs) = let rest = find_exact cs in if is_exact c then some c else rest

abbrev pub alternatives_of : {R : Type 0} → List (Candidate R) → Option Alternatives
alternatives_of [] = none
alternatives_of (a ∷ []) = none
alternatives_of (a ∷ b ∷ []) = some (two a.recommendation b.recommendation)
alternatives_of (a ∷ b ∷ c ∷ cs) = some (three a.recommendation b.recommendation c.recommendation)

abbrev pub keep_candidate :
    {R : Type 0} → Option (Candidate R) → List (Candidate R) → List (Candidate R)
keep_candidate none cs = cs
keep_candidate (some c) cs = c ∷ cs

unfoldable pub somes : {R : Type 0} → List (Option (Candidate R)) → List (Candidate R)
somes [] = []
somes (c ∷ cs) = keep_candidate c (somes cs)

unfoldable pub all_candidates :
    {R : Type 0} → List (List (Option (Candidate R))) → List (Candidate R)
unfolding somes
all_candidates [] = []
all_candidates (cs ∷ css) = somes cs ++ all_candidates css

abbrev pub placement_of : {R : Type 0} → Option (Candidate R) → Option Placement
placement_of none = none
placement_of (some c) = some c.recommendation.placement

abbrev pub no_placement : GroupHit → Option Placement
no_placement hit = none

abbrev pub evidence_of :
    {R : Type 0}
    → Option (Candidate R)
    → Option Alternatives
    → List (List (Option Placement))
    → Evidence
evidence_of none hedged placements = record {
  exact = none;
  hedged = hedged;
  hit_placements = placements;
}
evidence_of (some c) hedged placements = record {
  exact = some c.recommendation;
  hedged = none;
  hit_placements = placements;
}

module _ (M : Measure) (key_of : KeyOf) where
  unfoldable pub select : List (List (Option (Candidate M.Real))) → Evidence
  unfolding all_candidates find_exact
  select built =
      let ranked = sort (candidate_order M key_of) (all_candidates built) in
      evidence_of (find_exact ranked) (alternatives_of ranked) (map (map placement_of) built)

  unfoldable pub assemble_with :
      Spec M.Real → List (AnswerGroup M.Real) → Option Dimensions → Outcome AnswerError Evidence
  unfolding build_groups select
  assemble_with spec groups none = ok (record {
    exact = none;
    hedged = none;
    hit_placements = map (λ g. map no_placement (hits_of_group g.group_hits)) groups;
  })
  assemble_with spec groups (some d) =
      build_groups M key_of spec d groups >>= λ built. ok (select built)

  unfoldable pub assemble_answer_evidence :
      Spec M.Real → List (AnswerGroup M.Real) → Outcome AnswerError Evidence
  unfolding assemble_with
  assemble_answer_evidence spec groups = assemble_with spec groups (group_dimensions spec.group)
