-- ===== src/Answer/Served.antt =====
-- packages/core/src/answer-assembly.ts and packages/durability/src/lifecycle.ts: the ranked answer of
-- assembled evidence.
use seatfirst.Prelude.{
  ◌≡◌, refl, sym, ◌∙◌, subst, true, false, Option, none, some, List, [], All, length, arith,
}
use seatfirst.Prelude.Outcome.{Outcome, ok}
use seatfirst.Sorting.{In, IsSorted}
use seatfirst.Recovery.{KeyOf}
use seatfirst.Answer.{
  Measure, Spec, AnswerGroup, Dimensions, Candidate, Evidence, Recommendation, Alternatives,
  candidate_order, group_dimensions,
}
use seatfirst.Answer.Ranked.{is_exact, alternatives_of, all_candidates, assemble_answer_evidence}
use seatfirst.Answer.Selection.{IsSelection, best, relaxed_only}
use seatfirst.Answer.Conditions.{Meets}
use seatfirst.Answer.Origins.{GroupResolves, BuiltGroups, Origin, all_candidates-Origin, cells_at}
use seatfirst.Answer.Totality.{EvidenceFrom, nothing, selected, assemble_answer_evidence_lem}
use seatfirst.Lifecycle.{LifecycleFacts, AnswerEvidence, confident, hedged, derive_ranked_answer}
use seatfirst.Lifecycle.Matrix.{confident_lem, hedged_lem}

abbrev pub handed_over : Evidence → AnswerEvidence Recommendation Alternatives
handed_over e = record { exact = e.exact; alternatives = e.hedged }

module _ (M : Measure) (key_of : KeyOf) (facts : LifecycleFacts) (spec : Spec M.Real)
    (groups : List (AnswerGroup M.Real)) where
  some_unique : {A : Type 0} {x y : A} {o : Option A} → o ≡ some x → o ≡ some y → x ≡ y
  some_unique p q = cc

  not_both : {A : Type 0} {x : A} {o : Option A} → o ≡ none → o ≡ some x → ⊥
  not_both p q = cc

  exact-nil : (c : Candidate M.Real) → is_exact c ≡ true → c.recommendation.relaxed ≡ []
  exact-nil c e = ground (arith, e)

  nil-exact : (c : Candidate M.Real) → c.recommendation.relaxed ≡ [] → is_exact c ≡ true
  nil-exact c e = ground (arith, e)

  -- The recommendation is that of a hit which meets the specification, and no candidate of a hit
  -- that meets it comes before.
  pub record Recommends (d : Dimensions) (x : Recommendation) : Type 0 where
    pub built : List (List (Option (Candidate M.Real)))
    pub of_hits : BuiltGroups M key_of spec d groups built
    pub winner : Candidate M.Real
    pub recommended : winner.recommendation ≡ x
    pub origin : Origin M key_of spec d groups winner
    pub meets :
        Meets M key_of spec origin.group
          (length origin.hit.showtime_indices)
          (cells_at M key_of spec d origin.group origin.hit)
    pub first :
        (y : Candidate M.Real)
        → In y (all_candidates built)
        → y.recommendation.relaxed ≡ []
        → candidate_order M key_of y winner ≡ false

  -- No hit of the groups that has a candidate meets the specification, and the alternatives are the
  -- first of the sorted candidates.
  pub record Hedges (d : Dimensions) (x : Alternatives) : Type 0 where
    pub built : List (List (Option (Candidate M.Real)))
    pub of_hits : BuiltGroups M key_of spec d groups built
    pub none_meets :
        (y : Candidate M.Real)
        → In y (all_candidates built)
        → (o : Origin M key_of spec d groups y) × (Meets M key_of spec o.group
              (length o.hit.showtime_indices)
              (cells_at M key_of spec d o.group o.hit)
            → ⊥)
    pub ranked : List (Candidate M.Real)
    pub sorted : IsSorted (candidate_order M key_of) ranked
    pub members :
        (c : Candidate M.Real)
        → (In c ranked → In c (all_candidates built)) × (In c (all_candidates built) → In c ranked)
    pub alternatives : alternatives_of ranked ≡ some x

  recommends :
      (d : Dimensions) (e : Evidence) (built : List (List (Option (Candidate M.Real))))
      (x : Recommendation)
      → BuiltGroups M key_of spec d groups built
      → IsSelection M key_of built e
      → e.exact ≡ some x
      → Recommends d x
  recommends d e built x b s exact = elim s.choice [
    | best c m k first found alone ↦
        let o = all_candidates-Origin M key_of spec d groups built c b m in
        record {
          built = built;
          of_hits = b;
          winner = c;
          recommended = some_unique found exact;
          origin = o;
          meets = o.made.exact_meets (exact-nil c k);
          first = λ y n e. first y n (nil-exact y e);
        }
    | relaxed_only f nothing_exact alternatives ↦ absurd (not_both nothing_exact exact)
  ]

  not_exact : (y : Candidate M.Real) → is_exact y ≡ false → y.recommendation.relaxed ≡ [] → ⊥
  not_exact y f e = ground (arith, f, nil-exact y e)

  hedges :
      (d : Dimensions) (e : Evidence) (built : List (List (Option (Candidate M.Real))))
      (x : Alternatives)
      → BuiltGroups M key_of spec d groups built
      → IsSelection M key_of built e
      → e.hedged ≡ some x
      → Hedges d x
  hedges d e built x b s found = elim s.choice [
    | best c m k first exact alone ↦ absurd (not_both alone found)
    | relaxed_only f nothing_exact alternatives ↦ record {
      built = built;
      of_hits = b;
      none_meets = λ y m.
          let o = all_candidates-Origin M key_of spec d groups built y b m in
          (o, λ w. not_exact y (f y m) (o.made.meets_exact w));
      ranked = s.ranked;
      sorted = s.sorted;
      members = s.members;
      alternatives = sym alternatives ∙ found;
    }
  ]

  ok_unique : {E A : Type 0} {x y : A} {o : Outcome E A} → o ≡ ok x → o ≡ ok y → x ≡ y
  ok_unique p q = cc

  -- What the assembly returned.
  evidence :
      (e : Evidence)
      → All GroupResolves groups
      → assemble_answer_evidence M key_of spec groups ≡ ok e
      → EvidenceFrom M key_of spec groups (group_dimensions spec.group) e
  evidence e a returned =
      let (e', found, (aligned, from)) = assemble_answer_evidence_lem M key_of spec groups a in
      subst (EvidenceFrom M key_of spec groups (group_dimensions spec.group))
        (ok_unique found returned) from

  confident_from :
      (e : Evidence) (x : Recommendation) (d : Option Dimensions)
      → EvidenceFrom M key_of spec groups d e
      → e.exact ≡ some x
      → (d' : Dimensions) × (d ≡ some d') × Recommends d' x
  confident_from e x none (nothing p q) found = absurd (not_both p found)
  confident_from e x (some d) (selected built b s) found =
      (d, refl, recommends d e built x b s found)

  hedged_from :
      (e : Evidence) (x : Alternatives) (d : Option Dimensions)
      → EvidenceFrom M key_of spec groups d e
      → e.hedged ≡ some x
      → (d' : Dimensions) × (d ≡ some d') × Hedges d' x
  hedged_from e x none (nothing p q) found = absurd (not_both q found)
  hedged_from e x (some d) (selected built b s) found = (d, refl, hedges d e built x b s found)

  -- If every hit names only resolved showtimes of its group, the assembly returned evidence for the
  -- groups, and the answer derived from that evidence is confident, then the group shape has
  -- dimensions and the recommendation is that of a hit of one of the groups: at its place, with the
  -- names of its seats, offered at as many showtimes as the threshold asks for, in a group without
  -- unresolved showtimes, with its cells inside the region; and no candidate of a hit that is
  -- without relaxations comes before it.
  pub confident_answer_lem :
      (e : Evidence) (x : Recommendation)
      → All GroupResolves groups
      → assemble_answer_evidence M key_of spec groups ≡ ok e
      → derive_ranked_answer facts (handed_over e) ≡ ok (some (confident x))
      → (d : Dimensions) × (group_dimensions spec.group ≡ some d) × Recommends d x
  confident_answer_lem e x a returned h =
      let (status, (cause, (fetched, exact))) = confident_lem facts (handed_over e) x h in
      confident_from e x (group_dimensions spec.group) (evidence e a returned) exact

  -- If every hit names only resolved showtimes of its group, the assembly returned evidence for the
  -- groups, and the answer derived from that evidence is hedged, then the group shape has
  -- dimensions, every candidate comes from a hit of one of the groups that is offered at too few
  -- showtimes, has an unresolved showtime in its group or leaves the region, and the alternatives
  -- are the first two or three of the candidates as sorted.
  pub hedged_answer_lem :
      (e : Evidence) (x : Alternatives)
      → All GroupResolves groups
      → assemble_answer_evidence M key_of spec groups ≡ ok e
      → derive_ranked_answer facts (handed_over e) ≡ ok (some (hedged x))
      → (d : Dimensions) × (group_dimensions spec.group ≡ some d) × Hedges d x
  hedged_answer_lem e x a returned h =
      let (found, rest) = hedged_lem facts (handed_over e) x h in
      hedged_from e x (group_dimensions spec.group) (evidence e a returned) found
