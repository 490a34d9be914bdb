-- ===== src/Examples/Evidences.antt =====
-- packages/core/src/answer-assembly.ts at small groups; numbers with a fraction are whole here.
use seatfirst.Prelude.{ℕ, ◌+◌, ◌*◌, ◌-◌, ◌≡◌, refl, true, none, some, List, [], ◌∷◌, leb}
use seatfirst.Prelude.Int.{pos}
use seatfirst.Prelude.Outcome.{ok, Yields}
use seatfirst.Sorting.{sort}
use seatfirst.Recovery.{GroupHit, KeyOf, Placement}
use seatfirst.Group.{run}
use seatfirst.Answer.{
  Measure, Spec, no_threshold, at_least, AnswerGroup, Dimensions, Relaxed, fewer_showtimes,
  Alternatives, two, Recommendation, Evidence, together, centered_at, middle_third, aisle_adjacent,
  avoids_front, cells_of_row, member_cells, offer_of, offers_of, candidate_of, candidate_when_named,
  build_candidate, build_hits, build_groups,
}
use seatfirst.Answer.Ranked.{
  find_exact, somes, all_candidates, assemble_with, assemble_answer_evidence, select,
}
use seatfirst.Answer.Origins.{GroupResolves}
use seatfirst.Answer.Totality.{Aligned, EvidenceFrom, assemble_answer_evidence_lem}
use seatfirst.Answer.Served.{
  handed_over, Recommends, Hedges, confident_answer_lem, hedged_answer_lem,
}
use seatfirst.Lifecycle.{
  LifecycleFacts, complete, no_cause, resolved, confident, hedged, derive_ranked_answer,
}

abbrev first_or_zero : List ℕ → ℕ
first_or_zero [] = 0
first_or_zero (x ∷ xs) = x

abbrev whole : Measure
whole = record {
  Real = ℕ;
  zero_real = 0;
  mean = first_or_zero;
  magnitude = λ x. x;
  le = leb;
  from_sweet_spot = λ x. x - 65 + (65 - x);
  percent = pos;
  at_least_fraction = λ a b c. leb (b * c) a;
  centered_max = 15;
  front_third = 33;
  middle_third_back = 66;
  position = λ x. x;
  score_position = λ s. s;
}

abbrev keys : KeyOf
keys layout row start_col row_span count = row * 100 + start_col

abbrev hit : GroupHit
hit = record { row = 0; start_col = 0; row_span = 1; run_score = 7; showtime_indices = 0 ∷ [] }

abbrev group : AnswerGroup ℕ
group = record {
  layout_id = "hall";
  columns = 2;
  metrics = record {
    seat_index_in_row = pos 0 ∷ pos 1 ∷ [];
    depths = 50 ∷ 50 ∷ [];
    laterals = 10 ∷ 10 ∷ [];
    aisle_distance = pos 0 ∷ pos 0 ∷ [];
  };
  seat_names = λ cell. some "A1";
  region_mask = none;
  showtimes = record { showtime_id = "early"; is_resolved = true } ∷ [];
  group_hits = some (hit ∷ []);
}

abbrev spec : Spec ℕ
spec = record { region_label = none; threshold = no_threshold; group = some (run 2) }

group-Resolves : GroupResolves group
group-Resolves = ((((record { showtime_id = "early"; is_resolved = true }), refl, refl), tt), tt)

assemble_answer_evidence_example :
    Yields (assemble_answer_evidence whole keys spec (group ∷ [])) (λ e.
      Aligned whole keys spec (group ∷ []) e.hit_placements
      × EvidenceFrom whole keys spec (group ∷ []) (some (record { count = 2; columns_of = 2 })) e)
assemble_answer_evidence_example =
    assemble_answer_evidence_lem whole keys spec (group ∷ []) (group-Resolves, tt)

abbrev facts : LifecycleFacts
facts = record {
  status = complete;
  terminal_cause = no_cause;
  schedule_outcome = resolved;
  accepted_fetches = 3;
  free_seats = 5;
}

abbrev seats_at : ℕ → Placement
seats_at start_col = record {
  layout_id = "hall";
  row = 0;
  start_col = start_col;
  row_span = 1;
  count = 2;
  seat_names = "A1" ∷ "A1" ∷ [];
  placement_key = start_col;
}

abbrev recommended : ℕ → List Relaxed → Recommendation
recommended start_col relaxed = record {
  placement = seats_at start_col;
  reasons = together 2 ∷ centered_at (pos 10) ∷ middle_third ∷ aisle_adjacent ∷ avoids_front ∷ [];
  relaxed = relaxed;
  showtimes = "early" ∷ [];
}

-- The hit meets the specification.
abbrev exact_evidence : Evidence
exact_evidence = record {
  exact = some (recommended 0 []);
  hedged = none;
  hit_placements = (some (seats_at 0) ∷ []) ∷ [];
}

exact_run : assemble_answer_evidence whole keys spec (group ∷ []) ≡ ok exact_evidence
unfolding assemble_answer_evidence assemble_with build_groups build_hits build_candidate
    candidate_when_named candidate_of member_cells cells_of_row offers_of offer_of select
    all_candidates somes find_exact sort
exact_run = refl

confident_run :
    derive_ranked_answer facts (handed_over exact_evidence)
    ≡ ok (some (confident (recommended 0 [])))
unfolding derive_ranked_answer
confident_run = refl

confident_answer_example :
    (d : Dimensions) × (some (record { count = 2; columns_of = 2 }) ≡ some d)
    × Recommends whole keys facts spec (group ∷ []) d (recommended 0 [])
confident_answer_example =
    confident_answer_lem whole keys facts spec (group ∷ []) exact_evidence (recommended 0 [])
      (group-Resolves, tt) exact_run confident_run

-- Two hits at one showtime, where the specification asks for two.
abbrev demanding : Spec ℕ
demanding = record { region_label = none; threshold = at_least 2; group = some (run 2) }

abbrev two_hits : AnswerGroup ℕ
two_hits = record group { columns = 3; group_hits = some (hit ∷ record hit { start_col = 1 } ∷ []) }

two_hits-Resolves : GroupResolves two_hits
two_hits-Resolves = (
  (((record { showtime_id = "early"; is_resolved = true }), refl, refl), tt),
  ((((record { showtime_id = "early"; is_resolved = true }), refl, refl), tt), tt),
)

abbrev pair : Alternatives
pair = two (recommended 0 (fewer_showtimes ∷ [])) (recommended 1 (fewer_showtimes ∷ []))

abbrev hedged_evidence : Evidence
hedged_evidence = record {
  exact = none;
  hedged = some pair;
  hit_placements = (some (seats_at 0) ∷ some (seats_at 1) ∷ []) ∷ [];
}

hedged_evidence_run :
    assemble_answer_evidence whole keys demanding (two_hits ∷ []) ≡ ok hedged_evidence
unfolding assemble_answer_evidence assemble_with build_groups build_hits build_candidate
    candidate_when_named candidate_of member_cells cells_of_row offers_of offer_of select
    all_candidates somes find_exact sort
hedged_evidence_run = refl

pair_run : derive_ranked_answer facts (handed_over hedged_evidence) ≡ ok (some (hedged pair))
unfolding derive_ranked_answer
pair_run = refl

hedged_answer_example :
    (d : Dimensions) × (some (record { count = 2; columns_of = 2 }) ≡ some d)
    × Hedges whole keys facts demanding (two_hits ∷ []) d pair
hedged_answer_example =
    hedged_answer_lem whole keys facts demanding (two_hits ∷ []) hedged_evidence pair
      (two_hits-Resolves, tt) hedged_evidence_run pair_run
