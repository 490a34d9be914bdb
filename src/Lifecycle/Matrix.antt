-- ===== src/Lifecycle/Matrix.antt =====
-- packages/durability/src/lifecycle.ts: what each answer of the matrix says of the facts.
use seatfirst.Prelude.{◌<◌, ◌≡◌, ◌≢◌, ◌↔◌, ◌⊎◌, Bool, true, false, not, none, some, arith}
use seatfirst.Prelude.Outcome.{Outcome, ok, throw}
use seatfirst.Lifecycle.{
  LifecycleStatus, pending_schedule, running, complete, partial, halted, TerminalCause, capacity,
  partial_schedule, provider_halted, too_few_showtimes, batch_deferred, no_cause, LifecycleError,
  mixed, empty_resolved, ScheduleOutcome, LifecycleFacts, AnswerEvidence, confident, hedged, empty,
  sold_out, has_cause, is_nonterminal, derive_ranked_answer, by_cause, by_evidence, confident_or,
  fallback,
}

module _ {Exact Hedged : Type 0} (facts : LifecycleFacts)
    (evidence : AnswerEvidence Exact Hedged) where
  -- A confident answer implies a complete search without a terminal cause, at least one accepted
  -- fetch, and that its recommendation is the exact one of the evidence.
  pub confident_lem :
      (x : Exact)
      → derive_ranked_answer facts evidence ≡ ok (some (confident x))
      → (facts.status ≡ complete)
        × ((facts.terminal_cause ≡ no_cause)
            × ((0 < facts.accepted_fetches) × (evidence.exact ≡ some x)))
  unfolding derive_ranked_answer by_cause by_evidence confident_or fallback
  confident_lem x e = ground arith

  -- The answer is null exactly when the search is pending or running and carries no terminal cause.
  pub null_iff :
      (derive_ranked_answer facts evidence ≡ ok none)
      ↔ ((is_nonterminal facts.status ≡ true) × (facts.terminal_cause ≡ no_cause))
  unfolding derive_ranked_answer by_cause by_evidence confident_or fallback
  null_iff = ground arith

  -- A sold-out answer implies a complete search with no free seat, at least one accepted fetch and
  -- neither exact nor hedged evidence.
  pub sold_out_lem :
      derive_ranked_answer facts evidence ≡ ok (some (empty sold_out))
      → ((facts.status ≡ complete) × (facts.free_seats ≡ 0))
        × ((0 < facts.accepted_fetches)
            × ((evidence.exact ≡ none) × (evidence.alternatives ≡ none)))
  unfolding derive_ranked_answer by_cause by_evidence confident_or fallback
  sold_out_lem e = ground arith

  -- A hedged answer carries the hedged alternatives of the evidence, and comes either from a
  -- partial search with a partial mixed schedule, or with an accepted fetch, no exact
  -- recommendation of a complete search, and no cause or a deferred batch of a partial search.
  pub hedged_lem :
      (x : Hedged)
      → derive_ranked_answer facts evidence ≡ ok (some (hedged x))
      → (evidence.alternatives ≡ some x)
        × (((facts.status ≡ partial)
              × ((facts.terminal_cause ≡ partial_schedule) × (facts.schedule_outcome ≡ mixed)))
            ⊎ ((0 < facts.accepted_fetches)
                × (((facts.status ≢ complete) ⊎ (evidence.exact ≡ none))
                    × ((facts.terminal_cause ≡ no_cause)
                        ⊎ ((facts.terminal_cause ≡ batch_deferred) × (facts.status ≡ partial))))))
  unfolding derive_ranked_answer by_cause by_evidence confident_or fallback
  hedged_lem x e = ground arith

-- The rows of the matrix: which causes a status may carry.
abbrev pub has_row : LifecycleStatus → TerminalCause → ScheduleOutcome → Bool
has_row pending_schedule cause _ = not (has_cause cause)
has_row running cause _ = not (has_cause cause)
has_row _ no_cause _ = true
has_row halted capacity _ = true
has_row halted provider_halted _ = true
has_row complete too_few_showtimes empty_resolved = true
has_row partial partial_schedule mixed = true
has_row partial batch_deferred _ = true
has_row _ _ _ = false

-- Whether a value is returned.
abbrev pub is_ok : {A : Type 0} → Outcome LifecycleError A → Bool
is_ok (ok a) = true
is_ok (throw e) = false

module _ {Exact Hedged : Type 0} (facts : LifecycleFacts)
    (evidence : AnswerEvidence Exact Hedged) where
  -- For all facts and evidence, deriving the answer returns a value exactly where the matrix has a
  -- row for the status, the cause and the schedule outcome, and throws otherwise.
  pub has_row_lem :
      is_ok (derive_ranked_answer facts evidence)
      ≡ has_row facts.status facts.terminal_cause facts.schedule_outcome
  unfolding derive_ranked_answer by_cause by_evidence confident_or fallback
  has_row_lem = ground arith

-- The same facts with another cause.
abbrev pub with_cause : TerminalCause → LifecycleFacts → LifecycleFacts
with_cause cause facts = record {
  status = facts.status;
  terminal_cause = cause;
  schedule_outcome = facts.schedule_outcome;
  accepted_fetches = facts.accepted_fetches;
  free_seats = facts.free_seats;
}

module _ {Exact Hedged : Type 0} (facts : LifecycleFacts)
    (evidence : AnswerEvidence Exact Hedged) where
  -- For a partial search, a deferred batch gives the same answer as no terminal cause at all.
  pub batch_deferred_lem :
      facts.status ≡ partial
      → derive_ranked_answer (with_cause batch_deferred facts) evidence
        ≡ derive_ranked_answer (with_cause no_cause facts) evidence
  unfolding derive_ranked_answer by_cause by_evidence confident_or fallback
  batch_deferred_lem e = ground arith
