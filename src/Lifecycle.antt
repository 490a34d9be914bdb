-- ===== src/Lifecycle.antt =====
-- packages/durability/src/lifecycle.ts: the answer mode of a search's persisted facts. The evidence,
-- which the code passes on, has types of its own: `Exact` and `Hedged`. The lists that are always empty
-- (`otherFormats`, `suggestions`) are left out.
pub mod Matrix
use seatfirst.Prelude.{
  ℕ, String, Bool, true, false, ◌&&◌, Option, none, some, ltb, ◌==◌, if◌then◌else◌,
}
use seatfirst.Prelude.Outcome.{Outcome, ok, throw}

pub data LifecycleStatus : Type 0 where
  pending_schedule : LifecycleStatus
  running : LifecycleStatus
  complete : LifecycleStatus
  partial : LifecycleStatus
  halted : LifecycleStatus
  cancelled : LifecycleStatus

-- The persisted cause; `unrecognized` is any other string.
pub data TerminalCause : Type 0 where
  capacity : TerminalCause
  partial_schedule : TerminalCause
  provider_halted : TerminalCause
  too_few_showtimes : TerminalCause
  batch_deferred : TerminalCause
  no_cause : TerminalCause
  unrecognized : String → TerminalCause

pub data ScheduleOutcome : Type 0 where
  resolved : ScheduleOutcome
  empty_resolved : ScheduleOutcome
  failed : ScheduleOutcome
  mixed : ScheduleOutcome
  no_outcome : ScheduleOutcome

pub data EmptyCause : Type 0 where
  empty_capacity : EmptyCause
  empty_halted : EmptyCause
  no_shape_match : EmptyCause
  empty_partial_schedule : EmptyCause
  sold_out : EmptyCause
  empty_too_few_showtimes : EmptyCause

-- The messages of the errors that are thrown.
pub data LifecycleError : Type 0 where
  nonterminal_carried_cause : LifecycleError
  capacity_requires_halted : LifecycleError
  provider_halted_requires_halted : LifecycleError
  too_few_requires_empty_coverage : LifecycleError
  partial_schedule_requires_mixed : LifecycleError
  batch_deferred_requires_partial : LifecycleError
  no_matrix_row : LifecycleError

pub record LifecycleFacts : Type 0 where
  pub status : LifecycleStatus
  pub terminal_cause : TerminalCause
  pub schedule_outcome : ScheduleOutcome
  pub accepted_fetches : ℕ
  pub free_seats : ℕ

abbrev pub is_nonterminal : LifecycleStatus → Bool
is_nonterminal pending_schedule = true
is_nonterminal running = true
is_nonterminal complete = false
is_nonterminal partial = false
is_nonterminal halted = false
is_nonterminal cancelled = false

abbrev pub is_complete : LifecycleStatus → Bool
is_complete complete = true
is_complete pending_schedule = false
is_complete running = false
is_complete partial = false
is_complete halted = false
is_complete cancelled = false

abbrev pub is_partial : LifecycleStatus → Bool
is_partial partial = true
is_partial complete = false
is_partial pending_schedule = false
is_partial running = false
is_partial halted = false
is_partial cancelled = false

abbrev pub is_halted : LifecycleStatus → Bool
is_halted halted = true
is_halted complete = false
is_halted pending_schedule = false
is_halted running = false
is_halted partial = false
is_halted cancelled = false

abbrev pub is_empty_resolved : ScheduleOutcome → Bool
is_empty_resolved empty_resolved = true
is_empty_resolved resolved = false
is_empty_resolved failed = false
is_empty_resolved mixed = false
is_empty_resolved no_outcome = false

abbrev pub is_mixed : ScheduleOutcome → Bool
is_mixed mixed = true
is_mixed empty_resolved = false
is_mixed resolved = false
is_mixed failed = false
is_mixed no_outcome = false

abbrev pub has_cause : TerminalCause → Bool
has_cause no_cause = false
has_cause capacity = true
has_cause partial_schedule = true
has_cause provider_halted = true
has_cause too_few_showtimes = true
has_cause batch_deferred = true
has_cause (unrecognized s) = true

module _ (Exact Hedged : Type 0) where
  pub data RankedAnswer : Type 0 where
    confident : Exact → RankedAnswer
    hedged : Hedged → RankedAnswer
    empty : EmptyCause → RankedAnswer

  pub record AnswerEvidence : Type 0 where
    pub exact : Option Exact
    pub alternatives : Option Hedged

module _ {Exact Hedged : Type 0} where
  abbrev pub hedged_or : Option Hedged → EmptyCause → RankedAnswer Exact Hedged
  hedged_or none cause = empty cause
  hedged_or (some a) cause = hedged a

  -- What is left without an exact recommendation that may be stood behind.
  fallback : LifecycleFacts → Option Hedged → RankedAnswer Exact Hedged
  fallback facts alternatives = hedged_or alternatives (
      if ltb 0 facts.free_seats
      then no_shape_match
      else if is_complete facts.status
      then sold_out
      else empty_halted)

  confident_or : Bool → Option Exact → RankedAnswer Exact Hedged → RankedAnswer Exact Hedged
  confident_or false exact rest = rest
  confident_or true none rest = rest
  confident_or true (some e) rest = confident e

  -- The code after the switch.
  by_evidence : LifecycleFacts → AnswerEvidence Exact Hedged → RankedAnswer Exact Hedged
  unfolding fallback confident_or
  by_evidence facts evidence =
      if is_halted facts.status
      then empty empty_halted
      else if facts.accepted_fetches == 0
      then empty empty_halted
      else confident_or (is_complete facts.status) evidence.exact
          (fallback facts evidence.alternatives)

  by_cause :
      LifecycleFacts
      → AnswerEvidence Exact Hedged
      → TerminalCause
      → Outcome LifecycleError (RankedAnswer Exact Hedged)
  unfolding by_evidence
  by_cause facts evidence capacity =
      if is_halted facts.status then ok (empty empty_capacity) else throw capacity_requires_halted
  by_cause facts evidence provider_halted =
      if is_halted facts.status
      then ok (empty empty_halted)
      else throw provider_halted_requires_halted
  by_cause facts evidence too_few_showtimes =
      if is_complete facts.status && is_empty_resolved facts.schedule_outcome
      then ok (empty empty_too_few_showtimes)
      else throw too_few_requires_empty_coverage
  by_cause facts evidence partial_schedule =
      if is_partial facts.status && is_mixed facts.schedule_outcome
      then ok (hedged_or evidence.alternatives empty_partial_schedule)
      else throw partial_schedule_requires_mixed
  by_cause facts evidence batch_deferred =
      if is_partial facts.status
      then ok (by_evidence facts evidence)
      else throw batch_deferred_requires_partial
  by_cause facts evidence no_cause = ok (by_evidence facts evidence)
  by_cause facts evidence (unrecognized s) = throw no_matrix_row

  abbrev pub answered :
      Outcome LifecycleError (RankedAnswer Exact Hedged)
      → Outcome LifecycleError (Option (RankedAnswer Exact Hedged))
  answered (ok a) = ok (some a)
  answered (throw e) = throw e

  -- `ok none` is `null`, the answer of a search that still runs.
  unfoldable pub derive_ranked_answer :
      LifecycleFacts
      → AnswerEvidence Exact Hedged
      → Outcome LifecycleError (Option (RankedAnswer Exact Hedged))
  unfolding by_cause
  derive_ranked_answer facts evidence =
      if is_nonterminal facts.status
      then (if has_cause facts.terminal_cause then throw nonterminal_carried_cause else ok none)
      else answered (by_cause facts evidence facts.terminal_cause)
