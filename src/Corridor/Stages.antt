-- ===== src/Corridor/Stages.antt =====
-- packages/browser-runtime/src/guard.ts: the stages that a corridor runs through.
use seatfirst.Prelude.{ℕ, suc, ◌≡◌, ◌≢◌, ◌⊎◌, refl, inl, String, Bool, Option, none, arith}
use seatfirst.Prelude.Outcome.{Outcome, ok, throw}
use seatfirst.Corridor.{
  Url, CorridorStage, amc_initial, queue_entry, amc_token_return, amc_clean_return, complete,
  CorridorError, CorridorState, GuardCheckResult, accepted, rejected, check_document, check_stage,
  check_initial, check_queue_entry, check_token_return, check_clean_return, initial_corridor_state,
}

-- A state is sound when it has its initial document, except before the first stage.
abbrev pub Sound : CorridorState → Type 0
Sound state = (state.stage ≡ amc_initial) ⊎ (state.initial ≢ none)

-- How many documents were accepted before a stage.
abbrev pub steps_to : CorridorStage → ℕ
steps_to amc_initial = 0
steps_to queue_entry = 1
steps_to amc_token_return = 2
steps_to amc_clean_return = 3
steps_to complete = 4

-- The verdict on a sound state: a rejection, or the next stage in a sound state.
abbrev pub Advances : CorridorState → Outcome CorridorError GuardCheckResult → Type 0
Advances state (throw e) = ⊥
Advances state (ok (rejected reason)) = Unit
Advances state (ok (accepted stage next)) =
    (stage ≡ state.stage)
    × ((steps_to next.stage ≡ suc (steps_to state.stage)) × (next.initial ≢ none))

module _ (parse_url : String → Option Url) (is_allowed_url : Url → Bool) where
  -- From a sound state the check never throws, and an acceptance names the state's own stage and
  -- moves to the next stage with an initial document.
  pub check_document-Advances :
      (state : CorridorState) (raw_url : String)
      → Sound state
      → Advances state (check_document parse_url is_allowed_url state raw_url)
  unfolding check_document check_stage check_initial check_queue_entry check_token_return
      check_clean_return
  check_document-Advances state raw_url s = ground arith

  -- The states after a number of accepted documents.
  pub data Reaches : ℕ → CorridorState → Type 0 where
    start : Reaches 0 initial_corridor_state
    step :
        {n : ℕ} {state next : CorridorState} (stage : CorridorStage) (raw_url : String)
        → Reaches n state
        → check_document parse_url is_allowed_url state raw_url ≡ ok (accepted stage next)
        → Reaches (suc n) next

  advance :
      (n : ℕ) (state next : CorridorState) (stage : CorridorStage)
      (r : Outcome CorridorError GuardCheckResult)
      → Advances state r
      → r ≡ ok (accepted stage next)
      → steps_to state.stage ≡ n
      → Sound next × (steps_to next.stage ≡ suc n)
  advance n state next stage r a e h = ground arith

  -- A state that a number of accepted documents leads to from the initial one has its initial
  -- document unless it is at the first stage, and its stage is the one with that number of stages
  -- before it.
  pub Reaches-Sound :
      {n : ℕ} {state : CorridorState} → Reaches n state → Sound state × (steps_to state.stage ≡ n)
  Reaches-Sound start = (inl refl, refl)
  Reaches-Sound (step {n} {state} {next} stage raw_url r e) =
      let (s, h) = Reaches-Sound r in
      advance n state next stage (check_document parse_url is_allowed_url state raw_url)
        (check_document-Advances state raw_url s) e h
