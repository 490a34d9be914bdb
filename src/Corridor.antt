-- ===== src/Corridor.antt =====
-- packages/browser-runtime/src/guard.ts: the guard of the browser corridor, a state machine over the
-- documents that are navigated to. `parse_url` is the platform's URL parser, with what the guard reads
-- of its result; `is_allowed_url` is the predicate of packages/providers/src/amc/routes.ts.
pub mod Stages
use seatfirst.Prelude.{
  ℕ, suc, String, Bool, true, false, not, ◌&&◌, ◌||◌, Option, none, some, List, [], ◌∷◌, map,
  length, ◌==◌, if◌then◌else◌,
}
use seatfirst.Prelude.Outcome.{Outcome, ok, throw}
use text.Mathlib.Text.{◌==◌ as same_text}

-- A query parameter, and a URL; `has_secrets` when the user name, the password or the hash is not empty.
pub record Param : Type 0 where
  pub key : String
  pub value : String

pub record Url : Type 0 where
  pub origin : String
  pub pathname : String
  pub search_params : List Param
  pub has_secrets : Bool

pub data CorridorStage : Type 0 where
  amc_initial : CorridorStage
  queue_entry : CorridorStage
  amc_token_return : CorridorStage
  amc_clean_return : CorridorStage
  complete : CorridorStage

pub data GuardRejectionReason : Type 0 where
  unparseable_url : GuardRejectionReason
  credentials_or_hash : GuardRejectionReason
  initial_not_allowed : GuardRejectionReason
  wrong_origin : GuardRejectionReason
  unexpected_pathname : GuardRejectionReason
  disallowed_query_key : GuardRejectionReason
  missing_t : GuardRejectionReason
  invalid_t_target : GuardRejectionReason
  unexpected_query_shape : GuardRejectionReason
  extra_params : GuardRejectionReason
  unexpected_hop : GuardRejectionReason

pub record InitialDocumentShape : Type 0 where
  pub origin : String
  pub pathname : String
  pub query_keys : List String

pub record CorridorState : Type 0 where
  pub stage : CorridorStage
  pub initial : Option InitialDocumentShape

pub data GuardCheckResult : Type 0 where
  accepted : CorridorStage → CorridorState → GuardCheckResult
  rejected : GuardRejectionReason → GuardCheckResult

-- "corridor invariant violated: … without an initial document"
pub data CorridorError : Type 0 where
  no_initial_document : CorridorError

abbrev pub initial_corridor_state : CorridorState
initial_corridor_state = record { stage = amc_initial; initial = none }

abbrev pub queue_entry_origin : String
queue_entry_origin = "https://queue.amctheatres.com"

abbrev pub queue_entry_allowed_query_keys : List String
queue_entry_allowed_query_keys =
    "c" ∷ "e" ∷ "ver" ∷ "cver" ∷ "man" ∷ "enqueuetoken" ∷ "t" ∷ "kupver" ∷ []

abbrev pub keys_of : Url → List String
keys_of url = map (λ p. p.key) url.search_params

includes : List String → String → Bool
includes [] k = false
includes (x ∷ xs) k = same_text x k || includes xs k

-- How often a key occurs: `counts.get(key) ?? 0`, and `getAll(key).length`.
pub occurrences : String → List String → ℕ
occurrences k [] = 0
occurrences k (x ∷ xs) = let rest = occurrences k xs in if same_text x k then suc rest else rest

-- `counts.size`
distinct_keys : List String → ℕ
unfolding includes
distinct_keys [] = 0
distinct_keys (x ∷ xs) = let rest = distinct_keys xs in if includes xs x then rest else suc rest

-- `searchParams.get`
get_param : String → List Param → Option String
get_param k [] = none
get_param k (p ∷ ps) = if same_text p.key k then some p.value else get_param k ps

-- `value === null || value === ""` is false
abbrev pub is_given : Option String → Bool
is_given none = false
is_given (some v) = not (same_text v "")

all_single : List String → List String → Bool
unfolding includes occurrences
all_single keys [] = true
all_single keys (k ∷ ks) =
    includes queue_entry_allowed_query_keys k && occurrences k keys == 1 && all_single keys ks

all_once : List String → List String → Bool
unfolding occurrences
all_once keys [] = true
all_once keys (k ∷ ks) = occurrences k keys == 1 && all_once keys ks

module _ (parse_url : String → Option Url) (is_allowed_url : Url → Bool) where
  check_initial : Url → GuardCheckResult
  check_initial url =
      if is_allowed_url url
      then accepted amc_initial (record {
        stage = queue_entry;
        initial =
            some
              (record { origin = url.origin; pathname = url.pathname; query_keys = keys_of url });
      })
      else rejected initial_not_allowed

  -- The return target `t` must itself be an allowed document.
  is_return_target : Option String → Bool
  is_return_target none = false
  is_return_target (some t) = elim (parse_url t) [
    | none ↦ false
    | some u ↦ not u.has_secrets && is_allowed_url u
  ]

  check_queue_entry : Url → InitialDocumentShape → GuardCheckResult
  unfolding is_return_target all_single get_param
  check_queue_entry url initial =
      if not (same_text url.origin queue_entry_origin)
      then rejected wrong_origin
      else if not (same_text url.pathname "/")
      then rejected unexpected_pathname
      else if not (all_single (keys_of url) (keys_of url))
      then rejected disallowed_query_key
      else if not (is_given (get_param "t" url.search_params))
      then rejected missing_t
      else if not (is_return_target (get_param "t" url.search_params))
      then rejected invalid_t_target
      else accepted queue_entry (record { stage = amc_token_return; initial = some initial })

  check_token_return : Url → InitialDocumentShape → GuardCheckResult
  unfolding all_once get_param distinct_keys occurrences
  check_token_return url initial =
      if not (same_text url.origin initial.origin)
      then rejected wrong_origin
      else if not (same_text url.pathname initial.pathname)
      then rejected unexpected_pathname
      else if not (occurrences "queueittoken" (keys_of url) == 1)
      then rejected unexpected_query_shape
      else if not (is_given (get_param "queueittoken" url.search_params))
      then rejected unexpected_query_shape
      else if not (all_once (keys_of url) initial.query_keys)
      then rejected unexpected_query_shape
      else if not (distinct_keys (keys_of url) == suc (length initial.query_keys))
      then rejected unexpected_query_shape
      else accepted amc_token_return (record { stage = amc_clean_return; initial = some initial })

  check_clean_return : Url → InitialDocumentShape → GuardCheckResult
  check_clean_return url initial =
      if not (same_text url.origin initial.origin)
      then rejected wrong_origin
      else if not (same_text url.pathname initial.pathname)
      then rejected unexpected_pathname
      else if not (is_allowed_url url)
      then rejected extra_params
      else accepted amc_clean_return (record { stage = complete; initial = some initial })

  abbrev pub with_initial :
      Option InitialDocumentShape
      → (InitialDocumentShape → GuardCheckResult)
      → Outcome CorridorError GuardCheckResult
  with_initial none check = throw no_initial_document
  with_initial (some i) check = ok (check i)

  check_stage :
      CorridorStage → Option InitialDocumentShape → Url → Outcome CorridorError GuardCheckResult
  unfolding check_initial check_queue_entry check_token_return check_clean_return
  check_stage amc_initial initial url = ok (check_initial url)
  check_stage queue_entry initial url = with_initial initial (check_queue_entry url)
  check_stage amc_token_return initial url = with_initial initial (check_token_return url)
  check_stage amc_clean_return initial url = with_initial initial (check_clean_return url)
  check_stage complete initial url = ok (rejected unexpected_hop)

  -- The guard's verdict on the next document.
  unfoldable pub check_document : CorridorState → String → Outcome CorridorError GuardCheckResult
  unfolding check_stage
  check_document state raw_url = elim (parse_url raw_url) [
    | none ↦ ok (rejected unparseable_url)
    | some url ↦
        if url.has_secrets
        then ok (rejected credentials_or_hash)
        else check_stage state.stage state.initial url
  ]
