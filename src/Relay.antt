-- ===== src/Relay.antt =====
-- apps/server/src/relay/daemon.ts: one cycle of the outbox relay. The database and the broker are a
-- `World` that the calls thread: `sweep` is the statement SWEEP_OVERDUE_OUTBOX, `publish` the broker's
-- acknowledgement, `mark_published` and `mark_retry` the number of rows that the fenced statement
-- returned. Each call may throw. The log is left out.
pub mod Counts
use seatfirst.Prelude.{
  ℕ, zero, suc, ◌+◌, String, Bool, true, false, Option, none, some, List, [], ◌∷◌, length, ltb,
  if◌then◌else◌,
}
use seatfirst.Prelude.Outcome.{Outcome, ok, throw}
use text.Mathlib.Text.{◌==◌ as same_text}

pub record OverdueOutboxRow : Type 0 where
  pub outbox_id : String
  pub target_kind : String
  pub job_id : Option String
  pub run_id : Option String
  pub tmdb_fetch_id : Option String
  pub traceparent : Option String

pub record Publication : Type 0 where
  pub outbox_id : String
  pub target_kind : String
  pub target_id : String
  pub traceparent : Option String

pub record PollOnceResult : Type 0 where
  pub swept : ℕ
  pub published : ℕ
  pub publish_failed : ℕ
  pub retried : ℕ
  pub retry_fenced : ℕ
  pub mark_fenced : ℕ
  pub mark_failed : ℕ

pub data RowOutcome : Type 0 where
  row_published : RowOutcome
  row_retried : RowOutcome
  row_retry_fenced : RowOutcome
  row_retry_mark_failed : RowOutcome
  row_mark_fenced : RowOutcome
  row_mark_failed : RowOutcome

-- The calls: each returns its result, or `none` when it throws, and the world after it.
pub record Services (World : Type 0) : Type 0 where
  pub sweep : ℕ → World → Option (List OverdueOutboxRow) × World
  pub publish : Publication → World → Bool × World
  pub mark_published : String → World → Option ℕ × World
  pub mark_retry : String → World → Option ℕ × World

abbrev pub target_id_of : OverdueOutboxRow → Option String
target_id_of row =
    if same_text row.target_kind "JOB"
    then row.job_id
    else if same_text row.target_kind "RUN"
    then row.run_id
    else if same_text row.target_kind "TMDB_FETCH"
    then row.tmdb_fetch_id
    else none

-- The publication of a row, unless its kind is unknown or it has no id of that kind.
abbrev pub publication_of : OverdueOutboxRow → Option Publication
publication_of row = elim (target_id_of row) [
  | none ↦ none
  | some id ↦ some (record {
    outbox_id = row.outbox_id;
    target_kind = row.target_kind;
    target_id = id;
    traceparent = row.traceparent;
  })
]

abbrev pub retry_outcome : Option ℕ → RowOutcome
retry_outcome none = row_retry_mark_failed
retry_outcome (some zero) = row_retry_fenced
retry_outcome (some (suc n)) = row_retried

abbrev pub mark_outcome : Option ℕ → RowOutcome
mark_outcome none = row_mark_failed
mark_outcome (some zero) = row_mark_fenced
mark_outcome (some (suc n)) = row_published

-- The counters of a result, each increased.
abbrev pub add_counts : ℕ → ℕ → ℕ → ℕ → ℕ → ℕ → PollOnceResult → PollOnceResult
add_counts published publish_failed retried retry_fenced mark_fenced mark_failed r = record {
  swept = r.swept;
  published = r.published + published;
  publish_failed = r.publish_failed + publish_failed;
  retried = r.retried + retried;
  retry_fenced = r.retry_fenced + retry_fenced;
  mark_fenced = r.mark_fenced + mark_fenced;
  mark_failed = r.mark_failed + mark_failed;
}

count_row : RowOutcome → PollOnceResult → PollOnceResult
count_row row_published r = add_counts 1 0 0 0 0 0 r
count_row row_retried r = add_counts 0 1 1 0 0 0 r
count_row row_retry_fenced r = add_counts 0 1 0 1 0 0 r
count_row row_retry_mark_failed r = add_counts 0 1 0 0 0 1 r
count_row row_mark_fenced r = add_counts 0 0 0 0 1 0 r
count_row row_mark_failed r = add_counts 0 0 0 0 0 1 r

abbrev pub no_rows : ℕ → PollOnceResult
no_rows swept = record {
  swept = swept;
  published = 0;
  publish_failed = 0;
  retried = 0;
  retry_fenced = 0;
  mark_fenced = 0;
  mark_failed = 0;
}

-- The statement SWEEP_OVERDUE_OUTBOX threw.
pub data RelayError : Type 0 where
  sweep_failed : RelayError
  telemetry_failed : RelayError

module _ {World : Type 0} (services : Services World) where
  mark_retry_of : OverdueOutboxRow → World → RowOutcome × World
  mark_retry_of row world =
      let (rows, after) = services.mark_retry row.outbox_id world in (retry_outcome rows, after)

  after_publish : OverdueOutboxRow → Bool × World → RowOutcome × World
  unfolding mark_retry_of
  after_publish row (false, world) = mark_retry_of row world
  after_publish row (true, world) =
      let (rows, after) = services.mark_published row.outbox_id world in (mark_outcome rows, after)

  publish_row : OverdueOutboxRow → Option Publication → World → RowOutcome × World
  unfolding after_publish
  publish_row row none world = mark_retry_of row world
  publish_row row (some p) world = after_publish row (services.publish p world)

  unfoldable pub process_row : OverdueOutboxRow → World → RowOutcome × World
  unfolding publish_row
  process_row row world = publish_row row (publication_of row) world

  process_rows : List OverdueOutboxRow → PollOnceResult → World → PollOnceResult × World
  unfolding process_row count_row
  process_rows [] result world = (result, world)
  process_rows (row ∷ rows) result world =
      let (outcome, after) = process_row row world in
      process_rows rows (count_row outcome result) after

  poll_swept : Option (List OverdueOutboxRow) × World → Outcome RelayError PollOnceResult × World
  unfolding process_rows
  poll_swept (none, world) = (throw sweep_failed, world)
  poll_swept (some rows, world) =
      let (result, after) = process_rows rows (no_rows (length rows)) world in (ok result, after)

  unfoldable pub poll_once : ℕ → World → Outcome RelayError PollOnceResult × World
  unfolding poll_swept
  poll_once batch_size world = poll_swept (services.sweep batch_size world)

-- apps/server/src/relay/state.ts
pub record RelayState : Type 0 where
  pub last_successful_poll_at : Option ℕ
  pub pending_backlog_depth : ℕ
  pub oldest_pending_age_ms : ℕ
  pub alarm_active : Bool

abbrev pub create_relay_state : RelayState
create_relay_state = record {
  last_successful_poll_at = none;
  pending_backlog_depth = 0;
  oldest_pending_age_ms = 0;
  alarm_active = false;
}

pub record PendingTelemetry : Type 0 where
  pub pending : ℕ
  pub oldest_age_ms : ℕ

-- The state after a cycle: unchanged when the poll or the telemetry probe threw.
pub after_cycle :
    {A : Type 0}
    → ℕ
    → ℕ
    → Outcome RelayError A
    → Outcome RelayError PendingTelemetry
    → RelayState
    → RelayState
after_cycle threshold now (throw e) telemetry state = state
after_cycle threshold now (ok polled) (throw e) state = state
after_cycle threshold now (ok polled) (ok t) state = record {
  last_successful_poll_at = some now;
  pending_backlog_depth = t.pending;
  oldest_pending_age_ms = t.oldest_age_ms;
  alarm_active = ltb threshold t.oldest_age_ms;
}
