-- ===== src/Relay/Counts.antt =====
-- apps/server/src/relay/daemon.ts: what the counters of a cycle add up to, and what a row that counts
-- as published went through.
use seatfirst.Prelude.{
  ℕ, suc, ◌+◌, ◌≤◌, ◌≡◌, ◌⊎◌, refl, ◌∙◌, true, Option, none, some, List, [], ◌∷◌, length, ltb,
  arith,
}
use seatfirst.Prelude.Outcome.{Outcome, ok}
use text.Mathlib.Text.{◌==◌ as same_text}
use seatfirst.Relay.{
  OverdueOutboxRow, Publication, PollOnceResult, RowOutcome, row_published, Services,
  publication_of, count_row, no_rows, RelayError, mark_retry_of, after_publish, publish_row,
  process_row, process_rows, poll_swept, poll_once, RelayState, create_relay_state,
  PendingTelemetry, after_cycle,
}

-- The rows that a result accounts for.
abbrev pub handled : PollOnceResult → ℕ
handled r = r.published + r.retried + r.retry_fenced + r.mark_fenced + r.mark_failed

-- A failed publish was retried, fenced out, or failed to be marked.
abbrev pub FailuresBounded : PollOnceResult → Type 0
FailuresBounded r =
    (r.retried + r.retry_fenced ≤ r.publish_failed)
    × (r.publish_failed ≤ r.retried + r.retry_fenced + r.mark_failed)

count_row-handled :
    (o : RowOutcome) (r : PollOnceResult) → handled (count_row o r) ≡ suc (handled r)
unfolding count_row
count_row-handled o r = ground arith

count_row-swept : (o : RowOutcome) (r : PollOnceResult) → (count_row o r).swept ≡ r.swept
unfolding count_row
count_row-swept o r = ground arith

count_row-failures :
    (o : RowOutcome) (r : PollOnceResult) → FailuresBounded r → FailuresBounded (count_row o r)
unfolding count_row
count_row-failures o r h = ground arith

module _ {World : Type 0} (services : Services World) where
  process_rows_lem :
      (rows : List OverdueOutboxRow) (r : PollOnceResult) (world : World)
      → FailuresBounded r
      → ((process_rows services rows r world).0.swept ≡ r.swept)
        × ((handled (process_rows services rows r world).0 ≡ handled r + length rows)
            × FailuresBounded (process_rows services rows r world).0)
  unfolding process_rows
  process_rows_lem [] r world h = (refl, (omega arith, h))
  process_rows_lem (row ∷ rows) r world h =
      let (o, after) = process_row services row world in
      let (s, (n, f)) = process_rows_lem rows (count_row o r) after (count_row-failures o r h) in
      (s ∙ count_row-swept o r, (omega (arith, n, count_row-handled o r), f))

  poll_swept_lem :
      (swept : Option (List OverdueOutboxRow) × World) (r : PollOnceResult)
      → (poll_swept services swept).0 ≡ ok r
      → (r.swept ≡ handled r) × FailuresBounded r
  unfolding poll_swept
  poll_swept_lem (none, world) r e = ground arith
  poll_swept_lem (some rows, world) r e =
      ground (arith, process_rows_lem rows (no_rows (length rows)) world (omega arith, omega arith))

  -- When a cycle returns its counters, the swept rows are exactly the published, retried, retry-
  -- fenced, mark-fenced and mark-failed ones, and the failed publishes are at least the retried and
  -- retry-fenced rows and at most these and the mark-failed ones.
  pub poll_once_lem :
      (batch_size : ℕ) (world : World) (r : PollOnceResult)
      → (poll_once services batch_size world).0 ≡ ok r
      → (r.swept ≡ handled r) × FailuresBounded r
  unfolding poll_once
  poll_once_lem batch_size world r e = poll_swept_lem (services.sweep batch_size world) r e

  -- The message of a row: the kind is one of the three, with the identifier of that kind.
  pub record IsMessage (row : OverdueOutboxRow) (p : Publication) : Type 0 where
    pub outbox_id : p.outbox_id ≡ row.outbox_id
    pub kind : p.target_kind ≡ row.target_kind
    pub trace : p.traceparent ≡ row.traceparent
    pub target :
        ((same_text row.target_kind "JOB" ≡ true) × (row.job_id ≡ some p.target_id))
        ⊎ (((same_text row.target_kind "RUN" ≡ true) × (row.run_id ≡ some p.target_id))
            ⊎ ((same_text row.target_kind "TMDB_FETCH" ≡ true)
                × (row.tmdb_fetch_id ≡ some p.target_id)))

  publication_of-IsMessage :
      (row : OverdueOutboxRow) (p : Publication) → publication_of row ≡ some p → IsMessage row p
  publication_of-IsMessage row p e = record {
    outbox_id = ground (arith, e);
    kind = ground (arith, e);
    trace = ground (arith, e);
    target = ground (arith, e);
  }

  -- A row that counts as published was published under its own id, kind and trace with the
  -- identifier that its kind demands (the job's for JOB, the run's for RUN, the fetch's for
  -- TMDB_FETCH), the broker acknowledged that, the mark that followed in the world after the
  -- publish returned a row, and the row ends in the world after the mark.
  pub process_row-published :
      (row : OverdueOutboxRow) (world : World)
      → (process_row services row world).0 ≡ row_published
      → (p : Publication) × IsMessage row p
        × ((services.publish p world).0 ≡ true)
        × (n : ℕ) × ((services.mark_published row.outbox_id (services.publish p world).1).0
            ≡ some (suc n))
        × ((process_row services row world).1
            ≡ (services.mark_published row.outbox_id (services.publish p world).1).1)
  unfolding process_row publish_row after_publish mark_retry_of
  process_row-published row world e =
      let (p, of, sent, n, marked) : (p : Publication) × (publication_of row ≡ some p)
          × ((services.publish p world).0 ≡ true)
          × (n : ℕ) × ((services.mark_published row.outbox_id (services.publish p world).1).0
              ≡ some (suc n)) =
        ground arith in
      (p, publication_of-IsMessage row p of, sent, n, marked, ground (arith, of, sent))

-- The states that cycles lead to from the initial one.
pub data Cycled (threshold : ℕ) : RelayState → Type 0 where
  created : Cycled threshold create_relay_state
  cycled :
      {state : RelayState} (now : ℕ) (polled : Outcome RelayError PollOnceResult)
      (telemetry : Outcome RelayError PendingTelemetry)
      → Cycled threshold state
      → Cycled threshold (after_cycle threshold now polled telemetry state)

-- In every state that cycles lead to from the initial one, failed cycles included, the alarm is
-- active exactly when the age of the oldest pending row is above the threshold.
pub Cycled-alarm :
    (threshold : ℕ) (state : RelayState)
    → Cycled threshold state
    → state.alarm_active ≡ ltb threshold state.oldest_pending_age_ms
unfolding after_cycle
Cycled-alarm threshold _ created = ground arith
Cycled-alarm threshold _ (cycled {state} now polled telemetry c) =
    ground (arith, Cycled-alarm threshold state c)
