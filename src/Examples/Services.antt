-- ===== src/Examples/Services.antt =====
-- packages/browser-runtime/src/guard.ts and apps/server/src/relay/daemon.ts at small inputs.
use seatfirst.Prelude.{
  ℕ, suc, ◌≡◌, ◌+◌, refl, String, Bool, true, false, Option, none, some, [], ◌∷◌, ltb,
  if◌then◌else◌,
}
use seatfirst.Prelude.Outcome.{ok}
use text.Mathlib.Text.{◌==◌ as same_text}
use seatfirst.Corridor.{
  Url, CorridorState, amc_initial, queue_entry, initial_corridor_state, accepted, check_document,
}
use seatfirst.Corridor.Stages.{Sound, steps_to, Reaches, start, step, Reaches-Sound}
use seatfirst.Relay.{
  OverdueOutboxRow, Publication, PollOnceResult, row_published, Services, process_row, poll_once,
  create_relay_state, after_cycle,
}
use seatfirst.Relay.Counts.{
  handled, FailuresBounded, IsMessage, poll_once_lem, process_row-published, created, cycled,
  Cycled-alarm,
}

abbrev seats_page : Url
seats_page = record {
  origin = "https://www.amctheatres.com";
  pathname = "/showtimes/1/seats";
  search_params = [];
  has_secrets = false;
}

abbrev parse_url : String → Option Url
parse_url raw = if same_text raw "seats" then some seats_page else none

abbrev is_allowed_url : Url → Bool
is_allowed_url url = same_text url.origin "https://www.amctheatres.com"

-- The state after the first document.
abbrev at_queue : CorridorState
at_queue = record {
  stage = queue_entry;
  initial = some (record {
    origin = "https://www.amctheatres.com";
    pathname = "/showtimes/1/seats";
    query_keys = [];
  });
}

first_document :
    check_document parse_url is_allowed_url initial_corridor_state "seats"
    ≡ ok (accepted amc_initial at_queue)
unfolding check_document
first_document = refl

one_document : Reaches parse_url is_allowed_url 1 at_queue
one_document = step amc_initial "seats" start first_document

Reaches-Sound_example : Sound at_queue × (steps_to queue_entry ≡ 1)
Reaches-Sound_example = Reaches-Sound parse_url is_allowed_url one_document

abbrev job_row : OverdueOutboxRow
job_row = record {
  outbox_id = "o1";
  target_kind = "JOB";
  job_id = some "j1";
  run_id = none;
  tmdb_fetch_id = none;
  traceparent = none;
}

-- A world that counts the calls: every call succeeds but each third statement, which is fenced out.
abbrev services : Services ℕ
services = record {
  sweep = λ n w. (some (job_row ∷ job_row ∷ []), w);
  publish = λ p w. (true, w + 1);
  mark_published = λ id w. (if ltb w 3 then some 1 else some 0, w + 1);
  mark_retry = λ id w. (some 1, w + 1);
}

abbrev counted : PollOnceResult
counted = record {
  swept = 2;
  published = 1;
  publish_failed = 0;
  retried = 0;
  retry_fenced = 0;
  mark_fenced = 1;
  mark_failed = 0;
}

counted_run : (poll_once services 10 0).0 ≡ ok counted
unfolding poll_once
counted_run = refl

poll_once_example : (2 ≡ handled counted) × FailuresBounded counted
poll_once_example = poll_once_lem services 10 0 counted counted_run

published_run : (process_row services job_row 0).0 ≡ row_published
unfolding process_row
published_run = refl

process_row-published_example :
    (p : Publication) × IsMessage services job_row p
    × ((services.publish p 0).0 ≡ true)
    × (n : ℕ) × ((services.mark_published "o1" (services.publish p 0).1).0 ≡ some (suc n))
    × ((process_row services job_row 0).1
        ≡ (services.mark_published "o1" (services.publish p 0).1).1)
process_row-published_example = process_row-published services job_row 0 published_run

Cycled-alarm_example :
    (after_cycle 500 9
      (ok counted)
      (ok (record { pending = 3; oldest_age_ms = 700 }))
      create_relay_state).alarm_active
    ≡ ltb 500
        (after_cycle 500 9
          (ok counted)
          (ok (record { pending = 3; oldest_age_ms = 700 }))
          create_relay_state).oldest_pending_age_ms
Cycled-alarm_example =
    Cycled-alarm 500
      (after_cycle 500 9 (ok counted) (ok (record { pending = 3; oldest_age_ms = 700 }))
        create_relay_state)
      (cycled 9 (ok counted) (ok (record { pending = 3; oldest_age_ms = 700 })) created)
