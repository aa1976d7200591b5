-- ===== src/Scenarios/Events.antt =====
-- internal/correlation: two recorded pull requests, whose events are claimed and settled.
use gh_agent_broker.Prelude.{
  ◌-◌, ◌*◌, ◌+◌, ◌≡◌, refl, arith, true, List, [], ◌∷◌, none, some, pos, ok, healthy,
}
use gh_agent_broker.Correlation.Clock.{nanos}
use gh_agent_broker.Correlation.Outbox.{
  Identity, is_valid, Correlation, pending, claimed, acked, EventPayload, Codec, OutboxEvent,
  Database, event_version, by_operation, payload_of, build_payload, insert_pair, record_new,
  record_at, record_checked, record_correlation,
}
unfoldable use gh_agent_broker.Correlation.Outbox.{
  is_valid, by_operation, payload_of, build_payload, insert_pair, record_new, record_at,
  record_checked, record_correlation, by_pr,
}
use gh_agent_broker.Correlation.Lease.{
  outbox_by_id, is_claimable, set_claimed, claim_pending, ack, reclaim,
}
unfoldable use gh_agent_broker.Correlation.Lease.{outbox_by_id}
use gh_agent_broker.Correlation.First.{wanted, claim_first, claim_pending-claim_first}
use gh_agent_broker.Correlation.Settle.{Settles, ack_correct, reclaim_correct}
use gh_agent_broker.Correlation.Leases.{lease_cut_short}
use gh_agent_broker.Correlation.Trace.{Call, recording, claiming, acking, reclaiming, run}
use gh_agent_broker.Correlation.Lifecycle.{MovesIn, event-Moves}
use gh_agent_broker.Correlation.Paired.{IsPaired, run-IsPaired}
use gh_agent_broker.Correlation.Replay.{record_correlation-record_correlation}

-- An envelope of a hundred bytes, kept as it is.
abbrev codec : Codec EventPayload
codec = record { marshal = λ p. p; unmarshal = λ p. some p; size = λ p. 100 }

abbrev id : Identity
id = record {
  agent_type = "worker";
  mode = "implement";
  run_id = "run-1";
  work_item_id = "item-7";
  operation_id = "op-1";
}

abbrev correlation : Correlation
correlation = record {
  id = 1;
  identity = id;
  repo = "org/repo";
  pr_number = pos 5;
  created_at = 4 * nanos;
}

abbrev event : OutboxEvent EventPayload
event = record {
  id = 1;
  correlation_id = 1;
  version = event_version;
  status = claimed;
  payload = record {
    version = event_version;
    identity = id;
    repo = "org/repo";
    pr_number = pos 5;
    recorded_at = 4 * nanos;
  };
  claim_token = "token-1";
  claimed_at = some (5 * nanos);
  attempts = 1;
  created_at = 4 * nanos;
  updated_at = 5 * nanos;
}

abbrev tables : Database EventPayload
tables = record {
  correlations =
      correlation
      ∷ record correlation {
        id = 2;
        pr_number = pos 6;
        identity = record id { operation_id = "op-2" };
      }
      ∷ [];
  events =
      event
      ∷ record event {
        id = 2;
        correlation_id = 2;
        status = pending;
        claim_token = "";
        claimed_at = none;
        attempts = 0;
      }
      ∷ [];
  next_correlation = 3;
  next_event = 3;
}

abbrev empty_tables : Database EventPayload
empty_tables = record { correlations = []; events = []; next_correlation = 1; next_event = 1 }

abbrev calls : List Call
calls =
    recording healthy (6 * nanos) (record id { operation_id = "op-3" }) "org/repo" (pos 7)
    ∷ claiming healthy (20 * nanos) "token-2" (pos 10) (10 * nanos)
    ∷ acking healthy (21 * nanos) 1 "token-2"
    ∷ reclaiming healthy (22 * nanos) 2 "token-2"
    ∷ []

abbrev claimed_first : List (OutboxEvent EventPayload) × List (OutboxEvent EventPayload)
claimed_first =
    claim_first "token-2" (20 * nanos) (20 * nanos - 10 * nanos) (wanted (pos 1)) tables.events

claim_pending-claim_first_example :
    claim_pending tables healthy (20 * nanos) "token-2" (pos 1) (10 * nanos)
    ≡ (ok claimed_first.0, record tables { events = claimed_first.1 })
claim_pending-claim_first_example =
    claim_pending-claim_first tables (20 * nanos) (10 * nanos) "token-2" (pos 1) (λ e. cc)
      (ground arith)

ack_correct_example :
    Settles tables 1 "token-1"
      (λ e. record e { status = acked; updated_at = 6 * nanos })
      (ack tables healthy (6 * nanos) 1 "token-1")
ack_correct_example = ack_correct tables (6 * nanos) 1 "token-1"

reclaim_correct_example :
    Settles tables 1 "token-1"
      (λ e. record e {
        status = pending;
        claim_token = "";
        claimed_at = none;
        updated_at = 6 * nanos;
      })
      (reclaim tables healthy (6 * nanos) 1 "token-1")
reclaim_correct_example = reclaim_correct tables (6 * nanos) 1 "token-1" (λ e. cc)

lease_cut_short_example :
    is_claimable (10 * nanos) (set_claimed "token-2" (10 * nanos + 999999999) event) ≡ true
lease_cut_short_example = lease_cut_short "token-2" event 10 999999999 (omega arith) (omega arith)

found_event : outbox_by_id 1 tables.events ≡ some event
unfolding outbox_by_id
found_event = refl

event-Moves_example : MovesIn 1 event (run codec tables calls).events
event-Moves_example = event-Moves codec tables calls 1 event (ground arith) found_event

run-IsPaired_example : IsPaired (run codec tables calls)
run-IsPaired_example = run-IsPaired codec tables calls refl

recorded :
    (record_correlation codec empty_tables healthy (4 * nanos) id "org/repo" (pos 5)).0
    ≡ ok correlation
unfolding record_correlation record_checked record_at record_new insert_pair build_payload
    payload_of is_valid by_operation by_pr
recorded = refl

record_correlation-record_correlation_example :
    record_correlation codec
      (record_correlation codec empty_tables healthy (4 * nanos) id "org/repo" (pos 5)).1
      healthy
      (8 * nanos)
      id
      "org/other"
      (pos 9)
    ≡ (
      ok correlation,
      (record_correlation codec empty_tables healthy (4 * nanos) id "org/repo" (pos 5)).1,
    )
record_correlation-record_correlation_example =
    record_correlation-record_correlation codec empty_tables healthy (4 * nanos) (8 * nanos) id
      correlation "org/repo" "org/other" (pos 5) (pos 9) recorded (λ e. cc) (omega arith)
