-- ===== src/Scenarios/Requests.antt =====
-- internal/policy, internal/limits and internal/idempotency: a request to open a pull request.
use gh_agent_broker.Prelude.{
  ◌+◌, ◌≤◌, ◌==◌, ◌≡◌, ◌≢◌, ◌↔◌, refl, arith, true, false, not, ◌||◌, List, [], ◌∷◌, some, lookup,
  pos, ok, healthy, String, Result, Option, none, ◌⊎◌, insert, if◌then◌else◌, eqb,
}
unfoldable use gh_agent_broker.Prelude.{lookup, insert}
use gh_agent_broker.Policy.Types.{Engine, AssertionField, Agent, Request}
use gh_agent_broker.Policy.Check.{check}
use gh_agent_broker.Policy.Verdict.{check_correct}
use gh_agent_broker.Policy.Fields.{IsPermitted}
use gh_agent_broker.Limits.Reserve.{LimitsConfig, get_int, get_run}
unfoldable use gh_agent_broker.Limits.Reserve.{get_int, get_run}
use gh_agent_broker.Limits.Bounds.{Call, run_calls, allowed_in, mutation_budget, class_budget}
use gh_agent_broker.Idempotency.Keys.{Record, Keys, Error, Reserved, reserve_exact, load, store}
unfoldable use gh_agent_broker.Idempotency.Keys.{reserve_on, reserve_exact, encode_keys, store}
use gh_agent_broker.Idempotency.Once.{
  Call as KeyCall, reserving, is_new, free, reservations_in, reserved_once,
}
use gh_agent_broker.Idempotency.Readback.{reserve_exact-reserve_exact, load-store}

-- A pattern that matches itself only, and texts that are compared and written as they are.
abbrev engine : Engine
engine = record {
  match_string = λ pattern v. some (pattern == v);
  equal_fold = λ a b. a == b;
  lower_trim = λ s. s;
  join = λ parts separator. separator;
  quote = λ s. s;
}

abbrev ticket : AssertionField
ticket = record { name = "Ticket"; required = true; pattern = ""; value = ""; locations = [] }

abbrev agent : Agent
agent = record {
  id = "worker";
  enabled = true;
  repositories = "org/repo" ∷ [];
  operations = "pull_request.create" ∷ [];
  branch_patterns = "agent/work" ∷ [];
  base_branches = "main" ∷ [];
  permissions = "contents:write" ∷ [];
  metadata_assertions = ("*", record { mode = "warn"; fields = ticket ∷ [] }) ∷ [];
}

abbrev request : Request
request = record {
  agent = agent;
  agent_id = "worker";
  repo = "org/repo";
  operation = "pull_request.create";
  branch = "agent/work";
  base_branch = "main";
  permissions = "contents:write" ∷ [];
  metadata = [];
  locations = [];
}

check_correct_example :
    (((check engine request).allowed ≡ true) ↔ IsPermitted engine request)
    × (((check engine request).decision ≡ "deny") ↔ ((check engine request).allowed ≡ false))
    × (((check engine request).decision ≡ "warn")
        ↔ (((check engine request).allowed ≡ true) × ((check engine request).warnings ≢ [])))
check_correct_example = check_correct engine request

abbrev limits : LimitsConfig
limits = record {
  state_path = "state.json";
  run_metadata_field = "";
  action_metadata_field = "";
  max_new_objects_per_run = pos 2;
  class_limits = ("issue.create", pos 1) ∷ [];
  operation_classes = [];
}

abbrev opening : Call
opening = record { tx = healthy; operation = "issue.create"; metadata = ("Run-Id", "run-1") ∷ [] }

abbrev openings : List Call
openings = opening ∷ opening ∷ opening ∷ []

mutation_budget_example :
    ((get_run "run-1" (run_calls (λ s. s) limits [] openings)).total
      ≡ pos (0 + (allowed_in (λ s. s) limits [] "run-1" "issue.create" openings).0))
    × (0 + (allowed_in (λ s. s) limits [] "run-1" "issue.create" openings).0 ≤ 2)
mutation_budget_example =
    mutation_budget (λ s. s) limits "run-1" "issue.create" 2 0 [] openings (λ e. cc) refl
      (omega arith) (omega arith) (unfold get_run lookup in refl) (omega arith)

class_budget_example :
    (get_int "issue.create" (get_run "run-1" (run_calls (λ s. s) limits [] openings)).classes
      ≡ pos (0 + (allowed_in (λ s. s) limits [] "run-1" "issue.create" openings).1))
    × (0 + (allowed_in (λ s. s) limits [] "run-1" "issue.create" openings).1 ≤ 1)
class_budget_example =
    class_budget (λ s. s) limits "run-1" "issue.create" 1 0 [] openings (λ e. cc)
      (unfold get_int lookup in refl) (omega arith) (omega arith)
      (unfold get_run get_int lookup in refl) (omega arith)

abbrev reserving_twice : List KeyCall
reserving_twice =
    reserving healthy 5 "key-1" "pull_request.create" "digest" "body"
    ∷ reserving healthy 6 "key-1" "pull_request.create" "digest" "body"
    ∷ []

-- The empty object is the one JSON text.
abbrev only_empty : String → Option String
only_empty raw = if raw == "{}" then some raw else none

reserved_once_example :
    reservations_in only_empty "state.json" [] "key-1" reserving_twice ≤ free (lookup "key-1" [])
reserved_once_example =
    reserved_once only_empty "state.json" [] "key-1" reserving_twice (λ e. cc) (λ e. cc)

abbrev first_reservation : Result Error Reserved × Keys
first_reservation =
    reserve_exact only_empty "state.json" [] healthy 5 "key-1" "pull_request.create" "digest" "body"

first_is_new : is_new first_reservation.0 ≡ true
unfolding reserve_exact reserve_on encode_keys lookup insert
first_is_new = refl

reserve_exact-reserve_exact_example :
    (reserve_exact only_empty "state.json" first_reservation.1 healthy 6 "key-1"
      "pull_request.create" "other" "body").0
    ≡ ok (record {
      record_found = some (record {
        created_at = 5;
        operation = "pull_request.create";
        request_digest = "digest";
        status = pos 0;
        body = some "null";
        pending = true;
        semantic_body = "body";
      });
      found = true;
      conflict =
          not ("pull_request.create" == "pull_request.create")
          || "digest" == ""
          || not ("digest" == "other");
    })
reserve_exact-reserve_exact_example =
    reserve_exact-reserve_exact only_empty "state.json" [] healthy healthy 5 6 "key-1"
      "pull_request.create" "digest" "body" "pull_request.create" "other" "body" (λ e. cc) (λ e. cc)
      first_is_new refl

abbrev finished : Record
finished = record {
  created_at = 0;
  operation = "pull_request.create";
  request_digest = "digest";
  status = pos 201;
  body = some "{}";
  pending = false;
  semantic_body = "body";
}

abbrev after_store : Result Error (Unit {0}) × Keys
after_store = store only_empty "state.json" [] healthy 7 "key-1" finished

finished_stored : after_store.0 ≡ ok tt
unfolding store encode_keys insert
finished_stored = refl

load-store_example :
    (text : String) × (((finished.body ≡ none) × (text ≡ "null"))
      ⊎ ((raw : String) × (finished.body ≡ some raw) × (only_empty raw ≡ some text)))
    × (let kept : Record = record finished {
      created_at = if eqb 0 0 then 7 else 0;
      body = some text;
    } in
        (load "state.json" after_store.1 healthy "key-1" ≡ ok (some kept))
        × ((reserve_exact only_empty "state.json" after_store.1 healthy 8 "key-1"
              "pull_request.create" "digest" "body").0
            ≡ ok (record {
              record_found = some kept;
              found = true;
              conflict =
                  not ("pull_request.create" == "pull_request.create")
                  || "digest" == ""
                  || not ("digest" == "digest");
            })))
load-store_example =
    load-store only_empty "state.json" [] healthy healthy 7 8 "key-1" finished "pull_request.create"
      "digest" "body" (λ e. cc) (λ e. cc) finished_stored refl
