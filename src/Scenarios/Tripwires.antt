-- ===== src/Scenarios/Tripwires.antt =====
-- internal/pushtripwire/pushtripwire.go: a finding that halts a profile.
use gh_agent_broker.Prelude.{
  ◌==◌, ◌≡◌, ◌≢◌, refl, inr, true, false, not, List, [], ◌∷◌, lookup, insert, contains, Option,
  none, some, pos, ok, healthy,
}
use gh_agent_broker.Tripwire.Contract.{version_text, Binding, ResponseRequest, Libraries}
use gh_agent_broker.Tripwire.Store.{halted_status, ResponseResult, Tables, check_issuance}
use gh_agent_broker.Tripwire.Apply.{Applied, Adapter, apply}
use gh_agent_broker.Tripwire.Permanent.{Call, applying, replacing, run, check_issuance-run}
use gh_agent_broker.Tripwire.Replay.{apply-apply, apply_asks}
unfoldable use gh_agent_broker.Prelude.{lookup, insert, contains}
unfoldable use gh_agent_broker.Tripwire.Contract.{fingerprint}
unfoldable use gh_agent_broker.Tripwire.Store.{is_registered, is_halted, act_one, act_each, respond}
unfoldable use gh_agent_broker.Tripwire.Apply.{fence_all, fence_new, apply_at, apply}

abbrev libraries : Libraries
libraries = record {
  is_id = λ s. not (s == "");
  is_repo = λ s. true;
  is_ref = λ s. true;
  is_sha = λ s. true;
  is_profile = λ s. true;
  after_prefix = λ prefix s. none;
  digest = λ r. r.finding_id;
}

abbrev binding : Binding
binding = record {
  worker_id = "worker-1";
  logical_session_id = "session-1";
  session_lineage_id = "lineage-1";
  worker_storage_lineage_id = "storage-1";
  worker_fence_epoch = pos 1;
}

abbrev request : ResponseRequest
request = record {
  version = version_text;
  finding_id = "finding-1";
  delivery_id = "delivery-1";
  repository = "o/r";
  ref = "refs/heads/main";
  before = "b";
  after = "a";
  severity = "high";
  reason_code = "secret";
  fingerprint_id = "";
  profile = "worker";
  profile_generation = pos 3;
  binding = some binding;
  actions = "halt_issuance" ∷ [];
}

abbrev tables : Tables
tables = record {
  halts = [];
  catalog = record { profile = "worker"; generation = pos 3 } ∷ [];
  responses = [];
  fences = [];
}

abbrev adapter : Adapter
adapter = record { fence = λ b f. true; marks = true; stores = true; now = 9 }

abbrev result : ResponseResult
result = record {
  version = version_text;
  finding_id = "finding-1";
  idempotent_replay = false;
  actions = record { action = "halt_issuance"; state = halted_status; completed_at = 8 } ∷ [];
}

abbrev applied : Option Adapter → Applied
applied a = apply libraries tables true healthy 8 a "key-1" request

returned : (applied none).outcome ≡ ok result
unfolding fence_all fence_new apply_at apply is_registered is_halted act_one act_each respond
    fingerprint lookup insert
returned = refl

fence_returned : (applied (some adapter)).outcome ≡ ok result
unfolding fence_all fence_new apply_at apply is_registered is_halted act_one act_each respond
    fingerprint lookup insert
fence_returned = refl

halting : contains request.actions "halt_issuance" ≡ true
unfolding contains
halting = refl

abbrev later : List Call
later =
    replacing healthy (record { profile = "worker"; generation = pos 3 } ∷ [])
    ∷ applying true healthy 20 none "key-2" request
    ∷ []

check_issuance-run_example :
    check_issuance (run libraries (applied none).tables later) healthy "worker" (pos 3) ≢ ok tt
unfolding lookup
check_issuance-run_example =
    check_issuance-run libraries tables true healthy 8 none "key-1" request result refl halting
      returned later healthy

apply-apply_example :
    apply libraries (applied none).tables true healthy 20 (some adapter) "key-1" request ≡ record {
      outcome = ok (record result { idempotent_replay = true });
      tables = (applied none).tables;
      asked = [];
    }
unfolding lookup fingerprint
apply-apply_example =
    apply-apply libraries tables true healthy healthy 8 20 none (some adapter) "key-1" request
      request result refl returned (inr (inr refl))

apply_asks_example : (applied (some adapter)).asked ≡ binding ∷ []
unfolding lookup
apply_asks_example =
    apply_asks libraries tables true healthy 8 adapter "key-1" request binding result refl refl
      fence_returned
