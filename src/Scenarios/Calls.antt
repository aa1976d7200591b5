-- ===== src/Scenarios/Calls.antt =====
-- internal/proxy: model calls of the run whose capability has three calls and a thousand tokens.
use gh_agent_broker.Prelude.{
  ◌+◌, ◌≤◌, ◌≡◌, refl, arith, true, List, [], ◌∷◌, none, some, pos, healthy, lookup, insert,
  contains,
}
unfoldable use gh_agent_broker.Prelude.{lookup, insert, contains, add64, sub64}
use gh_agent_broker.Capability.Claims.{new_claims}
unfoldable use gh_agent_broker.Capability.Claims.{
  new_claims, coherent_model_access, add_model, collect_models, model_enabled, allows_model,
}
unfoldable use gh_agent_broker.Capability.Evaluator.{validate, authorize, authorize_enabled}
use gh_agent_broker.Capability.Handle.{hex_encode}
unfoldable use gh_agent_broker.Capability.Handle.{hex_encode, digest_of, parse_store_time}
unfoldable use gh_agent_broker.Capability.Store.{
  found_row, scan_capability, verify, reserve, reserve_row, record_reservation, total_of, with_held,
  allowed_models, sort_strings, insert_sorted,
}
use gh_agent_broker.Capability.Trace.{cancel, run}
unfoldable use gh_agent_broker.Capability.Trace.{run}
use gh_agent_broker.Proxy.Wire.{Server, Visit}
unfoldable use gh_agent_broker.Proxy.Wire.{
  reply_verify, reply_reserve, reserve_as, handle_reserve, dispatch, serve_http,
}
use gh_agent_broker.Proxy.Client.{CapClient, Link, preflight_token_bound}
unfoldable use gh_agent_broker.Proxy.Client.{
  accept, post, decode_claims, claims_of, cap_verify, cap_reserve, reconcile_identity,
  authenticate_capability, preflight_token_bound, reserve_capability_budget,
}
use gh_agent_broker.Proxy.Calls.{ModelCallRequest, Incoming, Scene, handle_model_call}
unfoldable use gh_agent_broker.Proxy.Calls.{forward_paid, call_as, handle_model_call}
use gh_agent_broker.Proxy.Verified.{IsRun}
use gh_agent_broker.Proxy.Forwarded.{IsPaid, handle_model_call-IsPaid}
use gh_agent_broker.Proxy.Trace.{Event, calling, storing, forwarded_in}
use gh_agent_broker.Proxy.Ledger.{forwarded_within}
use gh_agent_broker.Scenarios.Capabilities.{digest, hash, raw, row, rows, rows-AllSound, found}

abbrev server : Server
server = record { hash_handle = hash; has_store = true; token = "private" }

abbrev client : CapClient
client = record { token = "private"; server = server }

abbrev link : Link
link = record { sent = true; readable = true; answered = true; whole = true }

abbrev visit : Visit
visit = record {
  verify_tx = healthy;
  verify_now = 20;
  meanwhile = [];
  tx = healthy;
  now = 21;
  stamp = 22;
}

abbrev scene : Scene
scene = record {
  verify_link = link;
  verify_visit = visit;
  meanwhile = [];
  reserve_link = link;
  reserve_visit = visit;
  model_answers = true;
}

abbrev request : ModelCallRequest
request = record {
  run_id = "";
  model = "opus";
  messages = "hello" ∷ [];
  response_format = "";
  temperature = none;
  max_tokens = pos 300;
  metadata = [];
}

abbrev incoming : Incoming
incoming = record {
  presented = hex_encode raw;
  within_limit = true;
  bytes = 120;
  decoded = some request;
}

abbrev sent : ModelCallRequest
sent = record request { run_id = "run-1" }

forwarded : (handle_model_call client rows scene incoming).forwarded ≡ some sent
unfolding handle_model_call call_as forward_paid authenticate_capability reconcile_identity
    cap_verify claims_of decode_claims post accept serve_http dispatch handle_reserve reserve_as
    reply_reserve reply_verify cap_reserve reserve_capability_budget preflight_token_bound run
    verify scan_capability found_row lookup digest_of hex_encode parse_store_time new_claims
    coherent_model_access add_model collect_models contains validate authorize authorize_enabled
    allows_model model_enabled allowed_models sort_strings insert_sorted reserve reserve_row
    with_held total_of record_reservation insert add64 sub64
forwarded = refl

handle_model_call-IsPaid_example :
    IsRun hash rows (hex_encode raw) "run-1"
    × IsPaid hash
        (run hash rows [])
        visit
        (hex_encode raw)
        120
        "run-1"
        sent
        (handle_model_call client rows scene incoming).rows
handle_model_call-IsPaid_example =
    handle_model_call-IsPaid client rows scene incoming sent (ground arith) forwarded

abbrev events : List Event
events =
    calling scene incoming
    ∷ storing (cancel healthy 30 (hex_encode raw))
    ∷ calling scene incoming
    ∷ []

forwarded_within_example :
    (1 + (forwarded_in client rows digest events).0 ≤ 3)
    × (100 + (forwarded_in client rows digest events).1 ≤ 1000)
forwarded_within_example =
    forwarded_within client rows events digest row rows-AllSound (ground arith) found
