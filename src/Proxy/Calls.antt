-- ===== src/Proxy/Calls.antt =====
-- internal/proxy/proxy.go: `handleModelCallCapability`, a model call under capability enforcement.
use gh_agent_broker.Prelude.{
  ℕ, String, Bool, not, List, [], ◌∷◌, Option, none, some, ℤ, pos, Result, ok, err, Assoc,
  if◌then◌else◌,
}
use gh_agent_broker.Capability.Store.{Rows}
use gh_agent_broker.Capability.Handle.{Handle}
use gh_agent_broker.Capability.Trace.{Call, run}
use gh_agent_broker.Proxy.Wire.{Visit}
use gh_agent_broker.Proxy.Client.{
  CapError, CapAuthResult, CapClient, Link, authenticate_capability, preflight_token_bound,
  reserve_capability_budget, cap_status,
}

-- The raw JSON fields are texts.
pub record ModelCallRequest : Type 0 where
  pub run_id : String
  pub model : String
  pub messages : List String
  pub response_format : String
  pub temperature : Option String
  pub max_tokens : ℤ
  pub metadata : Assoc String

-- A request: what `bearerHandle` finds, whether the body is within the limit, its number of bytes,
-- and what it decodes to.
pub record Incoming : Type 0 where
  pub presented : Handle
  pub within_limit : Bool
  pub bytes : ℕ
  pub decoded : Option ModelCallRequest

-- What the call meets: the network and the broker at its two requests, the calls of the store by
-- others between them, and whether the model answers.
pub record Scene : Type 0 where
  pub verify_link : Link
  pub verify_visit : Visit
  pub meanwhile : List Call
  pub reserve_link : Link
  pub reserve_visit : Visit
  pub model_answers : Bool

-- The status, the error code, what was sent to the model, and the store.
pub record Served : Type 0 where
  pub status : ℕ
  pub code : String
  pub forwarded : Option ModelCallRequest
  pub rows : Rows

abbrev refuse : ℕ → String → Rows → Served
refuse status code rows = record { status = status; code = code; forwarded = none; rows = rows }

abbrev refuse_as : CapError → Rows → Served
refuse_as e rows = refuse (cap_status e).0 (cap_status e).1 rows

abbrev pub is_nil : List String → Bool
is_nil [] = Bool.true
is_nil (m ∷ ms) = Bool.false

-- After the reservation: the request goes out under the verified run id.
unfoldable pub forward_paid :
    Bool → ModelCallRequest → CapAuthResult → Result {0, 0} CapError (Unit {0}) × Rows → Served
forward_paid answers call auth (err e, rows) = refuse_as e rows
forward_paid answers call auth (ok done, rows) = record {
  status = if answers then 200 else 502;
  code = if answers then "" else "upstream_error";
  forwarded = some (record call { run_id = auth.claims.run_id });
  rows = rows;
}

-- After the authentication.
unfoldable pub call_as : CapClient → Rows → Scene → ℕ → ModelCallRequest → CapAuthResult → Served
unfolding forward_paid
call_as c rows s bytes call auth =
    if is_nil call.messages
    then refuse 400 "messages_required" rows
    else elim (preflight_token_bound (pos bytes) call.max_tokens) [
      | none ↦ refuse 400 "max_tokens_required" rows
      | some bound ↦ forward_paid s.model_answers call auth (
          reserve_capability_budget c (run c.server.hash_handle rows s.meanwhile) s.reserve_link
            s.reserve_visit auth call.model bound)
    ]

unfoldable pub handle_model_call : CapClient → Rows → Scene → Incoming → Served
unfolding call_as
handle_model_call c rows s req =
    if not req.within_limit then refuse 413 "request_too_large" rows else elim req.decoded [
      | none ↦ refuse 400 "invalid_json" rows
      | some call ↦
          elim (authenticate_capability c rows s.verify_link s.verify_visit req.presented
            call.run_id) [
              | err e ↦ refuse_as e rows
              | ok auth ↦ call_as c rows s req.bytes call auth
            ]
    ]
