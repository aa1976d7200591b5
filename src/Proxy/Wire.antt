-- ===== src/Proxy/Wire.antt =====
-- internal/capability/rest.go: the broker's private interface to the capability store. A request
-- has its method, the token after "Bearer ", its path and its decoded body. A JSON object decodes to
-- the fields that it has, the others being zero.
use gh_agent_broker.Prelude.{
  ℕ, String, ◌==◌, Bool, not, ◌||◌, List, Option, none, some, ℤ, pos, ltb_ℤ, Result, ok, err, Tx,
  if◌then◌else◌,
}
use gh_agent_broker.Capability.Claims.{
  Time, Claims, Error, invalid_claims, expired, model_denied, call_budget_exhausted,
  token_budget_exhausted, handle_not_found, revoked_capability, handle_malformed,
}
use gh_agent_broker.Capability.Evaluator.{Request}
use gh_agent_broker.Capability.Handle.{Handle}
use gh_agent_broker.Capability.Store.{Rows, Reservation, allowed_models, verify, reserve, revoke}
use gh_agent_broker.Capability.Trace.{Call, run}

-- `reserveRequest`; the other two bodies have the handle only.
pub record Body : Type 0 where
  pub handle : Handle
  pub model : String
  pub calls : ℤ
  pub tokens : ℤ

pub data Endpoint : Type 0 where
  verify_path reserve_path revoke_path other_path : Endpoint

-- `body` is the code of the refusal where it cannot be read, is too large or is not JSON.
pub record HttpRequest : Type 0 where
  pub bearer : Option String
  pub is_post : Bool
  pub path : Endpoint
  pub body : Result String Body

pub record VerifyResponse : Type 0 where
  pub agent_type : String
  pub mode : String
  pub run_id : String
  pub work_item_id : String
  pub allowed_models : List String
  pub call_budget : ℤ
  pub token_budget : ℤ
  pub expiry : Time
  pub reserved_calls : ℤ
  pub reserved_tokens : ℤ

pub data ReplyBody : Type 0 where
  claims_body : VerifyResponse → ReplyBody
  totals_body : Reservation → ReplyBody
  code_body : String → ReplyBody
  empty_body : ReplyBody

pub record Reply : Type 0 where
  pub status : ℕ
  pub body : ReplyBody

-- The handler: `token` is empty where none is configured.
pub record Server : Type 0 where
  pub hash_handle : Handle → String
  pub has_store : Bool
  pub token : String

-- What a request meets: the statements that succeed, the readings of the clock, and the calls of the
-- store by others between its own two.
pub record Visit : Type 0 where
  pub verify_tx : Tx
  pub verify_now : Time
  pub meanwhile : List Call
  pub tx : Tx
  pub now : Time
  pub stamp : Time

abbrev cap_error : ℕ → String → Reply
cap_error status code = record { status = status; body = code_body code }

-- `writeCapStoreError`
unfoldable pub store_error : Error → Reply
store_error handle_malformed = cap_error 400 "handle_malformed"
store_error handle_not_found = cap_error 404 "handle_not_found"
store_error revoked_capability = cap_error 409 "revoked"
store_error expired = cap_error 409 "expired"
store_error model_denied = cap_error 403 "model_denied"
store_error call_budget_exhausted = cap_error 409 "call_budget_exhausted"
store_error token_budget_exhausted = cap_error 409 "token_budget_exhausted"
store_error invalid_claims = cap_error 422 "invalid_claims"
store_error _ = cap_error 400 "reservation_denied"

abbrev pub verify_response : Claims → Reservation → VerifyResponse
verify_response c held = record {
  agent_type = c.agent_type;
  mode = c.mode;
  run_id = c.run_id;
  work_item_id = c.work_item_id;
  allowed_models = allowed_models c;
  call_budget = c.call_budget;
  token_budget = c.token_budget;
  expiry = c.expiry;
  reserved_calls = held.calls;
  reserved_tokens = held.tokens;
}

-- The request of `handleReserve` to the store.
abbrev pub reserve_request : Claims → Body → Request
reserve_request c b = record {
  agent_type = c.agent_type;
  mode = c.mode;
  run_id = c.run_id;
  work_item_id = c.work_item_id;
  model = b.model;
  calls = b.calls;
  tokens = b.tokens;
  reserved_calls = pos 0;
  reserved_tokens = pos 0;
}

unfoldable pub reply_verify : Result Error (Claims × Reservation) → Reply
unfolding store_error
reply_verify (err e) = store_error e
reply_verify (ok (c, held)) = record { status = 200; body = claims_body (verify_response c held) }

unfoldable pub reply_reserve : Result Error Reservation × Rows → Reply × Rows
unfolding store_error
reply_reserve (err e, rows) = (store_error e, rows)
reply_reserve (ok total, rows) = (record { status = 200; body = totals_body total }, rows)

unfoldable pub reply_revoke : Result {0, 0} Error (Unit {0}) × Rows → Reply × Rows
unfolding store_error
reply_revoke (err e, rows) = (store_error e, rows)
reply_revoke (ok done, rows) = (record { status = 204; body = empty_body }, rows)

-- `handleReserve` after its own `Verify`.
unfoldable pub reserve_as :
    (Handle → String) → Rows → Visit → Body → Result Error (Claims × Reservation) → Reply × Rows
unfolding store_error reply_reserve
reserve_as hash rows v b (err e) = (store_error e, rows)
reserve_as hash rows v b (ok (c, held)) =
    reply_reserve
      (reserve hash (run hash rows v.meanwhile) v.tx v.now v.stamp b.handle (reserve_request c b))

unfoldable pub handle_reserve : (Handle → String) → Rows → Visit → Body → Reply × Rows
unfolding reserve_as
handle_reserve hash rows v b =
    if ltb_ℤ b.calls (pos 0) || ltb_ℤ b.tokens (pos 0)
    then (cap_error 400 "negative reservation", rows)
    else reserve_as hash rows v b (verify hash rows v.verify_tx v.verify_now b.handle)

unfoldable pub dispatch :
    (Handle → String) → Rows → Visit → Endpoint → Result String Body → Reply × Rows
unfolding handle_reserve reply_verify reply_revoke
dispatch hash rows v other_path b = (cap_error 404 "not_found", rows)
dispatch hash rows v path (err code) = (cap_error 400 code, rows)
dispatch hash rows v verify_path (ok b) =
    (reply_verify (verify hash rows v.verify_tx v.verify_now b.handle), rows)
dispatch hash rows v reserve_path (ok b) = handle_reserve hash rows v b
dispatch hash rows v revoke_path (ok b) = reply_revoke (revoke hash rows v.tx v.stamp b.handle)

unfoldable pub serve_http : Server → Rows → Visit → HttpRequest → Reply × Rows
unfolding dispatch
serve_http s rows v req =
    if not s.has_store || s.token == ""
    then (cap_error 404 "page not found", rows)
    else elim req.bearer [
      | none ↦ (cap_error 401 "unauthorized", rows)
      | some presented ↦
          if not (presented == s.token)
          then (cap_error 401 "unauthorized", rows)
          else if not req.is_post
          then (cap_error 405 "method_not_allowed", rows)
          else dispatch s.hash_handle rows v req.path req.body
    ]
