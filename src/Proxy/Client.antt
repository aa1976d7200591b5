-- ===== src/Proxy/Client.antt =====
-- internal/proxy/capability.go and capability_enforce.go: the proxy's client of the broker's
-- interface, and the checks before a model call is forwarded.
use gh_agent_broker.Prelude.{
  ℕ, ◌^◌, ◌-◌, String, ◌==◌, Bool, true, false, not, ◌&&◌, ◌||◌, List, [], ◌∷◌, Option, none, some,
  ℤ, pos, leb, leb_ℤ, ltb_ℤ, add64, sub64, contains, Result, ok, err, require, ◌>>=◌, ◌>>◌,
  if◌then◌else◌,
}
use gh_agent_broker.Capability.Claims.{Time}
use gh_agent_broker.Capability.Handle.{Handle, year_10000}
use gh_agent_broker.Capability.Store.{Rows}
use gh_agent_broker.Proxy.Wire.{
  Body, Endpoint, verify_path, reserve_path, VerifyResponse, ReplyBody, claims_body, totals_body,
  empty_body, Reply, Server, Visit, serve_http,
}

pub data CapError : Type 0 where
  cap_missing cap_denied cap_unavailable cap_identity_mismatch : CapError

-- `capClaims` has the fields of the response, its expiry parsed.
abbrev pub CapClaims : Type 0
CapClaims = VerifyResponse

pub record CapAuthResult : Type 0 where
  pub claims : CapClaims
  pub handle : Handle

-- How the network treats a request: it may be lost, its body may be refused by the server's limit,
-- and the answer may be lost or cut at the client's limit.
pub record Link : Type 0 where
  pub sent : Bool
  pub readable : Bool
  pub answered : Bool
  pub whole : Bool

-- The client: its token and the server that its base URL names.
pub record CapClient : Type 0 where
  pub token : String
  pub server : Server

-- What `json.Unmarshal` makes of an answer.
abbrev is_json : ReplyBody → Bool
is_json empty_body = false
is_json _ = true

unfoldable pub accept : Bool → Reply → Result CapError ReplyBody
accept whole reply =
    if leb 200 reply.status && not (leb 300 reply.status)
    then (if whole && is_json reply.body then ok reply.body else err cap_denied)
    else if leb 500 reply.status
    then err cap_unavailable
    else err cap_denied

-- What the server makes of the body.
abbrev pub read_body : Bool → Body → Result String Body
read_body true body = ok body
read_body false body = err "request body invalid or too large"

abbrev received : Link → Reply × Rows → Result CapError ReplyBody × Rows
received l (reply, rows) = (if l.answered then accept l.whole reply else err cap_unavailable, rows)

unfoldable pub post :
    CapClient → Rows → Link → Visit → Endpoint → Body → Result CapError ReplyBody × Rows
unfolding accept
post c rows l v path body =
    if not l.sent
    then (err cap_unavailable, rows)
    else received l (
        serve_http c.server rows v (record {
          bearer = some c.token;
          is_post = true;
          path = path;
          body = read_body l.readable body;
        }))

abbrev zero_claims : VerifyResponse
zero_claims = record {
  agent_type = "";
  mode = "";
  run_id = "";
  work_item_id = "";
  allowed_models = [];
  call_budget = pos 0;
  token_budget = pos 0;
  expiry = year_10000;
  reserved_calls = pos 0;
  reserved_tokens = pos 0;
}

-- An answer as a `capVerifyResponseBody`. Without an expiry, its text is empty and is not parsed.
unfoldable pub decode_claims : ReplyBody → VerifyResponse
decode_claims (claims_body r) = r
decode_claims (totals_body r) = record zero_claims {
  reserved_calls = r.calls;
  reserved_tokens = r.tokens;
}
decode_claims _ = zero_claims

abbrev is_parseable : Time → Bool
is_parseable t = not (leb year_10000 t)

unfoldable pub claims_of : Result CapError ReplyBody → Result CapError CapClaims
unfolding decode_claims
claims_of answer = do
  body ← answer
  require (is_parseable (decode_claims body).expiry) cap_denied
  ok (decode_claims body)

-- `capClient.verify`
unfoldable pub cap_verify :
    CapClient → Rows → Link → Visit → Handle → Result CapError CapClaims × Rows
unfolding claims_of post
cap_verify c rows l v handle =
    let out =
      post c rows l v verify_path
        (record { handle = handle; model = ""; calls = pos 0; tokens = pos 0 }) in
    (claims_of out.0, out.1)

-- `capClient.reserve`; the totals of the answer are not used.
unfoldable pub cap_reserve :
    CapClient → Rows → Link → Visit → Handle → String → ℤ → ℤ → Result CapError ReplyBody × Rows
unfolding post
cap_reserve c rows l v handle model calls tokens =
    post c rows l v reserve_path
      (record { handle = handle; model = model; calls = calls; tokens = tokens })

-- The checks after `verify`.
unfoldable pub reconcile_identity :
    Handle → String → Result CapError CapClaims → Result CapError CapAuthResult
reconcile_identity handle caller answer = do
  claims ← answer
  require (caller == "" || caller == claims.run_id) cap_identity_mismatch
  ok (record { claims = claims; handle = handle })

-- `presented` is `bearerHandle`: empty where the header has none.
unfoldable pub authenticate_capability :
    CapClient → Rows → Link → Visit → Handle → String → Result CapError CapAuthResult
unfolding cap_verify reconcile_identity
authenticate_capability c rows l v [] caller = err cap_missing
authenticate_capability c rows l v (b ∷ handle) caller =
    reconcile_identity (b ∷ handle) caller (cap_verify c rows l v (b ∷ handle)).0

abbrev max_int64 : ℤ
max_int64 = pos (2 ^ 63 - 1)

unfoldable pub preflight_token_bound : ℤ → ℤ → Option ℤ
preflight_token_bound request_bytes max_output_tokens =
    if leb_ℤ request_bytes (pos 0) || leb_ℤ max_output_tokens (pos 0)
    then none
    else if ltb_ℤ (sub64 max_int64 max_output_tokens) request_bytes
    then none
    else some (add64 request_bytes max_output_tokens)

abbrev pub has_models : List String → Bool
has_models [] = false
has_models (m ∷ models) = true

abbrev pub done : Result CapError ReplyBody × Rows → Result {0, 0} CapError (Unit {0}) × Rows
done (err e, rows) = (err e, rows)
done (ok totals, rows) = (ok tt, rows)

unfoldable pub reserve_capability_budget :
    CapClient → Rows → Link → Visit → CapAuthResult → String → ℤ → Result CapError (Unit {0}) × Rows
unfolding cap_reserve contains
reserve_capability_budget c rows l v auth model tokens =
    if not (has_models auth.claims.allowed_models) || leb_ℤ tokens (pos 0)
    then (err cap_denied, rows)
    else if model == "" || not (contains auth.claims.allowed_models model)
    then (err cap_denied, rows)
    else done (cap_reserve c rows l v auth.handle model (pos 1) tokens)

unfoldable pub cap_status : CapError → ℕ × String
cap_status cap_missing = (401, "capability_required")
cap_status cap_identity_mismatch = (403, "run_id_mismatch")
cap_status cap_unavailable = (503, "capability_unavailable")
cap_status cap_denied = (403, "capability_denied")
