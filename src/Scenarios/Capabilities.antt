-- ===== src/Scenarios/Capabilities.antt =====
-- internal/capability: a capability of three calls and a thousand tokens, minted, spent and revoked.
use Prim.Native.String.{len}
use gh_agent_broker.Prelude.{
  ℕ, ◌+◌, ◌≤◌, String, ◌≡◌, ◌≢◌, ◌↔◌, inr, refl, arith, List, [], ◌∷◌, some, pos, pos_part, ok, err,
  healthy, All, lookup, contains,
}
unfoldable use gh_agent_broker.Prelude.{lookup, contains}
use gh_agent_broker.Capability.Claims.{
  Claims, ClaimsInput, revoked_capability, new_claims, allows_model, coherent_model_access,
  add_model, collect_models,
}
unfoldable use gh_agent_broker.Capability.Claims.{
  new_claims, coherent_model_access, add_model, collect_models,
}
use gh_agent_broker.Capability.Evaluator.{Request, validate, authorize}
unfoldable use gh_agent_broker.Capability.Evaluator.{validate}
use gh_agent_broker.Capability.Decision.{IsCoherent, IsUsable, Permits, authorize_iff}
use gh_agent_broker.Capability.Mint.{IsWellFormed, IsMintedFrom, new_claims_iff, new_claims_correct}
use gh_agent_broker.Capability.Handle.{Handle, hex_encode, digest_of-hex_encode, IsByte, year_10000}
use gh_agent_broker.Capability.Store.{
  revoked, active, Row, Rows, Reservation, issue, verify, validate_rows, validate_store,
  store_schema_version,
}
use gh_agent_broker.Capability.Budget.{AllSound}
use gh_agent_broker.Capability.Trace.{Call, mint, spend, cancel, run}
use gh_agent_broker.Capability.Ledger.{granted_in, budget_respected, revoked_forever}
use gh_agent_broker.Capability.RoundTrip.{IsSameGrant, verify-issue}
use gh_agent_broker.Capability.Offline.{validate-run, issue_far_future}

abbrev pub digest : String
digest = "0123456789abcdef0123456789abcdef0123456789abcdef0123456789abcdef"

abbrev pub hash : Handle → String
hash handle = digest

abbrev pub input : ClaimsInput
input = record {
  agent_type = "worker";
  mode = "implement";
  run_id = "run-1";
  work_item_id = "item-7";
  allowed_models = "opus" ∷ [];
  call_budget = pos 3;
  token_budget = pos 1000;
  expiry = 500;
}

abbrev claims : Claims
claims = record {
  agent_type = "worker";
  mode = "implement";
  run_id = "run-1";
  work_item_id = "item-7";
  allowed_models = "opus" ∷ [];
  call_budget = pos 3;
  token_budget = pos 1000;
  expiry = 500;
}

abbrev request : Request
request = record {
  agent_type = "worker";
  mode = "implement";
  run_id = "run-1";
  work_item_id = "item-7";
  model = "opus";
  calls = pos 1;
  tokens = pos 200;
  reserved_calls = pos 1;
  reserved_tokens = pos 100;
}

abbrev pub row : Row
row = record {
  stored = input;
  state = active;
  reservation = record { calls = pos 1; tokens = pos 100 };
  created_at = 1;
  updated_at = 1;
}

abbrev pub raw : List ℕ
raw =
    0 ∷ 1 ∷ 2 ∷ 3 ∷ 4 ∷ 5 ∷ 6 ∷ 7 ∷ 8 ∷ 9 ∷ 10 ∷ 11 ∷ 12 ∷ 13 ∷ 14 ∷ 15 ∷ 240 ∷ 241 ∷ 242 ∷ 243
    ∷ 244 ∷ 245 ∷ 246 ∷ 247 ∷ 248 ∷ 249 ∷ 250 ∷ 251 ∷ 252 ∷ 253 ∷ 254 ∷ 255 ∷ []

abbrev pub rows : Rows
rows = (digest, row) ∷ []

abbrev revoked_rows : Rows
revoked_rows = (digest, record row { state = revoked }) ∷ []

abbrev calls : List Call
calls =
    spend healthy 10 11 (hex_encode raw) request
    ∷ cancel healthy 12 (hex_encode raw)
    ∷ mint healthy 13 14 (some raw) input
    ∷ []

input-IsWellFormed : IsWellFormed input
unfolding contains
input-IsWellFormed = record {
  agent = λ e. cc;
  mode = λ e. cc;
  run = λ e. cc;
  work_item = λ e. cc;
  expires = omega arith;
  no_blank = refl;
  access = inr ((λ e. cc), omega arith, omega arith);
}

pub rows-AllSound : AllSound rows
rows-AllSound = ground (arith, input-IsWellFormed)

revoked_rows-AllSound : AllSound revoked_rows
revoked_rows-AllSound = ground (arith, input-IsWellFormed)

raw-IsByte : All IsByte raw
raw-IsByte = ground arith

pub found : lookup digest rows ≡ some row
unfolding lookup
found = refl

found_revoked : lookup digest revoked_rows ≡ some (record row { state = revoked })
unfolding lookup
found_revoked = refl

minted : new_claims input ≡ ok claims
unfolding new_claims coherent_model_access add_model collect_models contains
minted = refl

budget_respected_example :
    (row' : Row) × (lookup digest (run hash rows calls) ≡ some row')
    × (pos_part row'.reservation.calls ≡ 1 + (granted_in hash rows digest calls).0)
    × (pos_part row'.reservation.tokens ≡ 100 + (granted_in hash rows digest calls).1)
    × (1 + (granted_in hash rows digest calls).0 ≤ 3)
    × (100 + (granted_in hash rows digest calls).1 ≤ 1000)
budget_respected_example =
    budget_respected hash rows calls digest row rows-AllSound (ground arith) found

revoked_forever_example :
    (granted_in hash revoked_rows digest calls ≡ (0, 0))
    × (verify hash (run hash revoked_rows calls) healthy 20 (hex_encode raw)
        ≡ err revoked_capability)
revoked_forever_example =
    revoked_forever hash revoked_rows calls (hex_encode raw) (record row { state = revoked })
      healthy 20 revoked_rows-AllSound (ground arith) found_revoked refl
      (digest_of-hex_encode hash raw refl raw-IsByte) refl refl

authorize_iff_example :
    (authorize claims request 10 ≡ ok tt) ↔ (IsUsable claims 10 × Permits claims request)
authorize_iff_example = authorize_iff claims request 10 (ground arith) (ground arith)

new_claims_iff_example : ((c : Claims) × (new_claims input ≡ ok c)) ↔ IsWellFormed input
new_claims_iff_example = new_claims_iff input

new_claims_correct_example :
    IsCoherent claims
    × IsMintedFrom input claims
    × ((m : String) → allows_model claims m ≡ contains input.allowed_models m)
new_claims_correct_example = new_claims_correct input claims minted

verify-issue_example :
    (c' : Claims) × IsSameGrant claims c'
    × ((issue hash [] healthy 10 11 (some raw) claims).0 ≡ ok (hex_encode raw))
    × (verify hash (issue hash [] healthy 10 11 (some raw) claims).1 healthy 20 (hex_encode raw)
        ≡ ok (c', record { calls = pos 0; tokens = pos 0 }))
verify-issue_example =
    verify-issue hash [] 10 11 20 raw input claims minted (omega arith) (omega arith) (omega arith)
      refl raw-IsByte (unfold lookup in refl)

sized : (h : Handle) → len (hash h) ≡ 64
sized h = refl

validate-run_example :
    validate_store store_schema_version (run hash [] (mint healthy 2 3 (some raw) input ∷ calls))
    ≡ ok tt
validate-run_example =
    validate-run hash sized (mint healthy 2 3 (some raw) input ∷ calls) (ground arith)
      (ground arith)

abbrev lasting : Claims
lasting = record claims { expiry = year_10000 }

lasting-validates : validate lasting 10 ≡ ok tt
unfolding validate coherent_model_access
lasting-validates = refl

issue_far_future_example :
    ((issue hash [] healthy 10 11 (some raw) lasting).0 ≡ ok (hex_encode raw))
    × ((c' : Claims) (held : Reservation)
        → verify hash (issue hash [] healthy 10 11 (some raw) lasting).1 healthy 20 (hex_encode raw)
          ≢ ok (c', held))
    × (validate_rows (issue hash [] healthy 10 11 (some raw) lasting).1 ≢ ok tt)
issue_far_future_example =
    issue_far_future hash [] 10 11 20 raw lasting lasting-validates (omega arith)
      (unfold lookup in refl)
