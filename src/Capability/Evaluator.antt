-- ===== src/Capability/Evaluator.antt =====
-- internal/capability/capability.go: `PolicyEvaluator`, which decides a request from the claims.
use gh_agent_broker.Prelude.{
  String, ◌==◌, not, ◌||◌, ltb, ltb_ℤ, ℤ, pos, sub64, if◌then◌else◌, Result, require, ◌>>◌,
}
use gh_agent_broker.Capability.Claims.{
  Time, is_zero_time, Claims, Error, invalid_claims, expired, agent_type_mismatch, mode_mismatch,
  run_mismatch, work_item_mismatch, model_denied, call_budget_exhausted, token_budget_exhausted,
  non_empty, coherent_model_access, model_enabled, allows_model,
}

pub record Request : Type 0 where
  pub agent_type : String
  pub mode : String
  pub run_id : String
  pub work_item_id : String
  pub model : String
  pub calls : ℤ
  pub tokens : ℤ
  pub reserved_calls : ℤ
  pub reserved_tokens : ℤ

unfoldable pub validate : Claims → Time → Result Error (Unit {0})
unfolding coherent_model_access
validate c now = do
  require
      (not (
        c.agent_type == ""
        || c.mode == ""
        || c.run_id == ""
        || c.work_item_id == ""
        || is_zero_time c.expiry))
      invalid_claims
  require (not (ltb_ℤ c.call_budget (pos 0) || ltb_ℤ c.token_budget (pos 0))) invalid_claims
  require (coherent_model_access (non_empty c.allowed_models) c.call_budget c.token_budget)
      invalid_claims
  require (ltb now c.expiry) expired

-- The branch for a capability without model access.
unfoldable pub authorize_disabled : Request → Result Error (Unit {0})
authorize_disabled r = do
  require (r.model == "") model_denied
  require (not (ltb_ℤ (pos 0) r.calls || ltb_ℤ (pos 0) r.reserved_calls)) call_budget_exhausted
  require (not (ltb_ℤ (pos 0) r.tokens || ltb_ℤ (pos 0) r.reserved_tokens)) token_budget_exhausted

-- The rest of `Authorize`, with the model and the budgets.
unfoldable pub authorize_enabled : Claims → Request → Result Error (Unit {0})
authorize_enabled c r = do
  require (r.model == "" || allows_model c r.model) model_denied
  require
      (not (
        ltb_ℤ c.call_budget r.reserved_calls
        || ltb_ℤ (sub64 c.call_budget r.reserved_calls) r.calls))
      call_budget_exhausted
  require
      (not (
        ltb_ℤ c.token_budget r.reserved_tokens
        || ltb_ℤ (sub64 c.token_budget r.reserved_tokens) r.tokens))
      token_budget_exhausted

unfoldable pub authorize : Claims → Request → Time → Result Error (Unit {0})
unfolding model_enabled
authorize c r now = do
  validate c now
  require (r.agent_type == c.agent_type) agent_type_mismatch
  require (r.mode == c.mode) mode_mismatch
  require (r.run_id == c.run_id) run_mismatch
  require (r.work_item_id == c.work_item_id) work_item_mismatch
  require
      (not (
        ltb_ℤ r.calls (pos 0)
        || ltb_ℤ r.tokens (pos 0)
        || ltb_ℤ r.reserved_calls (pos 0)
        || ltb_ℤ r.reserved_tokens (pos 0)))
      invalid_claims
  if model_enabled c then authorize_enabled c r else authorize_disabled r
