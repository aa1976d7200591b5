-- ===== src/Capability/Claims.antt =====
-- internal/capability/capability.go: the claims of a capability, their constructor, the clock and
-- the errors that callers tell apart.
use gh_agent_broker.Prelude.{
  ℕ, String, ◌==◌, Bool, true, false, not, ◌&&◌, ◌||◌, List, [], ◌∷◌, eqb, ℤ, pos, ltb_ℤ, eqb_ℤ,
  if◌then◌else◌, Result, ok, err, require, ◌>>=◌, ◌>>◌, contains,
}

-- An instant in nanoseconds since Go's zero time, January 1 of year 1, UTC.
abbrev pub Time : Type 0
Time = ℕ

abbrev pub is_zero_time : Time → Bool
is_zero_time t = eqb t 0

-- The sentinel errors of the package, of the store too; a wrapped error is the one that it wraps.
-- `storage` is any error of the database, of the random source or of a stored column.
pub data Error : Type 0 where
  invalid_claims expired agent_type_mismatch mode_mismatch run_mismatch work_item_mismatch : Error
  model_denied call_budget_exhausted token_budget_exhausted : Error
  handle_not_found revoked_capability handle_malformed storage : Error

-- The set `allowedModels` is the list of its members.
pub record Claims : Type 0 where
  pub agent_type : String
  pub mode : String
  pub run_id : String
  pub work_item_id : String
  pub allowed_models : List String
  pub call_budget : ℤ
  pub token_budget : ℤ
  pub expiry : Time

pub record ClaimsInput : Type 0 where
  pub agent_type : String
  pub mode : String
  pub run_id : String
  pub work_item_id : String
  pub allowed_models : List String
  pub call_budget : ℤ
  pub token_budget : ℤ
  pub expiry : Time

abbrev pub non_empty {ℓ} : {A : Type ℓ} → List A → Bool
non_empty [] = false
non_empty (x ∷ xs) = true

unfoldable pub coherent_model_access : Bool → ℤ → ℤ → Bool
coherent_model_access true calls tokens = ltb_ℤ (pos 0) calls && ltb_ℤ (pos 0) tokens
coherent_model_access false calls tokens = eqb_ℤ calls (pos 0) && eqb_ℤ tokens (pos 0)

-- models[m] = struct{}{}
unfoldable pub add_model : List String → String → List String
add_model models m = if contains models m then models else m ∷ models

-- The loop over `in.AllowedModels`.
unfoldable pub collect_models : List String → List String → Result Error (List String)
unfolding add_model
collect_models models [] = ok models
collect_models models (m ∷ rest) =
    let more = collect_models (add_model models m) rest in
    if m == "" then err invalid_claims else more

unfoldable pub new_claims : ClaimsInput → Result Error Claims
unfolding coherent_model_access
new_claims input = do
  require (not (input.agent_type == "")) invalid_claims
  require (not (input.mode == "")) invalid_claims
  require (not (input.run_id == "")) invalid_claims
  require (not (input.work_item_id == "")) invalid_claims
  require (not (is_zero_time input.expiry)) invalid_claims
  require (not (ltb_ℤ input.call_budget (pos 0) || ltb_ℤ input.token_budget (pos 0))) invalid_claims
  models ← collect_models [] input.allowed_models
  require (coherent_model_access (non_empty models) input.call_budget input.token_budget)
      invalid_claims
  ok (record {
    agent_type = input.agent_type;
    mode = input.mode;
    run_id = input.run_id;
    work_item_id = input.work_item_id;
    allowed_models = models;
    call_budget = input.call_budget;
    token_budget = input.token_budget;
    expiry = input.expiry;
  })

unfoldable pub model_enabled : Claims → Bool
model_enabled c = non_empty c.allowed_models

unfoldable pub allows_model : Claims → String → Bool
allows_model c model = contains c.allowed_models model
