-- ===== src/Capability/Decision.antt =====
-- What `NewClaims` and `Authorize` decide, against a description in plain integers.
use gh_agent_broker.Prelude.{
  ◌+◌, ◌≤◌, ◌<◌, ◌≡◌, ◌≢◌, ◌↔◌, ◌⊎◌, true, false, arith, eq_iff, [], ℤ, pos, pos_part, neg_part,
  IsInt64, ◌≤ℤ◌, sub64, ok, contains, ltb_ℤ, ◌||◌,
}
use gh_agent_broker.Capability.Claims.{Time, Claims, allows_model}
use gh_agent_broker.Capability.Evaluator.{
  Request, validate, authorize, authorize_enabled, authorize_disabled,
}

-- Model access is off, with both budgets 0, or on, with both positive.
pub record IsCoherent (c : Claims) : Type 0 where
  pub agent : c.agent_type ≢ ""
  pub mode : c.mode ≢ ""
  pub run : c.run_id ≢ ""
  pub work_item : c.work_item_id ≢ ""
  pub expires : 0 < c.expiry
  pub access :
      ((c.allowed_models ≡ []) × (c.call_budget ≡ pos 0) × (c.token_budget ≡ pos 0))
      ⊎ ((c.allowed_models ≢ []) × (pos 1 ≤ℤ c.call_budget) × (pos 1 ≤ℤ c.token_budget))

pub record IsUsable (c : Claims) (now : Time) : Type 0 where
  pub coherent : IsCoherent c
  pub unexpired : now < c.expiry

pub validate_sound : (c : Claims) (now : Time) → validate c now ≡ ok tt → IsUsable c now
unfolding validate
validate_sound c now h =
    ground (
      arith,
      eq_iff c.agent_type "",
      eq_iff c.mode "",
      eq_iff c.run_id "",
      eq_iff c.work_item_id "",
    )

pub validate_complete : (c : Claims) (now : Time) → IsUsable c now → validate c now ≡ ok tt
unfolding validate
validate_complete c now h =
    ground (
      arith,
      eq_iff c.agent_type "",
      eq_iff c.mode "",
      eq_iff c.run_id "",
      eq_iff c.work_item_id "",
    )

-- The reservation in plain integers, with no wrap-around.
pub record Permits (c : Claims) (r : Request) : Type 0 where
  pub agent : r.agent_type ≡ c.agent_type
  pub mode : r.mode ≡ c.mode
  pub run : r.run_id ≡ c.run_id
  pub work_item : r.work_item_id ≡ c.work_item_id
  pub calls_nonneg : pos 0 ≤ℤ r.calls
  pub tokens_nonneg : pos 0 ≤ℤ r.tokens
  pub held_calls_nonneg : pos 0 ≤ℤ r.reserved_calls
  pub held_tokens_nonneg : pos 0 ≤ℤ r.reserved_tokens
  pub model : (r.model ≡ "") ⊎ (contains c.allowed_models r.model ≡ true)
  pub calls_fit : pos_part r.reserved_calls + pos_part r.calls ≤ pos_part c.call_budget
  pub tokens_fit : pos_part r.reserved_tokens + pos_part r.tokens ≤ pos_part c.token_budget

sub64_parts :
    (a b : ℤ)
    → IsInt64 a
    → pos 0 ≤ℤ b
    → b ≤ℤ a
    → (neg_part (sub64 a b) ≡ 0) × (pos_part (sub64 a b) + pos_part b ≡ pos_part a)
unfolding sub64
sub64_parts a b i n l = ground arith

-- The reservation decided without a store.
fits :
    (budget held wanted : ℤ)
    → IsInt64 budget
    → pos 0 ≤ℤ held
    → pos 0 ≤ℤ wanted
    → pos 0 ≤ℤ budget
    → ((ltb_ℤ budget held || ltb_ℤ (sub64 budget held) wanted) ≡ false)
      ↔ (pos_part held + pos_part wanted ≤ pos_part budget)
fits budget held wanted i h w b = ground (arith, sub64_parts budget held)

abbrev ModelAllowed : Claims → Request → Type 0
ModelAllowed c r = (r.model ≡ "") ⊎ (contains c.allowed_models r.model ≡ true)

abbrev Fits : Claims → Request → Type 0
Fits c r =
    (pos_part r.reserved_calls + pos_part r.calls ≤ pos_part c.call_budget)
    × (pos_part r.reserved_tokens + pos_part r.tokens ≤ pos_part c.token_budget)

record IsNonneg (r : Request) : Type 0 where
  calls : pos 0 ≤ℤ r.calls
  tokens : pos 0 ≤ℤ r.tokens
  held_calls : pos 0 ≤ℤ r.reserved_calls
  held_tokens : pos 0 ≤ℤ r.reserved_tokens

module _ (c : Claims) (r : Request) (ic : IsInt64 c.call_budget) (it : IsInt64 c.token_budget)
    (n : IsNonneg r) where
  enabled_sound : IsCoherent c → authorize_enabled c r ≡ ok tt → ModelAllowed c r × Fits c r
  unfolding authorize_enabled allows_model
  enabled_sound k h = ground (
    arith,
    eq_iff r.model "",
    fits c.call_budget r.reserved_calls r.calls,
    fits c.token_budget r.reserved_tokens r.tokens,
  )

  enabled_complete : IsCoherent c → ModelAllowed c r → Fits c r → authorize_enabled c r ≡ ok tt
  unfolding authorize_enabled allows_model
  enabled_complete k m f = ground (
    arith,
    eq_iff r.model "",
    fits c.call_budget r.reserved_calls r.calls,
    fits c.token_budget r.reserved_tokens r.tokens,
  )

disabled_sound :
    (c : Claims) (r : Request)
    → IsNonneg r
    → c.allowed_models ≡ []
    → IsCoherent c
    → authorize_disabled r ≡ ok tt
    → ModelAllowed c r × Fits c r
unfolding authorize_disabled
disabled_sound c r n e k h = ground (arith, eq_iff r.model "")

disabled_complete :
    (c : Claims) (r : Request)
    → IsNonneg r
    → c.allowed_models ≡ []
    → IsCoherent c
    → ModelAllowed c r
    → Fits c r
    → authorize_disabled r ≡ ok tt
unfolding authorize_disabled contains
disabled_complete c r n e k m f = ground (arith, eq_iff r.model "")

module _ (c : Claims) (r : Request) (now : Time) (ic : IsInt64 c.call_budget)
    (it : IsInt64 c.token_budget) where
  authorize_sound : authorize c r now ≡ ok tt → IsUsable c now × Permits c r
  unfolding authorize
  authorize_sound h = ground (
    arith,
    validate_sound c now,
    enabled_sound c r ic it,
    disabled_sound c r,
    eq_iff r.agent_type c.agent_type,
    eq_iff r.mode c.mode,
    eq_iff r.run_id c.run_id,
    eq_iff r.work_item_id c.work_item_id,
  )

  authorize_complete : IsUsable c now → Permits c r → authorize c r now ≡ ok tt
  unfolding authorize
  authorize_complete u p = ground (
    arith,
    validate_complete c now u,
    enabled_complete c r ic it,
    disabled_complete c r,
    eq_iff r.agent_type c.agent_type,
    eq_iff r.mode c.mode,
    eq_iff r.run_id c.run_id,
    eq_iff r.work_item_id c.work_item_id,
  )

-- On budgets of type int64 `Authorize` permits a request exactly when the claims are coherent and
-- not expired, the four identities agree, nothing asked or held is negative, the model is absent or
-- allowed, and what is held and asked together is within both budgets as plain integers.
pub authorize_iff :
    (c : Claims) (r : Request) (now : Time)
    → IsInt64 c.call_budget
    → IsInt64 c.token_budget
    → (authorize c r now ≡ ok tt) ↔ (IsUsable c now × Permits c r)
authorize_iff c r now ic it =
    (authorize_sound c r now ic it, λ h. authorize_complete c r now ic it h.0 h.1)
