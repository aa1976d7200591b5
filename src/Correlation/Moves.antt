-- ===== src/Correlation/Moves.antt =====
-- internal/correlation/correlation.go: how the operations may change an event of the outbox.
use gh_agent_broker.Prelude.{◌≤◌, String, ◌≡◌, ◌≢◌, ◌⊎◌, inl, inr, refl, ◌∙◌, subst, arith, true}
use gh_agent_broker.Correlation.Clock.{Time}
use gh_agent_broker.Correlation.Outbox.{acked, OutboxEvent}
use gh_agent_broker.Correlation.Lease.{is_claimable, set_claimed, set_acked, set_released, holds}

-- How an event may change: its identity and payload never, its attempts never down, and after the
-- acknowledgement nothing.
pub record Moves {B : Type 0} (e e' : OutboxEvent B) : Type 0 where
  pub id : e'.id ≡ e.id
  pub correlation : e'.correlation_id ≡ e.correlation_id
  pub version : e'.version ≡ e.version
  pub payload : e'.payload ≡ e.payload
  pub attempts : e.attempts ≤ e'.attempts
  pub final : (e.status ≢ acked) ⊎ (e' ≡ e)

pub Moves-refl : {B : Type 0} (e : OutboxEvent B) → Moves e e
Moves-refl e = record {
  id = refl;
  correlation = refl;
  version = refl;
  payload = refl;
  attempts = omega arith;
  final = inr refl;
}

pub Moves-final :
    {B : Type 0} (a b c : OutboxEvent B)
    → (a.status ≢ acked) ⊎ (b ≡ a)
    → (b.status ≢ acked) ⊎ (c ≡ b)
    → (a.status ≢ acked) ⊎ (c ≡ a)
Moves-final a b c (inl other) g = inl other
Moves-final a b c (inr same) (inr again) = inr (again ∙ same)
Moves-final a b c (inr same) (inl other) = inl (subst (λ x. x.status ≢ acked) same other)

pub Moves-trans : {B : Type 0} (a b c : OutboxEvent B) → Moves a b → Moves b c → Moves a c
Moves-trans a b c f g = record {
  id = g.id ∙ f.id;
  correlation = g.correlation ∙ f.correlation;
  version = g.version ∙ f.version;
  payload = g.payload ∙ f.payload;
  attempts = omega arith;
  final = Moves-final a b c f.final g.final;
}

pub Moves-set_claimed :
    {B : Type 0} (token : String) (now expiry : Time) (e : OutboxEvent B)
    → is_claimable expiry e ≡ true
    → Moves e (set_claimed token now e)
unfolding set_claimed is_claimable
Moves-set_claimed token now expiry e h = record {
  id = refl;
  correlation = refl;
  version = refl;
  payload = refl;
  attempts = omega arith;
  final = inl (λ a. ground arith);
}

pub Moves-set_acked :
    {B : Type 0} (token : String) (now : Time) (e : OutboxEvent B)
    → holds e token ≡ true
    → Moves e (set_acked now e)
unfolding set_acked
Moves-set_acked token now e h = record {
  id = refl;
  correlation = refl;
  version = refl;
  payload = refl;
  attempts = omega arith;
  final = inl (λ a. ground arith);
}

pub Moves-set_released :
    {B : Type 0} (token : String) (now : Time) (e : OutboxEvent B)
    → holds e token ≡ true
    → Moves e (set_released now e)
unfolding set_released
Moves-set_released token now e h = record {
  id = refl;
  correlation = refl;
  version = refl;
  payload = refl;
  attempts = omega arith;
  final = inl (λ a. ground arith);
}
