-- ===== src/Correlation/Lease.antt =====
-- internal/correlation/correlation.go: `ClaimPending`, `Ack`, `Reclaim` and `PendingCount`.
use gh_agent_broker.Prelude.{
  ℕ, ◌+◌, ◌-◌, String, ◌==◌, Bool, true, false, not, ◌&&◌, ◌||◌, List, [], ◌∷◌, take, Option, none,
  some, ℤ, pos, pos_part, leb_ℤ, eqb, Result, ok, err, require, transact, Tx, ◌>>=◌, ◌>>◌,
  if◌then◌else◌,
}
use gh_agent_broker.Correlation.Clock.{Time, text_le}
use gh_agent_broker.Correlation.Outbox.{
  Error, empty_claim_token, not_found, claim_mismatch, storage, Status, pending, claimed, acked,
  OutboxEvent, Database,
}

abbrev pub is_claimed : Status → Bool
is_claimed claimed = true
is_claimed _ = false

-- claimed_at IS NULL OR claimed_at <= ?
unfoldable pub lease_over : Option Time → Time → Bool
lease_over none expiry = true
lease_over (some at) expiry = text_le at expiry

-- if limit <= 0 { limit = 1 }
unfoldable pub effective_limit : ℤ → ℕ
effective_limit limit = if leb_ℤ limit (pos 0) then 1 else pos_part limit

abbrev is_nil : List ℕ → Bool
is_nil [] = true
is_nil (i ∷ ids) = false

module _ {B : Type 0} where
  unfoldable pub claimable_as : Status → OutboxEvent B → Time → Bool
  claimable_as pending e expiry = true
  claimable_as claimed e expiry = lease_over e.claimed_at expiry
  claimable_as acked e expiry = false

  -- The condition of the SELECT.
  unfoldable pub is_claimable : Time → OutboxEvent B → Bool
  unfolding claimable_as
  is_claimable expiry e = claimable_as e.status e expiry

  -- SELECT id … ORDER BY id LIMIT ?
  unfoldable pub claimable_ids : Time → List (OutboxEvent B) → List ℕ
  claimable_ids expiry [] = []
  claimable_ids expiry (e ∷ es) =
      let rest = claimable_ids expiry es in if is_claimable expiry e then e.id ∷ rest else rest

  -- outboxByID; `none` is `ErrNotFound`
  unfoldable pub outbox_by_id : ℕ → List (OutboxEvent B) → Option (OutboxEvent B)
  outbox_by_id i [] = none
  outbox_by_id i (e ∷ es) = if eqb e.id i then some e else outbox_by_id i es

  -- UPDATE … WHERE id = ?
  unfoldable pub update_event :
      ℕ → (OutboxEvent B → OutboxEvent B) → List (OutboxEvent B) → List (OutboxEvent B)
  update_event i f [] = []
  update_event i f (e ∷ es) = (if eqb e.id i then f e else e) ∷ update_event i f es

  unfoldable pub set_claimed : String → Time → OutboxEvent B → OutboxEvent B
  set_claimed token now e = record e {
    status = claimed;
    claim_token = token;
    claimed_at = some now;
    attempts = e.attempts + 1;
    updated_at = now;
  }

  unfoldable pub set_acked : Time → OutboxEvent B → OutboxEvent B
  set_acked now e = record e { status = acked; updated_at = now }

  unfoldable pub set_released : Time → OutboxEvent B → OutboxEvent B
  set_released now e = record e {
    status = pending;
    claim_token = "";
    claimed_at = none;
    updated_at = now;
  }

  unfoldable pub found_event : Option (OutboxEvent B) → Result Error (OutboxEvent B)
  found_event none = err not_found
  found_event (some e) = ok e

  -- The loop over the candidates.
  unfoldable pub claim_each :
      String
      → Time
      → List ℕ
      → List (OutboxEvent B)
      → Result Error (List (OutboxEvent B) × List (OutboxEvent B))
  unfolding found_event
  claim_each token now [] es = ok ([], es)
  claim_each token now (i ∷ ids) es =
      let es' = update_event i (set_claimed token now) es in
      let later = claim_each token now ids es' in
      (do e ← found_event (outbox_by_id i es'); (rest, last) ← later; ok (e ∷ rest, last))

  unfoldable pub claim_checked :
      Database B → Tx → Time → String → ℤ → Time → Result Error (List (OutboxEvent B) × Database B)
  claim_checked db tx now token limit ttl = do
    require (not (token == "")) empty_claim_token
    require tx.begins storage
    require tx.queries storage
    let ids = take (effective_limit limit) (claimable_ids (now - ttl) db.events)
    (events, last) ← claim_each token now ids db.events
    require (is_nil ids || tx.writes) storage
    require tx.commits storage
    ok (events, record db { events = last })

  unfoldable pub claim_pending :
      Database B → Tx → Time → String → ℤ → Time → Result Error (List (OutboxEvent B)) × Database B
  unfolding claim_checked
  claim_pending db tx now token limit ttl = transact db (claim_checked db tx now token limit ttl)

  abbrev pub holds : OutboxEvent B → String → Bool
  holds e token = is_claimed e.status && e.claim_token == token

  -- `Ack` and `Reclaim` from the start of their transaction.
  unfoldable pub settle :
      Database B
      → Tx
      → ℕ
      → String
      → (OutboxEvent B → OutboxEvent B)
      → Result Error (Unit {0} × Database B)
  unfolding found_event
  settle db tx i token f = do
    require tx.begins storage
    require tx.queries storage
    e ← found_event (outbox_by_id i db.events)
    require (holds e token) claim_mismatch
    require tx.writes storage
    require tx.commits storage
    ok (tt, record db { events = update_event i f db.events })

  unfoldable pub ack : Database B → Tx → Time → ℕ → String → Result Error (Unit {0}) × Database B
  unfolding settle
  ack db tx now i token = transact db (settle db tx i token (set_acked now))

  unfoldable pub reclaim :
      Database B → Tx → Time → ℕ → String → Result Error (Unit {0}) × Database B
  unfolding settle
  reclaim db tx now i token =
      transact db
        (do require (not (token == "")) empty_claim_token; settle db tx i token (set_released now))

  unfoldable pub pending_count : List (OutboxEvent B) → ℕ
  pending_count [] = 0
  pending_count (e ∷ es) = (elim e.status [ acked ↦ 0 | _ ↦ 1 ]) + pending_count es
