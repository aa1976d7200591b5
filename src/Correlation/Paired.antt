-- ===== src/Correlation/Paired.antt =====
-- internal/correlation/correlation.go: every correlation has its event, whatever is called.
use gh_agent_broker.Prelude.{
  ℕ, ◌-◌, String, ◌==◌, ◌≡◌, ap, inl, inr, refl, arith, List, [], ◌∷◌, ◌++◌, map, take, ℤ, ok, Tx,
  transact, Result-cases, Bool-cases,
}
use gh_agent_broker.Correlation.Clock.{Time}
use gh_agent_broker.Correlation.Outbox.{
  Codec, Identity, Correlation, OutboxEvent, Database, insert_pair,
}
unfoldable use gh_agent_broker.Correlation.Outbox.{insert_pair}
use gh_agent_broker.Correlation.Lease.{
  outbox_by_id, update_event, set_claimed, set_acked, set_released, claimable_ids, effective_limit,
  found_event, claim_each, claim_checked, claim_pending, settle, ack, reclaim,
}
unfoldable use gh_agent_broker.Correlation.Lease.{
  update_event, set_claimed, set_acked, set_released, claim_each, claim_checked, claim_pending,
  settle, ack, reclaim,
}
use gh_agent_broker.Correlation.Recorded.{record_cases}
use gh_agent_broker.Correlation.Trace.{Call, recording, claiming, acking, reclaiming, step, run}
unfoldable use gh_agent_broker.Correlation.Trace.{step, run}
use mathlib.Core.List.{map-append}

abbrev pub owner : {B : Type 0} → OutboxEvent B → ℕ
owner e = e.correlation_id

abbrev pub row_id : Correlation → ℕ
row_id c = c.id

-- The events stand for the correlations, one each and in their order.
abbrev pub IsPaired : {B : Type 0} → Database B → Type 0
IsPaired db = map owner db.events ≡ map row_id db.correlations

module _ {B : Type 0} where
  owners-update_event :
      (i : ℕ) (f : OutboxEvent B → OutboxEvent B)
      → ((e : OutboxEvent B) → owner (f e) ≡ owner e)
      → (es : List (OutboxEvent B)) → map owner (update_event i f es) ≡ map owner es
  unfolding update_event
  owners-update_event i f keeps [] = refl
  owners-update_event i f keeps (e ∷ es) = ground (arith, keeps e, owners-update_event i f keeps es)

  owners-claim_each :
      (token : String) (now : Time) (ids : List ℕ) (es out last : List (OutboxEvent B))
      → claim_each token now ids es ≡ ok (out, last)
      → map owner last ≡ map owner es
  unfolding claim_each
  owners-claim_each token now [] es out last e = ground arith
  owners-claim_each token now (i ∷ ids) es out last e =
      let es' = update_event i (set_claimed token now) es in
      let kept =
        owners-update_event i (set_claimed token now) (unfold set_claimed in λ x. refl) es in
      elim (Result-cases (claim_each token now ids es')) [
        | inl ((rest, end), done) ↦
            ground (arith, kept, owners-claim_each token now ids es' rest end done)
        | inr (x, failed) ↦ elim (Result-cases (found_event (outbox_by_id i es'))) [
          | inl (y, there) ↦ absurd (ground arith)
          | inr (y, gone) ↦ absurd (ground arith)
        ]
      ]

  settle_pairs :
      (db : Database B) (tx : Tx) (i : ℕ) (token : String) (f : OutboxEvent B → OutboxEvent B)
      → ((e : OutboxEvent B) → owner (f e) ≡ owner e)
      → IsPaired db
      → IsPaired (transact db (settle db tx i token f)).1
  unfolding settle
  settle_pairs db tx i token f keeps h = elim (Result-cases (settle db tx i token f)) [
    | inr (x, e) ↦ rw e h
    | inl (out, e) ↦ rw e (ground (arith, owners-update_event i f keeps db.events))
  ]

  claim_pairs :
      (db : Database B) (tx : Tx) (now : Time) (token : String) (limit : ℤ) (ttl : Time)
      → IsPaired db
      → IsPaired (claim_pending db tx now token limit ttl).1
  unfolding claim_pending claim_checked
  claim_pairs db tx now token limit ttl h =
      let ids = take (effective_limit limit) (claimable_ids (now - ttl) db.events) in
      elim (Result-cases (claim_each token now ids db.events)) [
        | inr (x, e) ↦ ground arith
        | inl ((out, last), e) ↦
            ground (arith, owners-claim_each token now ids db.events out last e)
      ]

  reclaim_pairs :
      (db : Database B) (tx : Tx) (now : Time) (i : ℕ) (token : String)
      → IsPaired db
      → IsPaired (reclaim db tx now i token).1
  unfolding reclaim
  reclaim_pairs db tx now i token h = elim (Bool-cases (token == "")) [
    | inl blank ↦ rw (blank, reclaim) h
    | inr named ↦
        rw (named, reclaim)
          (settle_pairs db tx i token (set_released now) (unfold set_released in λ e. refl) h)
  ]

  insert_pairs :
      (codec : Codec B) (db : Database B) (now : Time) (id : Identity) (repo : String) (pr : ℤ)
      (payload : B)
      → IsPaired db
      → IsPaired (insert_pair codec db now id repo pr payload)
  unfolding insert_pair
  insert_pairs codec db now id repo pr payload h =
      rw (map-append, map-append) (ap (λ ids. ids ++ db.next_correlation ∷ []) h)

module _ {B : Type 0} (codec : Codec B) where
  step-IsPaired : (db : Database B) (c : Call) → IsPaired db → IsPaired (step codec db c)
  unfolding step
  step-IsPaired db (recording tx now id repo pr) h =
      elim (record_cases codec db tx now id repo pr) [
        | inl e ↦ rw (e, step) h
        | inr (payload, i, e) ↦ rw (e, step) (insert_pairs codec db now id repo pr payload h)
      ]
  step-IsPaired db (claiming tx now token limit ttl) h = claim_pairs db tx now token limit ttl h
  step-IsPaired db (acking tx now i token) h =
      unfold ack in settle_pairs db tx i token (set_acked now) (unfold set_acked in λ e. refl) h
  step-IsPaired db (reclaiming tx now i token) h = reclaim_pairs db tx now i token h

-- Over any sequence of calls, with any failures, from tables in which the events stand for the
-- correlations one each and in order: they still do.
pub run-IsPaired :
    {B : Type 0} (codec : Codec B) (db : Database B) (calls : List Call)
    → IsPaired db
    → IsPaired (run codec db calls)
unfolding run
run-IsPaired codec db [] h = h
run-IsPaired codec db (c ∷ calls) h =
    run-IsPaired codec (step codec db c) calls (step-IsPaired codec db c h)
