-- ===== src/Correlation/Settle.antt =====
-- `Ack` and `Reclaim` on every branch.
use gh_agent_broker.Prelude.{
  ℕ, String, ◌==◌, ◌≡◌, ◌≢◌, ◌⊎◌, inl, inr, refl, arith, eq_iff, false, none, some, eqb, Result, ok,
  err, transact, Bool-cases, Option-cases, healthy, if◌then◌else◌,
}
use gh_agent_broker.Correlation.Clock.{Time}
use gh_agent_broker.Correlation.Outbox.{
  Error, not_found, claim_mismatch, Status, pending, claimed, acked, OutboxEvent, Database,
}
use gh_agent_broker.Correlation.Lease.{
  outbox_by_id, update_event, set_acked, set_released, settle, ack, reclaim,
}
use gh_agent_broker.Correlation.Candidates.{outbox_by_id-update_event}

-- The event under `i` became `e'` and no other event or correlation changed.
pub record IsReplaced {B : Type 0} (db db' : Database B) (i : ℕ) (e' : OutboxEvent B) : Type 0 where
  pub events :
      (j : ℕ) → outbox_by_id j db'.events ≡ (if eqb i j then some e' else outbox_by_id j db.events)
  pub correlations : db'.correlations ≡ db.correlations

-- The three ways a call that settles an event ends: no such event, an event that the token does not
-- hold, and the holder's call, after which the event is `f` of what it was.
abbrev pub Settles :
    {B : Type 0}
    → Database B
    → ℕ
    → String
    → (OutboxEvent B → OutboxEvent B)
    → Result {0, 0} Error Unit × Database B
    → Type 0
Settles db i token f out =
    ((outbox_by_id i db.events ≡ none) × (out ≡ (err not_found, db)))
    ⊎ ((e : OutboxEvent _) × (outbox_by_id i db.events ≡ some e)
        × ((e.status ≢ claimed) ⊎ (e.claim_token ≢ token))
        × (out ≡ (err claim_mismatch, db)))
    ⊎ ((e : OutboxEvent _) × (outbox_by_id i db.events ≡ some e)
        × (e.status ≡ claimed)
        × (e.claim_token ≡ token)
        × (out.0 ≡ ok tt)
        × IsReplaced db out.1 i (f e))

status_cases : (s : Status) → (s ≡ claimed) ⊎ (s ≢ claimed)
status_cases claimed = inl refl
status_cases pending = inr cc
status_cases acked = inr cc

named_test : (token : String) → token ≢ "" → (token == "") ≡ false
named_test token h = ground (arith, eq_iff token "")

module _ {B : Type 0} (db : Database B) (now : Time) (i : ℕ) (token : String) where
  holder :
      (e : OutboxEvent B)
      → ((e.status ≢ claimed) ⊎ (e.claim_token ≢ token))
        ⊎ ((e.status ≡ claimed) × (e.claim_token ≡ token))
  holder e = elim (status_cases e.status) [
    | inr different ↦ inl (inl different)
    | inl s ↦ elim (Bool-cases (e.claim_token == token)) [
      | inl same ↦ inr (s, (eq_iff e.claim_token token).0 same)
      | inr other ↦ inl (inr (ground (arith, other, eq_iff e.claim_token token)))
    ]
  ]

  settle_missing :
      (f : OutboxEvent B → OutboxEvent B)
      → outbox_by_id i db.events ≡ none
      → settle db healthy i token f ≡ err not_found
  unfolding settle
  settle_missing f h = ground arith

  settle_refused :
      (f : OutboxEvent B → OutboxEvent B) (e : OutboxEvent B)
      → outbox_by_id i db.events ≡ some e
      → ((e.status ≢ claimed) ⊎ (e.claim_token ≢ token))
      → settle db healthy i token f ≡ err claim_mismatch
  unfolding settle
  settle_refused f e h no_hold = ground (arith, eq_iff e.claim_token token)

  settle_done :
      (f : OutboxEvent B → OutboxEvent B) (e : OutboxEvent B)
      → outbox_by_id i db.events ≡ some e
      → e.status ≡ claimed
      → e.claim_token ≡ token
      → settle db healthy i token f ≡ ok (tt, record db { events = update_event i f db.events })
  unfolding settle
  settle_done f e h s t = ground (arith, eq_iff e.claim_token token)

  IsReplaced-by :
      (f : OutboxEvent B → OutboxEvent B)
      → ((e : OutboxEvent B) → (f e).id ≡ e.id)
      → (e : OutboxEvent B) → outbox_by_id i db.events ≡ some e
      → IsReplaced db (record db { events = update_event i f db.events }) i (f e)
  IsReplaced-by f keeps e h = record {
    events = λ j. elim (Bool-cases (eqb i j)) [
      | inl same ↦ rw same (ground (arith, same, outbox_by_id-update_event i i f keeps db.events))
      | inr other ↦
          rw other (ground (arith, other, outbox_by_id-update_event i j f keeps db.events))
    ];
    correlations = refl;
  }

  settle_cases :
      (f : OutboxEvent B → OutboxEvent B)
      → ((e : OutboxEvent B) → (f e).id ≡ e.id)
      → Settles db i token f (transact db (settle db healthy i token f))
  settle_cases f keeps = elim (Option-cases (outbox_by_id i db.events)) [
    | inl h ↦ inl (h, rw (settle_missing f h) refl)
    | inr (e, h) ↦ elim (holder e) [
      | inl r ↦ inr (inl (e, h, r, rw (settle_refused f e h r) refl))
      | inr (s, t) ↦ inr (
          inr (
            e,
            h,
            s,
            t,
            rw (settle_done f e h s t) refl,
            rw (settle_done f e h s t) (IsReplaced-by f keeps e h),
          ))
    ]
  ]

-- Where nothing fails, `Ack` of an event that is not there reports it, `Ack` by anyone but the holder
-- of its claim is refused, and neither changes a row. The holder's `Ack` marks that event delivered
-- and changes no other.
pub ack_correct :
    {B : Type 0} (db : Database B) (now : Time) (i : ℕ) (token : String)
    → Settles db i token
        (λ e. record e { status = acked; updated_at = now })
        (ack db healthy now i token)
unfolding ack set_acked
ack_correct db now i token = settle_cases db now i token (set_acked now) (λ e. refl)

-- Where nothing fails, `Reclaim` with a token that is not empty reports an event that is not there and
-- refuses a token that does not hold its claim, and neither changes a row; the holder's call makes it pending
-- again, without a token or a time of claim, and keeps the count of its attempts.
pub reclaim_correct :
    {B : Type 0} (db : Database B) (now : Time) (i : ℕ) (token : String)
    → token ≢ ""
    → Settles db i token
        (λ e. record e { status = pending; claim_token = ""; claimed_at = none; updated_at = now })
        (reclaim db healthy now i token)
unfolding reclaim set_released
reclaim_correct db now i token named =
    rw (named_test token named) (settle_cases db now i token (set_released now) (λ e. refl))
