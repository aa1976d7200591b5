-- ===== src/Correlation/First.antt =====
-- internal/correlation/correlation.go: `ClaimPending` as one pass over the events.
use gh_agent_broker.Prelude.{
  ℕ, zero, suc, ◌+◌, ◌-◌, String, ◌≡◌, ◌≢◌, inl, inr, refl, arith, eq_iff, Bool, true, false, List,
  [], ◌∷◌, take, Option, none, some, ℤ, pos, negsuc, Result, ok, err, healthy, if◌then◌else◌,
  Bool-cases, Option-cases, Result-cases,
}
use gh_agent_broker.Correlation.Clock.{Time, text_le}
use gh_agent_broker.Correlation.Outbox.{
  Error, Status, pending, claimed, acked, OutboxEvent, Database,
}
use gh_agent_broker.Correlation.Lease.{
  claimable_as, lease_over, is_claimable, claimable_ids, outbox_by_id, update_event, set_claimed,
  claim_each, effective_limit, claim_pending,
}
use gh_agent_broker.Correlation.Candidates.{
  Increasing, Increasing-weaken, Increasing-take, event_id, self, claimable_ids-Increasing,
}

-- How many events a caller gets at most: what it asks for, but at least one.
unfoldable pub wanted : ℤ → ℕ
wanted (pos zero) = 1
wanted (pos (suc n)) = suc n
wanted (negsuc n) = 1

-- An event that waits, or that is held since a time that is not after the bound as a text.
unfoldable pub is_free : Status → Option Time → Time → Bool
is_free pending at expiry = true
is_free claimed none expiry = true
is_free claimed (some at) expiry = text_le at expiry
is_free acked at expiry = false

module _ {B : Type 0} (token : String) (now expiry : Time) where
  abbrev pub taken : OutboxEvent B → OutboxEvent B
  taken e = record e {
    status = claimed;
    claim_token = token;
    claimed_at = some now;
    attempts = e.attempts + 1;
    updated_at = now;
  }

  -- The first `n` free events, as taken, and the events after that.
  unfoldable pub claim_first :
      ℕ → List (OutboxEvent B) → List (OutboxEvent B) × List (OutboxEvent B)
  claim_first zero es = ([], es)
  claim_first (suc n) [] = ([], [])
  claim_first (suc n) (e ∷ es) =
      let (out, last) = claim_first n es in
      let (out', last') = claim_first (suc n) es in
      if is_free e.status e.claimed_at expiry
      then (taken e ∷ out, taken e ∷ last)
      else (out', e ∷ last')

  past :
      OutboxEvent B
      → Result Error (List (OutboxEvent B) × List (OutboxEvent B))
      → Result Error (List (OutboxEvent B) × List (OutboxEvent B))
  past e (err x) = err x
  past e (ok (out, last)) = ok (out, e ∷ last)

  -- The ids that come after an event do not touch it.
  claim_each-cons :
      (e : OutboxEvent B) (ids : List ℕ) (es : List (OutboxEvent B))
      → Increasing self (suc e.id) ids
      → claim_each token now ids (e ∷ es) ≡ past e (claim_each token now ids es)
  unfolding claim_each update_event outbox_by_id past
  claim_each-cons e [] es inc = refl
  claim_each-cons e (i ∷ ids) es inc =
      let es' = update_event i (set_claimed token now) es in
      let later =
        claim_each-cons e ids es'
          (Increasing-weaken self (suc e.id) (suc i) ids (omega arith) inc.1) in
      elim (Option-cases (outbox_by_id i es')) [
        | inl gone ↦ ground (arith, inc.0, gone, later)
        | inr (found, there) ↦ elim (Result-cases (claim_each token now ids es')) [
          | inr (x, bad) ↦ ground (arith, inc.0, there, later, bad)
          | inl ((out, last), fine) ↦ ground (arith, inc.0, there, later, fine)
        ]
      ]

  update_event-after :
      (i : ℕ) (es : List (OutboxEvent B))
      → Increasing event_id (suc i) es
      → update_event i (set_claimed token now) es ≡ es
  unfolding update_event
  update_event-after i [] inc = refl
  update_event-after i (e ∷ es) inc = ground (
    arith,
    inc.0,
    update_event-after i es (Increasing-weaken event_id (suc i) (suc e.id) es (omega arith) inc.1),
  )

  claimable_as_free :
      (e : OutboxEvent B) (status : Status) (at : Option Time)
      → e.claimed_at ≡ at
      → claimable_as status e expiry ≡ is_free status at expiry
  unfolding claimable_as is_free lease_over
  claimable_as_free e pending at h = refl
  claimable_as_free e claimed none h = ground (arith, h)
  claimable_as_free e claimed (some at) h = ground (arith, h)
  claimable_as_free e acked at h = refl

  claimable_is_free :
      (e : OutboxEvent B) → is_claimable expiry e ≡ is_free e.status e.claimed_at expiry
  unfolding is_claimable
  claimable_is_free e = claimable_as_free e e.status e.claimed_at refl

  claim_each_first :
      (n lo : ℕ) (es : List (OutboxEvent B))
      → Increasing event_id lo es
      → claim_each token now (take n (claimable_ids expiry es)) es ≡ ok (claim_first n es)
  unfolding claim_each claimable_ids update_event outbox_by_id claim_first set_claimed past
  claim_each_first zero lo es inc = refl
  claim_each_first (suc n) lo [] inc = refl
  claim_each_first (suc n) lo (e ∷ es) inc =
      let ids = claimable_ids expiry es in
      let after = claimable_ids-Increasing expiry (suc e.id) es inc.1 in
      elim (Bool-cases (is_claimable expiry e)) [
        | inl free ↦ ground (
          arith,
          free,
          claimable_is_free e,
          update_event-after e.id es inc.1,
          claim_each-cons (taken e) (take n ids) es (Increasing-take self (suc e.id) n ids after),
          claim_each_first n (suc e.id) es inc.1,
        )
        | inr held ↦ ground (
          arith,
          held,
          claimable_is_free e,
          claim_each-cons e (take (suc n) ids) es
              (Increasing-take self (suc e.id) (suc n) ids after),
          claim_each_first (suc n) (suc e.id) es inc.1,
        )
      ]

wanted-effective_limit : (limit : ℤ) → effective_limit limit ≡ wanted limit
unfolding effective_limit wanted
wanted-effective_limit (pos zero) = refl
wanted-effective_limit (pos (suc n)) = ground arith
wanted-effective_limit (negsuc n) = ground arith

-- In a database whose events stand by id, `ClaimPending` with a token, where nothing fails, is one pass
-- over the events that takes the first of them that are pending or whose lease is over, as many as the
-- limit and at least one, and returns and stores each as claimed by the token now and with one more
-- attempt. Every other event stays as it was, in its place.
pub claim_pending-claim_first :
    {B : Type 0} (db : Database B) (now ttl : Time) (token : String) (limit : ℤ)
    → token ≢ ""
    → Increasing event_id 0 db.events
    → claim_pending db healthy now token limit ttl ≡ (
      ok (claim_first token now (now - ttl) (wanted limit) db.events).0,
      record db { events = (claim_first token now (now - ttl) (wanted limit) db.events).1 },
    )
unfolding claim_pending
claim_pending-claim_first db now ttl token limit named inc = ground (
  arith,
  eq_iff token "",
  wanted-effective_limit limit,
  claim_each_first token now (now - ttl) (wanted limit) 0 db.events inc,
)
