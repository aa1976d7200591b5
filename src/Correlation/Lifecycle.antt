-- ===== src/Correlation/Lifecycle.antt =====
-- internal/correlation/correlation.go: the life of an event, over any sequence of operations.
use gh_agent_broker.Prelude.{
  ℕ, suc, ◌+◌, ◌-◌, ◌≤◌, String, ◌==◌, ◌≡◌, ◌⊎◌, inl, inr, refl, subst, arith, true, List, [], ◌∷◌,
  ◌++◌, map, transact, some, ℤ, eqb, ok, err, Tx, All, Bool-cases, Option-cases, Result-cases,
}
use gh_agent_broker.Correlation.Clock.{Time}
use gh_agent_broker.Correlation.Outbox.{Error, OutboxEvent, Database, Codec, Identity, insert_pair}
use gh_agent_broker.Correlation.Lease.{
  is_claimable, outbox_by_id, update_event, set_claimed, set_acked, set_released, holds, settle,
  ack, reclaim, claim_checked, claim_pending,
}
use gh_agent_broker.Correlation.Recorded.{record_cases}
use gh_agent_broker.Correlation.Select.{mem_id, IsAfter, selected, selected_sound, claim_selected}
use gh_agent_broker.Correlation.Candidates.{
  Increasing, event_id, IsCandidate, outbox_by_id-update_event, ids-update_event,
}
use mathlib.Core.List.{map-append}
use gh_agent_broker.Correlation.Moves.{
  Moves, Moves-refl, Moves-trans, Moves-set_claimed, Moves-set_acked, Moves-set_released,
}
use gh_agent_broker.Correlation.Trace.{Call, recording, claiming, acking, reclaiming, step, run}

mem_Candidate :
    {B : Type 0} (expiry : Time) (es : List (OutboxEvent B)) (i : ℕ) (e : OutboxEvent B)
    (ids : List ℕ)
    → outbox_by_id i es ≡ some e
    → All (IsCandidate expiry es) ids
    → mem_id i ids ≡ true
    → is_claimable expiry e ≡ true
mem_Candidate expiry es i e [] at all m = cc
mem_Candidate expiry es i e (j ∷ ids) at all m =
    ground (arith, all.0.1, all.0.2, mem_Candidate expiry es i e ids at all.1)

-- The event under an id, which was `e` before, has moved.
abbrev pub MovesIn : {B : Type 0} → ℕ → OutboxEvent B → List (OutboxEvent B) → Type 0
MovesIn i e es = (e' : OutboxEvent _) × (outbox_by_id i es ≡ some e') × Moves e e'

same_found :
    {B : Type 0} (es : List (OutboxEvent B)) (j i : ℕ) (a b : OutboxEvent B)
    → j ≡ i
    → outbox_by_id j es ≡ some a
    → outbox_by_id i es ≡ some b
    → a ≡ b
same_found es j i a b p q r = cc

module _ {B : Type 0} where
  settled-Moves :
      (f : OutboxEvent B → OutboxEvent B)
      → ((e : OutboxEvent B) → (f e).id ≡ e.id)
      → (es : List (OutboxEvent B)) (j i : ℕ) (held e : OutboxEvent B)
      → outbox_by_id j es ≡ some held
      → Moves held (f held)
      → outbox_by_id i es ≡ some e
      → MovesIn i e (update_event j f es)
  settled-Moves f keeps es j i held e at m found = elim (Bool-cases (eqb j i)) [
    | inr other ↦ (e, ground (arith, outbox_by_id-update_event j i f keeps es), Moves-refl e)
    | inl same ↦ (
      f held,
      ground (arith, outbox_by_id-update_event j i f keeps es),
      subst (λ x. Moves x (f held)) (same_found es j i held e (ground arith) at found) m,
    )
  ]

  claimed_moves :
      (token : String) (now expiry : Time) (limit : ℤ) (es last : List (OutboxEvent B)) (i : ℕ)
      (e : OutboxEvent B)
      → Increasing event_id 0 es
      → IsAfter token now expiry es (selected expiry limit es) last
      → outbox_by_id i es ≡ some e
      → MovesIn i e last
  claimed_moves token now expiry limit es last i e inc after found =
      elim (Bool-cases (mem_id i (selected expiry limit es))) [
        | inr other ↦ (e, ground (arith, after i), Moves-refl e)
        | inl taken ↦ (
          set_claimed token now e,
          ground (arith, after i),
          Moves-set_claimed token now expiry e (
              mem_Candidate expiry es i e (selected expiry limit es) found
                (selected_sound expiry limit es inc) taken),
        )
      ]

  by_id-append :
      (i : ℕ) (es more : List (OutboxEvent B)) (e : OutboxEvent B)
      → outbox_by_id i es ≡ some e
      → outbox_by_id i (es ++ more) ≡ some e
  unfolding outbox_by_id
  by_id-append i [] more e h = cc
  by_id-append i (x ∷ es) more e h = ground (arith, by_id-append i es more e)

  settle_cases :
      (db : Database B) (tx : Tx) (j : ℕ) (token : String) (f : OutboxEvent B → OutboxEvent B)
      → ((x : Error) × (settle db tx j token f ≡ err x))
        ⊎ ((held : OutboxEvent B) × (outbox_by_id j db.events ≡ some held)
            × (holds held token ≡ true)
            × (settle db tx j token f ≡ ok (tt, record db { events = update_event j f db.events })))
  unfolding settle
  settle_cases db tx j token f = elim (Result-cases (settle db tx j token f)) [
    | inr h ↦ inl h
    | inl (out, e) ↦ elim (Option-cases (outbox_by_id j db.events)) [
      | inl none_there ↦ absurd (ground arith)
      | inr (held, at) ↦ inr (held, at, ground arith, ground arith)
    ]
  ]

  claim_cases :
      (db : Database B) (tx : Tx) (now : Time) (token : String) (limit : ℤ) (ttl : Time)
      → Increasing event_id 0 db.events
      → ((x : Error) × (claim_checked db tx now token limit ttl ≡ err x))
        ⊎ ((out last : List (OutboxEvent B)) × (claim_checked db tx now token limit ttl
              ≡ ok (out, record db { events = last }))
            × IsAfter token now (now - ttl) db.events (selected (now - ttl) limit db.events) last
            × (map event_id last ≡ map event_id db.events))
  unfolding claim_checked
  claim_cases db tx now token limit ttl inc =
      let (out, last, done, taken, after, same) =
        claim_selected (now - ttl) limit db.events inc token now in
      elim (Result-cases (claim_checked db tx now token limit ttl)) [
        | inr h ↦ inl h
        | inl (o, e) ↦ inr (out, last, ground (arith, done), after, same)
      ]

-- Ids that grow from `lo` and stay below the counter.
abbrev pub Ordered : ℕ → List ℕ → ℕ → Type 0
Ordered lo [] next = lo ≤ next
Ordered lo (i ∷ ids) next = (lo ≤ i) × Ordered (suc i) ids next

abbrev pub IsOrdered : {B : Type 0} → Database B → Type 0
IsOrdered db = Ordered 0 (map event_id db.events) db.next_event

Ordered-append :
    (lo : ℕ) (ids : List ℕ) (next : ℕ)
    → Ordered lo ids next
    → Ordered lo (ids ++ next ∷ []) (next + 1)
Ordered-append lo [] next h = (h, omega arith)
Ordered-append lo (i ∷ ids) next h = (h.0, Ordered-append (suc i) ids next h.1)

Increasing-of_Ordered :
    {B : Type 0} (lo next : ℕ) (es : List (OutboxEvent B))
    → Ordered lo (map event_id es) next
    → Increasing event_id lo es
Increasing-of_Ordered lo next [] h = tt
Increasing-of_Ordered lo next (e ∷ es) h = (h.0, Increasing-of_Ordered (suc e.id) next es h.1)

-- A call keeps the ids in order, and the event under an id moves.
abbrev Keeps : {B : Type 0} → Database B → Database B → Type 0
Keeps db db' =
    IsOrdered db'
    × ((i : ℕ) (e : OutboxEvent _) → outbox_by_id i db.events ≡ some e → MovesIn i e db'.events)

Keeps-refl : {B : Type 0} (db : Database B) → IsOrdered db → Keeps db db
Keeps-refl db h = (h, λ i e found. (e, found, Moves-refl e))

module _ {B : Type 0} (db : Database B) (h : IsOrdered db) where
  settle-Keeps :
      (tx : Tx) (j : ℕ) (token : String) (f : OutboxEvent B → OutboxEvent B)
      → ((e : OutboxEvent B) → (f e).id ≡ e.id)
      → ((e : OutboxEvent B) → holds e token ≡ true → Moves e (f e))
      → Keeps db (transact db (settle db tx j token f)).1
  settle-Keeps tx j token f keeps moves = elim (settle_cases db tx j token f) [
    | inl (x, e) ↦ rw e (Keeps-refl db h)
    | inr (held, at, allowed, e) ↦ rw e (
      rw (ids-update_event j f keeps db.events) h,
      λ i v found. settled-Moves f keeps db.events j i held v at (moves held allowed) found,
    )
  ]

  claim-Keeps :
      (tx : Tx) (now : Time) (token : String) (limit : ℤ) (ttl : Time)
      → Keeps db (claim_pending db tx now token limit ttl).1
  unfolding claim_pending
  claim-Keeps tx now token limit ttl =
      let inc = Increasing-of_Ordered 0 db.next_event db.events h in
      elim (claim_cases db tx now token limit ttl inc) [
        | inl (x, e) ↦ rw (e, claim_pending) (Keeps-refl db h)
        | inr (out, last, e, after, same) ↦
            rw (e, claim_pending)
              (
                rw same h,
                λ i v found.
                    claimed_moves token now (now - ttl) limit db.events last i v inc after found,
              )
      ]

  reclaim-Keeps :
      (tx : Tx) (now : Time) (j : ℕ) (token : String) → Keeps db (reclaim db tx now j token).1
  unfolding reclaim
  reclaim-Keeps tx now j token = elim (Bool-cases (token == "")) [
    | inl blank ↦ rw (blank, reclaim) (Keeps-refl db h)
    | inr named ↦
        rw (named, reclaim)
          (settle-Keeps tx j token (set_released now) (unfold set_released in λ e. refl)
            (Moves-set_released token now))
  ]

  insert-Keeps :
      (codec : Codec B) (now : Time) (id : Identity) (repo : String) (pr : ℤ) (payload : B)
      → Keeps db (insert_pair codec db now id repo pr payload)
  unfolding insert_pair
  insert-Keeps codec now id repo pr payload = (
    rw map-append (Ordered-append 0 (map event_id db.events) db.next_event h),
    λ i e found. (e, by_id-append i db.events _ e found, Moves-refl e),
  )

module _ {B : Type 0} (codec : Codec B) where
  step-Keeps : (db : Database B) (c : Call) → IsOrdered db → Keeps db (step codec db c)
  unfolding step
  step-Keeps db (recording tx now id repo pr) h = elim (record_cases codec db tx now id repo pr) [
    | inl e ↦ rw (e, step) (Keeps-refl db h)
    | inr (payload, i, e) ↦ rw (e, step) (insert-Keeps db h codec now id repo pr payload)
  ]
  step-Keeps db (claiming tx now token limit ttl) h = claim-Keeps db h tx now token limit ttl
  step-Keeps db (acking tx now i token) h =
      unfold ack in
      settle-Keeps db h tx i token (set_acked now) (unfold set_acked in λ e. refl)
        (Moves-set_acked token now)
  step-Keeps db (reclaiming tx now i token) h = reclaim-Keeps db h tx now i token

-- Over any sequence of calls, with any failures: an event keeps its identity, version and payload,
-- its attempts never fall, and once it is acknowledged it never changes again.
pub event-Moves :
    {B : Type 0} (codec : Codec B) (db : Database B) (calls : List Call) (i : ℕ) (e : OutboxEvent B)
    → IsOrdered db
    → outbox_by_id i db.events ≡ some e
    → MovesIn i e (run codec db calls).events
unfolding run
event-Moves codec db [] i e h found = (e, found, Moves-refl e)
event-Moves codec db (c ∷ calls) i e h found =
    let (ordered, moved) = step-Keeps codec db c h in
    let (mid, at_mid, f) = moved i e found in
    let (last, at_last, g) = event-Moves codec (step codec db c) calls i mid ordered at_mid in
    (last, at_last, Moves-trans e mid last f g)
