-- ===== src/Correlation/Candidates.antt =====
-- internal/correlation/correlation.go: the events that `ClaimPending` selects, and updates of an event.
use gh_agent_broker.Prelude.{
  ℕ, zero, suc, ◌≤◌, ◌≡◌, inl, inr, refl, arith, true, List, [], ◌∷◌, take, map, Option, none, some,
  eqb, All, if◌then◌else◌, Bool-cases,
}
use gh_agent_broker.Correlation.Clock.{Time}
use gh_agent_broker.Correlation.Outbox.{OutboxEvent}
use gh_agent_broker.Correlation.Lease.{is_claimable, claimable_ids, outbox_by_id, update_event}

-- The ids grow along the list, from `lo`.
abbrev pub Increasing {ℓ} : {A : Type ℓ} → (A → ℕ) → ℕ → List A → Type 0
Increasing id lo [] = Unit
Increasing id lo (e ∷ es) = (lo ≤ id e) × Increasing id (suc (id e)) es

pub Increasing-weaken {ℓ} :
    {A : Type ℓ} (id : A → ℕ) (lo hi : ℕ) (es : List A)
    → lo ≤ hi
    → Increasing id hi es
    → Increasing id lo es
Increasing-weaken id lo hi [] h i = tt
Increasing-weaken id lo hi (e ∷ es) h i = (omega arith, i.1)

pub Increasing-take {ℓ} :
    {A : Type ℓ} (id : A → ℕ) (lo n : ℕ) (es : List A)
    → Increasing id lo es
    → Increasing id lo (take n es)
Increasing-take id lo zero es i = tt
Increasing-take id lo (suc n) [] i = tt
Increasing-take id lo (suc n) (e ∷ es) i = (i.0, Increasing-take id (suc (id e)) n es i.1)

pub All-take {ℓ κ} :
    {A : Type ℓ} (P : A → Type κ) (n : ℕ) (es : List A) → All P es → All P (take n es)
All-take P zero es h = tt
All-take P (suc n) [] h = tt
All-take P (suc n) (e ∷ es) h = (h.0, All-take P n es h.1)

abbrev pub event_id : {B : Type 0} → OutboxEvent B → ℕ
event_id e = e.id

abbrev pub self : ℕ → ℕ
self n = n

abbrev pub map_option :
    {B : Type 0} → (OutboxEvent B → OutboxEvent B) → Option (OutboxEvent B) → Option (OutboxEvent B)
map_option f none = none
map_option f (some e) = some (f e)

module _ {B : Type 0} where
  pub outbox_by_id-update_event :
      (i j : ℕ) (f : OutboxEvent B → OutboxEvent B)
      → ((e : OutboxEvent B) → (f e).id ≡ e.id)
      → (es : List (OutboxEvent B))
      → outbox_by_id j (update_event i f es)
        ≡ (if eqb i j then map_option f (outbox_by_id j es) else outbox_by_id j es)
  unfolding outbox_by_id update_event
  outbox_by_id-update_event i j f keeps [] = ground arith
  outbox_by_id-update_event i j f keeps (e ∷ es) =
      ground (arith, keeps e, outbox_by_id-update_event i j f keeps es)

  pub Increasing-update_event :
      (i lo : ℕ) (f : OutboxEvent B → OutboxEvent B)
      → ((e : OutboxEvent B) → (f e).id ≡ e.id)
      → (es : List (OutboxEvent B)) → Increasing event_id lo es
      → Increasing event_id lo (update_event i f es)
  unfolding update_event
  Increasing-update_event i lo f keeps [] h = tt
  Increasing-update_event i lo f keeps (e ∷ es) h = elim (Bool-cases (eqb e.id i)) [
    | inl same ↦
        rw (same, update_event)
          (rw (keeps e) (h.0, Increasing-update_event i (suc e.id) f keeps es h.1))
    | inr other ↦
        rw (other, update_event) (h.0, Increasing-update_event i (suc e.id) f keeps es h.1)
  ]

  pub ids-update_event :
      (i : ℕ) (f : OutboxEvent B → OutboxEvent B)
      → ((e : OutboxEvent B) → (f e).id ≡ e.id)
      → (es : List (OutboxEvent B)) → map event_id (update_event i f es) ≡ map event_id es
  unfolding update_event
  ids-update_event i f keeps [] = refl
  ids-update_event i f keeps (e ∷ es) = ground (arith, keeps e, ids-update_event i f keeps es)

  -- Under the id stands an event that is claimable.
  abbrev pub IsCandidate : Time → List (OutboxEvent B) → ℕ → Type 0
  IsCandidate expiry es i =
      (e : OutboxEvent B) × (outbox_by_id i es ≡ some e)
      × (is_claimable expiry e ≡ true)
      × (e.id ≡ i)

  pub Candidate-cons :
      (expiry : Time) (e : OutboxEvent B) (es : List (OutboxEvent B)) (ids : List ℕ)
      → Increasing self (suc e.id) ids
      → All (IsCandidate expiry es) ids
      → All (IsCandidate expiry (e ∷ es)) ids
  unfolding outbox_by_id
  Candidate-cons expiry e es [] inc all = tt
  Candidate-cons expiry e es (i ∷ ids) inc all = (
    (all.0.0, ground (arith, all.0.1), all.0.2, all.0.3),
    Candidate-cons expiry e es ids
        (Increasing-weaken self (suc e.id) (suc i) ids (omega arith) inc.1) all.1,
  )

  pub claimable_ids-Increasing :
      (expiry : Time) (lo : ℕ) (es : List (OutboxEvent B))
      → Increasing event_id lo es
      → Increasing self lo (claimable_ids expiry es)
  unfolding claimable_ids
  claimable_ids-Increasing expiry lo [] inc = tt
  claimable_ids-Increasing expiry lo (e ∷ es) inc = elim (Bool-cases (is_claimable expiry e)) [
    | inl take_it ↦
        rw (take_it, claimable_ids) (inc.0, claimable_ids-Increasing expiry (suc e.id) es inc.1)
    | inr leave ↦
        rw (leave, claimable_ids)
          (Increasing-weaken self lo (suc e.id) (claimable_ids expiry es) (omega arith)
            (claimable_ids-Increasing expiry (suc e.id) es inc.1))
  ]

  pub claimable_ids_sound :
      (expiry : Time) (lo : ℕ) (es : List (OutboxEvent B))
      → Increasing event_id lo es
      → All (IsCandidate expiry es) (claimable_ids expiry es)
  unfolding claimable_ids outbox_by_id
  claimable_ids_sound expiry lo [] inc = tt
  claimable_ids_sound expiry lo (e ∷ es) inc =
      let later =
        Candidate-cons expiry e es (claimable_ids expiry es)
          (claimable_ids-Increasing expiry (suc e.id) es inc.1)
          (claimable_ids_sound expiry (suc e.id) es inc.1) in
      elim (Bool-cases (is_claimable expiry e)) [
        | inl take_it ↦ rw (take_it, claimable_ids) ((e, ground arith, take_it, refl), later)
        | inr leave ↦ rw (leave, claimable_ids) later
      ]
