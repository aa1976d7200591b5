-- ===== src/Retention/Budget.antt =====
-- internal/sandbox/retention.go: the byte budget of `PruneRuns`.
use gh_agent_broker.Prelude.{
  ℕ, suc, ◌+◌, ◌-◌, ◌≤◌, ◌∷◌, ◌≡◌, refl, arith, Bool, not, ◌||◌, List, [], pos, pos_part,
  if◌then◌else◌,
}
use gh_agent_broker.Retention.Plan.{RetentionPolicy, normalize}
unfoldable use gh_agent_broker.Retention.Plan.{normalize}
use gh_agent_broker.Retention.Prune.{
  Slot, older, insert_slot, sort_slots, budget_of, free_budget, mark_deletions, mark_aged,
}
unfoldable use gh_agent_broker.Retention.Prune.{
  insert_slot, sort_slots, budget_of, free_budget, mark_deletions, mark_aged,
}

insert_slot-budget :
    (less : Slot → Slot → Bool) (x : Slot) (slots : List Slot)
    → budget_of (insert_slot less x slots) ≡ budget_of (x ∷ slots)
unfolding insert_slot budget_of
insert_slot-budget less x [] = refl
insert_slot-budget less x (y ∷ ys) = ground (arith, insert_slot-budget less x ys)

pub sort_slots-budget :
    (less : Slot → Slot → Bool) (slots : List Slot)
    → budget_of (sort_slots less slots) ≡ budget_of slots
unfolding sort_slots budget_of
sort_slots-budget less [] = refl
sort_slots-budget less (x ∷ xs) =
    ground (arith, insert_slot-budget less x (sort_slots less xs), sort_slots-budget less xs)

-- Deleting stops once the limit is met, or when nothing is left.
free_budget-le :
    (limit after : ℕ) (slots : List Slot)
    → after ≤ budget_of slots + limit
    → (free_budget limit after slots).1 ≤ limit
unfolding free_budget budget_of
free_budget-le limit after [] h = ground (arith, h)
free_budget-le limit after (s ∷ slots) h = ground (
  arith,
  h,
  free_budget-le limit after slots,
  free_budget-le limit (after - (if s.candidate.size_known then s.candidate.size_bytes else 0))
      slots,
)

pub mark_deletions-budget :
    (p : RetentionPolicy) (slots : List Slot) (m : ℕ)
    → p.max_bytes ≡ pos (suc m)
    → (mark_deletions p slots).1 ≤ suc m
unfolding mark_deletions
mark_deletions-budget p slots m e = ground (
  arith,
  e,
  sort_slots-budget older slots,
  free_budget-le (suc m) (budget_of slots) (sort_slots older slots),
)

pub normalize_budget :
    (policy : RetentionPolicy) (m : ℕ)
    → policy.max_bytes ≡ pos (suc m)
    → (normalize policy).max_bytes ≡ pos (suc m)
unfolding normalize
normalize_budget policy m e = ground (arith, e)

-- The bytes of the slots that are not marked for deletion, where their sizes are known.
unfoldable pub kept_bytes : List Slot → ℕ
kept_bytes [] = 0
kept_bytes (s ∷ slots) =
    (if s.candidate.delete || not s.candidate.size_known then 0 else s.candidate.size_bytes)
    + kept_bytes slots

free_budget-kept :
    (limit after : ℕ) (slots : List Slot)
    → budget_of slots ≤ after
    → kept_bytes (free_budget limit after slots).0 + after
      ≤ (free_budget limit after slots).1 + budget_of slots
unfolding free_budget budget_of kept_bytes
free_budget-kept limit after [] h = ground arith
free_budget-kept limit after (s ∷ slots) h =
    let bytes = if s.candidate.size_known then s.candidate.size_bytes else 0 in
    ground
      (arith, h, free_budget-kept limit after slots, free_budget-kept limit (after - bytes) slots)

pub free_budget-budget :
    (limit after : ℕ) (slots : List Slot)
    → budget_of (free_budget limit after slots).0 ≡ budget_of slots
unfolding free_budget budget_of
free_budget-budget limit after [] = refl
free_budget-budget limit after (s ∷ slots) =
    let bytes = if s.candidate.size_known then s.candidate.size_bytes else 0 in
    ground
      (arith, free_budget-budget limit after slots, free_budget-budget limit (after - bytes) slots)

mark_aged-kept :
    (slots : List Slot)
    → (kept_bytes (mark_aged slots) ≡ 0) × (budget_of (mark_aged slots) ≡ budget_of slots)
unfolding mark_aged kept_bytes budget_of
mark_aged-kept [] = (refl, refl)
mark_aged-kept (s ∷ slots) = ground (arith, mark_aged-kept slots)

pub mark_deletions-kept :
    (p : RetentionPolicy) (slots : List Slot)
    → (kept_bytes (mark_deletions p slots).0 ≤ (mark_deletions p slots).1)
      × (budget_of (mark_deletions p slots).0 ≡ budget_of slots)
unfolding mark_deletions
mark_deletions-kept p slots = ground (
  arith,
  sort_slots-budget older slots,
  mark_aged-kept slots,
  free_budget-kept (pos_part p.max_bytes) (budget_of slots) (sort_slots older slots),
  free_budget-budget (pos_part p.max_bytes) (budget_of slots) (sort_slots older slots),
)
