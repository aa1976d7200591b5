-- ===== src/Retention/Needed.antt =====
-- internal/sandbox/retention.go: the byte budget of `PruneRuns` takes no more runs than it must.
use gh_agent_broker.Prelude.{
  ℕ, zero, suc, ◌-◌, ◌≤◌, ◌≡◌, ◌⊎◌, inl, inr, refl, arith, Bool, true, false, not, ◌&&◌, ◌||◌, List,
  [], ◌∷◌, map, all_of, pos, pos_part, ltb, leb, if◌then◌else◌, Bool-cases, Option-cases,
}
use gh_agent_broker.Retention.Plan.{RetentionPolicy, DirEntry, considered, classify}
use gh_agent_broker.Retention.Prune.{
  Slot, newer, older, active_slots, sort_slots, mark_kept, select_old, budget_of, free_budget,
  mark_aged, mark_deletions, chosen,
}
use gh_agent_broker.Retention.Safety.{sort_slots-all}
use gh_agent_broker.Retention.Budget.{sort_slots-budget, free_budget-budget}

abbrev pub is_marked : Slot → Bool
is_marked s = s.candidate.delete

abbrev is_fresh : Slot → Bool
is_fresh s = not s.candidate.delete

-- The bytes of each marked slot and of those after it are above the limit.
unfoldable pub is_needed : ℕ → List Slot → Bool
is_needed limit [] = true
is_needed limit (s ∷ slots) =
    (not s.candidate.delete || ltb limit (budget_of (s ∷ slots))) && is_needed limit slots

classify-fresh : (p : RetentionPolicy) (now : ℕ) (e : DirEntry) → (classify p now e).delete ≡ false
unfolding classify considered
classify-fresh p now e = elim (Option-cases e.metadata) [
  | inl eq ↦ ground (arith, eq)
  | inr (meta, eq) ↦ ground (arith, eq)
]

active_slots-fresh :
    (p : RetentionPolicy) (now i : ℕ) (dir : List DirEntry)
    → all_of is_fresh (active_slots i (map (classify p now) dir)) ≡ true
unfolding active_slots
active_slots-fresh p now i [] = refl
active_slots-fresh p now i (e ∷ es) =
    ground (arith, classify-fresh p now e, active_slots-fresh p now (suc i) es)

mark_kept-fresh :
    (n : ℕ) (slots : List Slot)
    → all_of is_fresh slots ≡ true
    → all_of is_fresh (mark_kept n slots) ≡ true
unfolding mark_kept
mark_kept-fresh zero slots h = h
mark_kept-fresh (suc n) [] h = refl
mark_kept-fresh (suc n) (s ∷ slots) h = ground (arith, h, mark_kept-fresh n slots)

select_old-fresh :
    (p : RetentionPolicy) (now : ℕ) (slots : List Slot)
    → all_of is_fresh slots ≡ true
    → all_of is_fresh (select_old p now slots).0 ≡ true
unfolding select_old
select_old-fresh p now [] h = refl
select_old-fresh p now (s ∷ slots) h = ground (arith, h, select_old-fresh p now slots)

pub chosen-fresh :
    (p : RetentionPolicy) (now : ℕ) (dir : List DirEntry)
    → all_of is_fresh (chosen p now dir).0 ≡ true
unfolding chosen
chosen-fresh p now dir = select_old-fresh p now _ (
    mark_kept-fresh (pos_part p.keep_newest) _ (
      sort_slots-all is_fresh newer (active_slots 0 (map (classify p now) dir))
        (active_slots-fresh p now 0 dir)))

-- Within the limit nothing is marked.
free_budget-stops :
    (limit after : ℕ) (slots : List Slot)
    → all_of is_fresh slots ≡ true
    → after ≤ limit
    → is_needed limit (free_budget limit after slots).0 ≡ true
unfolding free_budget is_needed
free_budget-stops limit after [] h le = refl
free_budget-stops limit after (s ∷ slots) h le =
    ground (arith, h, le, free_budget-stops limit after slots)

free_budget-is_needed :
    (limit : ℕ) (slots : List Slot)
    → all_of is_fresh slots ≡ true
    → is_needed limit (free_budget limit (budget_of slots) slots).0 ≡ true
unfolding free_budget is_needed budget_of
free_budget-is_needed limit [] h = refl
free_budget-is_needed limit (s ∷ slots) h =
    let bytes = if s.candidate.size_known then s.candidate.size_bytes else 0 in
    elim (Bool-cases (leb (budget_of (s ∷ slots)) limit)) [
      | inl within ↦
          free_budget-stops limit (budget_of (s ∷ slots)) (s ∷ slots) h (ground (arith, within))
      | inr over ↦
          let rest : budget_of (s ∷ slots) - bytes ≡ budget_of slots = ground arith in
          ground (
            arith,
            h,
            over,
            rest,
            free_budget-budget limit (budget_of slots) slots,
            free_budget-is_needed limit slots,
          )
    ]

mark_aged-all : (slots : List Slot) → all_of is_marked (mark_aged slots) ≡ true
unfolding mark_aged
mark_aged-all [] = refl
mark_aged-all (s ∷ slots) = ground (arith, mark_aged-all slots)

pub mark_deletions-is_needed :
    (p : RetentionPolicy) (slots : List Slot) (m : ℕ)
    → p.max_bytes ≡ pos (suc m)
    → all_of is_fresh slots ≡ true
    → ((budget_of slots ≤ suc m) × (all_of is_marked (mark_deletions p slots).0 ≡ true))
      ⊎ (is_needed (suc m) (mark_deletions p slots).0 ≡ true)
unfolding mark_deletions
mark_deletions-is_needed p slots m e h = elim (Bool-cases (leb (budget_of slots) (suc m))) [
  | inl within ↦ inl (ground (arith, within), ground (arith, e, within, mark_aged-all slots))
  | inr over ↦ inr (
      ground (
        arith,
        e,
        over,
        sort_slots-budget older slots,
        free_budget-is_needed (suc m) (sort_slots older slots)
            (sort_slots-all is_fresh older slots h),
      ))
]
