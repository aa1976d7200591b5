-- ===== src/Retention/Prune.antt =====
-- internal/sandbox/retention.go: `PruneRuns` on the classified candidates. A pointer to a candidate
-- is its place in the list; `cleanup` says which removals succeed.
use Prim.Native.String.{compare}
use Prim.Native.Nat.{Ordering}
use gh_agent_broker.Prelude.{
  ℕ, zero, suc, ◌+◌, ◌-◌, String, Bool, true, false, not, ◌&&◌, List, [], ◌∷◌, map, take, length,
  pos, pos_part, ltb_ℤ, leb, ltb, eqb, if◌then◌else◌,
}
use gh_agent_broker.Retention.Plan.{
  Reason, eligible, keep_newest, too_new, delete_age, delete_budget, within_budget, would_delete,
  delete_failed, deleted, RetentionPolicy, normalize, max_age_reached, DirEntry, Candidate,
  classify,
}

pub record Slot : Type 0 where
  pub place : ℕ
  pub candidate : Candidate

abbrev pub is_eligible : Reason → Bool
is_eligible eligible = true
is_eligible _ = false

-- Pointers to the candidates that are eligible, from place `i` on.
unfoldable pub active_slots : ℕ → List Candidate → List Slot
active_slots i [] = []
active_slots i (c ∷ cs) =
    let rest = active_slots (suc i) cs in
    if is_eligible c.reason then record { place = i; candidate = c } ∷ rest else rest

abbrev text_lt : String → String → Bool
text_lt a b = elim (compare a b) [ Ordering.lt ↦ true | _ ↦ false ]

-- Newest first, and oldest first; then by name.
unfoldable pub newer : Slot → Slot → Bool
newer a b =
    if eqb a.candidate.last_activity b.candidate.last_activity
    then text_lt a.candidate.run_id b.candidate.run_id
    else ltb b.candidate.last_activity a.candidate.last_activity

unfoldable pub older : Slot → Slot → Bool
older a b =
    if eqb a.candidate.last_activity b.candidate.last_activity
    then text_lt a.candidate.run_id b.candidate.run_id
    else ltb a.candidate.last_activity b.candidate.last_activity

-- sort.SliceStable: `x` goes before the first element that is not less than it.
unfoldable pub insert_slot : (Slot → Slot → Bool) → Slot → List Slot → List Slot
insert_slot less x [] = x ∷ []
insert_slot less x (y ∷ ys) = elim (less y x) [
  | true ↦ y ∷ insert_slot less x ys
  | false ↦ x ∷ y ∷ ys
]

unfoldable pub sort_slots : (Slot → Slot → Bool) → List Slot → List Slot
unfolding insert_slot
sort_slots less [] = []
sort_slots less (x ∷ xs) = insert_slot less x (sort_slots less xs)

abbrev pub with_reason : Slot → Reason → Slot
with_reason s r = record s { candidate = record s.candidate { reason = r } }

unfoldable pub mark_kept : ℕ → List Slot → List Slot
mark_kept zero slots = slots
mark_kept (suc n) [] = []
mark_kept (suc n) (s ∷ slots) =
    record s { candidate = record s.candidate { keep = true; reason = keep_newest } }
    ∷ mark_kept n slots

-- The loop that drops what is kept and what is too new; the dropped slots keep their new reason.
unfoldable pub select_old : RetentionPolicy → ℕ → List Slot → List Slot × List Slot
select_old p now [] = ([], [])
select_old p now (s ∷ slots) =
    let (selected, left) = select_old p now slots in
    if s.candidate.keep
    then (selected, s ∷ left)
    else if not (max_age_reached p s.candidate.last_activity now)
    then (selected, with_reason s too_new ∷ left)
    else (with_reason s eligible ∷ selected, left)

unfoldable pub budget_of : List Slot → ℕ
budget_of [] = 0
budget_of (s ∷ slots) =
    (if s.candidate.size_known then s.candidate.size_bytes else 0) + budget_of slots

abbrev pub to_delete : Slot → Reason → Slot
to_delete s r = record s { candidate = record s.candidate { delete = true; reason = r } }

-- The loop that frees bytes, oldest first: the slots, and the bytes that stay.
unfoldable pub free_budget : ℕ → ℕ → List Slot → List Slot × ℕ
free_budget max_bytes after [] = ([], after)
free_budget max_bytes after (s ∷ slots) =
    if leb after max_bytes
    then (let (rest, last) = free_budget max_bytes after slots in
        (with_reason s within_budget ∷ rest, last))
    else let bytes = if s.candidate.size_known then s.candidate.size_bytes else 0 in
      let (rest, last) = free_budget max_bytes (after - bytes) slots in
      (to_delete s delete_budget ∷ rest, last)

unfoldable pub mark_aged : List Slot → List Slot
mark_aged slots = map (λ s. to_delete s delete_age) slots

-- The two ways to mark the selected slots, and the budget after.
unfoldable pub mark_deletions : RetentionPolicy → List Slot → List Slot × ℕ
mark_deletions p selected =
    if ltb_ℤ (pos 0) p.max_bytes && ltb_ℤ p.max_bytes (pos (budget_of selected))
    then free_budget (pos_part p.max_bytes) (budget_of selected) (sort_slots older selected)
    else (mark_aged selected, budget_of selected)

-- What the last loop does to one slot; the runs that `CleanupRun` is called on stand in `cleaned`.
pub record Swept : Type 0 where
  pub slots : List Slot
  pub cleaned : List String
  pub deleted_count : ℕ
  pub failed_count : ℕ

unfoldable pub sweep : RetentionPolicy → (String → Bool) → List Slot → Swept
sweep p cleanup [] = record { slots = []; cleaned = []; deleted_count = 0; failed_count = 0 }
sweep p cleanup (s ∷ slots) =
    let r = sweep p cleanup slots in
    if not s.candidate.delete
    then record r { slots = s ∷ r.slots }
    else if p.dry_run
    then record r { slots = with_reason s would_delete ∷ r.slots }
    else if cleanup s.candidate.run_id
    then record {
      slots = with_reason s deleted ∷ r.slots;
      cleaned = s.candidate.run_id ∷ r.cleaned;
      deleted_count = suc r.deleted_count;
      failed_count = r.failed_count;
    }
    else record {
      slots = with_reason s delete_failed ∷ r.slots;
      cleaned = s.candidate.run_id ∷ r.cleaned;
      deleted_count = r.deleted_count;
      failed_count = suc r.failed_count;
    }

-- Writing through a pointer.
unfoldable pub write_at : ℕ → Candidate → List Candidate → List Candidate
write_at i v [] = []
write_at zero v (c ∷ cs) = v ∷ cs
write_at (suc i) v (c ∷ cs) = c ∷ write_at i v cs

unfoldable pub write_slots : List Slot → List Candidate → List Candidate
unfolding write_at
write_slots [] cs = cs
write_slots (s ∷ slots) cs = write_slots slots (write_at s.place s.candidate cs)

pub record PruneReport : Type 0 where
  pub scanned : ℕ
  pub deleted_count : ℕ
  pub failed_count : ℕ
  pub budget_before : ℕ
  pub budget_after : ℕ
  pub truncated : Bool
  pub cleaned : List String
  pub entries : List Candidate

-- The selected slots, and the candidates with the reasons of those that are not selected.
unfoldable pub chosen : RetentionPolicy → ℕ → List DirEntry → List Slot × List Candidate
chosen p now dir =
    let candidates = map (classify p now) dir in
    let active = sort_slots newer (active_slots 0 candidates) in
    let (selected, left) = select_old p now (mark_kept (pos_part p.keep_newest) active) in
    (selected, write_slots left candidates)

unfoldable pub prune_runs : RetentionPolicy → (String → Bool) → ℕ → List DirEntry → PruneReport
unfolding chosen
prune_runs policy cleanup now dir =
    let p = normalize policy in
    let (selected, candidates) = chosen p now dir in
    let (marked, budget) = mark_deletions p selected in
    let swept = sweep p cleanup marked in
    record {
      scanned = length dir;
      deleted_count = swept.deleted_count;
      failed_count = swept.failed_count;
      budget_before = budget_of selected;
      budget_after = budget;
      truncated = ltb (pos_part p.max_output) (length candidates);
      cleaned = swept.cleaned;
      entries = take (pos_part p.max_output) (write_slots swept.slots candidates);
    }
