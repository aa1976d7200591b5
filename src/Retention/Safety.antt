-- ===== src/Retention/Safety.antt =====
-- internal/sandbox/retention.go: which runs `PruneRuns` calls `CleanupRun` on.
use gh_agent_broker.Prelude.{
  ℕ, zero, suc, ◌-◌, String, ◌==◌, ◌≡◌, inl, inr, refl, arith, eq_refl, Bool, true, false, not,
  ◌&&◌, ◌||◌, List, [], ◌∷◌, map, all_of, none, some, pos_part, eqb, if◌then◌else◌, Bool-cases,
  Option-cases,
}
use gh_agent_broker.Retention.Plan.{
  RetentionPolicy, normalize, max_age_reached, DirEntry, run_last_activity, has_active_status,
  is_terminal_status, status_reason, considered, classify,
}
unfoldable use gh_agent_broker.Retention.Plan.{
  has_active_status, is_terminal_status, status_reason, considered, classify,
}
use gh_agent_broker.Retention.Prune.{
  Slot, is_eligible, active_slots, newer, older, insert_slot, sort_slots, mark_kept, select_old,
  budget_of, free_budget, mark_aged, mark_deletions, sweep, prune_runs,
}
unfoldable use gh_agent_broker.Retention.Prune.{
  active_slots, insert_slot, sort_slots, mark_kept, select_old, free_budget, mark_aged,
  mark_deletions, sweep, prune_runs,
}

-- The entry is a real directory of a safe name that stays in the base, and its metadata can be read
-- and has a status that may be removed.
abbrev pub fit_entry : RetentionPolicy → DirEntry → Bool
fit_entry p e = not e.is_symlink && e.is_dir && e.safe_id && not e.escapes && elim e.metadata [
  | none ↦ false
  | some meta ↦
      not (has_active_status meta.status) && (not p.terminal_only || is_terminal_status meta.status)
]

abbrev pub activity_of : DirEntry → ℕ
activity_of e = elim e.metadata [ none ↦ 0 | some meta ↦ run_last_activity meta e.modified ]

-- Some entry of the directory is fit, and has the name and the last activity.
unfoldable pub backed : RetentionPolicy → List DirEntry → String → ℕ → Bool
backed p [] id at = false
backed p (e ∷ es) id at =
    (fit_entry p e && e.name == id && eqb (activity_of e) at) || backed p es id at

-- Some entry of the directory is fit, has the name, and is as old as the policy says.
unfoldable pub removable : RetentionPolicy → ℕ → List DirEntry → String → Bool
removable p now [] id = false
removable p now (e ∷ es) id =
    (fit_entry p e && e.name == id && max_age_reached p (activity_of e) now)
    || removable p now es id

backed-removable :
    (p : RetentionPolicy) (now : ℕ) (dir : List DirEntry) (id : String) (at : ℕ)
    → backed p dir id at ≡ true
    → max_age_reached p at now ≡ true
    → removable p now dir id ≡ true
unfolding backed removable
backed-removable p now [] id at b old = ground arith
backed-removable p now (e ∷ es) id at b old = ground (arith, backed-removable p now es id at)

abbrev sound : RetentionPolicy → List DirEntry → Slot → Bool
sound p dir s = backed p dir s.candidate.run_id s.candidate.last_activity

abbrev aged : RetentionPolicy → ℕ → List DirEntry → Slot → Bool
aged p now dir s = removable p now dir s.candidate.run_id

classify-fit :
    (p : RetentionPolicy) (now : ℕ) (e : DirEntry)
    → is_eligible (classify p now e).reason ≡ true
    → (fit_entry p e ≡ true)
      × ((classify p now e).run_id ≡ e.name)
      × ((classify p now e).last_activity ≡ activity_of e)
unfolding classify considered status_reason
classify-fit p now e h = elim (Option-cases e.metadata) [
  | inl eq ↦ ground (arith, eq)
  | inr (meta, eq) ↦ ground (arith, eq)
]

backed_weaken :
    (p : RetentionPolicy) (e : DirEntry) (es : List DirEntry) (slots : List Slot)
    → all_of (sound p es) slots ≡ true
    → all_of (sound p (e ∷ es)) slots ≡ true
unfolding backed
backed_weaken p e es [] h = refl
backed_weaken p e es (s ∷ slots) h = ground (arith, h, backed_weaken p e es slots)

active_slots-sound :
    (p : RetentionPolicy) (now i : ℕ) (dir : List DirEntry)
    → all_of (sound p dir) (active_slots i (map (classify p now) dir)) ≡ true
unfolding active_slots backed
active_slots-sound p now i [] = refl
active_slots-sound p now i (e ∷ es) = elim (Bool-cases (is_eligible (classify p now e).reason)) [
  | inl eq ↦ rw eq (
      ground (
        arith,
        eq,
        classify-fit p now e eq,
        eq_refl e.name,
        backed_weaken p e es _ (active_slots-sound p now (suc i) es),
      ))
  | inr eq ↦ rw eq (backed_weaken p e es _ (active_slots-sound p now (suc i) es))
]

insert_slot-all :
    (q : Slot → Bool) (less : Slot → Slot → Bool) (x : Slot) (slots : List Slot)
    → q x ≡ true
    → all_of q slots ≡ true
    → all_of q (insert_slot less x slots) ≡ true
unfolding insert_slot
insert_slot-all q less x [] qx qs = ground arith
insert_slot-all q less x (y ∷ ys) qx qs = ground (arith, insert_slot-all q less x ys qx)

pub sort_slots-all :
    (q : Slot → Bool) (less : Slot → Slot → Bool) (slots : List Slot)
    → all_of q slots ≡ true
    → all_of q (sort_slots less slots) ≡ true
unfolding sort_slots
sort_slots-all q less [] h = refl
sort_slots-all q less (x ∷ xs) h =
    ground (arith, insert_slot-all q less x (sort_slots less xs), sort_slots-all q less xs)

mark_kept-sound :
    (p : RetentionPolicy) (dir : List DirEntry) (n : ℕ) (slots : List Slot)
    → all_of (sound p dir) slots ≡ true
    → all_of (sound p dir) (mark_kept n slots) ≡ true
unfolding mark_kept
mark_kept-sound p dir zero slots h = h
mark_kept-sound p dir (suc n) [] h = refl
mark_kept-sound p dir (suc n) (s ∷ slots) h = ground (arith, h, mark_kept-sound p dir n slots)

select_old-aged :
    (p : RetentionPolicy) (now : ℕ) (dir : List DirEntry) (slots : List Slot)
    → all_of (sound p dir) slots ≡ true
    → all_of (aged p now dir) (select_old p now slots).0 ≡ true
unfolding select_old
select_old-aged p now dir [] h = refl
select_old-aged p now dir (s ∷ slots) h = ground (
  arith,
  h,
  select_old-aged p now dir slots,
  backed-removable p now dir s.candidate.run_id s.candidate.last_activity,
)

free_budget-aged :
    (p : RetentionPolicy) (now : ℕ) (dir : List DirEntry) (limit after : ℕ) (slots : List Slot)
    → all_of (aged p now dir) slots ≡ true
    → all_of (aged p now dir) (free_budget limit after slots).0 ≡ true
unfolding free_budget
free_budget-aged p now dir limit after [] h = refl
free_budget-aged p now dir limit after (s ∷ slots) h = ground (
  arith,
  h,
  free_budget-aged p now dir limit after slots,
  free_budget-aged p now dir limit
      (after - (if s.candidate.size_known then s.candidate.size_bytes else 0)) slots,
)

mark_aged-aged :
    (p : RetentionPolicy) (now : ℕ) (dir : List DirEntry) (slots : List Slot)
    → all_of (aged p now dir) slots ≡ true
    → all_of (aged p now dir) (mark_aged slots) ≡ true
unfolding mark_aged
mark_aged-aged p now dir [] h = refl
mark_aged-aged p now dir (s ∷ slots) h = ground (arith, h, mark_aged-aged p now dir slots)

mark_deletions-aged :
    (p : RetentionPolicy) (now : ℕ) (dir : List DirEntry) (slots : List Slot)
    → all_of (aged p now dir) slots ≡ true
    → all_of (aged p now dir) (mark_deletions p slots).0 ≡ true
unfolding mark_deletions
mark_deletions-aged p now dir slots h = ground (
  arith,
  h,
  mark_aged-aged p now dir slots,
  free_budget-aged p now dir (pos_part p.max_bytes) (budget_of slots) (sort_slots older slots)
      (sort_slots-all (aged p now dir) older slots h),
)

sweep-removable :
    (p : RetentionPolicy) (cleanup : String → Bool) (now : ℕ) (dir : List DirEntry)
    (slots : List Slot)
    → all_of (aged p now dir) slots ≡ true
    → all_of (removable p now dir) (sweep p cleanup slots).cleaned ≡ true
unfolding sweep
sweep-removable p cleanup now dir [] h = refl
sweep-removable p cleanup now dir (s ∷ slots) h =
    ground (arith, h, sweep-removable p cleanup now dir slots)

-- Every run that `CleanupRun` is called on has an entry in the directory that is a directory and no
-- symbolic link, has a safe name, stays in the base, has readable metadata with a status that is
-- not active, and terminal where the policy asks it, and is as old as the normalised policy says.
pub prune_runs-removable :
    (policy : RetentionPolicy) (cleanup : String → Bool) (now : ℕ) (dir : List DirEntry)
    → all_of (removable (normalize policy) now dir) (prune_runs policy cleanup now dir).cleaned
      ≡ true
unfolding prune_runs
prune_runs-removable policy cleanup now dir =
    let p = normalize policy in
    let slots = active_slots 0 (map (classify p now) dir) in
    let kept = mark_kept (pos_part p.keep_newest) (sort_slots newer slots) in
    sweep-removable p cleanup now dir (mark_deletions p (select_old p now kept).0).0 (
      mark_deletions-aged p now dir (select_old p now kept).0 (
        select_old-aged p now dir kept (
          mark_kept-sound p dir (pos_part p.keep_newest) (sort_slots newer slots)
            (sort_slots-all (sound p dir) newer slots (active_slots-sound p now 0 dir)))))
