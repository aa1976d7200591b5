-- ===== src/Retention/Accounts.antt =====
-- internal/sandbox/retention.go: the counters of `PruneRuns`, its dry run and what it removes.
use gh_agent_broker.Prelude.{ℕ, ◌+◌, ◌∷◌, String, Bool, List, [], if◌then◌else◌}
use gh_agent_broker.Retention.Plan.{RetentionPolicy, normalize, DirEntry}
unfoldable use gh_agent_broker.Retention.Plan.{normalize}
use gh_agent_broker.Retention.Prune.{Slot, budget_of, mark_deletions, sweep, prune_runs, chosen}
unfoldable use gh_agent_broker.Retention.Prune.{
  budget_of, mark_deletions, sweep, prune_runs, chosen,
}

-- The runs that are marked for deletion, in order.
unfoldable pub marked_runs : List Slot → List String
marked_runs [] = []
marked_runs (s ∷ slots) =
    let rest = marked_runs slots in if s.candidate.delete then s.candidate.run_id ∷ rest else rest

-- How many of the removals succeed.
unfoldable pub successes : (String → Bool) → List String → ℕ
successes cleanup [] = 0
successes cleanup (id ∷ ids) = (if cleanup id then 1 else 0) + successes cleanup ids

-- The selected runs, with the marks that the byte budget and the age put on them.
abbrev pub planned : RetentionPolicy → ℕ → List DirEntry → List Slot
planned policy now dir = (mark_deletions (normalize policy) (chosen (normalize policy) now dir).0).0
