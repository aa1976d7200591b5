-- ===== src/Scenarios/Pruning.antt =====
-- internal/sandbox/retention.go: an old finished run, a running one, and a symbolic link.
use gh_agent_broker.Prelude.{ℕ, String, ◌≡◌, true, false, List, [], ◌∷◌, all_of, none, some, pos}
use gh_agent_broker.Retention.Plan.{RetentionPolicy, normalize, DirEntry}
use gh_agent_broker.Retention.Prune.{prune_runs}
use gh_agent_broker.Retention.Safety.{removable, prune_runs-removable}

abbrev policy : RetentionPolicy
policy = record {
  max_age = pos 100;
  keep_newest = pos 1;
  terminal_only = true;
  max_bytes = pos 10;
  dry_run = false;
  max_output = pos 2;
}

abbrev entry : String → String → ℕ → DirEntry
entry name status ended = record {
  name = name;
  is_symlink = false;
  is_dir = true;
  safe_id = true;
  escapes = false;
  metadata = some (record { status = status; started_at = 1; ended_at = ended });
  size = 8;
  size_known = true;
  modified = none;
}

abbrev dir : List DirEntry
dir =
    entry "old" "completed" 50
    ∷ entry "older" "failed" 40
    ∷ entry "new" "completed" 60
    ∷ entry "busy" "running" 0
    ∷ record (entry "link" "completed" 50) { is_symlink = true }
    ∷ []

prune_runs-removable_example :
    all_of (removable (normalize policy) 1000 dir) (prune_runs policy (λ id. true) 1000 dir).cleaned
    ≡ true
prune_runs-removable_example = prune_runs-removable policy (λ id. true) 1000 dir
