-- ===== src/Retention/Plan.antt =====
-- internal/sandbox/retention.go: the policy, and what is decided of each entry of the directory of
-- runs. Times are in nanoseconds since Go's zero time, durations are int64, and sizes are numbers.
use gh_agent_broker.Prelude.{
  ℕ, ◌+◌, ◌-◌, ◌*◌, ◌/◌, ◌^◌, ltb, String, ◌==◌, Bool, true, false, not, ◌&&◌, ◌||◌, Option, none,
  some, ℤ, pos, negsuc, leb_ℤ, ltb_ℤ, eqb_ℤ, leb, eqb, if◌then◌else◌,
}

pub data Reason : Type 0 where
  not_directory invalid_run_id path_escape metadata_read not_terminal active keep_newest : Reason
  too_new eligible delete_age delete_budget within_budget would_delete delete_failed : Reason
  deleted retained : Reason

pub record RetentionPolicy : Type 0 where
  pub max_age : ℤ
  pub keep_newest : ℤ
  pub terminal_only : Bool
  pub max_bytes : ℤ
  pub dry_run : Bool
  pub max_output : ℤ

abbrev pub hour : ℕ
hour = 3600 * 1000000000

unfoldable pub normalize : RetentionPolicy → RetentionPolicy
normalize p = record {
  max_age = if eqb_ℤ p.max_age (pos 0) then pos (24 * hour) else p.max_age;
  keep_newest = if ltb_ℤ p.keep_newest (pos 0) then pos 0 else p.keep_newest;
  terminal_only = p.terminal_only;
  max_bytes = if ltb_ℤ p.max_bytes (pos 0) then pos 0 else p.max_bytes;
  dry_run = p.dry_run;
  max_output = if leb_ℤ p.max_output (pos 0) then pos 200 else p.max_output;
}

-- now.Sub(at) >= p.MaxAge
abbrev age_at_least : ℤ → ℕ → ℕ → Bool
age_at_least (pos m) at now = leb (at + m) now
age_at_least (negsuc m) at now = true

unfoldable pub max_age_reached : RetentionPolicy → ℕ → ℕ → Bool
max_age_reached p at now =
    if ltb_ℤ p.max_age (pos 0)
    then true
    else if eqb_ℤ p.max_age (pos 0)
    then false
    else if eqb at 0
    then false
    else age_at_least p.max_age at now

unfoldable pub has_active_status : String → Bool
has_active_status status =
    status == "pending" || status == "running" || status == "waiting_external"

unfoldable pub is_terminal_status : String → Bool
is_terminal_status status =
    status == "completed"
    || status == "stopped"
    || status == "failed"
    || status == "timed_out"
    || status == "cancelled"
    || status == "cleaned"

pub record RunMetadata : Type 0 where
  pub status : String
  pub started_at : ℕ
  pub ended_at : ℕ

-- An entry of the directory, with what the file system says of it: `metadata` is `none` where the
-- metadata cannot be read, `modified` where the directory cannot be read, and where the walk over
-- the directory fails `size_known` is false and `size` the bytes counted until then. `safe_id` and `escapes` are `safeRunID` and `escapesBase`.
pub record DirEntry : Type 0 where
  pub name : String
  pub is_symlink : Bool
  pub is_dir : Bool
  pub safe_id : Bool
  pub escapes : Bool
  pub metadata : Option RunMetadata
  pub size : ℕ
  pub size_known : Bool
  pub modified : Option ℕ

unfoldable pub run_last_activity : RunMetadata → Option ℕ → ℕ
run_last_activity meta modified =
    if not (eqb meta.ended_at 0)
    then meta.ended_at
    else if not (eqb meta.started_at 0)
    then meta.started_at
    else elim modified [ none ↦ 0 | some t ↦ t ]

pub record Candidate : Type 0 where
  pub run_id : String
  pub status : String
  pub last_activity : ℕ
  pub age_seconds : ℕ
  pub size_bytes : ℕ
  pub size_known : Bool
  pub keep : Bool
  pub delete : Bool
  pub reason : Reason

abbrev pub skipped : String → Reason → Candidate
skipped name reason = record {
  run_id = name;
  status = "";
  last_activity = 0;
  age_seconds = 0;
  size_bytes = 0;
  size_known = false;
  keep = false;
  delete = false;
  reason = reason;
}

unfoldable pub status_reason : RetentionPolicy → String → Reason
status_reason p status =
    if not (is_terminal_status status) && p.terminal_only
    then not_terminal
    else if has_active_status status
    then active
    else eligible

-- now.Sub(at), which stops at the largest Duration; a negative age is counted as 0 afterwards.
abbrev age : ℕ → ℕ → ℕ
age now at = if ltb (2 ^ 63 - 1) (now - at) then 2 ^ 63 - 1 else now - at

unfoldable pub considered : RetentionPolicy → ℕ → DirEntry → RunMetadata → Candidate
considered p now entry meta =
    let at = run_last_activity meta entry.modified in
    record {
      run_id = entry.name;
      status = meta.status;
      last_activity = at;
      age_seconds = age now at / 1000000000;
      size_bytes = entry.size;
      size_known = entry.size_known;
      keep = false;
      delete = false;
      reason = status_reason p meta.status;
    }

-- One round of the loop over the directory.
unfoldable pub classify : RetentionPolicy → ℕ → DirEntry → Candidate
classify p now entry =
    if entry.is_symlink || not entry.is_dir
    then skipped entry.name not_directory
    else if not entry.safe_id
    then skipped entry.name invalid_run_id
    else if entry.escapes
    then skipped entry.name path_escape
    else elim entry.metadata [
      | none ↦ skipped entry.name metadata_read
      | some meta ↦ considered p now entry meta
    ]
