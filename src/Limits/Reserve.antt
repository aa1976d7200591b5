-- ===== src/Limits/Reserve.antt =====
-- internal/limits/limits.go. The state file is the value that it decodes to; a call holds the
-- package's mutex from its read to its write. A `Tx` says whether the read (`queries`) and the
-- write (`writes`) succeed; a failed write leaves the file as it was, since it is renamed last.
use Prim.Native.String.{◌++◌ as append}
use gh_agent_broker.Prelude.{
  String, ◌==◌, Bool, true, false, not, ◌&&◌, ◌||◌, [], ◌∷◌, none, some, Assoc, lookup, insert,
  get_text, ℤ, pos, ltb_ℤ, leb_ℤ, eqb_ℤ, add64, Result, ok, err, Tx, if◌then◌else◌,
}

pub record LimitsConfig : Type 0 where
  pub state_path : String
  pub run_metadata_field : String
  pub action_metadata_field : String
  pub max_new_objects_per_run : ℤ
  pub class_limits : Assoc ℤ
  pub operation_classes : Assoc String

pub record Decision : Type 0 where
  pub allowed : Bool
  pub reason : String
  pub run_id : String
  pub class : String

pub record RunState : Type 0 where
  pub total : ℤ
  pub classes : Assoc ℤ

abbrev pub Runs : Type 0
Runs = Assoc RunState

pub data Error : Type 0 where
  read_failed write_failed : Error

-- m[k] at type int
unfoldable pub get_int : String → Assoc ℤ → ℤ
get_int k m = elim (lookup k m) [ none ↦ pos 0 | some v ↦ v ]

-- st.Runs[runID], the zero value for a run that is not there
unfoldable pub get_run : String → Runs → RunState
get_run k m = elim (lookup k m) [ none ↦ record { total = pos 0; classes = [] } | some v ↦ v ]

unfoldable pub operation_class : LimitsConfig → String → Assoc String → String
operation_class cfg operation metadata =
    let configured = get_text operation cfg.operation_classes in
    let by_operation = if not (configured == "") then configured else operation in
    let action = get_text cfg.action_metadata_field metadata in
    if not (cfg.action_metadata_field == "") && not (action == "") then action else by_operation

abbrev no_limits : Assoc ℤ → Bool
no_limits [] = true
no_limits (x ∷ xs) = false

unfoldable pub is_inert : LimitsConfig → Bool
is_inert cfg =
    cfg.state_path == "" || eqb_ℤ cfg.max_new_objects_per_run (pos 0) && no_limits cfg.class_limits

unfoldable pub run_field : LimitsConfig → String
run_field cfg = if cfg.run_metadata_field == "" then "Run-Id" else cfg.run_metadata_field

unfoldable pub total_exhausted : LimitsConfig → RunState → Bool
total_exhausted cfg rs =
    ltb_ℤ (pos 0) cfg.max_new_objects_per_run && leb_ℤ cfg.max_new_objects_per_run rs.total

unfoldable pub class_exhausted : LimitsConfig → RunState → String → Bool
class_exhausted cfg rs class =
    ltb_ℤ (pos 0) (get_int class cfg.class_limits)
    && leb_ℤ (get_int class cfg.class_limits) (get_int class rs.classes)

unfoldable pub count_object : RunState → String → RunState
count_object rs class = record {
  total = add64 rs.total (pos 1);
  classes = insert class (add64 (get_int class rs.classes) (pos 1)) rs.classes;
}

-- From `readState` on.
unfoldable pub reserve_object :
    LimitsConfig → Runs → Tx → String → String → Result Error Decision × Runs
unfolding total_exhausted class_exhausted
reserve_object cfg runs tx run class =
    let rs = get_run run runs in
    if not tx.queries
    then (err read_failed, runs)
    else if total_exhausted cfg rs
    then (
      ok (record {
        allowed = false;
        reason = "per-run new GitHub object budget exhausted";
        run_id = run;
        class = class;
      }),
      runs,
    )
    else if class_exhausted cfg rs class
    then (
      ok (record {
        allowed = false;
        reason = append "per-run " (append class " GitHub object budget exhausted");
        run_id = run;
        class = class;
      }),
      runs,
    )
    else if not tx.writes
    then (err write_failed, runs)
    else (
      ok (record { allowed = true; reason = ""; run_id = run; class = class }),
      insert run (count_object rs class) runs,
    )

-- `quote` is the verb %q.
unfoldable pub check_and_reserve :
    (String → String)
    → LimitsConfig
    → Runs
    → Tx
    → String
    → Assoc String
    → Result Error Decision × Runs
unfolding is_inert
check_and_reserve quote cfg runs tx operation metadata =
    let run = get_text (run_field cfg) metadata in
    if is_inert cfg
    then (ok (record { allowed = true; reason = ""; run_id = ""; class = "" }), runs)
    else if run == ""
    then (
      ok (record {
        allowed = false;
        reason = append "mutation budget requires metadata field " (quote (run_field cfg));
        run_id = "";
        class = "";
      }),
      runs,
    )
    else reserve_object cfg runs tx run (operation_class cfg operation metadata)
