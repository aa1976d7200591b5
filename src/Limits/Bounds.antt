-- ===== src/Limits/Bounds.antt =====
-- No run is allowed more new objects than its budgets.
use gh_agent_broker.Prelude.{
  ℕ, ◌+◌, ◌<◌, ◌≤◌, ◌^◌, String, ◌==◌, ◌≡◌, ◌≢◌, refl, arith, eq_iff, ◌&&◌, List, [], ◌∷◌, Assoc,
  lookup, insert, get_text, ap, ◌∙◌, lookup-insert, ℤ, pos, add64, add64_pos, Result, ok, err, Tx,
  if◌then◌else◌,
}
use gh_agent_broker.Limits.Reserve.{
  LimitsConfig, Decision, RunState, Runs, Error, get_int, get_run, operation_class, run_field,
  count_object, reserve_object, check_and_reserve,
}

-- One call of `CheckAndReserve`.
pub record Call : Type 0 where
  pub tx : Tx
  pub operation : String
  pub metadata : Assoc String

-- The objects that a decision allows in the run, in all and of one class.
abbrev counted : String → String → Result Error Decision → ℕ × ℕ
counted run class (err e) = (0, 0)
counted run class (ok d) =
    if d.allowed && d.run_id == run then (1, if d.class == class then 1 else 0) else (0, 0)

module _ (quote : String → String) (cfg : LimitsConfig) where
  unfoldable pub run_calls : Runs → List Call → Runs
  run_calls runs [] = runs
  run_calls runs (c ∷ calls) =
      run_calls (check_and_reserve quote cfg runs c.tx c.operation c.metadata).1 calls

  unfoldable pub allowed_in : Runs → String → String → List Call → ℕ × ℕ
  allowed_in runs run class [] = (0, 0)
  allowed_in runs run class (c ∷ calls) =
      let now =
        counted run class (check_and_reserve quote cfg runs c.tx c.operation c.metadata).0 in
      let later =
        allowed_in (check_and_reserve quote cfg runs c.tx c.operation c.metadata).1 run class
          calls in
      (now.0 + later.0, now.1 + later.1)

get_run-insert :
    (run k : String) (rs : RunState) (runs : Runs)
    → get_run k (insert run rs runs) ≡ (if run == k then rs else get_run k runs)
unfolding get_run
get_run-insert run k rs runs = ground (arith, lookup-insert run k rs runs)

get_int-insert :
    (c k : String) (v : ℤ) (m : Assoc ℤ)
    → get_int k (insert c v m) ≡ (if c == k then v else get_int k m)
unfolding get_int
get_int-insert c k v m = ground (arith, lookup-insert c k v m)

-- The counter `v` holds `n` and has not reached the limit `m`.
add64_count : (v : ℤ) (n m : ℕ) → v ≡ pos n → n < m → m < 2 ^ 63 → add64 v (pos 1) ≡ pos (n + 1)
add64_count v n m e h k = rw e (add64_pos n 1 (omega arith))

total-count_object :
    (rs : RunState) (class : String) → (count_object rs class).total ≡ add64 rs.total (pos 1)
unfolding count_object
total-count_object rs class = refl

classes-count_object :
    (rs : RunState) (class c : String)
    → get_int c (count_object rs class).classes
      ≡ (if class == c then add64 (get_int class rs.classes) (pos 1) else get_int c rs.classes)
unfolding count_object
classes-count_object rs class c = get_int-insert class c _ rs.classes

reserve_total :
    (cfg : LimitsConfig) (runs : Runs) (tx : Tx) (at class run c : String) (n m : ℕ)
    → cfg.max_new_objects_per_run ≡ pos m
    → 0 < m
    → m < 2 ^ 63
    → (get_run run runs).total ≡ pos n
    → n ≤ m
    → ((get_run run (reserve_object cfg runs tx at class).1).total
        ≡ pos (n + (counted run c (reserve_object cfg runs tx at class).0).0))
      × (n + (counted run c (reserve_object cfg runs tx at class).0).0 ≤ m)
unfolding reserve_object
reserve_total cfg runs tx at class run c n m em pm lm en le = ground (
  arith,
  get_run-insert at run (count_object (get_run at runs) class) runs,
  eq_iff at run,
  total-count_object (get_run run runs) class,
  add64_count (get_run run runs).total n m en,
)

reserve_class :
    (cfg : LimitsConfig) (runs : Runs) (tx : Tx) (at class run c : String) (n m : ℕ)
    → get_int c cfg.class_limits ≡ pos m
    → 0 < m
    → m < 2 ^ 63
    → get_int c (get_run run runs).classes ≡ pos n
    → n ≤ m
    → (get_int c (get_run run (reserve_object cfg runs tx at class).1).classes
        ≡ pos (n + (counted run c (reserve_object cfg runs tx at class).0).1))
      × (n + (counted run c (reserve_object cfg runs tx at class).0).1 ≤ m)
unfolding reserve_object
reserve_class cfg runs tx at class run c n m em pm lm en le = ground (
  arith,
  get_run-insert at run (count_object (get_run at runs) class) runs,
  eq_iff at run,
  eq_iff class c,
  classes-count_object (get_run at runs) class c,
  add64_count (get_int c (get_run run runs).classes) n m en,
)

module _ (quote : String → String) (cfg : LimitsConfig) (run class : String) (m : ℕ)
    (stated : cfg.state_path ≢ "") (pm : 0 < m) (lm : m < 2 ^ 63) where
  module _ (em : cfg.max_new_objects_per_run ≡ pos m) where
    check_total :
        (runs : Runs) (c : Call) (n : ℕ)
        → (get_run run runs).total ≡ pos n
        → n ≤ m
        → ((get_run run (check_and_reserve quote cfg runs c.tx c.operation c.metadata).1).total
            ≡ pos (
                n
                + (counted run class
                    (check_and_reserve quote cfg runs c.tx c.operation c.metadata).0).0))
          × (n
                + (counted run class
                    (check_and_reserve quote cfg runs c.tx c.operation c.metadata).0).0
              ≤ m)
    unfolding check_and_reserve
    check_total runs c n en le = ground (
      arith,
      eq_iff cfg.state_path "",
      reserve_total cfg runs c.tx (get_text (run_field cfg) c.metadata)
          (operation_class cfg c.operation c.metadata) run class n m em pm lm en le,
    )

    run_total :
        (runs : Runs) (calls : List Call) (n : ℕ)
        → (get_run run runs).total ≡ pos n
        → n ≤ m
        → ((get_run run (run_calls quote cfg runs calls)).total
            ≡ pos (n + (allowed_in quote cfg runs run class calls).0))
          × (n + (allowed_in quote cfg runs run class calls).0 ≤ m)
    unfolding run_calls allowed_in
    run_total runs [] n en le = ground arith
    run_total runs (c ∷ calls) n en le =
        let (e, l) = check_total runs c n en le in
        let (e', l') =
          run_total (check_and_reserve quote cfg runs c.tx c.operation c.metadata).1 calls _ e l in
        (e' ∙ ap pos (omega arith), omega arith)

  module _ (em : get_int class cfg.class_limits ≡ pos m) where
    check_class :
        (runs : Runs) (c : Call) (n : ℕ)
        → get_int class (get_run run runs).classes ≡ pos n
        → n ≤ m
        → (get_int class
              (get_run run (check_and_reserve quote cfg runs c.tx c.operation c.metadata).1).classes
            ≡ pos (
                n
                + (counted run class
                    (check_and_reserve quote cfg runs c.tx c.operation c.metadata).0).1))
          × (n
                + (counted run class
                    (check_and_reserve quote cfg runs c.tx c.operation c.metadata).0).1
              ≤ m)
    unfolding check_and_reserve get_int lookup
    check_class runs c n en le = ground (
      arith,
      eq_iff cfg.state_path "",
      reserve_class cfg runs c.tx (get_text (run_field cfg) c.metadata)
          (operation_class cfg c.operation c.metadata) run class n m em pm lm en le,
    )

    run_class :
        (runs : Runs) (calls : List Call) (n : ℕ)
        → get_int class (get_run run runs).classes ≡ pos n
        → n ≤ m
        → (get_int class (get_run run (run_calls quote cfg runs calls)).classes
            ≡ pos (n + (allowed_in quote cfg runs run class calls).1))
          × (n + (allowed_in quote cfg runs run class calls).1 ≤ m)
    unfolding run_calls allowed_in
    run_class runs [] n en le = ground arith
    run_class runs (c ∷ calls) n en le =
        let (e, l) = check_class runs c n en le in
        let (e', l') =
          run_class (check_and_reserve quote cfg runs c.tx c.operation c.metadata).1 calls _ e l in
        (e' ∙ ap pos (omega arith), omega arith)

-- With a state file and a positive budget for a run, from a file in which the run has `n` objects
-- counted and is within the budget: whatever the calls, and whatever reads and writes fail, the
-- counter of the run at the end is `n` and the objects that the calls allowed it, and that sum is
-- within the budget.
pub mutation_budget :
    (quote : String → String) (cfg : LimitsConfig) (run class : String) (m n : ℕ) (runs : Runs)
    (calls : List Call)
    → cfg.state_path ≢ ""
    → cfg.max_new_objects_per_run ≡ pos m
    → 0 < m
    → m < 2 ^ 63
    → (get_run run runs).total ≡ pos n
    → n ≤ m
    → ((get_run run (run_calls quote cfg runs calls)).total
        ≡ pos (n + (allowed_in quote cfg runs run class calls).0))
      × (n + (allowed_in quote cfg runs run class calls).0 ≤ m)
mutation_budget quote cfg run class m n runs calls stated em pm lm en le =
    run_total quote cfg run class m stated pm lm em runs calls n en le

-- With a state file and a positive limit for a class of objects, and with or without a budget in all,
-- from a file in which the run has `n` objects of the class counted and is within the limit: whatever
-- the calls, and whatever reads and writes fail, the counter of the class in the run at the end is `n`
-- and the objects of the class that the calls allowed the run, and that sum is within the limit.
pub class_budget :
    (quote : String → String) (cfg : LimitsConfig) (run class : String) (m n : ℕ) (runs : Runs)
    (calls : List Call)
    → cfg.state_path ≢ ""
    → get_int class cfg.class_limits ≡ pos m
    → 0 < m
    → m < 2 ^ 63
    → get_int class (get_run run runs).classes ≡ pos n
    → n ≤ m
    → (get_int class (get_run run (run_calls quote cfg runs calls)).classes
        ≡ pos (n + (allowed_in quote cfg runs run class calls).1))
      × (n + (allowed_in quote cfg runs run class calls).1 ≤ m)
class_budget quote cfg run class m n runs calls stated em pm lm en le =
    run_class quote cfg run class m stated pm lm em runs calls n en le
