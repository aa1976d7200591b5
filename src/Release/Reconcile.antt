-- ===== src/Release/Reconcile.antt =====
-- internal/release/release.go: `Reconcile`. `check` is what the availability check says of an image,
-- which stays the same during the call; `marking` gives the statements that succeed in the
-- transaction for a generation.
use Prim.Native.String.{compare}
use Prim.Native.Nat.{Ordering}
use gh_agent_broker.Prelude.{
  ℕ, String, ◌==◌, Bool, true, false, not, ◌||◌, List, [], ◌∷◌, ◌++◌, Option, none, some, eqb,
  Result, ok, err, require, Tx, ◌>>◌, if◌then◌else◌,
}
use gh_agent_broker.Release.Registry.{
  Error, missing_actor, check_failed, storage, Release, Registry, is_active, scan,
}
use gh_agent_broker.Release.Operations.{mark_available}

pub record Missing : Type 0 where
  pub agent_type : String
  pub generation : ℕ
  pub image_reference : String
  pub image_digest : String

abbrev pub missing_of : Release → Missing
missing_of r = record {
  agent_type = r.agent_type;
  generation = r.generation;
  image_reference = r.image_reference;
  image_digest = r.image_digest;
}

-- ORDER BY agent_type
unfoldable pub insert_by_type : Release → List Release → List Release
insert_by_type r [] = r ∷ []
insert_by_type r (x ∷ rs) = elim (compare x.agent_type r.agent_type) [
  | Ordering.gt ↦ r ∷ x ∷ rs
  | _ ↦ x ∷ insert_by_type r rs
]

unfoldable pub active_rows : List Release → List Release
active_rows [] = []
active_rows (r ∷ rs) =
    let later = active_rows rs in if is_active r.state then insert_by_type (scan r) later else later

unfoldable pub active_releases : Registry → Tx → Result Error (List Release)
unfolding active_rows
active_releases reg tx = do require tx.queries storage; ok (active_rows reg.releases)

abbrev pub same : Bool → Bool → Bool
same true b = b
same false b = not b

abbrev pub Reconciled : Type 0
Reconciled = Result {0, 0} Error (List Missing) × Registry

module _ (check : String → String → Option Bool) where
  abbrev pub checked : Release → Option Bool
  checked r = check r.image_reference r.image_digest

  -- One round of the first loop: what is missing, and the registry; the marks stay where a later
  -- round fails.
  unfoldable pub reconcile_one : Registry → (ℕ → Tx) → ℕ → String → Release → Reconciled
  reconcile_one reg marking now actor r = elim (checked r) [
    | none ↦ (err check_failed, reg)
    | some available ↦
        if same available r.available
        then (ok [], reg)
        else (let out =
              mark_available reg (marking r.generation) now r.generation available actor in
            elim (out.0) [
              | err e ↦ (err e, out.1)
              | ok done ↦ (ok (if available then [] else missing_of r ∷ []), out.1)
            ])
  ]

  unfoldable pub reconcile_each :
      Registry → (ℕ → Tx) → ℕ → String → List Release → List Missing → Reconciled
  unfolding reconcile_one
  reconcile_each reg marking now actor [] missing = (ok missing, reg)
  reconcile_each reg marking now actor (r ∷ rs) missing =
      let out = reconcile_one reg marking now actor r in
      elim (out.0) [
        | err e ↦ (err e, out.1)
        | ok more ↦ reconcile_each out.1 marking now actor rs (missing ++ more)
      ]

unfoldable pub is_reported : ℕ → List Missing → Bool
is_reported g [] = false
is_reported g (m ∷ missing) = eqb m.generation g || is_reported g missing

-- The second loop: the active releases that were unavailable before and still are.
unfoldable pub report_each :
    (String → String → Option Bool) → List Release → List Missing → Result Error (List Missing)
unfolding is_reported
report_each check [] missing = ok missing
report_each check (r ∷ rs) missing =
    if r.available || is_reported r.generation missing
    then report_each check rs missing
    else elim (check r.image_reference r.image_digest) [
      | none ↦ err check_failed
      | some available ↦
          report_each check rs (if available then missing else missing ++ missing_of r ∷ [])
    ]

abbrev pub then_report : (String → String → Option Bool) → List Release → Reconciled → Reconciled
then_report check items (err e, reg) = (err e, reg)
then_report check items (ok missing, reg) = (report_each check items missing, reg)

abbrev pub with_items :
    (String → String → Option Bool)
    → Registry
    → (ℕ → Tx)
    → ℕ
    → String
    → Result Error (List Release)
    → Reconciled
with_items check reg marking now actor (err e) = (err e, reg)
with_items check reg marking now actor (ok items) =
    then_report check items (reconcile_each check reg marking now actor items [])

unfoldable pub reconcile :
    (String → String → Option Bool) → Registry → Tx → (ℕ → Tx) → ℕ → String → Reconciled
unfolding reconcile_each report_each
reconcile check reg tx marking now actor =
    if actor == ""
    then (err missing_actor, reg)
    else with_items check reg marking now actor (active_releases reg tx)
