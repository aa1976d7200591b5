-- ===== src/Correlation/Replay.antt =====
-- internal/correlation/correlation.go: `Record` of an operation that is recorded already.
use gh_agent_broker.Prelude.{
  String, ◌≡◌, ◌≢◌, inl, inr, arith, eq_iff, eq_refl, true, List, [], ◌∷◌, ◌++◌, none, some, ℤ, pos,
  ◌≤ℤ◌, ok, Tx, healthy, Result-cases, Option-cases,
}
use gh_agent_broker.Correlation.Clock.{Time}
use gh_agent_broker.Correlation.Outbox.{
  Codec, Identity, is_valid, Correlation, Database, by_operation, build_payload, insert_pair,
  record_new, record_at, record_checked, record_correlation,
}

by_operation-append :
    (op : String) (cs : List Correlation) (c : Correlation)
    → by_operation op cs ≡ none
    → c.identity.operation_id ≡ op
    → by_operation op (cs ++ c ∷ []) ≡ some c
unfolding by_operation
by_operation-append op [] c h e = ground (arith, eq_refl op, e)
by_operation-append op (x ∷ cs) c h e = ground (arith, by_operation-append op cs c)

module _ {B : Type 0} (codec : Codec B) (id : Identity) (c : Correlation) where
  record_new_found :
      (db db' : Database B) (tx : Tx) (now : Time) (repo : String) (pr : ℤ)
      → by_operation id.operation_id db.correlations ≡ none
      → record_new codec db tx now id repo pr ≡ ok (c, db')
      → by_operation id.operation_id db'.correlations ≡ some c
  unfolding record_new insert_pair
  record_new_found db db' tx now repo pr h e =
      elim (Result-cases (build_payload codec id repo pr now)) [
        | inr (x, bad) ↦ absurd (ground arith)
        | inl (payload, built) ↦
            ground (arith, by_operation-append id.operation_id db.correlations c)
      ]

  record_checked_found :
      (db db' : Database B) (tx : Tx) (now : Time) (repo : String) (pr : ℤ)
      → record_checked codec db tx now id repo pr ≡ ok (c, db')
      → (is_valid id ≡ true) × (by_operation id.operation_id db'.correlations ≡ some c)
  unfolding record_checked record_at
  record_checked_found db db' tx now repo pr e =
      elim (Option-cases (by_operation id.operation_id db.correlations)) [
        | inl fresh ↦ ground (arith, record_new_found db db' tx now repo pr fresh)
        | inr (old, found) ↦ ground arith
      ]

  recorded :
      (db : Database B) (tx : Tx) (now : Time) (repo : String) (pr : ℤ)
      → (record_correlation codec db tx now id repo pr).0 ≡ ok c
      → (is_valid id ≡ true)
        × (by_operation id.operation_id
              (record_correlation codec db tx now id repo pr).1.correlations
            ≡ some c)
  unfolding record_correlation
  recorded db tx now repo pr done =
      elim (Result-cases (record_checked codec db tx now id repo pr)) [
        | inr (x, e) ↦ absurd (ground arith)
        | inl ((c', db'), e) ↦ rw e (record_checked_found db db' tx now repo pr (ground arith))
      ]

  replayed :
      (db : Database B) (now : Time) (repo : String) (pr : ℤ)
      → is_valid id ≡ true
      → by_operation id.operation_id db.correlations ≡ some c
      → repo ≢ ""
      → pos 1 ≤ℤ pr
      → record_correlation codec db healthy now id repo pr ≡ (ok c, db)
  unfolding record_correlation record_checked record_at
  replayed db now repo pr v found named positive = ground (arith, eq_iff repo "")

-- After `Record` returned a correlation, a later `Record` of the same capability and operation, where
-- nothing fails and a repository and a positive number are given, returns that correlation and
-- changes no row, whichever repository and number are given.
pub record_correlation-record_correlation :
    {B : Type 0} (codec : Codec B) (db : Database B) (tx : Tx) (now later : Time) (id : Identity)
    (c : Correlation) (repo repo' : String) (pr pr' : ℤ)
    → (record_correlation codec db tx now id repo pr).0 ≡ ok c
    → repo' ≢ ""
    → pos 1 ≤ℤ pr'
    → record_correlation codec
        (record_correlation codec db tx now id repo pr).1
        healthy
        later
        id
        repo'
        pr'
      ≡ (ok c, (record_correlation codec db tx now id repo pr).1)
record_correlation-record_correlation codec db tx now later id c repo repo' pr pr' done named
      positive =
    let (v, found) = recorded codec id c db tx now repo pr done in
    replayed codec id c (record_correlation codec db tx now id repo pr).1 later repo' pr' v found
      named positive
