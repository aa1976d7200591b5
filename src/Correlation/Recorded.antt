-- ===== src/Correlation/Recorded.antt =====
-- What `Record` does to the tables, by its outcome.
use gh_agent_broker.Prelude.{
  String, ◌==◌, ◌≡◌, ◌⊎◌, inl, inr, arith, true, false, none, some, ℤ, pos, leb_ℤ, ok, Tx,
  Result-cases, Option-cases,
}
use gh_agent_broker.Correlation.Clock.{Time}
use gh_agent_broker.Correlation.Outbox.{
  Codec, Identity, is_valid, Correlation, Database, by_operation, by_pr, build_payload, insert_pair,
  record_new, record_at, record_checked, record_correlation,
}

-- The call inserted a pair of rows.
pub record IsInserted {B : Type 0} (codec : Codec B) (db : Database B) (now : Time) (id : Identity)
    (repo : String) (pr : ℤ) (payload : B) : Type 0 where
  pub valid : is_valid id ≡ true
  pub repo_given : (repo == "") ≡ false
  pub pr_positive : leb_ℤ pr (pos 0) ≡ false
  pub fresh_operation : by_operation id.operation_id db.correlations ≡ none
  pub fresh_pr : by_pr repo pr db.correlations ≡ none
  pub payload_built : build_payload codec id repo pr now ≡ ok payload

module _ {B : Type 0} (codec : Codec B) (db : Database B) (tx : Tx) (now : Time) (id : Identity)
    (repo : String) (pr : ℤ) where
  -- The call found the operation, or inserted a pair of rows.
  Recorded : Correlation → Database B → Type 0
  Recorded c db' =
      ((by_operation id.operation_id db.correlations ≡ some c) × (db' ≡ db))
      ⊎ ((payload : B) × IsInserted codec db now id repo pr payload
          × (db' ≡ insert_pair codec db now id repo pr payload))

  record_new_sound :
      (c : Correlation) (db' : Database B)
      → by_operation id.operation_id db.correlations ≡ none
      → is_valid id ≡ true
      → (repo == "") ≡ false
      → leb_ℤ pr (pos 0) ≡ false
      → record_new codec db tx now id repo pr ≡ ok (c, db')
      → (payload : B) × IsInserted codec db now id repo pr payload
        × (db' ≡ insert_pair codec db now id repo pr payload)
  unfolding record_new
  record_new_sound c db' none_there v r p h =
      elim (Result-cases (build_payload codec id repo pr now)) [
        | inr (x, e) ↦ absurd (ground arith)
        | inl (payload, e) ↦ (
          payload,
          record {
            valid = v;
            repo_given = r;
            pr_positive = p;
            fresh_operation = none_there;
            fresh_pr = ground arith;
            payload_built = e;
          },
          ground arith,
        )
      ]

  record_checked_sound :
      (c : Correlation) (db' : Database B)
      → record_checked codec db tx now id repo pr ≡ ok (c, db')
      → Recorded c db'
  unfolding record_checked record_at Recorded
  record_checked_sound c db' h =
      elim (Option-cases (by_operation id.operation_id db.correlations)) [
        | inr (c0, e) ↦ inl (ground arith, ground arith)
        | inl e ↦
            inr
              (record_new_sound c db' e (ground arith) (ground arith) (ground arith) (ground arith))
      ]

  -- `Record` leaves the tables alone, or inserts a correlation and its event together.
  pub record_cases :
      ((record_correlation codec db tx now id repo pr).1 ≡ db)
      ⊎ ((payload : B) × IsInserted codec db now id repo pr payload
          × ((record_correlation codec db tx now id repo pr).1
              ≡ insert_pair codec db now id repo pr payload))
  unfolding record_correlation Recorded
  record_cases = elim (Result-cases (record_checked codec db tx now id repo pr)) [
    | inr (x, e) ↦ inl (rw e)
    | inl (out, e) ↦ elim (record_checked_sound out.0 out.1 e) [
      | inl (found, same) ↦ inl (rw e same)
      | inr (payload, inserted, f) ↦ inr (payload, inserted, rw e f)
    ]
  ]
