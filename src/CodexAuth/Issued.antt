-- ===== src/CodexAuth/Issued.antt =====
-- internal/codexauth/holder.go: what the issuance record of a run promises over any sequence of
-- operations.
use gh_agent_broker.Prelude.{
  String, ◌==◌, ◌≡◌, ◌⊎◌, inl, inr, refl, sym, ap, ◌∙◌, arith, eq_iff, eq_refl, Bool, true, false,
  ◌&&◌, List, [], ◌∷◌, Option, none, some, lookup, insert, lookup-insert, ok, Bool-cases,
  Result-cases,
}
use gh_agent_broker.CodexAuth.Holder.{
  refresh_checked, refresh, is_zero, check_record, issue_record, issue_checked, issue, cleanup,
}
use gh_agent_broker.CodexAuth.Files.{
  AuthFile, IssuanceRecord, Files, Libraries, WriteEnd, not_written, written_then_failed, written,
  Disk, TokenAnswer, safe_run_id, read_record, write_atomic,
}

pub data Call : Type 0 where
  refreshing : Disk → Option TokenAnswer → Call
  issuing : Disk → String → String → Call
  cleaning : Disk → String → Bool → Call

unfoldable pub step : Libraries → Files → Call → Files
step l files (refreshing d answer) = (refresh l d files answer).1
step l files (issuing d run_id key) = (issue l d files run_id key).1
step l files (cleaning d run_id consumed) = (cleanup l d files run_id consumed).1

unfoldable pub run : Libraries → Files → List Call → Files
run l files [] = files
run l files (c ∷ calls) = run l (step l files c) calls

-- A record keeps its run and its key, and a time of consumption is not changed.
pub record Persists (r r' : IssuanceRecord) : Type 0 where
  pub same_run : r'.run_id ≡ r.run_id
  pub same_key : r'.idempotency_key ≡ r.idempotency_key
  pub final : is_zero r.consumed_at ≡ false → is_zero r'.consumed_at ≡ false

Persists-refl : (r : IssuanceRecord) → Persists r r
Persists-refl r = record { same_run = refl; same_key = refl; final = λ h. h }

abbrev pub Holds : Files → String → IssuanceRecord → Type 0
Holds files run_id r = lookup run_id files.records ≡ some (some r)

abbrev pub Keeps : Files → String → IssuanceRecord → Type 0
Keeps files run_id r = (r' : IssuanceRecord) × Holds files run_id r' × Persists r r'

same_records :
    (files files' : Files) (run_id : String) (r : IssuanceRecord)
    → files'.records ≡ files.records
    → Holds files run_id r
    → Keeps files' run_id r
same_records files files' run_id r same h = (r, ground (arith, same, h), Persists-refl r)

refresh-records :
    (l : Libraries) (d : Disk) (files : Files) (answer : Option TokenAnswer)
    → (refresh l d files answer).1.records ≡ files.records
unfolding refresh
refresh-records l d files answer = elim (Result-cases (refresh_checked l d files answer)) [
  | inr (e, bad) ↦ ground (arith, bad)
  | inl ((master, out), fine) ↦ ground (arith, fine)
]

issue-Keeps :
    (l : Libraries) (d : Disk) (files : Files) (own key : String) (run_id : String)
    (r : IssuanceRecord)
    → Holds files run_id r
    → Keeps (issue l d files own key).1 run_id r
unfolding issue issue_record read_record
issue-Keeps l d files own key run_id r h = elim (Result-cases (issue_checked l d files own key)) [
  | inr (e, bad) ↦ same_records files (issue l d files own key).1 run_id r (ground (arith, bad)) h
  | inl ((master, some old), fine) ↦
      same_records files (issue l d files own key).1 run_id r (ground (arith, fine)) h
  | inl ((master, none), fine) ↦
      let new : IssuanceRecord = record {
        run_id = own;
        idempotency_key = key;
        issued_at = d.now;
        consumed_at = 0;
      } in
      (
        r,
        ground
            (arith, fine, h, eq_iff own run_id, lookup-insert own run_id (some new) files.records),
        Persists-refl r,
      )
]

pub write_atomic_cases :
    (w : WriteEnd) (old new : Files)
    → ((write_atomic w old new).1 ≡ old) ⊎ ((write_atomic w old new).1 ≡ new)
write_atomic_cases not_written old new = inl refl
write_atomic_cases written_then_failed old new = inr refl
write_atomic_cases written old new = inr refl

consumed-Keeps :
    (l : Libraries) (d : Disk) (files : Files) (own : String) (consumed : Bool) (run_id : String)
    (r old : IssuanceRecord)
    → Holds files run_id r
    → safe_run_id l own ≡ true
    → read_record d (lookup own files.records) ≡ ok (some old)
    → (consumed && is_zero old.consumed_at) ≡ true
    → Keeps (cleanup l d files own consumed).1 run_id r
unfolding cleanup read_record
consumed-Keeps l d files own consumed run_id r old h safe read fresh =
    let consumed_old : IssuanceRecord = record old { consumed_at = d.now } in
    let new : Files = record files { records = insert own (some consumed_old) files.records } in
    let inserted = lookup-insert own run_id (some consumed_old) files.records in
    elim (write_atomic_cases d.write_end files new) [
      | inl kept ↦
          same_records files (cleanup l d files own consumed).1 run_id r
            (ground (arith, safe, read, fresh, kept)) h
      | inr put ↦ elim (Bool-cases (own == run_id)) [
        | inr other ↦
            (r, ground (arith, safe, read, fresh, put, inserted, other, h), Persists-refl r)
        | inl same ↦
            let held : old ≡ r = ground (arith, read, h, same, eq_iff own run_id) in
            (
              consumed_old,
              ground (arith, safe, read, fresh, put, inserted, same),
              record {
                same_run = ap (λ x. x.run_id) held;
                same_key = ap (λ x. x.idempotency_key) held;
                final = λ z. absurd (ground (arith, held, fresh, z));
              },
            )
      ]
    ]

cleanup-Keeps :
    (l : Libraries) (d : Disk) (files : Files) (own : String) (consumed : Bool) (run_id : String)
    (r : IssuanceRecord)
    → Holds files run_id r
    → Keeps (cleanup l d files own consumed).1 run_id r
unfolding cleanup read_record
cleanup-Keeps l d files own consumed run_id r h = elim (Bool-cases (safe_run_id l own)) [
  | inr bad ↦ same_records files (cleanup l d files own consumed).1 run_id r (ground (arith, bad)) h
  | inl safe ↦ elim (Result-cases (read_record d (lookup own files.records))) [
    | inr (e, bad) ↦
        same_records files (cleanup l d files own consumed).1 run_id r (ground (arith, safe, bad)) h
    | inl (none, read) ↦
        same_records files (cleanup l d files own consumed).1 run_id r (ground (arith, safe, read))
          h
    | inl (some old, read) ↦ elim (Bool-cases (consumed && is_zero old.consumed_at)) [
      | inr kept ↦
          same_records files (cleanup l d files own consumed).1 run_id r
            (ground (arith, safe, read, kept)) h
      | inl fresh ↦ consumed-Keeps l d files own consumed run_id r old h safe read fresh
    ]
  ]
]

step-Keeps :
    (l : Libraries) (files : Files) (c : Call) (run_id : String) (r : IssuanceRecord)
    → Holds files run_id r
    → Keeps (step l files c) run_id r
unfolding step
step-Keeps l files (refreshing d answer) run_id r h =
    same_records files (refresh l d files answer).1 run_id r (refresh-records l d files answer) h
step-Keeps l files (issuing d own key) run_id r h = issue-Keeps l d files own key run_id r h
step-Keeps l files (cleaning d own consumed) run_id r h =
    cleanup-Keeps l d files own consumed run_id r h

pub run-Keeps :
    (l : Libraries) (files : Files) (calls : List Call) (run_id : String) (r : IssuanceRecord)
    → Holds files run_id r
    → Keeps (run l files calls) run_id r
unfolding run
run-Keeps l files [] run_id r h = (r, h, Persists-refl r)
run-Keeps l files (c ∷ calls) run_id r h =
    let (r', h', p) = step-Keeps l files c run_id r h in
    let (r'', h'', q) = run-Keeps l (step l files c) calls run_id r' h' in
    (
      r'',
      h'',
      record {
        same_run = q.same_run ∙ p.same_run;
        same_key = q.same_key ∙ p.same_key;
        final = λ z. q.final (p.final z);
      },
    )

-- An `Issue` that returns leaves a record with its key that is not consumed.
pub issue-Holds :
    (l : Libraries) (d : Disk) (files : Files) (run_id key : String) (bundle : AuthFile)
    → (issue l d files run_id key).0 ≡ ok bundle
    → (r : IssuanceRecord) × Holds (issue l d files run_id key).1 run_id r
      × (r.idempotency_key ≡ key)
unfolding issue issue_record read_record check_record
issue-Holds l d files run_id key bundle e =
    elim (Result-cases (issue_checked l d files run_id key)) [
      | inr (x, bad) ↦ absurd (ground (arith, bad))
      | inl ((master, some old), fine) ↦
          (old, ground (arith, fine), ground (arith, fine, eq_iff old.idempotency_key key))
      | inl ((master, none), fine) ↦
          let new : IssuanceRecord = record {
            run_id = run_id;
            idempotency_key = key;
            issued_at = d.now;
            consumed_at = 0;
          } in
          (
            new,
            ground
                (arith, fine, eq_refl run_id, lookup-insert run_id run_id (some new) files.records),
            refl,
          )
    ]

-- An `Issue` that finds a record returns only under its key, and only if it is not consumed.
pub issue_found :
    (l : Libraries) (d : Disk) (files : Files) (run_id key : String) (bundle : AuthFile)
    (r : IssuanceRecord)
    → Holds files run_id r
    → (issue l d files run_id key).0 ≡ ok bundle
    → (r.idempotency_key ≡ key) × (is_zero r.consumed_at ≡ true)
unfolding issue issue_record read_record check_record
issue_found l d files run_id key bundle r h e = ground (arith, h, eq_iff r.idempotency_key key)

-- `Issue` gives a run's bundle under one idempotency key only: two of its calls for a run that return,
-- with any operations and failures between them, have the same key.
pub issue-run-issue :
    (l : Libraries) (d d' : Disk) (files : Files) (run_id key key' : String)
    (bundle bundle' : AuthFile) (calls : List Call)
    → (issue l d files run_id key).0 ≡ ok bundle
    → (issue l d' (run l (issue l d files run_id key).1 calls) run_id key').0 ≡ ok bundle'
    → key ≡ key'
issue-run-issue l d d' files run_id key key' bundle bundle' calls e e' =
    let after = (issue l d files run_id key).1 in
    let (r, h, own) = issue-Holds l d files run_id key bundle e in
    let (r', h', p) = run-Keeps l after calls run_id r h in
    sym own
    ∙ (sym p.same_key ∙ (issue_found l d' (run l after calls) run_id key' bundle' r' h' e').0)
