-- ===== src/CodexAuth/Consumed.antt =====
-- internal/codexauth/holder.go: after `Consume`, a run gets no bundle.
use gh_agent_broker.Prelude.{
  ◌<◌, String, ◌≡◌, ◌≢◌, inl, inr, arith, eq_refl, true, false, List, some, lookup-insert, ok,
  Bool-cases,
}
use gh_agent_broker.CodexAuth.Holder.{is_zero, issue, cleanup}
use gh_agent_broker.CodexAuth.Files.{AuthFile, IssuanceRecord, Files, Libraries, Disk, read_record}
use gh_agent_broker.CodexAuth.Issued.{Call, run, Holds, run-Keeps, issue-Holds, issue_found}

cleanup_consumes :
    (l : Libraries) (d : Disk) (files : Files) (run_id : String) (r : IssuanceRecord)
    → Holds files run_id r
    → 0 < d.now
    → (cleanup l d files run_id true).0 ≡ ok tt
    → (r' : IssuanceRecord) × Holds (cleanup l d files run_id true).1 run_id r'
      × (is_zero r'.consumed_at ≡ false)
unfolding cleanup read_record
cleanup_consumes l d files run_id r h now e = elim (Bool-cases (is_zero r.consumed_at)) [
  | inr spent ↦ (r, ground (arith, h, spent), spent)
  | inl fresh ↦
      let consumed : IssuanceRecord = record r { consumed_at = d.now } in
      (
        consumed,
        ground (
          arith,
          h,
          fresh,
          eq_refl run_id,
          lookup-insert run_id run_id (some consumed) files.records,
        ),
        ground (arith, now),
      )
]

-- Once `Issue` has returned for a run and a later `Consume` of the run has returned, at a time that is
-- not Go's zero time, no `Issue` returns for the run again, under whatever key and after whatever
-- operations and failures.
pub issue-cleanup :
    (l : Libraries) (d d' d'' : Disk) (files : Files) (run_id key key' : String)
    (bundle bundle' : AuthFile) (calls later : List Call)
    → (issue l d files run_id key).0 ≡ ok bundle
    → 0 < d'.now
    → (cleanup l d' (run l (issue l d files run_id key).1 calls) run_id true).0 ≡ ok tt
    → (issue l d''
        (run l (cleanup l d' (run l (issue l d files run_id key).1 calls) run_id true).1 later)
        run_id
        key').0
      ≢ ok bundle'
issue-cleanup l d d' d'' files run_id key key' bundle bundle' calls later e now c e' =
    let issued = (issue l d files run_id key).1 in
    let before = run l issued calls in
    let (r, h, own) = issue-Holds l d files run_id key bundle e in
    let (r1, h1, p1) = run-Keeps l issued calls run_id r h in
    let (r2, h2, spent) = cleanup_consumes l d' before run_id r1 h1 now c in
    let after = (cleanup l d' before run_id true).1 in
    let (r3, h3, p3) = run-Keeps l after later run_id r2 h2 in
    let found = issue_found l d'' (run l after later) run_id key' bundle' r3 h3 e' in
    ground (arith, found.1, p3.final spent)
