-- ===== src/CodexAuth/Usable.antt =====
-- internal/codexauth/holder.go: the master file over any sequence of operations, and the bundle.
use gh_agent_broker.Prelude.{
  String, ◌==◌, ◌≡◌, ◌≢◌, inl, inr, refl, arith, eq_iff, Bool, true, false, List, [], ◌∷◌, Option,
  none, some, lookup, ok, Option-cases, Result-cases,
}
use gh_agent_broker.CodexAuth.Holder.{
  refresh_tokens, refresh_checked, refreshed_content, refreshed_master, refresh, bundle_of,
  issue_record, issue_checked, issue, cleanup,
}
use gh_agent_broker.CodexAuth.Files.{
  AuthFile, RefreshResponse, IssuanceRecord, MasterFile, Files, Libraries, Disk, TokenAnswer,
  has_tokens, read_master, read_record,
}
use gh_agent_broker.CodexAuth.Issued.{
  Call, refreshing, issuing, cleaning, step, run, write_atomic_cases,
}

-- The master file is a regular file of mode 0600 with all three tokens.
abbrev pub IsMaster : Option MasterFile → AuthFile → Type 0
IsMaster file a =
    (file ≡ some (record { is_regular = true; mode = 384; content = some a }))
    × (has_tokens a ≡ true)

abbrev pub IsUsable : Files → Type 0
IsUsable files = (a : AuthFile) × IsMaster files.master a

same_master :
    (files files' : Files) → files'.master ≡ files.master → IsUsable files → IsUsable files'
same_master files files' same (a, h) = (a, (ground (arith, same, h.0), h.1))

issue-master :
    (l : Libraries) (d : Disk) (files : Files) (run_id key : String)
    → (issue l d files run_id key).1.master ≡ files.master
unfolding issue issue_record
issue-master l d files run_id key = elim (Result-cases (issue_checked l d files run_id key)) [
  | inr (x, bad) ↦ ground (arith, bad)
  | inl ((master, some old), fine) ↦ ground (arith, fine)
  | inl ((master, none), fine) ↦ ground (arith, fine)
]

cleanup-master :
    (l : Libraries) (d : Disk) (files : Files) (run_id : String) (consumed : Bool)
    → (cleanup l d files run_id consumed).1.master ≡ files.master
unfolding cleanup
cleanup-master l d files run_id consumed =
    elim (Result-cases (read_record d (lookup run_id files.records))) [
      | inr (x, bad) ↦ ground (arith, bad)
      | inl (none, read) ↦ ground (arith, read)
      | inl (some old, read) ↦ ground (arith, read)
    ]

read_master-IsMaster :
    (d : Disk) (file : Option MasterFile) (a : AuthFile)
    → read_master d file ≡ ok a
    → IsMaster file a
unfolding read_master
read_master-IsMaster d none a e = absurd (ground arith)
read_master-IsMaster d (some file) a e = elim (Option-cases file.content) [
  | inl bad ↦ absurd (ground (arith, bad))
  | inr (content, there) ↦ (ground (arith, there), ground (arith, there))
]

refresh_tokens_access :
    (l : Libraries) (answer : Option TokenAnswer) (token : String) (out : RefreshResponse)
    → refresh_tokens l answer token ≡ ok out
    → (out.access_token == "") ≡ false
unfolding refresh_tokens
refresh_tokens_access l none token out e = absurd (ground arith)
refresh_tokens_access l (some a) token out e = elim (Option-cases a.decoded) [
  | inl bad ↦ absurd (ground (arith, bad))
  | inr (r, there) ↦ ground (arith, there)
]

refreshed-IsUsable :
    (l : Libraries) (d : Disk) (files : Files) (answer : Option TokenAnswer) (master : AuthFile)
    (out : RefreshResponse)
    → refresh_checked l d files answer ≡ ok (master, out)
    → IsUsable (record files { master = some (refreshed_master l d master out) })
unfolding refreshed_content
refreshed-IsUsable l d files answer master out e =
    elim (Result-cases (read_master d files.master)) [
      | inr (x, bad) ↦ absurd (ground (arith, bad))
      | inl (a, read) ↦ elim (Result-cases (refresh_tokens l answer a.tokens.refresh_token)) [
        | inr (x, bad) ↦ absurd (ground (arith, read, bad))
        | inl (r, got) ↦
            let m = read_master-IsMaster d files.master a read in
            (
              refreshed_content l d master out,
              (
                refl,
                ground (
                  arith,
                  read,
                  got,
                  m.1,
                  refresh_tokens_access l answer a.tokens.refresh_token r got,
                ),
              ),
            )
      ]
    ]

refresh-IsUsable :
    (l : Libraries) (d : Disk) (files : Files) (answer : Option TokenAnswer)
    → IsUsable files
    → IsUsable (refresh l d files answer).1
unfolding refresh
refresh-IsUsable l d files answer (a, h) = elim (Result-cases (refresh_checked l d files answer)) [
  | inr (x, bad) ↦ same_master files (refresh l d files answer).1 (ground (arith, bad)) (a, h)
  | inl ((master, out), fine) ↦
      let new : Files = record files { master = some (refreshed_master l d master out) } in
      elim (write_atomic_cases d.write_end files new) [
        | inl kept ↦
            same_master files (refresh l d files answer).1 (ground (arith, fine, kept)) (a, h)
        | inr put ↦
            same_master new (refresh l d files answer).1 (ground (arith, fine, put))
              (refreshed-IsUsable l d files answer master out fine)
      ]
]

step-IsUsable :
    (l : Libraries) (files : Files) (c : Call) → IsUsable files → IsUsable (step l files c)
unfolding step
step-IsUsable l files (refreshing d answer) h = refresh-IsUsable l d files answer h
step-IsUsable l files (issuing d run_id key) h =
    same_master files (issue l d files run_id key).1 (issue-master l d files run_id key) h
step-IsUsable l files (cleaning d run_id consumed) h =
    same_master files (cleanup l d files run_id consumed).1
      (cleanup-master l d files run_id consumed) h

-- A master file that is regular, of mode 0600 and has all three tokens stays so over any sequence of
-- operations, whatever the token endpoint answers and whichever writes fail.
pub run-IsUsable :
    (l : Libraries) (files : Files) (calls : List Call)
    → IsUsable files
    → IsUsable (run l files calls)
unfolding run
run-IsUsable l files [] h = h
run-IsUsable l files (c ∷ calls) h =
    run-IsUsable l (step l files c) calls (step-IsUsable l files c h)

issue_checked-IsMaster :
    (l : Libraries) (d : Disk) (files : Files) (run_id key : String) (a : AuthFile)
    (found : Option IssuanceRecord)
    → issue_checked l d files run_id key ≡ ok (a, found)
    → IsMaster files.master a
issue_checked-IsMaster l d files run_id key a found e =
    elim (Result-cases (read_master d files.master)) [
      | inr (x, bad) ↦ absurd (ground (arith, bad))
      | inl (m, read) ↦ read_master-IsMaster d files.master a (ground (arith, read))
    ]

-- What `Issue` returns has the id token, the access token, the account and the time of the last
-- refresh of the master file, an empty refresh token and none of the other fields of the master file,
-- and the access token is not empty. The master file is regular, of mode 0600 and has all three
-- tokens.
pub issue_correct :
    (l : Libraries) (d : Disk) (files : Files) (run_id key : String) (bundle : AuthFile)
    → (issue l d files run_id key).0 ≡ ok bundle
    → (a : AuthFile) × IsMaster files.master a
      × (bundle ≡ record {
        tokens = record {
          id_token = a.tokens.id_token;
          access_token = a.tokens.access_token;
          refresh_token = "";
          account_id = a.tokens.account_id;
          extra = [];
        };
        last_refresh = a.last_refresh;
        extra = [];
      })
      × (bundle.tokens.refresh_token ≡ "")
      × (bundle.tokens.access_token ≢ "")
unfolding issue issue_record bundle_of
issue_correct l d files run_id key bundle e =
    elim (Result-cases (issue_checked l d files run_id key)) [
      | inr (x, bad) ↦ absurd (ground (arith, bad))
      | inl ((a, found), fine) ↦
          let m = issue_checked-IsMaster l d files run_id key a found fine in
          elim (Option-cases found) [
            | inl new ↦ (
              a,
              m,
              ground (arith, fine, new),
              ground (arith, fine, new),
              ground (arith, fine, new, m.1, eq_iff a.tokens.access_token ""),
            )
            | inr (old, there) ↦ (
              a,
              m,
              ground (arith, fine, there),
              ground (arith, fine, there),
              ground (arith, fine, there, m.1, eq_iff a.tokens.access_token ""),
            )
          ]
    ]
