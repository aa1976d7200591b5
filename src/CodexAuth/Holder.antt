-- ===== src/CodexAuth/Holder.antt =====
-- internal/codexauth/holder.go: the operations. Each holds the mutex, and `Refresh` and `Issue` the lock
-- file as well, so that each is one step among the calls of a Holder.
use gh_agent_broker.Prelude.{
  ℕ, String, ◌==◌, Bool, true, not, ◌&&◌, [], Option, none, some, eqb, ltb, leb, lookup, insert,
  Result, ok, err, require, ◌>>=◌, ◌>>◌, if◌then◌else◌,
}
use gh_agent_broker.CodexAuth.Files.{
  Error, AuthFile, RefreshResponse, IssuanceRecord, MasterFile, Files, Libraries, Disk, TokenAnswer,
  safe_run_id, read_master, read_record, write_atomic, invalid_identity, locked,
  missing_refresh_token, refresh_failed, invalid_record, consumed_record, storage, bundle_too_large,
  invalid_run_id,
}

abbrev pub is_success : ℕ → Bool
is_success status = leb 200 status && not (leb 300 status)

-- `Holder.refresh`: the call of the token endpoint.
unfoldable pub refresh_tokens :
    Libraries → Option TokenAnswer → String → Result Error RefreshResponse
refresh_tokens l answer refresh_token =
    if l.trim_space refresh_token == "" then err missing_refresh_token else elim answer [
      | none ↦ err refresh_failed
      | some a ↦ if not (is_success a.status) then err refresh_failed else elim a.decoded [
        | none ↦ err refresh_failed
        | some out ↦ if out.access_token == "" then err refresh_failed else ok out
      ]
    ]

-- The master credentials after an answer.
unfoldable pub refreshed_content : Libraries → Disk → AuthFile → RefreshResponse → AuthFile
refreshed_content l d master out = record {
  tokens = record master.tokens {
    access_token = out.access_token;
    refresh_token =
        if out.refresh_token == "" then master.tokens.refresh_token else out.refresh_token;
    id_token = if out.id_token == "" then master.tokens.id_token else out.id_token;
  };
  last_refresh = l.format_time d.now;
  extra = master.extra;
}

abbrev pub refreshed_master : Libraries → Disk → AuthFile → RefreshResponse → MasterFile
refreshed_master l d master out = record {
  is_regular = true;
  mode = 384;
  content = some (refreshed_content l d master out);
}

abbrev pub after_refresh : Bool × Files → Result {0, 0} Error (Unit {0}) × Files
after_refresh (stored, files) = (require stored storage, files)

abbrev pub refresh_checked :
    Libraries → Disk → Files → Option TokenAnswer → Result Error (AuthFile × RefreshResponse)
refresh_checked l d files answer = do
  require d.locks locked
  master ← read_master d files.master
  out ← refresh_tokens l answer master.tokens.refresh_token
  ok (master, out)

unfoldable pub refresh :
    Libraries → Disk → Files → Option TokenAnswer → Result {0, 0} Error (Unit {0}) × Files
unfolding refresh_tokens refreshed_content read_master
refresh l d files answer = elim (refresh_checked l d files answer) [
  | err e ↦ (err e, files)
  | ok (master, out) ↦ after_refresh (
      write_atomic d.write_end files
        (record files { master = some (refreshed_master l d master out) }))
]

-- The access bundle, which has no refresh token.
unfoldable pub bundle_of : AuthFile → AuthFile
bundle_of master = record {
  tokens = record {
    id_token = master.tokens.id_token;
    access_token = master.tokens.access_token;
    refresh_token = "";
    account_id = master.tokens.account_id;
    extra = [];
  };
  last_refresh = master.last_refresh;
  extra = [];
}

abbrev pub is_zero : ℕ → Bool
is_zero t = eqb t 0

-- The checks of a record that is there.
unfoldable pub check_record : String → String → Option IssuanceRecord → Result Error (Unit {0})
check_record run_id key none = ok tt
check_record run_id key (some r) = do
  require (r.run_id == run_id && r.idempotency_key == key && not (is_zero r.issued_at))
      invalid_record
  require (is_zero r.consumed_at) consumed_record

abbrev pub limited : Libraries → AuthFile → Result Error AuthFile
limited l bundle = if ltb 65536 (l.encoded_length bundle) then err bundle_too_large else ok bundle

abbrev pub bundle_if : Libraries → AuthFile → Bool × Files → Result Error AuthFile × Files
bundle_if l master (stored, files) =
    (if stored then limited l (bundle_of master) else err storage, files)

-- After the checks: the record is written if there is none.
unfoldable pub issue_record :
    Libraries
    → Disk
    → Files
    → String
    → String
    → AuthFile
    → Option IssuanceRecord
    → Result Error AuthFile × Files
unfolding bundle_of
issue_record l d files run_id key master (some r) = bundle_if l master (true, files)
issue_record l d files run_id key master none = bundle_if l master (
    write_atomic d.write_end files (record files {
      records =
          insert run_id
            (some (record {
              run_id = run_id;
              idempotency_key = key;
              issued_at = d.now;
              consumed_at = 0;
            }))
            files.records;
    }))

abbrev pub issue_checked :
    Libraries → Disk → Files → String → String → Result Error (AuthFile × Option IssuanceRecord)
issue_checked l d files run_id key = do
  require
      (safe_run_id l run_id && not (l.trim_space key == "") && not (ltb 256 (l.byte_length key)))
      invalid_identity
  require d.locks locked
  found ← read_record d (lookup run_id files.records)
  check_record run_id key found
  master ← read_master d files.master
  ok (master, found)

unfoldable pub issue : Libraries → Disk → Files → String → String → Result Error AuthFile × Files
unfolding issue_record check_record read_record safe_run_id read_master
issue l d files run_id key = elim (issue_checked l d files run_id key) [
  | err e ↦ (err e, files)
  | ok (master, found) ↦ issue_record l d files run_id key master found
]

abbrev pub consume_end : Bool → Bool × Files → Result {0, 0} Error (Unit {0}) × Files
consume_end removed (stored, files) = (require (removed && stored) storage, files)

-- `Consume` is `cleanup` with `consumed` true, `Cleanup` with false. A failed removal is reported at
-- the end.
unfoldable pub cleanup :
    Libraries → Disk → Files → String → Bool → Result {0, 0} Error (Unit {0}) × Files
unfolding read_record safe_run_id
cleanup l d files run_id consumed =
    if not (safe_run_id l run_id)
    then (err invalid_run_id, files)
    else elim (read_record d (lookup run_id files.records)) [
      | err e ↦ (err e, files)
      | ok none ↦ consume_end d.removes (true, files)
      | ok (some r) ↦
          if consumed && is_zero r.consumed_at
          then consume_end d.removes (
              write_atomic d.write_end files (record files {
                records = insert run_id (some (record r { consumed_at = d.now })) files.records;
              }))
          else consume_end d.removes (true, files)
    ]
