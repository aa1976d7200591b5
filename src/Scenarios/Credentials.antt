-- ===== src/Scenarios/Credentials.antt =====
-- internal/codexauth/holder.go: one run that gets its bundle and consumes it.
use gh_agent_broker.Prelude.{
  String, ◌≡◌, ◌≢◌, refl, arith, true, false, List, [], ◌∷◌, some, lookup, insert, ok,
}
unfoldable use gh_agent_broker.Prelude.{lookup, insert}
use gh_agent_broker.CodexAuth.Holder.{bundle_of, issue, cleanup}
use gh_agent_broker.CodexAuth.Files.{AuthFile, Files, Libraries, Disk, written, written_then_failed}
unfoldable use gh_agent_broker.CodexAuth.Holder.{
  bundle_of, check_record, issue_record, issue, cleanup, refresh, refresh_tokens, refreshed_content,
}
unfoldable use gh_agent_broker.CodexAuth.Files.{all_safe, safe_run_id, read_master, read_record}
use gh_agent_broker.CodexAuth.Issued.{Call, refreshing, cleaning, run, issue-run-issue}
unfoldable use gh_agent_broker.CodexAuth.Issued.{run, step}
use gh_agent_broker.CodexAuth.Consumed.{issue-cleanup}
use gh_agent_broker.CodexAuth.Usable.{IsMaster, IsUsable, run-IsUsable, issue_correct}

abbrev libraries : Libraries
libraries = record {
  trim_space = λ s. s;
  byte_length = λ s. 5;
  runes = λ s. b'r' ∷ b'-' ∷ b'1' ∷ [];
  format_time = λ t. "2026-08-01T00:00:00Z";
  encoded_length = λ a. 400;
}

abbrev master : AuthFile
master = record {
  tokens = record {
    id_token = "id";
    access_token = "access";
    refresh_token = "refresh";
    account_id = "account";
    extra = [];
  };
  last_refresh = "";
  extra = [];
}

abbrev files : Files
files = record {
  master = some (record { is_regular = true; mode = 384; content = some master });
  records = [];
}

abbrev disk : Disk
disk = record {
  locks = true;
  reads_master = true;
  reads_record = true;
  removes = true;
  write_end = written;
  now = 7;
}

-- A refresh whose write fails after the renaming, and a clean-up.
abbrev calls : List Call
calls =
    refreshing (record disk { write_end = written_then_failed })
      (some (record {
        status = 200;
        decoded = some (record { id_token = ""; access_token = "access-2"; refresh_token = "" });
      }))
    ∷ cleaning disk "r-1" false
    ∷ []

abbrev refreshed : AuthFile
refreshed = record master {
  tokens = record {
    id_token = "id";
    access_token = "access-2";
    refresh_token = "refresh";
    account_id = "account";
    extra = [];
  };
  last_refresh = "2026-08-01T00:00:00Z";
}

abbrev bundle : AuthFile
bundle = record {
  tokens = record {
    id_token = "id";
    access_token = "access";
    refresh_token = "";
    account_id = "account";
    extra = [];
  };
  last_refresh = "";
  extra = [];
}

abbrev later_bundle : AuthFile
later_bundle = record {
  tokens = record {
    id_token = "id";
    access_token = "access-2";
    refresh_token = "";
    account_id = "account";
    extra = [];
  };
  last_refresh = "2026-08-01T00:00:00Z";
  extra = [];
}

abbrev issued : Files
issued = (issue libraries disk files "r-1" "key-1").1

issue_first : (issue libraries disk files "r-1" "key-1").0 ≡ ok bundle
unfolding run step issue issue_record check_record read_record read_master safe_run_id all_safe
    bundle_of refresh refresh_tokens refreshed_content cleanup lookup insert
issue_first = refl

issue_again : (issue libraries disk (run libraries issued calls) "r-1" "key-1").0 ≡ ok later_bundle
unfolding run step issue issue_record check_record read_record read_master safe_run_id all_safe
    bundle_of refresh refresh_tokens refreshed_content cleanup lookup insert
issue_again = refl

consume_first : (cleanup libraries disk (run libraries issued calls) "r-1" true).0 ≡ ok tt
unfolding run step issue issue_record check_record read_record read_master safe_run_id all_safe
    bundle_of refresh refresh_tokens refreshed_content cleanup lookup insert
consume_first = refl

abbrev key : String
key = "key-1"

issue-run-issue_example : key ≡ key
issue-run-issue_example =
    issue-run-issue libraries disk disk files "r-1" "key-1" "key-1" bundle later_bundle calls
      issue_first issue_again

issue-cleanup_example :
    (issue libraries disk
      (run libraries (cleanup libraries disk (run libraries issued calls) "r-1" true).1 calls)
      "r-1"
      "key-2").0
    ≢ ok bundle
issue-cleanup_example =
    issue-cleanup libraries disk disk disk files "r-1" "key-1" "key-2" bundle bundle calls calls
      issue_first (omega arith) consume_first

run-IsUsable_example : IsUsable (run libraries files calls)
run-IsUsable_example = run-IsUsable libraries files calls (master, (refl, refl))

issue_correct_example :
    (a : AuthFile) × IsMaster files.master a
    × (bundle ≡ record {
      tokens = record {
        id_token = a.tokens.id_token;
        access_token = a.tokens.access_token;
        refresh_token = "";
        account_id = a.tokens.account_id;
        extra = [];
      };
      last_refresh = a.last_refresh;
      extra = [];
    })
    × (bundle.tokens.refresh_token ≡ "")
    × (bundle.tokens.access_token ≢ "")
issue_correct_example = issue_correct libraries disk files "r-1" "key-1" bundle issue_first
