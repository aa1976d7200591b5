-- ===== src/CodexAuth/Files.antt =====
-- internal/codexauth/holder.go: the master file, the issuance records, and how they are read and
-- written. A file of JSON is the value that it decodes to; a time is a number, zero for Go's zero time.
use gh_agent_broker.Prelude.{
  ℕ, String, ◌==◌, Bool, true, false, not, ◌&&◌, ◌||◌, List, [], ◌∷◌, Option, none, some, eqb, ltb,
  leb, Assoc, Result, ok, err, require, ◌>>◌,
}

pub data Error : Type 0 where
  invalid_identity locked unreadable_master invalid_master missing_refresh_token refresh_failed :
      Error
  unreadable_record invalid_record consumed_record storage bundle_too_large invalid_run_id : Error

pub record AuthTokens : Type 0 where
  pub id_token : String
  pub access_token : String
  pub refresh_token : String
  pub account_id : String
  pub extra : Assoc String

pub record AuthFile : Type 0 where
  pub tokens : AuthTokens
  pub last_refresh : String
  pub extra : Assoc String

pub record RefreshResponse : Type 0 where
  pub id_token : String
  pub access_token : String
  pub refresh_token : String

pub record IssuanceRecord : Type 0 where
  pub run_id : String
  pub idempotency_key : String
  pub issued_at : ℕ
  pub consumed_at : ℕ

-- `content` is missing where the file is no JSON of the type.
pub record MasterFile : Type 0 where
  pub is_regular : Bool
  pub mode : ℕ
  pub content : Option AuthFile

pub record Files : Type 0 where
  pub master : Option MasterFile
  pub records : Assoc (Option IssuanceRecord)

-- What the operations take from `strings`, `time` and `encoding/json`; `runes` is what ranging over a
-- text gives.
pub record Libraries : Type 0 where
  pub trim_space : String → String
  pub byte_length : String → ℕ
  pub runes : String → List ℕ
  pub format_time : ℕ → String
  pub encoded_length : AuthFile → ℕ

-- How `writeJSONAtomic` ends: it may fail before the renaming, or after it.
pub data WriteEnd : Type 0 where
  not_written written_then_failed written : WriteEnd

-- What an operation meets.
pub record Disk : Type 0 where
  pub locks : Bool
  pub reads_master : Bool
  pub reads_record : Bool
  pub removes : Bool
  pub write_end : WriteEnd
  pub now : ℕ

-- The answer of the token endpoint, where there is one that is read within the limit.
pub record TokenAnswer : Type 0 where
  pub status : ℕ
  pub decoded : Option RefreshResponse

abbrev pub is_safe_rune : ℕ → Bool
is_safe_rune r =
    leb b'a' r && leb r b'z'
    || leb b'A' r && leb r b'Z'
    || leb b'0' r && leb r b'9'
    || eqb r b'.'
    || eqb r b'_'
    || eqb r b':'
    || eqb r b'-'

unfoldable pub all_safe : List ℕ → Bool
all_safe [] = true
all_safe (r ∷ rs) = is_safe_rune r && all_safe rs

unfoldable pub safe_run_id : Libraries → String → Bool
unfolding all_safe
safe_run_id l run_id =
    not (run_id == "" || ltb 160 (l.byte_length run_id) || run_id == "." || run_id == "..")
    && all_safe (l.runes run_id)

abbrev pub has_tokens : AuthFile → Bool
has_tokens a =
    not (a.tokens.id_token == "" || a.tokens.access_token == "" || a.tokens.refresh_token == "")

abbrev pub decoded_master : Option AuthFile → Result Error AuthFile
decoded_master none = err invalid_master
decoded_master (some a) = do require (has_tokens a) invalid_master; ok a

-- The mode 0600 is 384.
unfoldable pub read_master : Disk → Option MasterFile → Result Error AuthFile
read_master d none = err unreadable_master
read_master d (some file) = do
  require (file.is_regular && eqb file.mode 384) invalid_master
  require d.reads_master unreadable_master
  decoded_master file.content

unfoldable pub read_record :
    Disk → Option (Option IssuanceRecord) → Result Error (Option IssuanceRecord)
read_record d none = ok none
read_record d (some file) = do
  require d.reads_record unreadable_record
  elim file [ none ↦ err unreadable_record | some r ↦ ok (some r) ]

-- The result of a write, and the state: the new one once it was renamed.
abbrev pub write_atomic : WriteEnd → Files → Files → Bool × Files
write_atomic not_written old new = (false, old)
write_atomic written_then_failed old new = (false, new)
write_atomic written old new = (true, new)
