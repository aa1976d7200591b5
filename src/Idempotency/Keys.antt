-- ===== src/Idempotency/Keys.antt =====
-- internal/idempotency/idempotency.go. The state file is the map that it decodes to, and each call
-- holds the package's mutex from its read to its write. A `Tx` says whether the read (`queries`) and
-- the write (`writes`) succeed; a failed write leaves the file as it was. Of encoding/json,
-- `body_json` says what a raw message is when it was written by MarshalIndent and read back, and
-- `none` where it is no JSON. The other texts are valid UTF-8, and the times before the year 10000.
use gh_agent_broker.Prelude.{
  ℕ, String, ◌==◌, Bool, true, false, not, ◌||◌, Option, none, some, Assoc, lookup, insert, ℤ, pos,
  Tx, Result, ok, err, eqb, [], ◌∷◌, if◌then◌else◌,
}

-- A time is in nanoseconds since Go's zero time; a body that is `none` is a nil raw message.
pub record Record : Type 0 where
  pub created_at : ℕ
  pub operation : String
  pub request_digest : String
  pub status : ℤ
  pub body : Option String
  pub pending : Bool
  pub semantic_body : String

abbrev pub Keys : Type 0
Keys = Assoc Record

pub data Error : Type 0 where
  read_failed write_failed : Error

-- The four results of `ReserveExact`; the error is apart.
pub record Reserved : Type 0 where
  pub record_found : Option Record
  pub found : Bool
  pub conflict : Bool

-- rec.Operation != operation || rec.RequestDigest == "" || rec.RequestDigest != digest
unfoldable pub conflicts : Record → String → String → Bool
conflicts rec operation digest =
    not (rec.operation == operation)
    || rec.request_digest == ""
    || not (rec.request_digest == digest)

-- The record of a new reservation, as `ReserveExact` makes and returns it.
abbrev pub pending_record : ℕ → String → String → String → Record
pending_record now operation digest semantic_body = record {
  created_at = now;
  operation = operation;
  request_digest = digest;
  status = pos 0;
  body = none;
  pending = true;
  semantic_body = semantic_body;
}

-- An empty state path or key makes the call a no-op.
abbrev pub is_off : String → String → Bool
is_off state_path key = state_path == "" || key == ""

-- What a body is when it was written and read back: a nil raw message is written as null.
unfoldable pub encode_body : (String → Option String) → Option String → Option String
encode_body body_json none = some "null"
encode_body body_json (some raw) = body_json raw

unfoldable pub encode_record : (String → Option String) → Record → Option Record
unfolding encode_body
encode_record body_json rec = elim (encode_body body_json rec.body) [
  | none ↦ none
  | some text ↦ some (record rec { body = some text })
]

-- `json.MarshalIndent` of the whole map, and what `readState` makes of it.
unfoldable pub encode_keys : (String → Option String) → Keys → Option Keys
unfolding encode_record
encode_keys body_json [] = some []
encode_keys body_json ((key, rec) ∷ keys) =
    let later = encode_keys body_json keys in
    elim (encode_record body_json rec) [
      | none ↦ none
      | some kept ↦ elim later [ none ↦ none | some rest ↦ some ((key, kept) ∷ rest) ]
    ]

-- `writeState` of the map `new` where the file holds `keys`.
unfoldable pub write_state :
    (String → Option String) → Tx → Keys → Keys → Result Error (Unit {0}) × Keys
unfolding encode_keys
write_state body_json tx keys new = elim (encode_keys body_json new) [
  | none ↦ (err write_failed, keys)
  | some kept ↦ if tx.writes then (ok tt, kept) else (err write_failed, keys)
]

abbrev reserved_as : Record → Result Error (Unit {0}) × Keys → Result Error Reserved × Keys
reserved_as rec (err e, keys) = (err e, keys)
reserved_as rec (ok u, keys) =
    (ok (record { record_found = some rec; found = false; conflict = false }), keys)

-- `ReserveExact` once the file is read, on what the key holds.
unfoldable pub reserve_on :
    (String → Option String)
    → Option Record
    → Keys
    → Tx
    → ℕ
    → String
    → String
    → String
    → String
    → Result Error Reserved × Keys
unfolding conflicts write_state
reserve_on body_json (some rec) keys tx now key operation digest semantic_body = (
  ok (record { record_found = some rec; found = true; conflict = conflicts rec operation digest }),
  keys,
)
reserve_on body_json none keys tx now key operation digest semantic_body =
    let rec = pending_record now operation digest semantic_body in
    reserved_as rec (write_state body_json tx keys (insert key rec keys))

unfoldable pub reserve_exact :
    (String → Option String)
    → String
    → Keys
    → Tx
    → ℕ
    → String
    → String
    → String
    → String
    → Result Error Reserved × Keys
unfolding reserve_on
reserve_exact body_json state_path keys tx now key operation digest semantic_body =
    if is_off state_path key
    then (ok (record { record_found = none; found = false; conflict = false }), keys)
    else if not tx.queries
    then (err read_failed, keys)
    else reserve_on body_json (lookup key keys) keys tx now key operation digest semantic_body

unfoldable pub load : String → Keys → Tx → String → Result Error (Option Record)
load state_path keys tx key =
    if is_off state_path key
    then ok none
    else if not tx.queries
    then err read_failed
    else ok (lookup key keys)

-- if rec.CreatedAt.IsZero() { rec.CreatedAt = time.Now() }
unfoldable pub stamped : Record → ℕ → Record
stamped rec now = if eqb rec.created_at 0 then record rec { created_at = now } else rec

unfoldable pub store :
    (String → Option String)
    → String
    → Keys
    → Tx
    → ℕ
    → String
    → Record
    → Result Error (Unit {0}) × Keys
unfolding stamped write_state
store body_json state_path keys tx now key rec =
    if is_off state_path key
    then (ok tt, keys)
    else if not tx.queries
    then (err read_failed, keys)
    else write_state body_json tx keys (insert key (stamped rec now) keys)
