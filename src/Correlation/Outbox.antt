-- ===== src/Correlation/Outbox.antt =====
-- internal/correlation/correlation.go: the two tables and the operations on them. A `Tx` says which
-- statements of a call succeed; a call that fails is rolled back. Rows stand in the order of their
-- ids, which grow.
use gh_agent_broker.Prelude.{
  ℕ, ◌+◌, String, ◌==◌, Bool, true, false, not, ◌&&◌, ◌||◌, List, [], ◌∷◌, ◌++◌, Option, none, some,
  ℤ, pos, leb_ℤ, ltb, Result, ok, err, require, transact, Tx, ◌>>=◌, ◌>>◌, if◌then◌else◌,
}
use gh_agent_broker.Correlation.Clock.{Time}

pub data Error : Type 0 where
  incomplete_capability incomplete_request empty_claim_token : Error
  not_found claim_mismatch payload_bounds storage : Error

pub record Identity : Type 0 where
  pub agent_type : String
  pub mode : String
  pub run_id : String
  pub work_item_id : String
  pub operation_id : String

unfoldable pub is_valid : Identity → Bool
is_valid id =
    not (id.agent_type == "")
    && not (id.mode == "")
    && not (id.run_id == "")
    && not (id.work_item_id == "")
    && not (id.operation_id == "")

pub record Correlation : Type 0 where
  pub id : ℕ
  pub identity : Identity
  pub repo : String
  pub pr_number : ℤ
  pub created_at : Time

pub data Status : Type 0 where
  pending claimed acked : Status

-- The envelope; `recorded_at` is the time whose text it holds.
pub record EventPayload : Type 0 where
  pub version : String
  pub identity : Identity
  pub repo : String
  pub pr_number : ℤ
  pub recorded_at : Time

-- encoding/json on the envelope, and the length of the bytes.
pub record Codec (B : Type 0) : Type 0 where
  pub marshal : EventPayload → B
  pub unmarshal : B → Option EventPayload
  pub size : B → ℕ

pub record OutboxEvent (B : Type 0) : Type 0 where
  pub id : ℕ
  pub correlation_id : ℕ
  pub version : String
  pub status : Status
  pub payload : B
  pub claim_token : String
  pub claimed_at : Option Time
  pub attempts : ℕ
  pub created_at : Time
  pub updated_at : Time

-- The two tables and their counters of ids (AUTOINCREMENT).
pub record Database (B : Type 0) : Type 0 where
  pub correlations : List Correlation
  pub events : List (OutboxEvent B)
  pub next_correlation : ℕ
  pub next_event : ℕ

abbrev pub event_version : String
event_version = "run-pr-correlation/v2"

abbrev pub max_payload_bytes : ℕ
max_payload_bytes = 8192

-- WHERE operation_id = ?
unfoldable pub by_operation : String → List Correlation → Option Correlation
by_operation op [] = none
by_operation op (c ∷ cs) = if c.identity.operation_id == op then some c else by_operation op cs

abbrev same_int : ℤ → ℤ → Bool
same_int a b = leb_ℤ a b && leb_ℤ b a

-- WHERE repo = ? AND pr_number = ?
unfoldable pub by_pr : String → ℤ → List Correlation → Option Correlation
by_pr repo pr [] = none
by_pr repo pr (c ∷ cs) =
    if c.repo == repo && same_int c.pr_number pr then some c else by_pr repo pr cs

abbrev is_none {ℓ} : {A : Type ℓ} → Option A → Bool
is_none none = true
is_none (some x) = false

unfoldable pub payload_of : Identity → String → ℤ → Time → EventPayload
payload_of id repo pr now = record {
  version = event_version;
  identity = id;
  repo = repo;
  pr_number = pr;
  recorded_at = now;
}

module _ {B : Type 0} (codec : Codec B) where
  unfoldable pub build_payload : Identity → String → ℤ → Time → Result Error B
  build_payload id repo pr now =
      let payload = codec.marshal (payload_of id repo pr now) in
      if ltb max_payload_bytes (codec.size payload) then err payload_bounds else ok payload

  -- The two INSERTs.
  unfoldable pub insert_pair : Database B → Time → Identity → String → ℤ → B → Database B
  insert_pair db now id repo pr payload = record {
    correlations =
        db.correlations
        ++ record {
          id = db.next_correlation;
          identity = id;
          repo = repo;
          pr_number = pr;
          created_at = now;
        }
          ∷ [];
    events =
        db.events
        ++ record {
          id = db.next_event;
          correlation_id = db.next_correlation;
          version = event_version;
          status = pending;
          payload = payload;
          claim_token = "";
          claimed_at = none;
          attempts = 0;
          created_at = now;
          updated_at = now;
        }
          ∷ [];
    next_correlation = db.next_correlation + 1;
    next_event = db.next_event + 1;
  }

  -- `Record` where no correlation has the operation id. The table has UNIQUE (repo, pr_number).
  unfoldable pub record_new :
      Database B → Tx → Time → Identity → String → ℤ → Result Error (Correlation × Database B)
  record_new db tx now id repo pr = do
    require tx.writes storage
    require (is_none (by_pr repo pr db.correlations)) storage
    payload ← build_payload id repo pr now
    require tx.commits storage
    ok (
      record {
        id = db.next_correlation;
        identity = id;
        repo = repo;
        pr_number = pr;
        created_at = now;
      },
      insert_pair db now id repo pr payload,
    )

  unfoldable pub record_at :
      Option Correlation
      → Database B
      → Tx
      → Time
      → Identity
      → String
      → ℤ
      → Result Error (Correlation × Database B)
  record_at (some existing) db tx now id repo pr = ok (existing, db)
  record_at none db tx now id repo pr = record_new db tx now id repo pr

  unfoldable pub record_checked :
      Database B → Tx → Time → Identity → String → ℤ → Result Error (Correlation × Database B)
  record_checked db tx now id repo pr = do
    require (is_valid id) incomplete_capability
    require (not (repo == "" || leb_ℤ pr (pos 0))) incomplete_request
    require tx.begins storage
    require tx.queries storage
    record_at (by_operation id.operation_id db.correlations) db tx now id repo pr

  unfoldable pub record_correlation :
      Database B → Tx → Time → Identity → String → ℤ → Result Error Correlation × Database B
  record_correlation db tx now id repo pr = transact db (record_checked db tx now id repo pr)
