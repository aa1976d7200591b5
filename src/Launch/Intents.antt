-- ===== src/Launch/Intents.antt =====
-- internal/sandbox/launch_intents.go: the table `launch_intents` and the operations on it. A row is
-- stored and read as it is: the JSON columns are the plan and the metadata, of which the code below
-- reads the run's id and status, and `version` is that of the plan.
use gh_agent_broker.Prelude.{
  ℕ, ◌+◌, String, ◌==◌, Bool, true, false, not, ◌&&◌, List, [], ◌∷◌, ◌++◌, Option, none, some, ℤ,
  pos, ltb_ℤ, leb_ℤ, eqb, Result, ok, err, require, transact, Tx, ◌>>=◌, ◌>>◌, if◌then◌else◌,
}
use gh_agent_broker.Retention.Plan.{is_terminal_status}

pub data IntentState : Type 0 where
  created create_pending container_made start_pending running waiting_external terminal :
      IntentState

pub data Error : Type 0 where
  profile_busy malformed update_missed storage : Error

-- What the store reads of `RunMetadata`.
pub record Metadata : Type 0 where
  pub run_id : String
  pub status : String

pub record LaunchIntent : Type 0 where
  pub principal : String
  pub profile : String
  pub key_digest : String
  pub request_fingerprint : String
  pub run_id : String
  pub state : IntentState
  pub version : ℕ
  pub plan_metadata : Metadata
  pub metadata : Metadata

abbrev pub Intents : Type 0
Intents = List LaunchIntent

abbrev pub is_terminal : IntentState → Bool
is_terminal terminal = true
is_terminal _ = false

-- WHERE principal=? AND profile=? AND key_digest=?
abbrev pub has_key : String → String → String → LaunchIntent → Bool
has_key principal profile digest i =
    i.principal == principal && i.profile == profile && i.key_digest == digest

unfoldable pub by_key : String → String → String → Intents → Option LaunchIntent
by_key principal profile digest [] = none
by_key principal profile digest (i ∷ is) =
    let later = by_key principal profile digest is in
    if has_key principal profile digest i then some i else later

-- WHERE run_id=?
unfoldable pub by_run : String → Intents → Option LaunchIntent
by_run run [] = none
by_run run (i ∷ is) = let later = by_run run is in if i.run_id == run then some i else later

unfoldable pub is_decodable : LaunchIntent → Bool
is_decodable i =
    eqb i.version 1
    && not (i.run_id == "")
    && i.metadata.run_id == i.run_id
    && i.plan_metadata.run_id == i.run_id

-- No row is `none`; a row that does not decode is an error.
unfoldable pub scan_intent : Option LaunchIntent → Result Error (Option LaunchIntent)
unfolding is_decodable
scan_intent none = ok none
scan_intent (some i) = do require (is_decodable i) malformed; ok (some i)

unfoldable pub lookup_intent :
    Intents → Tx → String → String → String → Result Error (Option LaunchIntent)
unfolding scan_intent
lookup_intent is tx principal profile digest = do
  require tx.queries storage
  scan_intent (by_key principal profile digest is)

unfoldable pub lookup_run : Intents → Tx → String → Result Error (Option LaunchIntent)
unfolding scan_intent
lookup_run is tx run = do require tx.queries storage; scan_intent (by_run run is)

-- SELECT count(*) … WHERE profile=? AND state<>?
unfoldable pub active_count : String → Intents → ℕ
active_count profile [] = 0
active_count profile (i ∷ is) =
    (if i.profile == profile && not (is_terminal i.state) then 1 else 0) + active_count profile is

abbrev pub is_busy : String → ℤ → Intents → Bool
is_busy profile limit is = ltb_ℤ (pos 0) limit && leb_ℤ limit (pos (active_count profile is))

abbrev is_absent : Option LaunchIntent → Bool
is_absent none = true
is_absent (some i) = false

-- `Create` once the key is looked up: the intent, whether it is new, and the rows. The table has
-- UNIQUE (run_id).
unfoldable pub create_on :
    Option LaunchIntent
    → Intents
    → Tx
    → LaunchIntent
    → ℤ
    → Result Error ((LaunchIntent × Bool) × Intents)
create_on (some existing) is tx i limit = ok ((existing, false), is)
create_on none is tx i limit = do
  require (not (is_busy i.profile limit is)) profile_busy
  require tx.writes storage
  require (is_absent (by_run i.run_id is)) storage
  require tx.commits storage
  ok ((i, true), is ++ i ∷ [])

unfoldable pub create_checked :
    Intents → Tx → LaunchIntent → ℤ → Result Error ((LaunchIntent × Bool) × Intents)
unfolding create_on
create_checked is tx i limit = do
  require tx.begins storage
  existing ← lookup_intent is tx i.principal i.profile i.key_digest
  create_on existing is tx i limit

unfoldable pub create :
    Intents → Tx → LaunchIntent → ℤ → Result Error (LaunchIntent × Bool) × Intents
unfolding create_checked
create is tx i limit = transact is (create_checked is tx i limit)

-- UPDATE … WHERE run_id=?
unfoldable pub update_run : String → (LaunchIntent → LaunchIntent) → Intents → Intents
update_run run f [] = []
update_run run f (i ∷ is) = (if i.run_id == run then f i else i) ∷ update_run run f is

unfoldable pub save : Intents → Tx → LaunchIntent → Result Error (Unit {0}) × Intents
unfolding update_run
save is tx i =
    if not tx.writes
    then (err storage, is)
    else if is_absent (by_run i.run_id is)
    then (err update_missed, is)
    else (
      ok tt,
      update_run i.run_id
          (λ old. record old {
            state = i.state;
            version = i.version;
            plan_metadata = i.plan_metadata;
            metadata = i.metadata;
          })
          is,
    )

unfoldable pub state_of_status : String → IntentState
state_of_status status =
    if is_terminal_status status
    then terminal
    else if status == "waiting_external"
    then waiting_external
    else running

-- An update of no row is no error here.
unfoldable pub save_metadata : Intents → Tx → Metadata → Result Error (Unit {0}) × Intents
unfolding update_run state_of_status
save_metadata is tx meta =
    if tx.writes
    then (
      ok tt,
      update_run meta.run_id
          (λ old. record old { state = state_of_status meta.status; metadata = meta }) is,
    )
    else (err storage, is)

unfoldable pub is_nonterminal_run : Intents → Tx → String → Result Error Bool
is_nonterminal_run is tx run = do
  require tx.queries storage
  ok (elim (by_run run is) [ none ↦ false | some i ↦ not (is_terminal i.state) ])
