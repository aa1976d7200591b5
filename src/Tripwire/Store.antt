-- ===== src/Tripwire/Store.antt =====
-- internal/pushtripwire/pushtripwire.go: the tables and the operations on them. JSON columns hold the
-- value that they encode. `now` is the time of the call.
use gh_agent_broker.Prelude.{
  ℕ, String, ◌==◌, Bool, true, false, not, ◌&&◌, ◌||◌, List, [], ◌∷◌, ◌++◌, Option, none, some, ℤ,
  pos, ltb_ℤ, eqb_ℤ, Assoc, lookup, insert, Result, ok, require, transact, Tx, ◌>>=◌, ◌>>◌,
  if◌then◌else◌,
}
use gh_agent_broker.Tripwire.Contract.{
  version_text, Binding, ResponseRequest, Libraries, fingerprint,
}

pub data Error : Type 0 where
  invalid_key key_reused not_registered halted empty_catalog invalid_profile storage : Error

pub data FenceState : Type 0 where
  requested fenced : FenceState

pub data ActionStatus : Type 0 where
  halted_status fence_requested fenced_status : ActionStatus

pub record ActionState : Type 0 where
  pub action : String
  pub state : ActionStatus
  pub completed_at : ℕ

pub record ResponseResult : Type 0 where
  pub version : String
  pub finding_id : String
  pub idempotent_replay : Bool
  pub actions : List ActionState

pub record Halt : Type 0 where
  pub profile : String
  pub generation : ℤ
  pub finding_id : String

pub record CatalogEntry : Type 0 where
  pub profile : String
  pub generation : ℤ

pub record StoredResponse : Type 0 where
  pub fingerprint : String
  pub request : ResponseRequest
  pub response : ResponseResult

pub record FenceRequest : Type 0 where
  pub binding : Option Binding
  pub state : FenceState

-- The responses are keyed by the idempotency key, the fence requests by the finding.
pub record Tables : Type 0 where
  pub halts : List Halt
  pub catalog : List CatalogEntry
  pub responses : Assoc StoredResponse
  pub fences : Assoc FenceRequest

unfoldable pub is_registered : String → ℤ → List CatalogEntry → Bool
is_registered profile generation [] = false
is_registered profile generation (e ∷ es) =
    (e.profile == profile && eqb_ℤ e.generation generation) || is_registered profile generation es

unfoldable pub is_halted : String → ℤ → List Halt → Bool
is_halted profile generation [] = false
is_halted profile generation (h ∷ hs) =
    (h.profile == profile && eqb_ℤ h.generation generation) || is_halted profile generation hs

-- The loop over the map of profiles.
unfoldable pub register_each : Libraries → List CatalogEntry → Result Error (List CatalogEntry)
register_each l [] = ok []
register_each l (e ∷ es) =
    let later = register_each l es in
    (do
      require (l.is_profile e.profile && ltb_ℤ (pos 0) e.generation) invalid_profile
      rest ← later
      ok (e ∷ rest))

abbrev is_nil : List CatalogEntry → Bool
is_nil [] = true
is_nil (e ∷ es) = false

unfoldable pub replace_checked :
    Libraries → Tables → Tx → List CatalogEntry → Result Error (Unit {0} × Tables)
replace_checked l t tx profiles = do
  require (not (is_nil profiles)) empty_catalog
  require tx.begins storage
  catalog ← register_each l profiles
  require tx.writes storage
  require tx.commits storage
  ok (tt, record t { catalog = catalog })

unfoldable pub replace_enforcement_catalog :
    Libraries → Tables → Tx → List CatalogEntry → Result Error (Unit {0}) × Tables
replace_enforcement_catalog l t tx profiles = transact t (replace_checked l t tx profiles)

-- INSERT OR IGNORE
abbrev pub add_halt : String → ℤ → String → List Halt → List Halt
add_halt profile generation finding halts =
    if is_halted profile generation halts
    then halts
    else halts ++ record { profile = profile; generation = generation; finding_id = finding } ∷ []

abbrev pub add_fence : String → Option Binding → Assoc FenceRequest → Assoc FenceRequest
add_fence finding binding fences = elim (lookup finding fences) [
  | some old ↦ fences
  | none ↦ insert finding (record { binding = binding; state = requested }) fences
]

-- One round of the loop over the actions; any other action is passed over.
unfoldable pub act_one :
    Tx
    → ℕ
    → ResponseRequest
    → String
    → List ActionState
    → Tables
    → Result Error (List ActionState × Tables)
act_one tx now req action done t =
    if action == "halt_issuance"
    then (do
      require tx.queries storage
      require (is_registered req.profile req.profile_generation t.catalog) not_registered
      require tx.writes storage
      ok (
        done ++ record { action = action; state = halted_status; completed_at = now } ∷ [],
        record t { halts = add_halt req.profile req.profile_generation req.finding_id t.halts },
      ))
    else if action == "fence_worker_session"
    then (do
      require tx.writes storage
      ok (
        done ++ record { action = action; state = fence_requested; completed_at = now } ∷ [],
        record t { fences = add_fence req.finding_id req.binding t.fences },
      ))
    else ok (done, t)

unfoldable pub act_each :
    Tx
    → ℕ
    → ResponseRequest
    → List String
    → List ActionState
    → Tables
    → Result Error (List ActionState × Tables)
unfolding act_one
act_each tx now req [] done t = ok (done, t)
act_each tx now req (action ∷ actions) done t = do
  (done', t') ← act_one tx now req action done t
  act_each tx now req actions done' t'

-- The transaction of a new key.
unfoldable pub respond :
    Libraries → Tables → Tx → ℕ → String → ResponseRequest → Result Error (ResponseResult × Tables)
unfolding act_each
respond l t tx now key req = do
  require tx.begins storage
  (done, t') ← act_each tx now req req.actions [] t
  let out : ResponseResult = record {
    version = version_text;
    finding_id = req.finding_id;
    idempotent_replay = false;
    actions = done;
  }
  require tx.writes storage
  require tx.commits storage
  ok (
    out,
    record t' {
      responses =
          insert key (record { fingerprint = fingerprint l req; request = req; response = out })
            t'.responses;
    },
  )

-- `CheckIssuanceState`
unfoldable pub check_issuance : Tables → Tx → String → ℤ → Result Error (Unit {0})
check_issuance t tx profile generation = do
  require tx.queries storage
  require (is_registered profile generation t.catalog) not_registered
  require (not (is_halted profile generation t.halts)) halted
