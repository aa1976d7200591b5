-- ===== src/Tripwire/Contract.antt =====
-- internal/pushtripwire/pushtripwire.go: the requests and their validation. The regular expressions,
-- strings.HasPrefix with strings.TrimPrefix, and encoding/json with SHA-256 are parameters.
use Prim.Native.String.{len}
use gh_agent_broker.Prelude.{
  String, ◌==◌, Bool, true, false, not, ◌&&◌, ◌||◌, List, [], ◌∷◌, Option, none, some, ℤ, pos,
  ltb_ℤ, eqb, leb, contains, length,
}
use gh_agent_broker.Capability.Store.{sort_strings}

abbrev pub version_text : String
version_text = "broker/push-tripwire/v1"

abbrev pub zero_sha : String
zero_sha = "0000000000000000000000000000000000000000"

pub record MaterialRequest : Type 0 where
  pub version : String
  pub delivery_id : String
  pub repository : String
  pub ref : String
  pub before : String
  pub after : String

pub record Binding : Type 0 where
  pub worker_id : String
  pub logical_session_id : String
  pub session_lineage_id : String
  pub worker_storage_lineage_id : String
  pub worker_fence_epoch : ℤ

pub record ResponseRequest : Type 0 where
  pub version : String
  pub finding_id : String
  pub delivery_id : String
  pub repository : String
  pub ref : String
  pub before : String
  pub after : String
  pub severity : String
  pub reason_code : String
  pub fingerprint_id : String
  pub profile : String
  pub profile_generation : ℤ
  pub binding : Option Binding
  pub actions : List String

-- What the package takes from its libraries.
pub record Libraries : Type 0 where
  pub is_id : String → Bool
  pub is_repo : String → Bool
  pub is_ref : String → Bool
  pub is_sha : String → Bool
  pub is_profile : String → Bool
  -- the text after the prefix, where it has it
  pub after_prefix : String → String → Option String
  -- the SHA-256 of the JSON of a request
  pub digest : ResponseRequest → String

module _ (l : Libraries) where
  unfoldable pub validate_material : MaterialRequest → Bool
  validate_material r =
      r.version == version_text
      && l.is_id r.delivery_id
      && l.is_repo r.repository
      && l.is_ref r.ref
      && l.is_sha r.before
      && l.is_sha r.after
      && not (r.after == zero_sha)

  unfoldable pub authenticate : String → String → Bool
  authenticate header secret = elim (l.after_prefix "Bearer " header) [
    | none ↦ false
    | some provided ↦ not (secret == "") && eqb (len provided) (len secret) && provided == secret
  ]

  unfoldable pub validate_identity : ResponseRequest → Bool
  validate_identity r =
      r.version == version_text
      && l.is_id r.finding_id
      && l.is_id r.delivery_id
      && l.is_repo r.repository
      && l.is_ref r.ref
      && l.is_sha r.before
      && l.is_sha r.after
      && (r.severity == "high" || r.severity == "low")
      && l.is_id r.reason_code
      && (r.fingerprint_id == "" || l.is_id r.fingerprint_id)
      && l.is_profile r.profile
      && ltb_ℤ (pos 0) r.profile_generation
      && leb 1 (length r.actions)
      && leb (length r.actions) 2

  -- The loop over the actions, `seen` the ones before.
  unfoldable pub validate_actions : List String → List String → Bool
  validate_actions seen [] = true
  validate_actions seen (action ∷ actions) =
      not (contains seen action)
      && (action == "halt_issuance" || action == "fence_worker_session")
      && validate_actions (action ∷ seen) actions

  unfoldable pub validate_binding : Option Binding → Bool
  validate_binding none = false
  validate_binding (some b) =
      l.is_id b.worker_id
      && l.is_id b.logical_session_id
      && l.is_id b.session_lineage_id
      && l.is_id b.worker_storage_lineage_id
      && ltb_ℤ (pos 0) b.worker_fence_epoch

  unfoldable pub validate_response : ResponseRequest → Bool
  unfolding validate_identity validate_actions validate_binding
  validate_response r =
      validate_identity r
      && validate_actions [] r.actions
      && (not (contains r.actions "fence_worker_session") || validate_binding r.binding)

  unfoldable pub fingerprint : ResponseRequest → String
  fingerprint r = l.digest (record r { actions = sort_strings r.actions })
