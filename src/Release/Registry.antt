-- ===== src/Release/Registry.antt =====
-- internal/release/release.go: a release, the tables of the registry and the reads of them. The rows
-- of a table stand in the order of their ids. A time is in nanoseconds since Go's zero time.
use gh_agent_broker.Prelude.{
  ℕ, String, ◌==◌, Bool, true, false, ◌&&◌, List, [], ◌∷◌, ◌++◌, Option, none, some, eqb, ltb,
  Result, ok, err, require, Tx, ◌>>=◌, ◌>>◌, if◌then◌else◌,
}
use gh_agent_broker.Capability.Handle.{year_10000}

pub data Error : Type 0 where
  invalid_agent_type invalid_reference missing_actor not_found no_active_release : Error
  unavailable not_promotable not_monotonic requirement wrong_agent_type acquire_failed : Error
  check_failed storage : Error

pub data State : Type 0 where
  candidate verified active superseded rolled_back : State

pub data Operation : Type 0 where
  publish_op verify_op acquire_op promote_op rollback_op evict_op : Operation

pub record Provenance : Type 0 where
  pub source_revision : String
  pub dependency_manifest_sha256 : String
  pub platform : String
  pub published_by : String
  pub published_at : String

pub record Release : Type 0 where
  pub generation : ℕ
  pub agent_type : String
  pub image_reference : String
  pub image_digest : String
  pub provenance : Provenance
  pub state : State
  pub available : Bool
  pub created_at : ℕ
  pub updated_at : ℕ

pub record Requirements : Type 0 where
  pub provenance_fields : List String
  pub platforms : List String

pub record AuditEntry : Type 0 where
  pub generation : ℕ
  pub agent_type : String
  pub operation : Operation
  pub actor : String
  pub detail : String
  pub recorded_at : ℕ

-- The two tables and the counter of generations (AUTOINCREMENT).
pub record Registry : Type 0 where
  pub releases : List Release
  pub audit : List AuditEntry
  pub next_generation : ℕ

abbrev pub empty_registry : Registry
empty_registry = record { releases = []; audit = []; next_generation = 1 }

abbrev pub is_active : State → Bool
is_active active = true
is_active _ = false

abbrev pub is_verified : State → Bool
is_verified verified = true
is_verified _ = false

abbrev pub is_candidate : State → Bool
is_candidate candidate = true
is_candidate _ = false

-- The zero time where the stored text is not parsed.
unfoldable pub parse_time : ℕ → ℕ
parse_time t = if ltb t year_10000 then t else 0

-- A row as it is read.
unfoldable pub scan : Release → Release
unfolding parse_time
scan r = record r { created_at = parse_time r.created_at; updated_at = parse_time r.updated_at }

-- WHERE generation = ?
unfoldable pub by_generation : ℕ → List Release → Option Release
by_generation g [] = none
by_generation g (r ∷ rs) =
    let later = by_generation g rs in if eqb r.generation g then some r else later

-- WHERE agent_type = ? AND state = 'active'
unfoldable pub by_active : String → List Release → Option Release
by_active type [] = none
by_active type (r ∷ rs) =
    let later = by_active type rs in
    if r.agent_type == type && is_active r.state then some r else later

-- WHERE agent_type = ? AND image_digest = ?
unfoldable pub by_digest : String → String → List Release → Option Release
by_digest type digest [] = none
by_digest type digest (r ∷ rs) =
    let later = by_digest type digest rs in
    if r.agent_type == type && r.image_digest == digest then some r else later

-- UPDATE … WHERE generation = ?
unfoldable pub update_release : ℕ → (Release → Release) → List Release → List Release
update_release g f [] = []
update_release g f (r ∷ rs) = (if eqb r.generation g then f r else r) ∷ update_release g f rs

unfoldable pub found_release : Error → Option Release → Result Error Release
unfolding scan
found_release e none = err e
found_release e (some r) = ok (scan r)

unfoldable pub load : Registry → Tx → ℕ → Result Error Release
unfolding found_release
load reg tx g = do
  require tx.queries storage
  found_release not_found (by_generation g reg.releases)

unfoldable pub active_release : Registry → Tx → String → Result Error Release
unfolding found_release
active_release reg tx type = do
  require tx.queries storage
  found_release no_active_release (by_active type reg.releases)

-- `Resolve`: what a launch of the agent type must use.
unfoldable pub resolve : Registry → Tx → String → Result Error Release
resolve reg tx type = do
  item ← active_release reg tx type
  require item.available unavailable
  ok item

unfoldable pub record_audit : Registry → ℕ → String → Operation → String → String → ℕ → Registry
record_audit reg g type operation actor detail now = record reg {
  audit =
      reg.audit
      ++ record {
        generation = g;
        agent_type = type;
        operation = operation;
        actor = actor;
        detail = detail;
        recorded_at = now;
      }
        ∷ [];
}

-- `AuditTrail`: the entries of a generation, the oldest one first.
unfoldable pub audit_of : ℕ → List AuditEntry → List AuditEntry
audit_of g [] = []
audit_of g (a ∷ entries) =
    let later = audit_of g entries in
    if eqb a.generation g
    then record a { recorded_at = parse_time a.recorded_at } ∷ later
    else later
