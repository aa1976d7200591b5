-- ===== src/Release/Trace.antt =====
-- internal/release/release.go: the registry under any sequence of its operations, each of them one
-- transaction. `VerifyAndMarkAvailable` and `Reconcile` are the sequences of those that they call.
use gh_agent_broker.Prelude.{
  ℕ, ◌≤◌, String, Bool, true, false, not, ◌&&◌, ◌||◌, List, [], ◌∷◌, Tx, ◌≡◌, eqb, all_of,
}
use gh_agent_broker.Release.Registry.{
  Operation, verify_op, acquire_op, promote_op, rollback_op, State, active, superseded, rolled_back,
  is_candidate, Provenance, Release, Requirements, AuditEntry, Registry,
}
use gh_agent_broker.Release.Operations.{Patterns, publish_candidate, verify, mark_available}
use gh_agent_broker.Release.Activation.{promote, rollback}
use gh_agent_broker.Release.Rows.{Numbered, active_count}

pub data Call : Type 0 where
  publishing : Tx → ℕ → String → String → Provenance → String → Call
  verifying : Tx → ℕ → ℕ → Requirements → String → Call
  marking : Tx → ℕ → ℕ → Bool → String → Call
  promoting : Tx → ℕ → ℕ → String → Call
  returning : Tx → ℕ → String → ℕ → String → Call

unfoldable pub step : Patterns → Registry → Call → Registry
step p reg (publishing tx now type reference provenance actor) =
    (publish_candidate p reg tx now type reference provenance actor).1
step p reg (verifying tx now g req actor) = (verify reg tx now g req actor).1
step p reg (marking tx now g available actor) = (mark_available reg tx now g available actor).1
step p reg (promoting tx now g actor) = (promote reg tx now g actor).1
step p reg (returning tx now type g actor) = (rollback reg tx now type g actor).1

unfoldable pub run : Patterns → Registry → List Call → Registry
run p reg [] = reg
run p reg (c ∷ calls) = run p (step p reg c) calls

abbrev pub is_verify : Operation → Bool
is_verify verify_op = true
is_verify _ = false

abbrev pub is_acquire : Operation → Bool
is_acquire acquire_op = true
is_acquire _ = false

abbrev pub is_activation : Operation → Bool
is_activation promote_op = true
is_activation rollback_op = true
is_activation _ = false

-- The audit has such an entry of the generation.
unfoldable pub has_entry : (Operation → Bool) → ℕ → List AuditEntry → Bool
has_entry p g [] = false
has_entry p g (a ∷ entries) = (eqb a.generation g && p a.operation) || has_entry p g entries

-- The release was in use: it is or was active.
abbrev pub in_use : State → Bool
in_use active = true
in_use superseded = true
in_use rolled_back = true
in_use _ = false

-- What the audit must show of a release.
abbrev pub traced : List AuditEntry → Release → Bool
traced entries r =
    (is_candidate r.state || has_entry is_verify r.generation entries)
    && (not (in_use r.state) || has_entry is_activation r.generation entries)
    && (not r.available || has_entry is_acquire r.generation entries)

-- Generations grow, each agent type has at most one active release, and the audit shows what each
-- release went through.
pub record IsOrderly (reg : Registry) : Type 0 where
  pub numbered : Numbered 1 reg.releases reg.next_generation
  pub single : (type : String) → active_count type reg.releases ≤ 1
  pub audited : all_of (traced reg.audit) reg.releases ≡ true
