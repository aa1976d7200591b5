-- ===== src/Release/Activation.antt =====
-- internal/release/release.go: `Promote` and `Rollback`.
use gh_agent_broker.Prelude.{
  ℕ, String, ◌==◌, Bool, true, false, not, Option, none, some, leb, Result, ok, require, transact,
  Tx, ◌>>=◌, ◌>>◌,
}
use gh_agent_broker.Release.Registry.{
  Error, missing_actor, unavailable, not_promotable, not_monotonic, wrong_agent_type, storage,
  State, verified, active, superseded, rolled_back, promote_op, rollback_op, Release, Registry,
  is_verified, by_active, load, record_audit,
}
use gh_agent_broker.Release.Operations.{named, set_state}

-- The switch over the active release: the rows with it superseded.
unfoldable pub supersede : Registry → Option Release → ℕ → ℕ → Result Error Registry
supersede reg none g now = ok reg
supersede reg (some current) g now = do
  require (not (leb g current.generation)) not_monotonic
  ok (set_state current.generation superseded now reg)

unfoldable pub promote_checked : Registry → Tx → ℕ → ℕ → String → Result Error (Unit {0} × Registry)
unfolding record_audit supersede
promote_checked reg tx now g actor = do
  require (named actor) missing_actor
  require tx.begins storage
  item ← load reg tx g
  require (is_verified item.state) not_promotable
  require item.available unavailable
  reg' ← supersede reg (by_active item.agent_type reg.releases) g now
  require tx.writes storage
  require tx.commits storage
  ok (
    tt,
    record_audit (set_state g active now reg') g item.agent_type promote_op actor item.image_digest
        now,
  )

unfoldable pub promote : Registry → Tx → ℕ → ℕ → String → Result Error (Unit {0}) × Registry
unfolding promote_checked
promote reg tx now g actor = transact reg (promote_checked reg tx now g actor)

abbrev pub may_return : State → Bool
may_return superseded = true
may_return rolled_back = true
may_return verified = true
may_return _ = false

unfoldable pub retire : Registry → Option Release → ℕ → Registry
retire reg none now = reg
retire reg (some current) now = set_state current.generation rolled_back now reg

unfoldable pub rollback_checked :
    Registry → Tx → ℕ → String → ℕ → String → Result Error (Unit {0} × Registry)
unfolding record_audit retire
rollback_checked reg tx now type g actor = do
  require (named actor) missing_actor
  require tx.begins storage
  item ← load reg tx g
  require (item.agent_type == type) wrong_agent_type
  require item.available unavailable
  require (may_return item.state) not_promotable
  let reg' = retire reg (by_active type reg.releases) now
  require tx.writes storage
  require tx.commits storage
  ok (tt, record_audit (set_state g active now reg') g type rollback_op actor item.image_digest now)

unfoldable pub rollback :
    Registry → Tx → ℕ → String → ℕ → String → Result Error (Unit {0}) × Registry
unfolding rollback_checked
rollback reg tx now type g actor = transact reg (rollback_checked reg tx now type g actor)
