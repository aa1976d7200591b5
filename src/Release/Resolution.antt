-- ===== src/Release/Resolution.antt =====
-- internal/release/release.go: what `Resolve`, `Promote` and `Rollback` promise of an orderly registry.
use gh_agent_broker.Prelude.{
  ℕ, ◌≤◌, ◌<◌, String, ◌≡◌, ◌≢◌, ◌↔◌, inl, inr, refl, arith, eq_iff, true, List, some, Tx, healthy,
  ok, Option-cases,
}
use gh_agent_broker.Release.Registry.{
  verified, active, rolled_back, Release, Registry, scan, by_generation, by_active, update_release,
  record_audit, load, active_release, resolve, found_release, empty_registry,
}
use gh_agent_broker.Release.Operations.{Patterns}
use gh_agent_broker.Release.Activation.{
  supersede, promote_checked, promote, retire, rollback_checked, rollback,
}
use gh_agent_broker.Release.Rows.{active_count, by_generation-update_release, by_active_found}
use gh_agent_broker.Release.Outcomes.{IsRow, IsBelow}
use gh_agent_broker.Release.Trace.{
  Call, run, is_verify, is_acquire, is_activation, has_entry, IsOrderly,
}
use gh_agent_broker.Release.Orderly.{run-IsOrderly}
use gh_agent_broker.Release.Activated.{row-traced}

-- What the registry shows of a release that may be launched.
pub record IsLaunchable (reg : Registry) (type : String) (r : Release) : Type 0 where
  pub same_type : r.agent_type ≡ type
  pub live : r.state ≡ active
  pub present : r.available ≡ true
  pub verification : has_entry is_verify r.generation reg.audit ≡ true
  pub activation : has_entry is_activation r.generation reg.audit ≡ true
  pub acquisition : has_entry is_acquire r.generation reg.audit ≡ true
  pub alone : active_count type reg.releases ≤ 1

pub resolve_row :
    (reg : Registry) (tx : Tx) (type : String) (r : Release)
    → resolve reg tx type ≡ ok r
    → (row : Release) × (by_active type reg.releases ≡ some row)
      × (r ≡ scan row)
      × (row.available ≡ true)
unfolding resolve active_release found_release scan
resolve_row reg tx type r h = elim (Option-cases (by_active type reg.releases)) [
  | inl free ↦ absurd (ground arith)
  | inr (row, held) ↦ (row, held, ground arith, ground arith)
]

launchable :
    (reg : Registry) (tx : Tx) (type : String) (r : Release)
    → IsOrderly reg
    → resolve reg tx type ≡ ok r
    → IsLaunchable reg type r
unfolding scan
launchable reg tx type r h e =
    let (row, held, read, av) = resolve_row reg tx type r e in
    let (found, same, live, low) =
      by_active_found type 1 reg.next_generation reg.releases row h.numbered held in
    ground (arith, h.single type, row-traced reg h row.generation row found)

-- After any sequence of operations and failures on the empty registry, a release that `Resolve`
-- returns is of the type asked for, active and locally available, the only active one of its type,
-- and the audit has entries of its verification, of its promotion or rollback, and of its acquisition.
pub resolve-run :
    (p : Patterns) (calls : List Call) (tx : Tx) (type : String) (r : Release)
    → resolve (run p empty_registry calls) tx type ≡ ok r
    → IsLaunchable (run p empty_registry calls) type r
resolve-run p calls tx type r =
    launchable (run p empty_registry calls) tx type r (run-IsOrderly p calls)

-- The release that may be promoted.
pub record IsPromotable (reg : Registry) (g : ℕ) (row : Release) : Type 0 where
  pub found : IsRow reg g row
  pub verified_state : row.state ≡ verified
  pub present : row.available ≡ true
  pub newer : IsBelow g (by_active row.agent_type reg.releases)

promote_allowed :
    (reg : Registry) (now g : ℕ) (actor : String) (row : Release)
    → actor ≢ ""
    → IsPromotable reg g row
    → (promote reg healthy now g actor).0 ≡ ok tt
unfolding promote promote_checked load found_release scan supersede
promote_allowed reg now g actor row named p =
    elim (Option-cases (by_active row.agent_type reg.releases)) [
      | inl free ↦ ground (arith, p.found, free, eq_iff actor "")
      | inr (current, held) ↦ ground (arith, p.found, held, p.newer, eq_iff actor "")
    ]

promote_needs :
    (reg : Registry) (now g : ℕ) (actor : String)
    → (promote reg healthy now g actor).0 ≡ ok tt
    → (actor ≢ "") × ((row : Release) × IsPromotable reg g row)
unfolding promote promote_checked load found_release scan supersede
promote_needs reg now g actor h = elim (Option-cases (by_generation g reg.releases)) [
  | inl gone ↦ absurd (ground arith)
  | inr (row, found) ↦ elim (Option-cases (by_active row.agent_type reg.releases)) [
    | inl free ↦ (ground (arith, eq_iff actor ""), (row, ground (arith, free)))
    | inr (current, held) ↦ (ground (arith, eq_iff actor ""), (row, ground (arith, held)))
  ]
]

-- Where nothing fails, `Promote` succeeds exactly for an actor with a name and a generation that is
-- there, verified, locally available and newer than the active one of its type, if there is one.
pub promote_iff :
    (reg : Registry) (now g : ℕ) (actor : String)
    → ((promote reg healthy now g actor).0 ≡ ok tt)
      ↔ ((actor ≢ "") × ((row : Release) × IsPromotable reg g row))
promote_iff reg now g actor =
    (promote_needs reg now g actor, λ h. promote_allowed reg now g actor h.1.0 h.0 h.1.1)

-- `Rollback` of a type to a generation that is newer than its active one and was never promoted
-- succeeds, where it is verified and locally available, and makes it active.
pub rollback_forward :
    (reg : Registry) (now : ℕ) (type : String) (g : ℕ) (actor : String) (row current : Release)
    → IsOrderly reg
    → actor ≢ ""
    → IsRow reg g row
    → row.agent_type ≡ type
    → row.state ≡ verified
    → row.available ≡ true
    → by_active type reg.releases ≡ some current
    → current.generation < g
    → ((rollback reg healthy now type g actor).0 ≡ ok tt)
      × IsRow
          (rollback reg healthy now type g actor).1
          g
          (record row { state = active; updated_at = now })
unfolding rollback rollback_checked load found_release scan retire record_audit
rollback_forward reg now type g actor row current h named found same s av held newer = ground (
  arith,
  found,
  same,
  s,
  av,
  held,
  eq_iff actor "",
  eq_iff row.agent_type type,
  by_generation-update_release (λ r. record r { state = rolled_back; updated_at = now }) (λ r. refl)
      current.generation g reg.releases,
  by_generation-update_release (λ r. record r { state = active; updated_at = now }) (λ r. refl) g g
      (update_release current.generation (λ r. record r { state = rolled_back; updated_at = now })
        reg.releases),
)
