-- ===== src/Release/Orderly.antt =====
-- internal/release/release.go: every operation keeps the registry orderly.
use gh_agent_broker.Prelude.{
  ℕ, ◌+◌, String, ◌≡◌, ◌⊎◌, inl, inr, refl, arith, Bool, List, [], ◌∷◌, ◌++◌, if◌then◌else◌,
}
use gh_agent_broker.Release.Registry.{
  candidate, verified, superseded, rolled_back, verify_op, acquire_op, evict_op, promote_op,
  rollback_op, publish_op, Provenance, Release, AuditEntry, Registry, record_audit, empty_registry,
}
use gh_agent_broker.Release.Operations.{Patterns, published, set_state, set_available}
use gh_agent_broker.Release.Rows.{
  active_count, Numbered-append, active_count-append, by_generation-of,
}
use gh_agent_broker.Release.Outcomes.{
  IsRow, verify_cases, mark_cases, promote_cases, rollback_cases, publish_cases,
}
use gh_agent_broker.Release.Trace.{
  Call, publishing, verifying, marking, promoting, returning, step, run, traced, IsOrderly,
}
use gh_agent_broker.Release.Traced.{all_traced-append, audit-IsOrderly, all_of-append}
use gh_agent_broker.Release.Activated.{
  entry_of, update-IsOrderly, traced-verified, traced-available, row-traced, activated-IsOrderly,
}

module _ (reg : Registry) (h : IsOrderly reg) where
  published-IsOrderly :
      (now : ℕ) (type reference digest : String) (provenance : Provenance) (actor : String)
      → IsOrderly (
          record_audit
            (record reg {
              releases = reg.releases ++ published reg now type reference digest provenance ∷ [];
              next_generation = reg.next_generation + 1;
            })
            reg.next_generation
            type
            publish_op
            actor
            reference
            now)
  unfolding record_audit published
  published-IsOrderly now type reference digest provenance actor =
      let row = published reg now type reference digest provenance in
      let entry : AuditEntry = entry_of reg.next_generation type publish_op actor reference now in
      record {
        numbered = Numbered-append 1 reg.releases row reg.next_generation h.numbered refl;
        single = λ t. ground (arith, h.single t, active_count-append t reg.releases row);
        audited =
            all_of-append (traced (reg.audit ++ entry ∷ [])) reg.releases row
              (all_traced-append reg.audit (entry ∷ []) reg.releases h.audited) refl;
      }

  verified-IsOrderly :
      (now g : ℕ) (row : Release) (actor : String)
      → IsRow reg g row
      → (row.state ≡ candidate) ⊎ (row.state ≡ verified)
      → IsOrderly (
          record_audit
            (set_state g verified now reg)
            g
            row.agent_type
            verify_op
            actor
            row.image_digest
            now)
  unfolding record_audit
  verified-IsOrderly now g row actor found early =
      let entry : AuditEntry = entry_of g row.agent_type verify_op actor row.image_digest now in
      update-IsOrderly (record reg { audit = reg.audit ++ entry ∷ [] }) g row
        (λ r. record r { state = verified; updated_at = now }) (audit-IsOrderly reg (entry ∷ []) h)
        found (λ r. refl)
        (traced-verified reg.audit row (row-traced reg h g row found) g
          (by_generation-of g reg.releases row found) row.agent_type actor row.image_digest now
          (ground arith))
        (λ t. ground (arith, h.single t))

  marked-IsOrderly :
      (now g : ℕ) (row : Release) (available : Bool) (actor : String)
      → IsRow reg g row
      → IsOrderly (
          record_audit
            (set_available g available now reg)
            g
            row.agent_type
            (if available then acquire_op else evict_op)
            actor
            row.image_digest
            now)
  unfolding record_audit
  marked-IsOrderly now g row available actor found =
      let entry : AuditEntry =
        entry_of g row.agent_type (if available then acquire_op else evict_op) actor
          row.image_digest now in
      update-IsOrderly (record reg { audit = reg.audit ++ entry ∷ [] }) g row
        (λ r. record r { available = available; updated_at = now })
        (audit-IsOrderly reg (entry ∷ []) h) found (λ r. refl)
        (traced-available reg.audit row (row-traced reg h g row found) g
          (by_generation-of g reg.releases row found) row.agent_type actor row.image_digest now
          available)
        (λ t. ground (arith, h.single t))

pub step-IsOrderly :
    (p : Patterns) (reg : Registry) (c : Call) → IsOrderly reg → IsOrderly (step p reg c)
unfolding step
step-IsOrderly p reg (publishing tx now type reference provenance actor) h =
    elim (publish_cases p reg tx now type reference provenance actor) [
      | inl same ↦ rw (same, step) h
      | inr (digest, e) ↦
          rw (e, step) (published-IsOrderly reg h now type reference digest provenance actor)
    ]
step-IsOrderly p reg (verifying tx now g req actor) h = elim (verify_cases reg tx now g req actor) [
  | inl same ↦ rw (same, step) h
  | inr (row, found, early, e) ↦ rw (e, step) (verified-IsOrderly reg h now g row actor found early)
]
step-IsOrderly p reg (marking tx now g available actor) h =
    elim (mark_cases reg tx now g available actor) [
      | inl same ↦ rw (same, step) h
      | inr (row, found, e) ↦ rw (e, step) (marked-IsOrderly reg h now g row available actor found)
    ]
step-IsOrderly p reg (promoting tx now g actor) h = elim (promote_cases reg tx now g actor) [
  | inl same ↦ rw (same, step) h
  | inr (row, found, s, av, below, e) ↦
      rw (e, step)
        (activated-IsOrderly reg h superseded row.agent_type now g row promote_op actor
          row.image_digest refl refl refl found refl (ground arith) (ground arith))
]
step-IsOrderly p reg (returning tx now type g actor) h =
    elim (rollback_cases reg tx now type g actor) [
      | inl same ↦ rw (same, step) h
      | inr (row, found, same, s, av, e) ↦
          rw (e, step)
            (activated-IsOrderly reg h rolled_back type now g row rollback_op actor row.image_digest
              refl refl refl found same (ground arith) (ground arith))
    ]

empty-IsOrderly : IsOrderly empty_registry
unfolding active_count
empty-IsOrderly = record { numbered = omega arith; single = λ t. omega arith; audited = refl }

run_from :
    (p : Patterns) (reg : Registry) (calls : List Call)
    → IsOrderly reg
    → IsOrderly (run p reg calls)
unfolding run
run_from p reg [] h = h
run_from p reg (c ∷ calls) h = run_from p (step p reg c) calls (step-IsOrderly p reg c h)

-- From the empty registry, over any sequence of operations and failures: the generations grow and
-- stay below the counter; each agent type has at most one active release; and the audit has an
-- entry of a verification for each release that is no candidate, of a promotion or a rollback for
-- each that is or was active, and of an acquisition for each that is available.
pub run-IsOrderly : (p : Patterns) (calls : List Call) → IsOrderly (run p empty_registry calls)
run-IsOrderly p calls = run_from p empty_registry calls empty-IsOrderly
