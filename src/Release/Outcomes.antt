-- ===== src/Release/Outcomes.antt =====
-- internal/release/release.go: what each operation does to the tables, by its outcome.
use gh_agent_broker.Prelude.{
  ℕ, ◌+◌, ◌<◌, String, ◌≡◌, ◌⊎◌, inl, inr, refl, arith, eq_iff, Bool, true, [], ◌∷◌, ◌++◌, Option,
  none, some, Result, ok, Tx, if◌then◌else◌, Option-cases, Result-cases,
}
use gh_agent_broker.Release.Registry.{
  Error, State, candidate, verified, active, superseded, rolled_back, publish_op, verify_op,
  acquire_op, promote_op, rollback_op, evict_op, Provenance, Release, Requirements, Registry, scan,
  by_generation, by_active, load, found_release, record_audit,
}
use gh_agent_broker.Release.Operations.{
  Patterns, digest_of, published, publish_checked, publish_candidate, set_state, verify_checked,
  verify, set_available, mark_checked, mark_available,
}
use gh_agent_broker.Release.Activation.{
  supersede, promote_checked, promote, may_return, retire, rollback_checked, rollback,
}

abbrev pub Outcome : Type 0
Outcome = Result {0, 0} Error (Unit {0}) × Registry

-- The row that `generation = g` finds.
abbrev pub IsRow : Registry → ℕ → Release → Type 0
IsRow reg g row = by_generation g reg.releases ≡ some row

pub verify_cases :
    (reg : Registry) (tx : Tx) (now g : ℕ) (req : Requirements) (actor : String)
    → ((verify reg tx now g req actor).1 ≡ reg)
      ⊎ ((row : Release) × IsRow reg g row
          × ((row.state ≡ candidate) ⊎ (row.state ≡ verified))
          × (verify reg tx now g req actor ≡ (
            ok tt,
            record_audit
                (set_state g verified now reg)
                g
                row.agent_type
                verify_op
                actor
                row.image_digest
                now,
          )))
unfolding verify verify_checked load found_release scan
verify_cases reg tx now g req actor = elim (Result-cases (verify_checked reg tx now g req actor)) [
  | inr (x, e) ↦ inl (rw e refl)
  | inl (out, e) ↦ elim (Option-cases (by_generation g reg.releases)) [
    | inl gone ↦ inl (ground arith)
    | inr (row, found) ↦ inr (row, found, ground arith, ground arith)
  ]
]

pub mark_cases :
    (reg : Registry) (tx : Tx) (now g : ℕ) (available : Bool) (actor : String)
    → ((mark_available reg tx now g available actor).1 ≡ reg)
      ⊎ ((row : Release) × IsRow reg g row
          × (mark_available reg tx now g available actor ≡ (
            ok tt,
            record_audit
                (set_available g available now reg)
                g
                row.agent_type
                (if available then acquire_op else evict_op)
                actor
                row.image_digest
                now,
          )))
unfolding mark_available mark_checked load found_release scan
mark_cases reg tx now g available actor =
    elim (Result-cases (mark_checked reg tx now g available actor)) [
      | inr (x, e) ↦ inl (rw e refl)
      | inl (out, e) ↦ elim (Option-cases (by_generation g reg.releases)) [
        | inl gone ↦ inl (ground arith)
        | inr (row, found) ↦ inr (row, found, ground arith)
      ]
    ]

-- The tables with the active release of the type, if there is one, in the state `s`.
abbrev pub displaced : State → Registry → String → ℕ → Registry
displaced s reg type now = elim (by_active type reg.releases) [
  | none ↦ reg
  | some current ↦ set_state current.generation s now reg
]

abbrev pub IsBelow : ℕ → Option Release → Type 0
IsBelow g none = Unit
IsBelow g (some current) = current.generation < g

pub promote_cases :
    (reg : Registry) (tx : Tx) (now g : ℕ) (actor : String)
    → ((promote reg tx now g actor).1 ≡ reg)
      ⊎ ((row : Release) × IsRow reg g row
          × (row.state ≡ verified)
          × (row.available ≡ true)
          × IsBelow g (by_active row.agent_type reg.releases)
          × (promote reg tx now g actor ≡ (
            ok tt,
            record_audit
                (set_state g active now (displaced superseded reg row.agent_type now))
                g
                row.agent_type
                promote_op
                actor
                row.image_digest
                now,
          )))
unfolding promote promote_checked load found_release scan supersede
promote_cases reg tx now g actor = elim (Result-cases (promote_checked reg tx now g actor)) [
  | inr (x, e) ↦ inl (rw e refl)
  | inl (out, e) ↦ elim (Option-cases (by_generation g reg.releases)) [
    | inl gone ↦ inl (ground arith)
    | inr (row, found) ↦ elim (Option-cases (by_active row.agent_type reg.releases)) [
      | inl free ↦ inr (row, found, ground arith, ground arith, ground arith, ground arith)
      | inr (current, held) ↦
          inr (row, found, ground arith, ground arith, ground arith, ground arith)
    ]
  ]
]

pub rollback_cases :
    (reg : Registry) (tx : Tx) (now : ℕ) (type : String) (g : ℕ) (actor : String)
    → ((rollback reg tx now type g actor).1 ≡ reg)
      ⊎ ((row : Release) × IsRow reg g row
          × (row.agent_type ≡ type)
          × (may_return row.state ≡ true)
          × (row.available ≡ true)
          × (rollback reg tx now type g actor ≡ (
            ok tt,
            record_audit
                (set_state g active now (displaced rolled_back reg type now))
                g
                type
                rollback_op
                actor
                row.image_digest
                now,
          )))
unfolding rollback rollback_checked load found_release scan retire
rollback_cases reg tx now type g actor =
    elim (Result-cases (rollback_checked reg tx now type g actor)) [
      | inr (x, e) ↦ inl (rw e refl)
      | inl (out, e) ↦ elim (Option-cases (by_generation g reg.releases)) [
        | inl gone ↦ inl (ground arith)
        | inr (row, found) ↦ elim (Option-cases (by_active type reg.releases)) [
          | inl free ↦ inr (
            row,
            found,
            ground (arith, eq_iff row.agent_type type),
            ground arith,
            ground arith,
            ground arith,
          )
          | inr (current, held) ↦ inr (
            row,
            found,
            ground (arith, eq_iff row.agent_type type),
            ground arith,
            ground arith,
            ground arith,
          )
        ]
      ]
    ]

pub publish_cases :
    (p : Patterns) (reg : Registry) (tx : Tx) (now : ℕ) (type reference : String)
    (provenance : Provenance) (actor : String)
    → ((publish_candidate p reg tx now type reference provenance actor).1 ≡ reg)
      ⊎ ((digest : String) × ((publish_candidate p reg tx now type reference provenance actor).1
            ≡ record_audit
                (record reg {
                  releases =
                      reg.releases ++ published reg now type reference digest provenance ∷ [];
                  next_generation = reg.next_generation + 1;
                })
                reg.next_generation
                type
                publish_op
                actor
                reference
                now))
unfolding publish_candidate publish_checked
publish_cases p reg tx now type reference provenance actor =
    elim (Result-cases (publish_checked p reg tx now type reference provenance actor)) [
      | inr (x, e) ↦ inl (rw e refl)
      | inl (out, e) ↦ elim (Result-cases (digest_of p reference)) [
        | inr (x, bad) ↦ inl (ground arith)
        | inl (digest, fine) ↦ inr (digest, ground arith)
      ]
    ]
