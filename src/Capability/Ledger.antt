-- ===== src/Capability/Ledger.antt =====
-- What holds of the store after any sequence of calls.
use gh_agent_broker.Prelude.{
  ℕ, ◌+◌, ◌≤◌, String, ◌≡◌, ◌∙◌, arith, true, some, List, [], ◌∷◌, pos_part, ok, err, Tx, All,
  AllEntries-lookup, lookup,
}
use gh_agent_broker.Capability.Claims.{Time, revoked_capability}
use gh_agent_broker.Capability.Handle.{Handle, digest_of}
use gh_agent_broker.Capability.Store.{revoked, Row, Rows, verify, scan_capability, found_row}
use gh_agent_broker.Capability.Budget.{IsSound, AllSound}
use gh_agent_broker.Capability.Trace.{Call, IsTyped, step, run, granted}
use gh_agent_broker.Capability.Invariant.{step-AllSound}
use gh_agent_broker.Capability.Growth.{Follows, Continues, Follows-refl, step-Continues}

-- The sum of what a sequence of calls grants.
unfoldable pub granted_in : (Handle → String) → Rows → String → List Call → ℕ × ℕ
granted_in hash rows d [] = (0, 0)
granted_in hash rows d (c ∷ calls) =
    let now = granted hash rows d c in
    let later = granted_in hash (step hash rows c) d calls in (now.0 + later.0, now.1 + later.1)

pub run-AllSound :
    (hash : Handle → String) (rows : Rows) (calls : List Call)
    → AllSound rows
    → All IsTyped calls
    → AllSound (run hash rows calls)
unfolding run
run-AllSound hash rows [] sound typed = sound
run-AllSound hash rows (c ∷ calls) sound typed =
    run-AllSound hash (step hash rows c) calls (step-AllSound hash rows c sound typed.0) typed.1

Follows-trans :
    (a b c : Row) (g h : ℕ × ℕ) → Follows a g b → Follows b h c → Follows a (g.0 + h.0, g.1 + h.1) c
Follows-trans a b c g h f k = record {
  stored = k.stored ∙ f.stored;
  calls = omega arith;
  tokens = omega arith;
  final = λ r.
      let (rb, g0, g1) = f.final r in
      let (rc, h0, h1) = k.final rb in (rc, omega arith, omega arith);
}

pub run-Continues :
    (hash : Handle → String) (rows : Rows) (calls : List Call)
    → AllSound rows
    → All IsTyped calls
    → (d : String) (row : Row) → lookup d rows ≡ some row
    → Continues (run hash rows calls) d row (granted_in hash rows d calls)
unfolding run granted_in
run-Continues hash rows [] sound typed d row at = (row, at, Follows-refl row)
run-Continues hash rows (c ∷ calls) sound typed d row at =
    let (mid, at_mid, f) = step-Continues hash rows c sound d row at in
    let (last, at_last, g) =
      run-Continues hash (step hash rows c) calls (step-AllSound hash rows c sound typed.0) typed.1
        d mid at_mid in
    (last, at_last, Follows-trans row mid last _ _ f g)

Follows-fits :
    (row : Row) (g : ℕ × ℕ) (row' : Row)
    → IsSound row'
    → Follows row g row'
    → (pos_part row.reservation.calls + g.0 ≤ pos_part row.stored.call_budget)
      × (pos_part row.reservation.tokens + g.1 ≤ pos_part row.stored.token_budget)
Follows-fits row g row' s f = ground arith

verify_revoked :
    (hash : Handle → String) (rows : Rows) (tx : Tx) (now : Time) (handle : Handle) (row : Row)
    → digest_of hash handle ≡ ok (hash handle)
    → tx.begins ≡ true
    → tx.queries ≡ true
    → lookup (hash handle) rows ≡ some row
    → row.state ≡ revoked
    → verify hash rows tx now handle ≡ err revoked_capability
unfolding verify scan_capability found_row
verify_revoked hash rows tx now handle row shape b q at r = ground arith

-- From a sound store, for any sequence of mintings, reservations and revocations on typed input: what
-- a capability holds at the start and what the sequence grants it stay together within its call
-- budget and its token budget, and its row at the end holds exactly that sum.
pub budget_respected :
    (hash : Handle → String) (rows : Rows) (calls : List Call) (d : String) (row : Row)
    → AllSound rows
    → All IsTyped calls
    → lookup d rows ≡ some row
    → (row' : Row) × (lookup d (run hash rows calls) ≡ some row')
      × (pos_part row'.reservation.calls
          ≡ pos_part row.reservation.calls + (granted_in hash rows d calls).0)
      × (pos_part row'.reservation.tokens
          ≡ pos_part row.reservation.tokens + (granted_in hash rows d calls).1)
      × (pos_part row.reservation.calls + (granted_in hash rows d calls).0
          ≤ pos_part row.stored.call_budget)
      × (pos_part row.reservation.tokens + (granted_in hash rows d calls).1
          ≤ pos_part row.stored.token_budget)
budget_respected hash rows calls d row sound typed at =
    let (last, at_last, f) = run-Continues hash rows calls sound typed d row at in
    let s : IsSound last =
      AllEntries-lookup (λ k w. IsSound w) d (run hash rows calls)
        (run-AllSound hash rows calls sound typed) at_last in
    let (c, t) = Follows-fits row (granted_in hash rows d calls) last s f in
    (last, at_last, f.calls, f.tokens, c, t)

-- A revoked capability stays revoked whatever is called: nothing more is granted to it, and `Verify`
-- of its handle fails with the error for a revoked capability, where the database answers.
pub revoked_forever :
    (hash : Handle → String) (rows : Rows) (calls : List Call) (handle : Handle) (row : Row)
    (tx : Tx) (now : Time)
    → AllSound rows
    → All IsTyped calls
    → lookup (hash handle) rows ≡ some row
    → row.state ≡ revoked
    → digest_of hash handle ≡ ok (hash handle)
    → tx.begins ≡ true
    → tx.queries ≡ true
    → (granted_in hash rows (hash handle) calls ≡ (0, 0))
      × (verify hash (run hash rows calls) tx now handle ≡ err revoked_capability)
revoked_forever hash rows calls handle row tx now sound typed at r shape b q =
    let (last, at_last, f) = run-Continues hash rows calls sound typed (hash handle) row at in
    let (s, g0, g1) = f.final r in
    (ground arith, verify_revoked hash (run hash rows calls) tx now handle last shape b q at_last s)
