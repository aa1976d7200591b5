-- ===== src/Capability/Invariant.antt =====
-- Every call keeps the rows sound.
use gh_agent_broker.Prelude.{
  ℕ, String, ◌≡◌, inl, inr, ◌∙◌, sym, subst, arith, Option, List, IsInt64, ok, Tx, Result-cases,
  AllEntries-lookup, AllEntries-insert,
}
use gh_agent_broker.Capability.Claims.{Time, Claims, ClaimsInput, new_claims, allows_model}
use gh_agent_broker.Capability.Evaluator.{Request}
use gh_agent_broker.Capability.Mint.{IsWellFormed, new_claims_correct, new_claims_iff}
use gh_agent_broker.Capability.Handle.{Handle}
use gh_agent_broker.Capability.Store.{revoked, Row, Rows, Reservation, columns_of, issue_row}
use gh_agent_broker.Capability.Budget.{IsSound, AllSound, IsReserved, reserve_row-IsSound}
use gh_agent_broker.Capability.Atomic.{issue_cases, reserve_cases, revoke_cases}
use gh_agent_broker.Capability.Trace.{Call, mint, spend, cancel, IsTyped, issue_minted, step}
use gh_agent_broker.Capability.Minted.{columns_of-IsWellFormed, issue_row_inserts, fresh_row}

IsReserved-IsSound :
    (rows : Rows) (digest : String) (req : Request) (stamp : Time) (out : Reservation × Rows)
    (row : Row)
    → IsSound row
    → IsReserved rows digest req stamp out row
    → IsSound (record row { reservation = out.0; updated_at = stamp })
IsReserved-IsSound rows digest req stamp out row s r = ground arith

module _ (rows : Rows) (sound : AllSound rows) (digest : String) (req : Request) (stamp : Time)
    (out : Reservation × Rows) (touched : Row) (s : IsSound touched)
    (r : IsReserved rows digest req stamp out touched) where
  spent-AllSound : AllSound out.1
  spent-AllSound = subst AllSound (sym r.rows_after) (
      AllEntries-insert (λ k w. IsSound w) digest _ rows sound
        (IsReserved-IsSound rows digest req stamp out touched s r))

cancelled-IsSound :
    (row : Row) (stamp : Time)
    → IsSound row
    → IsSound (record row { state = revoked; updated_at = stamp })
cancelled-IsSound row stamp s = ground arith

fresh-IsSound :
    (input : ClaimsInput) (c : Claims) (stamp : Time)
    → IsInt64 input.call_budget × IsInt64 input.token_budget
    → new_claims input ≡ ok c
    → IsSound (fresh_row c stamp)
unfolding columns_of allows_model
fresh-IsSound input c stamp typed n =
    let (k, m, models) = new_claims_correct input c n in
    let w : IsWellFormed input = (new_claims_iff input).0 (c, n) in
    ground (arith, columns_of-IsWellFormed c k (models "" ∙ w.no_blank), m, typed)

minted-AllSound :
    (hash : Handle → String) (rows : Rows) (sound : AllSound rows) (tx : Tx) (now stamp : Time)
    (raw : Option (List ℕ)) (input : ClaimsInput) (c : Claims) (out : Handle × Rows)
    → IsInt64 input.call_budget × IsInt64 input.token_budget
    → new_claims input ≡ ok c
    → issue_row hash rows tx now stamp raw c ≡ ok out
    → AllSound out.1
minted-AllSound hash rows sound tx now stamp raw input c out typed n h =
    let (fresh, e) = issue_row_inserts hash rows tx now stamp raw c out h in
    subst AllSound (sym e) (
      AllEntries-insert (λ k w. IsSound w) (hash out.0) _ rows sound
        (fresh-IsSound input c stamp typed n))

pub step-AllSound :
    (hash : Handle → String) (rows : Rows) (call : Call)
    → AllSound rows
    → IsTyped call
    → AllSound (step hash rows call)
unfolding step
step-AllSound hash rows (mint tx now stamp raw input) sound typed =
    elim (Result-cases (new_claims input)) [
      | inr (x, n) ↦ rw (n, issue_minted) sound
      | inl (c, n) ↦ elim (issue_cases hash rows tx now stamp raw c) [
        | inl (x, e) ↦ rw n (rw (e, issue_minted) sound)
        | inr (out, f, e) ↦ rw n (
            rw (e, issue_minted)
              (minted-AllSound hash rows sound tx now stamp raw input c out typed n f))
      ]
    ]
step-AllSound hash rows (spend tx now stamp handle req) sound typed =
    elim (reserve_cases hash rows tx now stamp handle req) [
      | inl (x, e) ↦ rw (e, step) sound
      | inr (out, f, e) ↦
          let (row, s, r) = reserve_row-IsSound rows tx now stamp (hash handle) req out sound f in
          rw (e, step) (spent-AllSound rows sound (hash handle) req stamp out row s r)
    ]
step-AllSound hash rows (cancel tx stamp handle) sound typed =
    elim (revoke_cases hash rows tx stamp handle) [
      | inl (x, e) ↦ rw (e, step) sound
      | inr (row, f, e) ↦
          rw (e, step)
            (AllEntries-insert (λ k w. IsSound w) (hash handle) _ rows sound
              (cancelled-IsSound row stamp
                (AllEntries-lookup (λ k w. IsSound w) (hash handle) rows sound f)))
    ]
