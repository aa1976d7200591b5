-- ===== src/Capability/Atomic.antt =====
-- A call of the store either fails and changes nothing, or takes effect whole.
use gh_agent_broker.Prelude.{
  ℕ, String, ◌≡◌, ◌⊎◌, inl, inr, arith, Option, some, List, Result, ok, err, Tx, Result-cases,
  Bool-cases, Option-cases, lookup, insert,
}
use gh_agent_broker.Capability.Claims.{
  Time, Claims, Error, handle_malformed, handle_not_found, storage,
}
use gh_agent_broker.Capability.Evaluator.{Request}
use gh_agent_broker.Capability.Handle.{Handle, digest_of}
use gh_agent_broker.Capability.Store.{
  Row, Rows, Reservation, revoked, issue_row, issue, reserve_row, reserve, revoke, found_row,
}

-- The call returned an error and left the rows as they were.
abbrev pub IsRefused {ℓ} : {A : Type ℓ} → Rows → Result Error A × Rows → Type ℓ
IsRefused rows out = (e : Error) × (out ≡ (err e, rows))

digest_cases :
    (hash : Handle → String) (handle : Handle)
    → (digest_of hash handle ≡ ok (hash handle)) ⊎ (digest_of hash handle ≡ err handle_malformed)
unfolding digest_of
digest_cases hash handle = ground arith

module _ (hash : Handle → String) (rows : Rows) where
  pub issue_cases :
      (tx : Tx) (now stamp : Time) (raw : Option (List ℕ)) (c : Claims)
      → IsRefused rows (issue hash rows tx now stamp raw c)
        ⊎ ((out : Handle × Rows) × (issue_row hash rows tx now stamp raw c ≡ ok out)
            × (issue hash rows tx now stamp raw c ≡ (ok out.0, out.1)))
  unfolding issue
  issue_cases tx now stamp raw c = elim (Result-cases (issue_row hash rows tx now stamp raw c)) [
    | inl (out, e) ↦ inr (out, e, rw e)
    | inr (x, e) ↦ inl (x, rw e)
  ]

  pub reserve_cases :
      (tx : Tx) (now stamp : Time) (handle : Handle) (req : Request)
      → IsRefused rows (reserve hash rows tx now stamp handle req)
        ⊎ ((out : Reservation × Rows) × (reserve_row rows tx now stamp (hash handle) req ≡ ok out)
            × (reserve hash rows tx now stamp handle req ≡ (ok out.0, out.1)))
  unfolding reserve
  reserve_cases tx now stamp handle req = elim (digest_cases hash handle) [
    | inr e ↦ inl (handle_malformed, rw e)
    | inl e ↦ elim (Result-cases (reserve_row rows tx now stamp (hash handle) req)) [
      | inl (out, f) ↦ inr (out, f, rw (e, f))
      | inr (x, f) ↦ inl (x, rw (e, f))
    ]
  ]

  pub revoke_cases :
      (tx : Tx) (stamp : Time) (handle : Handle)
      → IsRefused rows (revoke hash rows tx stamp handle)
        ⊎ ((row : Row) × (lookup (hash handle) rows ≡ some row)
            × (revoke hash rows tx stamp handle ≡ (
              ok tt,
              insert (hash handle) (record row { state = revoked; updated_at = stamp }) rows,
            )))
  unfolding revoke found_row
  revoke_cases tx stamp handle = elim (digest_cases hash handle) [
    | inr e ↦ inl (handle_malformed, rw e)
    | inl e ↦ elim (Bool-cases tx.writes) [
      | inr w ↦ inl (storage, rw (e, w))
      | inl w ↦ elim (Option-cases (lookup (hash handle) rows)) [
        | inl f ↦ inl (handle_not_found, rw (e, w, f))
        | inr (row, f) ↦ inr (row, f, rw (e, w, f))
      ]
    ]
  ]
