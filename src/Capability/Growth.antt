-- ===== src/Capability/Growth.antt =====
-- How a call changes the row of one capability.
use gh_agent_broker.Prelude.{
  ℕ, ◌+◌, String, ◌==◌, ◌≡◌, inl, inr, refl, subst, arith, eq_iff, none, some, pos_part, ok,
  Result-cases, Bool-cases, lookup, insert, lookup-insert,
}
use gh_agent_broker.Capability.Claims.{Time, new_claims}
use gh_agent_broker.Capability.Evaluator.{Request}
use gh_agent_broker.Capability.Handle.{Handle}
use gh_agent_broker.Capability.Store.{revoked, Row, Rows, Reservation}
use gh_agent_broker.Capability.Budget.{IsSound, AllSound, IsReserved, reserve_row-IsSound}
use gh_agent_broker.Capability.Atomic.{issue_cases, reserve_cases, revoke_cases}
use gh_agent_broker.Capability.Trace.{
  Call, mint, spend, cancel, issue_minted, step, amount, granted,
}
use gh_agent_broker.Capability.Minted.{issue_row_inserts, fresh_row}

-- The row of a capability after a call: only the reservation grows, by what was granted, and a
-- revoked capability stays revoked and is granted nothing.
pub record Follows (row : Row) (g : ℕ × ℕ) (row' : Row) : Type 0 where
  pub stored : row'.stored ≡ row.stored
  pub calls : pos_part row'.reservation.calls ≡ pos_part row.reservation.calls + g.0
  pub tokens : pos_part row'.reservation.tokens ≡ pos_part row.reservation.tokens + g.1
  pub final : row.state ≡ revoked → (row'.state ≡ revoked) × (g.0 ≡ 0) × (g.1 ≡ 0)

pub Follows-refl : (row : Row) → Follows row (0, 0) row
Follows-refl row = record {
  stored = refl;
  calls = omega arith;
  tokens = omega arith;
  final = λ r. (r, refl, refl);
}

-- The row under `d`, which was `row` before a call that left `rows'`.
abbrev pub Continues : Rows → String → Row → ℕ × ℕ → Type 0
Continues rows' d row g = (row' : Row) × (lookup d rows' ≡ some row') × Follows row g row'

IsReserved-Follows :
    (rows : Rows) (digest : String) (req : Request) (stamp : Time) (out : Reservation × Rows)
    (row : Row)
    → IsReserved rows digest req stamp out row
    → Follows row
        (pos_part req.calls, pos_part req.tokens)
        (record row { reservation = out.0; updated_at = stamp })
IsReserved-Follows rows digest req stamp out row r = ground arith

found_twice :
    (rows : Rows) (k d : String) (v w : Row)
    → k ≡ d
    → lookup k rows ≡ some v
    → lookup d rows ≡ some w
    → v ≡ w
found_twice rows k d v w e f g = cc

module _ (rows : Rows) (sound : AllSound rows) (digest : String) (req : Request) (stamp : Time)
    (out : Reservation × Rows) (touched : Row) (s : IsSound touched)
    (r : IsReserved rows digest req stamp out touched) where
  spent-Continues :
      (d : String) (row : Row)
      → lookup d rows ≡ some row
      → Continues out.1 d row (amount d digest req (ok out.0))
  unfolding amount
  spent-Continues d row at = elim (Bool-cases (digest == d)) [
    | inr ne ↦
        rw (ne, r.rows_after)
          (
            row,
            ground (
              arith,
              lookup-insert digest d (record touched { reservation = out.0; updated_at = stamp })
                  rows,
            ),
            Follows-refl row,
          )
    | inl same ↦
        rw (same, r.rows_after)
          (
            record touched { reservation = out.0; updated_at = stamp },
            ground (
              arith,
              lookup-insert digest d (record touched { reservation = out.0; updated_at = stamp })
                  rows,
            ),
            subst
                (λ w.
                  Follows w (pos_part req.calls, pos_part req.tokens)
                    (record touched { reservation = out.0; updated_at = stamp }))
                (found_twice rows digest d touched row ((eq_iff digest d).0 same) r.found at)
                (IsReserved-Follows rows digest req stamp out touched r),
          )
  ]

-- A row that is written under a fresh digest is not the row under `d`.
minted-Continues :
    (rows : Rows) (digest d : String) (new row : Row)
    → lookup digest rows ≡ none
    → lookup d rows ≡ some row
    → Continues (insert digest new rows) d row (0, 0)
minted-Continues rows digest d new row fresh at =
    (row, ground (arith, lookup-insert digest d new rows, eq_iff digest d), Follows-refl row)

cancelled-Continues :
    (rows : Rows) (digest d : String) (stamp : Time) (touched row : Row)
    → lookup digest rows ≡ some touched
    → lookup d rows ≡ some row
    → Continues
        (insert digest (record touched { state = revoked; updated_at = stamp }) rows)
        d
        row
        (0, 0)
cancelled-Continues rows digest d stamp touched row found at = elim (Bool-cases (digest == d)) [
  | inr ne ↦ (
    row,
    ground (
      arith,
      lookup-insert digest d (record touched { state = revoked; updated_at = stamp }) rows,
    ),
    Follows-refl row,
  )
  | inl same ↦ (
    record touched { state = revoked; updated_at = stamp },
    ground (
      arith,
      lookup-insert digest d (record touched { state = revoked; updated_at = stamp }) rows,
    ),
    subst (λ w. Follows w (0, 0) (record touched { state = revoked; updated_at = stamp }))
        (found_twice rows digest d touched row ((eq_iff digest d).0 same) found at)
        (record {
          stored = refl;
          calls = omega arith;
          tokens = omega arith;
          final = λ r. (refl, refl, refl);
        }),
  )
]

pub step-Continues :
    (hash : Handle → String) (rows : Rows) (call : Call)
    → AllSound rows
    → (d : String) (row : Row) → lookup d rows ≡ some row
    → Continues (step hash rows call) d row (granted hash rows d call)
unfolding step granted
step-Continues hash rows (mint tx now stamp raw input) sound d row at =
    elim (Result-cases (new_claims input)) [
      | inr (x, n) ↦ rw (n, issue_minted) (row, at, Follows-refl row)
      | inl (c, n) ↦ elim (issue_cases hash rows tx now stamp raw c) [
        | inl (x, e) ↦ rw n (rw (e, issue_minted) (row, at, Follows-refl row))
        | inr (out, f, e) ↦
            let (fresh, g) = issue_row_inserts hash rows tx now stamp raw c out f in
            rw n (
              rw (e, issue_minted)
                (rw g (minted-Continues rows (hash out.0) d (fresh_row c stamp) row fresh at)))
      ]
    ]
step-Continues hash rows (spend tx now stamp handle req) sound d row at =
    elim (reserve_cases hash rows tx now stamp handle req) [
      | inl (x, e) ↦ rw (e, step) (row, at, Follows-refl row)
      | inr (out, f, e) ↦
          let (touched, s, r) =
            reserve_row-IsSound rows tx now stamp (hash handle) req out sound f in
          rw (e, step) (spent-Continues rows sound (hash handle) req stamp out touched s r d row at)
    ]
step-Continues hash rows (cancel tx stamp handle) sound d row at =
    elim (revoke_cases hash rows tx stamp handle) [
      | inl (x, e) ↦ rw (e, step) (row, at, Follows-refl row)
      | inr (touched, f, e) ↦
          rw (e, step) (cancelled-Continues rows (hash handle) d stamp touched row f at)
    ]
