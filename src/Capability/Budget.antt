-- ===== src/Capability/Budget.antt =====
-- Reservations stay within the budgets of their capability.
use gh_agent_broker.Prelude.{
  ◌+◌, ◌≤◌, String, ◌≡◌, ◌≢◌, inl, inr, refl, sym, subst, arith, some, ℤ, pos, pos_part, ◌≤ℤ◌,
  IsInt64, add64, add64_pos, ok, Tx, Result-cases, Option-cases, lookup, insert, AllEntries,
  AllEntries-lookup,
}
use gh_agent_broker.Capability.Claims.{Time}
use gh_agent_broker.Capability.Evaluator.{Request, authorize}
use gh_agent_broker.Capability.Decision.{Permits, authorize_iff}
use gh_agent_broker.Capability.Mint.{IsWellFormed, IsMintedFrom, new_claims_minted}
use gh_agent_broker.Capability.Handle.{parse_store_time}
use gh_agent_broker.Capability.Store.{
  State, revoked, active, unknown, Row, Rows, CapabilityRow, Reservation, scan_capability,
  reserve_row, record_reservation, total_of, with_held,
}

-- What every row of the store satisfies.
pub record IsSound (row : Row) : Type 0 where
  pub well_formed : IsWellFormed row.stored
  pub known : row.state ≢ unknown
  pub calls_int : IsInt64 row.stored.call_budget
  pub tokens_int : IsInt64 row.stored.token_budget
  pub calls_nonneg : pos 0 ≤ℤ row.reservation.calls
  pub tokens_nonneg : pos 0 ≤ℤ row.reservation.tokens
  pub calls_fit : row.reservation.calls ≤ℤ row.stored.call_budget
  pub tokens_fit : row.reservation.tokens ≤ℤ row.stored.token_budget

-- What a scan returns comes from the row under the digest, which is not revoked.
pub record IsScanOf (row : Row) (r : CapabilityRow) : Type 0 where
  pub live : row.state ≢ revoked
  pub reservation : r.reservation ≡ row.reservation
  pub minted : IsMintedFrom row.stored r.claims

pub scan_capability_sound :
    (rows : Rows) (tx : Tx) (digest : String) (r : CapabilityRow)
    → scan_capability rows tx digest ≡ ok r
    → (row : Row) × (lookup digest rows ≡ some row) × IsScanOf row r
unfolding scan_capability parse_store_time
scan_capability_sound rows tx digest r h = elim (Option-cases (lookup digest rows)) [
  | inl e ↦ absurd (ground arith)
  | inr (row, e) ↦ (row, e, ground (arith, new_claims_minted row.stored))
]

reserve_row_total :
    (rows : Rows) (tx : Tx) (now stamp : Time) (digest : String) (req : Request)
    {out : Reservation × Rows}
    → reserve_row rows tx now stamp digest req ≡ ok out
    → (r : CapabilityRow) × (scan_capability rows tx digest ≡ ok r)
      × (authorize r.claims (with_held req r.reservation) now ≡ ok tt)
      × (out ≡ (
        total_of r.reservation req,
        record_reservation rows digest (total_of r.reservation req) stamp,
      ))
unfolding reserve_row
reserve_row_total rows tx now stamp digest req {out} h =
    elim (Result-cases (scan_capability rows tx digest)) [
      | inl (r, e) ↦ (r, e, ground arith, ground arith)
      | inr (x, e) ↦ absurd (ground arith)
    ]

total_of_fits :
    (budget : ℤ) (held wanted : ℤ)
    → IsInt64 budget
    → pos 0 ≤ℤ held
    → pos 0 ≤ℤ wanted
    → pos_part held + pos_part wanted ≤ pos_part budget
    → (add64 held wanted ≡ pos (pos_part held + pos_part wanted))
total_of_fits budget held wanted ib nh nw f =
    ground (arith, add64_pos (pos_part held) (pos_part wanted))

abbrev pub AllSound : Rows → Type 0
AllSound rows = AllEntries (λ digest row. IsSound row) rows

-- A reservation that succeeds on a sound row: what it adds to, and what the row becomes.
pub record IsReserved (rows : Rows) (digest : String) (req : Request) (stamp : Time)
    (out : Reservation × Rows) (row : Row) : Type 0 where
  pub found : lookup digest rows ≡ some row
  pub live : row.state ≡ active
  pub calls_nonneg : pos 0 ≤ℤ req.calls
  pub tokens_nonneg : pos 0 ≤ℤ req.tokens
  pub calls : out.0.calls ≡ pos (pos_part row.reservation.calls + pos_part req.calls)
  pub tokens : out.0.tokens ≡ pos (pos_part row.reservation.tokens + pos_part req.tokens)
  pub calls_fit : out.0.calls ≤ℤ row.stored.call_budget
  pub tokens_fit : out.0.tokens ≤ℤ row.stored.token_budget
  pub rows_after :
      out.1 ≡ insert digest (record row { reservation = out.0; updated_at = stamp }) rows

module _ (rows : Rows) (digest : String) (req : Request) (stamp : Time) (row : Row)
    (r : CapabilityRow) where
  permitted_total :
      IsSound row
      → IsScanOf row r
      → Permits r.claims (with_held req r.reservation)
      → (pos 0 ≤ℤ req.calls)
        × (pos 0 ≤ℤ req.tokens)
        × ((total_of r.reservation req).calls
            ≡ pos (pos_part row.reservation.calls + pos_part req.calls))
        × ((total_of r.reservation req).tokens
            ≡ pos (pos_part row.reservation.tokens + pos_part req.tokens))
        × ((total_of r.reservation req).calls ≤ℤ row.stored.call_budget)
        × ((total_of r.reservation req).tokens ≤ℤ row.stored.token_budget)
  unfolding total_of with_held
  permitted_total s sc p = ground (
    arith,
    total_of_fits row.stored.call_budget row.reservation.calls req.calls s.calls_int s.calls_nonneg
        p.calls_nonneg,
    total_of_fits row.stored.token_budget row.reservation.tokens req.tokens s.tokens_int
        s.tokens_nonneg p.tokens_nonneg,
  )

state_live : (s : State) → s ≢ unknown → s ≢ revoked → s ≡ active
state_live active k l = refl
state_live revoked k l = absurd (l refl)
state_live unknown k l = absurd (k refl)

record_reservation_live :
    (rows : Rows) (digest : String) (total : Reservation) (stamp : Time) (row : Row)
    → lookup digest rows ≡ some row
    → row.state ≡ active
    → record_reservation rows digest total stamp
      ≡ insert digest (record row { reservation = total; updated_at = stamp }) rows
unfolding record_reservation
record_reservation_live rows digest total stamp row e a = ground arith

module _ (rows : Rows) (digest : String) (req : Request) (now stamp : Time) (row : Row)
    (r : CapabilityRow) where
  minted_ints :
      IsSound row → IsScanOf row r → IsInt64 r.claims.call_budget × IsInt64 r.claims.token_budget
  minted_ints s sc = (
    subst IsInt64 (sym sc.minted.calls) s.calls_int,
    subst IsInt64 (sym sc.minted.tokens) s.tokens_int,
  )

  IsReserved-of_authorized :
      lookup digest rows ≡ some row
      → IsSound row
      → IsScanOf row r
      → authorize r.claims (with_held req r.reservation) now ≡ ok tt
      → IsReserved rows digest req stamp
          (
            total_of r.reservation req,
            record_reservation rows digest (total_of r.reservation req) stamp,
          )
          row
  IsReserved-of_authorized at s sc allowed =
      let (ic, it) = minted_ints s sc in
      let p : Permits r.claims (with_held req r.reservation) =
        ((authorize_iff r.claims (with_held req r.reservation) now ic it).0 allowed).1 in
      let (cn, tn, c, t, cf, tf) = permitted_total rows digest req stamp row r s sc p in
      let live : row.state ≡ active = state_live row.state s.known sc.live in
      record {
        found = at;
        live = live;
        calls_nonneg = cn;
        tokens_nonneg = tn;
        calls = c;
        tokens = t;
        calls_fit = cf;
        tokens_fit = tf;
        rows_after =
            record_reservation_live rows digest (total_of r.reservation req) stamp row at live;
      }

-- A reservation that succeeds in a sound store.
pub reserve_row-IsSound :
    (rows : Rows) (tx : Tx) (now stamp : Time) (digest : String) (req : Request)
    (out : Reservation × Rows)
    → AllSound rows
    → reserve_row rows tx now stamp digest req ≡ ok out
    → (row : Row) × IsSound row × IsReserved rows digest req stamp out row
reserve_row-IsSound rows tx now stamp digest req out sound h =
    let (r, scanned, allowed, e) = reserve_row_total rows tx now stamp digest req h in
    let (row, at, sc) = scan_capability_sound rows tx digest r scanned in
    let s : IsSound row = AllEntries-lookup (λ d w. IsSound w) digest rows sound at in
    (
      row,
      s,
      subst (λ o. IsReserved rows digest req stamp o row) (sym e)
          (IsReserved-of_authorized rows digest req now stamp row r at s sc allowed),
    )
