-- ===== src/Capability/Offline.antt =====
-- The offline check `Validate` against the stores that the operations make.
use Prim.Native.String.{len}
use gh_agent_broker.Prelude.{
  ℕ, ◌<◌, ◌≤◌, String, ◌≡◌, ◌≢◌, ◌⊎◌, refl, arith, none, some, List, [], ◌∷◌, ok, healthy, eq_refl,
  lookup-insert, All, AllEntries, AllEntries-lookup, AllEntries-insert, lookup, insert,
  Result-cases, inl, inr,
}
use gh_agent_broker.Capability.Claims.{Time, Claims, ClaimsInput, new_claims}
use gh_agent_broker.Capability.Evaluator.{validate}
use gh_agent_broker.Capability.RoundTrip.{issue_succeeds}
use gh_agent_broker.Capability.Mint.{IsMintedFrom, new_claims_correct, new_claims_iff}
use gh_agent_broker.Capability.Handle.{Handle, hex_encode, digest_of, year_10000, parse_store_time}
use gh_agent_broker.Capability.Store.{
  State, active, revoked, unknown, Row, Rows, Reservation, columns_of, issue, verify,
  scan_capability, found_row, validate_row, validate_rows, validate_store, store_schema_version,
}
use gh_agent_broker.Capability.Budget.{IsSound, AllSound, reserve_row-IsSound}
use gh_agent_broker.Capability.Atomic.{issue_cases, reserve_cases, revoke_cases}
use gh_agent_broker.Capability.Trace.{Call, mint, spend, cancel, IsTyped, issue_minted, step, run}
use gh_agent_broker.Capability.Minted.{issue_row_inserts, fresh_row}
use gh_agent_broker.Capability.Invariant.{step-AllSound}

-- The expiry of a minting has a four-digit year.
abbrev IsDated : Call → Type 0
IsDated (mint tx now stamp raw input) = input.expiry < year_10000
IsDated (spend tx now stamp handle req) = Unit
IsDated (cancel tx stamp handle) = Unit

abbrev IsStorable : String → Row → Type 0
IsStorable digest row = (len digest ≡ 64) × (row.stored.expiry < year_10000)

known_state : (s : State) → s ≢ unknown → (s ≡ active) ⊎ (s ≡ revoked)
known_state s k = ground arith

validate_row_sound :
    (digest : String) (row : Row)
    → IsSound row
    → IsStorable digest row
    → validate_row digest row ≡ ok tt
unfolding validate_row parse_store_time
validate_row_sound digest row s k =
    let (c, n) = (new_claims_iff row.stored).1 s.well_formed in
    ground (arith, n, known_state row.state s.known)

validate_rows_sound :
    (rows : Rows) → AllSound rows → AllEntries IsStorable rows → validate_rows rows ≡ ok tt
unfolding validate_rows
validate_rows_sound [] s k = refl
validate_rows_sound ((digest, row) ∷ rows) s k =
    rw (validate_row_sound digest row s.0 k.0) (validate_rows_sound rows s.1 k.1)

minted_stored :
    (c : Claims) (input : ClaimsInput)
    → IsMintedFrom input c
    → input.expiry < year_10000
    → (columns_of c).expiry < year_10000
unfolding columns_of
minted_stored c input m h = ground (arith, m.expiry)

module _ (hash : Handle → String) (sized : (h : Handle) → len (hash h) ≡ 64) where
  step-IsStorable :
      (rows : Rows) (call : Call)
      → AllSound rows
      → IsDated call
      → AllEntries IsStorable rows
      → AllEntries IsStorable (step hash rows call)
  unfolding step
  step-IsStorable rows (mint tx now stamp raw input) sound dated all =
      elim (Result-cases (new_claims input)) [
        | inr (x, n) ↦ rw (n, issue_minted) all
        | inl (c, n) ↦ elim (issue_cases hash rows tx now stamp raw c) [
          | inl (x, e) ↦ rw n (rw (e, issue_minted) all)
          | inr (out, f, e) ↦
              let (fresh, g) = issue_row_inserts hash rows tx now stamp raw c out f in
              let m : IsMintedFrom input c = (new_claims_correct input c n).1 in
              rw n (
                rw (e, issue_minted)
                  (rw g (
                    AllEntries-insert IsStorable (hash out.0) (fresh_row c stamp) rows all
                      (sized out.0, minted_stored c input m dated))))
        ]
      ]
  step-IsStorable rows (spend tx now stamp handle req) sound dated all =
      elim (reserve_cases hash rows tx now stamp handle req) [
        | inl (x, e) ↦ rw (e, step) all
        | inr (out, f, e) ↦
            let (row, s, r) = reserve_row-IsSound rows tx now stamp (hash handle) req out sound f in
            rw (e, step)
              (rw r.rows_after (
                AllEntries-insert IsStorable (hash handle) _ rows all
                  (AllEntries-lookup IsStorable (hash handle) rows all r.found)))
      ]
  step-IsStorable rows (cancel tx stamp handle) sound dated all =
      elim (revoke_cases hash rows tx stamp handle) [
        | inl (x, e) ↦ rw (e, step) all
        | inr (row, f, e) ↦
            rw (e, step)
              (AllEntries-insert IsStorable (hash handle) _ rows all
                (AllEntries-lookup IsStorable (hash handle) rows all f))
      ]

  run_validates :
      (rows : Rows) (calls : List Call)
      → AllSound rows
      → AllEntries IsStorable rows
      → All IsTyped calls
      → All IsDated calls
      → validate_rows (run hash rows calls) ≡ ok tt
  unfolding run
  run_validates rows [] sound all typed dated = validate_rows_sound rows sound all
  run_validates rows (c ∷ calls) sound all typed dated =
      run_validates (step hash rows c) calls (step-AllSound hash rows c sound typed.0)
        (step-IsStorable rows c sound dated.0 all) typed.1 dated.1

-- The offline check accepts every store that mintings, reservations and revocations make of an
-- empty one, whatever fails on the way, if each minting has int64 budgets and an expiry before the
-- year 10000. `hash` gives texts of 64 bytes, as SHA-256 in hexadecimal does.
pub validate-run :
    (hash : Handle → String)
    → ((h : Handle) → len (hash h) ≡ 64)
    → (calls : List Call) → All IsTyped calls
    → All IsDated calls
    → validate_store store_schema_version (run hash [] calls) ≡ ok tt
unfolding validate_store
validate-run hash sized calls typed dated = run_validates hash sized [] calls tt tt typed dated

verify_far :
    (hash : Handle → String) (rows : Rows) (stamp later : Time) (handle : Handle) (c : Claims)
    → year_10000 ≤ c.expiry
    → (c' : Claims) (held : Reservation)
    → verify hash (insert (hash handle) (fresh_row c stamp) rows) healthy later handle
      ≢ ok (c', held)
unfolding verify scan_capability found_row parse_store_time digest_of columns_of
verify_far hash rows stamp later handle c far c' held h = ground (
  arith,
  lookup-insert (hash handle) (hash handle) (fresh_row c stamp) rows,
  eq_refl (hash handle),
)

validate_row_far :
    (digest : String) (stamp : Time) (c : Claims)
    → year_10000 ≤ c.expiry
    → validate_row digest (fresh_row c stamp) ≢ ok tt
unfolding validate_row parse_store_time columns_of
validate_row_far digest stamp c far h = ground arith

validate_far :
    (digest : String) (stamp : Time) (c : Claims)
    → year_10000 ≤ c.expiry
    → (rows : Rows) → validate_rows (insert digest (fresh_row c stamp) rows) ≢ ok tt
unfolding validate_rows insert
validate_far digest stamp c far [] h = ground (arith, validate_row_far digest stamp c far)
validate_far digest stamp c far ((k, row) ∷ rows) h =
    ground (arith, validate_row_far digest stamp c far, validate_far digest stamp c far rows)

-- A capability that expires in the year 10000 or later is minted, and can never be verified: its
-- stored expiry is not parsed again. The offline check of the whole store then fails too.
pub issue_far_future :
    (hash : Handle → String) (rows : Rows) (now stamp later : Time) (raw : List ℕ) (c : Claims)
    → validate c now ≡ ok tt
    → year_10000 ≤ c.expiry
    → lookup (hash (hex_encode raw)) rows ≡ none
    → ((issue hash rows healthy now stamp (some raw) c).0 ≡ ok (hex_encode raw))
      × ((c' : Claims) (held : Reservation)
          → verify hash
              (issue hash rows healthy now stamp (some raw) c).1
              healthy
              later
              (hex_encode raw)
            ≢ ok (c', held))
      × (validate_rows (issue hash rows healthy now stamp (some raw) c).1 ≢ ok tt)
issue_far_future hash rows now stamp later raw c v far fresh =
    rw (issue_succeeds hash rows now stamp raw c v fresh) (
      refl,
      verify_far hash rows stamp later (hex_encode raw) c far,
      validate_far (hash (hex_encode raw)) stamp c far rows,
    )
