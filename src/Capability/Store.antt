-- ===== src/Capability/Store.antt =====
-- internal/capability/store.go: the table `capabilities` and the operations on it. The table is
-- keyed by its primary key, the SHA-256 of the handle. A `Tx` says which statements of a call
-- succeed; `hash_handle` is SHA-256 in hexadecimal.
use Prim.Native.String.{compare, len}
use Prim.Native.Nat.{Ordering}
use gh_agent_broker.Prelude.{
  ℕ, String, Bool, true, false, not, ◌||◌, Option, none, some, List, [], ◌∷◌, eqb, ltb_ℤ, ℤ, pos,
  add64, if◌then◌else◌, Result, ok, err, require, transact, Tx, ◌>>=◌, ◌>>◌, Assoc, lookup, insert,
}
use gh_agent_broker.Capability.Claims.{
  Time, Claims, ClaimsInput, Error, handle_not_found, revoked_capability, storage, new_claims,
}
use gh_agent_broker.Capability.Evaluator.{Request, validate, authorize}
use gh_agent_broker.Capability.Handle.{Handle, hex_encode, digest_of, parse_store_time}

-- The text of the column `state`; `unknown` is any other text.
pub data State : Type 0 where
  active revoked unknown : State

pub record Reservation : Type 0 where
  pub calls : ℤ
  pub tokens : ℤ

pub record Row : Type 0 where
  pub stored : ClaimsInput
  pub state : State
  pub reservation : Reservation
  pub created_at : Time
  pub updated_at : Time

pub record CapabilityRow : Type 0 where
  pub claims : Claims
  pub reservation : Reservation
  pub state : State

abbrev pub Rows : Type 0
Rows = Assoc Row

-- sort.Strings
unfoldable pub insert_sorted : String → List String → List String
insert_sorted m [] = m ∷ []
insert_sorted m (x ∷ xs) = elim (compare x m) [
  | Ordering.lt ↦ x ∷ insert_sorted m xs
  | _ ↦ m ∷ x ∷ xs
]

unfoldable pub sort_strings : List String → List String
unfolding insert_sorted
sort_strings [] = []
sort_strings (x ∷ xs) = insert_sorted x (sort_strings xs)

unfoldable pub allowed_models : Claims → List String
unfolding sort_strings
allowed_models c = sort_strings c.allowed_models

-- The columns that `Issue` writes for the claims.
unfoldable pub columns_of : Claims → ClaimsInput
columns_of c = record {
  agent_type = c.agent_type;
  mode = c.mode;
  run_id = c.run_id;
  work_item_id = c.work_item_id;
  allowed_models = allowed_models c;
  call_budget = c.call_budget;
  token_budget = c.token_budget;
  expiry = c.expiry;
}

abbrev is_revoked : State → Bool
is_revoked revoked = true
is_revoked _ = false

abbrev pub is_active : State → Bool
is_active active = true
is_active _ = false

-- sql.ErrNoRows is `ErrHandleNotFound`.
unfoldable pub found_row : Option Row → Result Error Row
found_row none = err handle_not_found
found_row (some row) = ok row

-- The stored digest was selected by the digest, so comparing the two in constant time succeeds.
unfoldable pub scan_capability : Rows → Tx → String → Result Error CapabilityRow
unfolding found_row
scan_capability rows tx digest = do
  require tx.queries storage
  row ← found_row (lookup digest rows)
  require (not (is_revoked row.state)) revoked_capability
  expiry ← parse_store_time row.stored.expiry
  claims ← new_claims (record row.stored { expiry = expiry })
  ok (record { claims = claims; reservation = row.reservation; state = row.state })

module _ (hash_handle : Handle → String) where
  unfoldable pub verify : Rows → Tx → Time → Handle → Result Error (Claims × Reservation)
  verify rows tx now handle = do
    digest ← digest_of hash_handle handle
    require tx.begins storage
    row ← scan_capability rows tx digest
    validate row.claims now
    ok (row.claims, row.reservation)

  -- `raw` is what the random source gives, `now` and `stamp` the two readings of the clock.
  unfoldable pub issue_row :
      Rows → Tx → Time → Time → Option (List ℕ) → Claims → Result Error (Handle × Rows)
  issue_row rows tx now stamp none c = do validate c now; err storage
  issue_row rows tx now stamp (some raw) c = do
    validate c now
    let digest = hash_handle (hex_encode raw)
    require tx.writes storage
    -- the primary key is taken
    require (elim (lookup digest rows) [ none ↦ true | some row ↦ false ]) storage
    ok (
      hex_encode raw,
      insert digest
          (record {
            stored = columns_of c;
            state = active;
            reservation = record { calls = pos 0; tokens = pos 0 };
            created_at = stamp;
            updated_at = stamp;
          })
          rows,
    )

  unfoldable pub issue :
      Rows → Tx → Time → Time → Option (List ℕ) → Claims → Result Error Handle × Rows
  unfolding issue_row
  issue rows tx now stamp raw c = transact rows (issue_row rows tx now stamp raw c)

-- UPDATE … SET reserved_calls, reserved_tokens … WHERE handle_sha256 = ? AND state = 'active'
unfoldable pub record_reservation : Rows → String → Reservation → Time → Rows
record_reservation rows digest total stamp = elim (lookup digest rows) [
  | none ↦ rows
  | some row ↦
      if is_active row.state
      then insert digest (record row { reservation = total; updated_at = stamp }) rows
      else rows
]

-- What a request adds to what is held.
unfoldable pub total_of : Reservation → Request → Reservation
total_of held req = record {
  calls = add64 held.calls req.calls;
  tokens = add64 held.tokens req.tokens;
}

-- The caller's own totals are replaced by the stored ones.
unfoldable pub with_held : Request → Reservation → Request
with_held req held = record req { reserved_calls = held.calls; reserved_tokens = held.tokens }

-- `Reserve` after the handle's digest: one transaction.
unfoldable pub reserve_row :
    Rows → Tx → Time → Time → String → Request → Result Error (Reservation × Rows)
unfolding total_of with_held
reserve_row rows tx now stamp digest req = do
  require tx.begins storage
  row ← scan_capability rows tx digest
  authorize row.claims (with_held req row.reservation) now
  require tx.writes storage
  require tx.commits storage
  ok (
    total_of row.reservation req,
    record_reservation rows digest (total_of row.reservation req) stamp,
  )

module _ (hash_handle : Handle → String) where
  unfoldable pub reserve :
      Rows → Tx → Time → Time → Handle → Request → Result Error Reservation × Rows
  reserve rows tx now stamp handle req =
      transact rows
        (do digest ← digest_of hash_handle handle; reserve_row rows tx now stamp digest req)

  unfoldable pub revoke_row : Rows → Tx → Time → Handle → Result Error (Unit {0} × Rows)
  revoke_row rows tx stamp handle = do
    digest ← digest_of hash_handle handle
    require tx.writes storage
    row ← found_row (lookup digest rows)
    ok (tt, insert digest (record row { state = revoked; updated_at = stamp }) rows)

  unfoldable pub revoke : Rows → Tx → Time → Handle → Result Error (Unit {0}) × Rows
  unfolding revoke_row
  revoke rows tx stamp handle = transact rows (revoke_row rows tx stamp handle)

-- The checks of `Validate` on one row.
unfoldable pub validate_row : String → Row → Result Error (Unit {0})
validate_row digest row = do
  require (eqb (len digest) 64) storage
  require (is_active row.state || is_revoked row.state) storage
  expiry ← parse_store_time row.stored.expiry
  claims ← new_claims (record row.stored { expiry = expiry })
  require
      (not (
        ltb_ℤ row.reservation.calls (pos 0)
        || ltb_ℤ row.reservation.tokens (pos 0)
        || ltb_ℤ row.stored.call_budget row.reservation.calls
        || ltb_ℤ row.stored.token_budget row.reservation.tokens))
      storage

unfoldable pub validate_rows : Rows → Result Error (Unit {0})
unfolding validate_row
validate_rows [] = ok tt
validate_rows ((digest, row) ∷ rows) = do validate_row digest row; validate_rows rows

abbrev pub store_schema_version : ℕ
store_schema_version = 1

-- `Validate`, on the schema version of the file and its rows.
unfoldable pub validate_store : ℕ → Rows → Result Error (Unit {0})
unfolding validate_rows
validate_store version rows = do
  require (eqb version store_schema_version) storage
  validate_rows rows
