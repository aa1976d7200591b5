-- ===== src/Idempotency/Once.antt =====
-- internal/idempotency/idempotency.go: a mutation key is reserved at most once.
use gh_agent_broker.Prelude.{
  ℕ, ◌+◌, ◌≤◌, String, ◌==◌, ◌≡◌, ◌≢◌, arith, eq_iff, Bool, false, not, ◌&&◌, List, [], ◌∷◌, Option,
  none, some, lookup, lookup-insert, insert, Option-cases, Bool-cases, inl, inr, ◌⊎◌, ok, err, Tx,
  Result, if◌then◌else◌,
}
use gh_agent_broker.Idempotency.Keys.{
  write_failed, encode_record, encode_keys, write_state, reserve_on, Record, Keys, Error, Reserved,
  pending_record, reserve_exact, stamped, store,
}

pub data Call : Type 0 where
  reserving : Tx → ℕ → String → String → String → String → Call
  storing : Tx → ℕ → String → Record → Call

unfoldable pub step : (String → Option String) → String → Keys → Call → Keys
step body_json path keys (reserving tx now key operation digest body) =
    (reserve_exact body_json path keys tx now key operation digest body).1
step body_json path keys (storing tx now key rec) = (store body_json path keys tx now key rec).1

-- Whether the answer tells the caller to make the call: nothing was found, and nothing failed.
abbrev pub is_new : Result Error Reserved → Bool
is_new (err e) = false
is_new (ok r) = not r.found

abbrev same_key : String → String → Bool → ℕ
same_key k key new = if k == key && new then 1 else 0

unfoldable pub reservations : (String → Option String) → String → Keys → String → Call → ℕ
reservations body_json path keys k (reserving tx now key operation digest body) =
    same_key k key (is_new (reserve_exact body_json path keys tx now key operation digest body).0)
reservations body_json path keys k (storing tx now key rec) = 0

unfoldable pub reservations_in : (String → Option String) → String → Keys → String → List Call → ℕ
reservations_in body_json path keys k [] = 0
reservations_in body_json path keys k (c ∷ calls) =
    reservations body_json path keys k c
    + reservations_in body_json path (step body_json path keys c) k calls

abbrev pub free : Option Record → ℕ
free none = 1
free (some rec) = 0

-- Writing the map and reading it back keeps its keys.
encode_keys-free :
    (body_json : String → Option String) (keys kept : Keys) (k : String)
    → encode_keys body_json keys ≡ some kept
    → free (lookup k kept) ≡ free (lookup k keys)
unfolding encode_keys lookup
encode_keys-free body_json [] kept k e = ground (arith, e)
encode_keys-free body_json ((key, rec) ∷ keys) kept k e =
    elim (Option-cases (encode_record body_json rec)) [
      | inl bad ↦ absurd (ground (arith, e, bad))
      | inr (r, good) ↦ elim (Option-cases (encode_keys body_json keys)) [
        | inl bad ↦ absurd (ground (arith, e, good, bad))
        | inr (rest, fine) ↦
            ground (arith, e, good, fine, encode_keys-free body_json keys rest k fine)
      ]
    ]

-- A write succeeds and takes the new keys, or fails and keeps the old ones.
write_state-free :
    (body_json : String → Option String) (tx : Tx) (keys new : Keys) (k : String)
    → (((write_state body_json tx keys new).0 ≡ ok tt)
        × (free (lookup k (write_state body_json tx keys new).1) ≡ free (lookup k new)))
      ⊎ (((write_state body_json tx keys new).0 ≡ err write_failed)
          × ((write_state body_json tx keys new).1 ≡ keys))
unfolding write_state
write_state-free body_json tx keys new k = elim (Option-cases (encode_keys body_json new)) [
  | inl bad ↦ inr (ground (arith, bad), ground (arith, bad))
  | inr (kept, good) ↦ elim (Bool-cases tx.writes) [
    | inl fine ↦ inl (
      ground (arith, good, fine),
      ground (arith, good, fine, encode_keys-free body_json new kept k good),
    )
    | inr failed ↦ inr (ground (arith, good, failed), ground (arith, good, failed))
  ]
]

-- A reservation takes the key, and nothing frees it.
step-free :
    (body_json : String → Option String) (path : String) (keys : Keys) (k : String) (c : Call)
    → path ≢ ""
    → k ≢ ""
    → reservations body_json path keys k c + free (lookup k (step body_json path keys c))
      ≤ free (lookup k keys)
unfolding step reservations reserve_exact reserve_on store
step-free body_json path keys k (reserving tx now key operation digest body) hp hk =
    let rec = pending_record now operation digest body in
    ground (
      arith,
      eq_iff path "",
      eq_iff k "",
      eq_iff key "",
      eq_iff k key,
      eq_iff key k,
      lookup-insert key k rec keys,
      write_state-free body_json tx keys (insert key rec keys) k,
    )
step-free body_json path keys k (storing tx now key rec) hp hk = ground (
  arith,
  eq_iff path "",
  eq_iff k "",
  eq_iff key "",
  eq_iff k key,
  eq_iff key k,
  lookup-insert key k (stamped rec now) keys,
  write_state-free body_json tx keys (insert key (stamped rec now) keys) k,
)

-- Over any sequence of reservations and stores, with any failures of the file, the callers that are
-- told to go ahead on a key are at most one, and none where the key is held at the start.
pub reserved_once :
    (body_json : String → Option String) (path : String) (keys : Keys) (k : String)
    (calls : List Call)
    → path ≢ ""
    → k ≢ ""
    → reservations_in body_json path keys k calls ≤ free (lookup k keys)
unfolding reservations_in
reserved_once body_json path keys k [] hp hk = omega arith
reserved_once body_json path keys k (c ∷ calls) hp hk = omega (
  arith,
  step-free body_json path keys k c hp hk,
  reserved_once body_json path (step body_json path keys c) k calls hp hk,
)
