-- ===== src/Idempotency/Readback.antt =====
-- internal/idempotency/idempotency.go: what is stored under a key is what is found there.
use gh_agent_broker.Prelude.{
  ℕ, String, ◌==◌, ◌≡◌, ◌≢◌, ◌⊎◌, inl, inr, refl, arith, eq_iff, eq_refl, true, not, ◌||◌, [], ◌∷◌,
  Option, none, some, lookup, insert, lookup-insert, pos, ok, Tx, eqb, if◌then◌else◌, Bool-cases,
  Option-cases, Result-cases,
}
use gh_agent_broker.Idempotency.Keys.{
  Record, Keys, conflicts, pending_record, encode_body, encode_record, encode_keys, write_state,
  reserve_on, reserve_exact, load, stamped, store,
}
use gh_agent_broker.Idempotency.Once.{is_new}

module _ (body_json : String → Option String) where
  -- What is found under the key is `r` as written and read back.
  abbrev IsKept : String → Record → Keys → Type 0
  IsKept k r kept =
      (r' : Record) × (encode_record body_json r ≡ some r') × (lookup k kept ≡ some r')

  encode_keys-IsKept :
      (keys kept : Keys) (k : String) (r : Record)
      → encode_keys body_json keys ≡ some kept
      → lookup k keys ≡ some r
      → IsKept k r kept
  unfolding encode_keys lookup
  encode_keys-IsKept [] kept k r e h = absurd (ground (arith, h))
  encode_keys-IsKept ((key, rec) ∷ keys) kept k r e h =
      elim (Option-cases (encode_record body_json rec)) [
        | inl bad ↦ absurd (ground (arith, e, bad))
        | inr (own, good) ↦ elim (Option-cases (encode_keys body_json keys)) [
          | inl bad ↦ absurd (ground (arith, e, good, bad))
          | inr (rest, fine) ↦ elim (Bool-cases (key == k)) [
            | inl same ↦ (own, ground (arith, h, same, good), ground (arith, e, good, fine, same))
            | inr other ↦
                let (r', read_as, found) =
                  encode_keys-IsKept keys rest k r fine (ground (arith, h, other)) in
                (r', read_as, ground (arith, e, good, fine, other, found))
          ]
        ]
      ]

  write_state-IsKept :
      (tx : Tx) (keys new : Keys) (k : String) (r : Record)
      → (write_state body_json tx keys new).0 ≡ ok tt
      → lookup k new ≡ some r
      → IsKept k r (write_state body_json tx keys new).1
  unfolding write_state
  write_state-IsKept tx keys new k r done h = elim (Option-cases (encode_keys body_json new)) [
    | inl bad ↦ absurd (ground (arith, done, bad))
    | inr (kept, good) ↦
        let (r', read_as, found) = encode_keys-IsKept new kept k r good h in
        (r', read_as, ground (arith, done, good, found))
  ]

  inserted :
      (tx : Tx) (keys : Keys) (k : String) (r : Record)
      → (write_state body_json tx keys (insert k r keys)).0 ≡ ok tt
      → IsKept k r (write_state body_json tx keys (insert k r keys)).1
  inserted tx keys k r done =
      write_state-IsKept tx keys (insert k r keys) k r done
        (ground (arith, lookup-insert k k r keys, eq_refl k))

-- After a reservation that goes ahead, a second one of the same key finds the record of the first,
-- which is pending, without a status, and has the body null; it is a conflict exactly when the
-- operation or the digest differs, or the digest is empty. The file can be read.
pub reserve_exact-reserve_exact :
    (body_json : String → Option String) (path : String) (keys : Keys) (tx again : Tx)
    (now later : ℕ) (key operation digest semantic_body operation' digest' semantic_body' : String)
    → path ≢ ""
    → key ≢ ""
    → is_new (reserve_exact body_json path keys tx now key operation digest semantic_body).0 ≡ true
    → again.queries ≡ true
    → (reserve_exact body_json path
        (reserve_exact body_json path keys tx now key operation digest semantic_body).1
        again
        later
        key
        operation'
        digest'
        semantic_body').0
      ≡ ok (record {
        record_found = some (record {
          created_at = now;
          operation = operation;
          request_digest = digest;
          status = pos 0;
          body = some "null";
          pending = true;
          semantic_body = semantic_body;
        });
        found = true;
        conflict = not (operation == operation') || digest == "" || not (digest == digest');
      })
unfolding reserve_exact reserve_on encode_record conflicts
reserve_exact-reserve_exact body_json path keys tx again now later key operation digest
      semantic_body operation' digest' semantic_body' hp hk new q =
    let rec = pending_record now operation digest semantic_body in
    elim (Result-cases (write_state body_json tx keys (insert key rec keys)).0) [
      | inr (x, bad) ↦ absurd (ground (arith, new, bad, eq_iff path "", eq_iff key ""))
      | inl (u, done) ↦
          let (kept, read_as, found) = inserted body_json tx keys key rec done in
          ground (arith, eq_iff path "", eq_iff key "", done, found, read_as)
    ]

-- What `Store` writes, `Load` reads and a reservation of the key finds: the record with the time of the
-- call where it had none, and with the body null where it had none, and otherwise what the JSON of
-- its body is when it was written and read back. The reservation is a conflict exactly when the
-- operation or the digest differs, or the stored digest is empty. The file can be read.
pub load-store :
    (body_json : String → Option String) (path : String) (keys : Keys) (tx again : Tx)
    (now later : ℕ) (key : String) (rec : Record) (operation digest semantic_body : String)
    → path ≢ ""
    → key ≢ ""
    → (store body_json path keys tx now key rec).0 ≡ ok tt
    → again.queries ≡ true
    → (text : String) × (((rec.body ≡ none) × (text ≡ "null"))
        ⊎ ((raw : String) × (rec.body ≡ some raw) × (body_json raw ≡ some text)))
      × (let kept : Record = record {
        created_at = if eqb rec.created_at 0 then now else rec.created_at;
        operation = rec.operation;
        request_digest = rec.request_digest;
        status = rec.status;
        body = some text;
        pending = rec.pending;
        semantic_body = rec.semantic_body;
      } in
          (load path (store body_json path keys tx now key rec).1 again key ≡ ok (some kept))
          × ((reserve_exact body_json path
                (store body_json path keys tx now key rec).1
                again
                later
                key
                operation
                digest
                semantic_body).0
              ≡ ok (record {
                record_found = some kept;
                found = true;
                conflict =
                    not (rec.operation == operation)
                    || rec.request_digest == ""
                    || not (rec.request_digest == digest);
              })))
unfolding store load reserve_exact reserve_on encode_record encode_body stamped conflicts
load-store body_json path keys tx again now later key rec operation digest semantic_body hp hk done
      q =
    let wrote : (write_state body_json tx keys (insert key (stamped rec now) keys)).0 ≡ ok tt =
      ground (arith, done, eq_iff path "", eq_iff key "") in
    let (kept, read_as, found) = inserted body_json tx keys key (stamped rec now) wrote in
    elim (Option-cases rec.body) [
      | inl no_body ↦ (
        "null",
        inl (no_body, refl),
        (
          ground (arith, eq_iff path "", eq_iff key "", wrote, found, read_as, no_body),
          ground (arith, eq_iff path "", eq_iff key "", wrote, found, read_as, no_body),
        ),
      )
      | inr (raw, has) ↦ elim (Option-cases (body_json raw)) [
        | inl bad ↦ absurd (ground (arith, read_as, has, bad))
        | inr (text, read) ↦ (
          text,
          inr (raw, has, read),
          (
            ground (arith, eq_iff path "", eq_iff key "", wrote, found, read_as, has, read),
            ground (arith, eq_iff path "", eq_iff key "", wrote, found, read_as, has, read),
          ),
        )
      ]
    ]
