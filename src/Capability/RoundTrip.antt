-- ===== src/Capability/RoundTrip.antt =====
-- Minting, then presenting the handle.
use gh_agent_broker.Prelude.{
  ℕ, ◌<◌, String, ◌≡◌, refl, ◌∙◌, arith, eq_refl, none, some, List, pos, false, ok, healthy, All,
  length, lookup, insert, lookup-insert, contains,
}
use gh_agent_broker.Capability.Claims.{Time, Claims, ClaimsInput, new_claims, allows_model}
use gh_agent_broker.Capability.Evaluator.{validate}
use gh_agent_broker.Capability.Decision.{IsCoherent, IsUsable, validate_complete}
use gh_agent_broker.Capability.Mint.{IsWellFormed, new_claims_correct, new_claims_iff}
use gh_agent_broker.Capability.Handle.{
  Handle, handle_bytes, IsByte, hex_encode, digest_of-hex_encode, year_10000, parse_store_time,
}
use gh_agent_broker.Capability.Store.{
  Rows, columns_of, allowed_models, issue_row, issue, found_row, scan_capability, verify,
}
use gh_agent_broker.Capability.Minted.{columns_of-IsWellFormed, contains-sort_strings, fresh_row}

-- What is verified later grants what was minted.
pub record IsSameGrant (c c' : Claims) : Type 0 where
  pub agent : c'.agent_type ≡ c.agent_type
  pub mode : c'.mode ≡ c.mode
  pub run : c'.run_id ≡ c.run_id
  pub work_item : c'.work_item_id ≡ c.work_item_id
  pub calls : c'.call_budget ≡ c.call_budget
  pub tokens : c'.token_budget ≡ c.token_budget
  pub expiry : c'.expiry ≡ c.expiry
  pub models : (m : String) → allows_model c' m ≡ allows_model c m

reread :
    (c : Claims)
    → IsCoherent c
    → contains c.allowed_models "" ≡ false
    → (c' : Claims) × (new_claims (columns_of c) ≡ ok c') × IsSameGrant c c' × IsCoherent c'
unfolding columns_of allows_model allowed_models
reread c k b =
    let (c', n) = (new_claims_iff (columns_of c)).1 (columns_of-IsWellFormed c k b) in
    let (k', m, models) = new_claims_correct (columns_of c) c' n in
    (
      c',
      n,
      record {
        agent = m.agent;
        mode = m.mode;
        run = m.run;
        work_item = m.work_item;
        calls = m.calls;
        tokens = m.tokens;
        expiry = m.expiry;
        models = λ x. models x ∙ contains-sort_strings x c.allowed_models;
      },
      k',
    )

stored_early : (c : Claims) → c.expiry < year_10000 → (columns_of c).expiry < year_10000
unfolding columns_of
stored_early c h = h

-- With 32 random bytes, a digest that is not taken and a database that answers, `Issue` of usable
-- claims returns the handle.
module _ (hash : Handle → String) (rows : Rows) (now stamp : Time) (raw : List ℕ) (c : Claims) where
  pub issue_succeeds :
      validate c now ≡ ok tt
      → lookup (hash (hex_encode raw)) rows ≡ none
      → issue hash rows healthy now stamp (some raw) c
        ≡ (ok (hex_encode raw), insert (hash (hex_encode raw)) (fresh_row c stamp) rows)
  unfolding issue issue_row
  issue_succeeds v fresh = ground arith

  verify_inserted :
      (later : Time) (c' : Claims)
      → length raw ≡ handle_bytes
      → All IsByte raw
      → c.expiry < year_10000
      → new_claims (columns_of c) ≡ ok c'
      → validate c' later ≡ ok tt
      → verify hash
          (insert (hash (hex_encode raw)) (fresh_row c stamp) rows)
          healthy
          later
          (hex_encode raw)
        ≡ ok (c', record { calls = pos 0; tokens = pos 0 })
  unfolding verify scan_capability found_row parse_store_time
  verify_inserted later c' n bytes early m v = rw (digest_of-hex_encode hash raw n bytes) (
      ground (
        arith,
        lookup-insert (hash (hex_encode raw)) (hash (hex_encode raw)) (fresh_row c stamp) rows,
        eq_refl (hash (hex_encode raw)),
        m,
        stored_early c early,
      ))

-- Claims that `NewClaims` made, minted by `Issue` with 32 random bytes whose digest is not taken:
-- `Issue` returns a handle, and `Verify` of it, at any later time before the expiry, returns claims
-- that grant the same, with nothing reserved. The expiry is before the year 10000, and the
-- database answers.
pub verify-issue :
    (hash : Handle → String) (rows : Rows) (now stamp later : Time) (raw : List ℕ)
    (input : ClaimsInput) (c : Claims)
    → new_claims input ≡ ok c
    → now < c.expiry
    → later < c.expiry
    → c.expiry < year_10000
    → length raw ≡ handle_bytes
    → All IsByte raw
    → lookup (hash (hex_encode raw)) rows ≡ none
    → (c' : Claims) × IsSameGrant c c'
      × ((issue hash rows healthy now stamp (some raw) c).0 ≡ ok (hex_encode raw))
      × (verify hash
            (issue hash rows healthy now stamp (some raw) c).1
            healthy
            later
            (hex_encode raw)
          ≡ ok (c', record { calls = pos 0; tokens = pos 0 }))
verify-issue hash rows now stamp later raw input c made before still early n bytes fresh =
    let (k, m, models) = new_claims_correct input c made in
    let w : IsWellFormed input = (new_claims_iff input).0 (c, made) in
    let (c', again, same, k') = reread c k (unfold allows_model in (models "" ∙ w.no_blank)) in
    let issued =
      issue_succeeds hash rows now stamp raw c
        (validate_complete c now (record { coherent = k; unexpired = before })) fresh in
    let usable : IsUsable c' later = record { coherent = k'; unexpired = rw same.expiry still } in
    (
      c',
      same,
      rw issued refl,
      rw issued (
          verify_inserted hash rows now stamp raw c later c' n bytes early again
            (validate_complete c' later usable)),
    )
