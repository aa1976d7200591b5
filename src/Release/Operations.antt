-- ===== src/Release/Operations.antt =====
-- internal/release/release.go: the operations of the registry, each one a transaction. `now` is the
-- time of the call. The three regular expressions and strings.LastIndex are parameters.
use gh_agent_broker.Prelude.{
  ℕ, ◌+◌, String, ◌==◌, Bool, true, false, not, ◌&&◌, ◌||◌, List, [], ◌∷◌, ◌++◌, Option, none, some,
  Result, ok, err, require, transact, Tx, ◌>>=◌, ◌>>◌, if◌then◌else◌, Assoc, lookup, contains,
}
use gh_agent_broker.Release.Registry.{
  Error, invalid_agent_type, invalid_reference, missing_actor, not_promotable, requirement,
  acquire_failed, storage, State, candidate, verified, publish_op, verify_op, acquire_op, evict_op,
  Provenance, Release, Requirements, Registry, is_verified, is_candidate, scan, by_digest,
  update_release, load, record_audit,
}

-- What the operations take from `regexp` and `strings`.
pub record Patterns : Type 0 where
  pub agent_type : String → Bool
  pub digest_pinned : String → Bool
  pub digest_only : String → Bool
  -- what stands after the last "@"
  pub after_at : String → Option String

unfoldable pub digest_of : Patterns → String → Result Error String
digest_of p reference = elim (p.after_at reference) [
  | none ↦ err invalid_reference
  | some digest ↦ if p.digest_only digest then ok digest else err invalid_reference
]

abbrev is_free : Option Release → Bool
is_free none = true
is_free (some r) = false

abbrev pub named : String → Bool
named actor = not (actor == "")

unfoldable pub published : Registry → ℕ → String → String → String → Provenance → Release
published reg now type reference digest provenance = record {
  generation = reg.next_generation;
  agent_type = type;
  image_reference = reference;
  image_digest = digest;
  provenance = provenance;
  state = candidate;
  available = false;
  created_at = now;
  updated_at = now;
}

unfoldable pub publish_checked :
    Patterns
    → Registry
    → Tx
    → ℕ
    → String
    → String
    → Provenance
    → String
    → Result Error (Release × Registry)
unfolding published record_audit
publish_checked p reg tx now type reference provenance actor = do
  require (p.agent_type type) invalid_agent_type
  require (p.digest_pinned reference) invalid_reference
  digest ← digest_of p reference
  require (named actor) missing_actor
  require tx.begins storage
  require tx.writes storage
  -- the unique index on the type and the digest
  require (is_free (by_digest type digest reg.releases)) storage
  require tx.commits storage
  let row = published reg now type reference digest provenance
  let added = record reg {
    releases = reg.releases ++ row ∷ [];
    next_generation = reg.next_generation + 1;
  }
  ok (scan row, record_audit added reg.next_generation type publish_op actor reference now)

unfoldable pub publish_candidate :
    Patterns
    → Registry
    → Tx
    → ℕ
    → String
    → String
    → Provenance
    → String
    → Result Error Release × Registry
unfolding publish_checked
publish_candidate p reg tx now type reference provenance actor =
    transact reg (publish_checked p reg tx now type reference provenance actor)

-- The map `present`.
unfoldable pub present : Release → Assoc String
present item =
    ("source_revision", item.provenance.source_revision)
    ∷ ("dependency_manifest_sha256", item.provenance.dependency_manifest_sha256)
    ∷ ("platform", item.provenance.platform)
    ∷ ("image_digest", item.image_digest)
    ∷ []

abbrev is_present : Option String → Bool
is_present none = false
is_present (some value) = not (value == "")

unfoldable pub check_fields : Release → List String → Bool
check_fields item [] = true
check_fields item (field ∷ fields) =
    is_present (lookup field (present item)) && check_fields item fields

abbrev is_empty : List String → Bool
is_empty [] = true
is_empty (x ∷ xs) = false

unfoldable pub check_requirements : Release → Requirements → Bool
unfolding check_fields
check_requirements item req =
    check_fields item req.provenance_fields
    && (is_empty req.platforms || contains req.platforms item.provenance.platform)

abbrev pub set_state : ℕ → State → ℕ → Registry → Registry
set_state g state now reg = record reg {
  releases = update_release g (λ r. record r { state = state; updated_at = now }) reg.releases;
}

unfoldable pub verify_checked :
    Registry → Tx → ℕ → ℕ → Requirements → String → Result Error (Unit {0} × Registry)
unfolding record_audit
verify_checked reg tx now g req actor = do
  require (named actor) missing_actor
  require tx.begins storage
  item ← load reg tx g
  require (is_candidate item.state || is_verified item.state) not_promotable
  require (check_requirements item req) requirement
  require tx.writes storage
  require tx.commits storage
  ok (
    tt,
    record_audit (set_state g verified now reg) g item.agent_type verify_op actor item.image_digest
        now,
  )

unfoldable pub verify :
    Registry → Tx → ℕ → ℕ → Requirements → String → Result Error (Unit {0}) × Registry
unfolding verify_checked
verify reg tx now g req actor = transact reg (verify_checked reg tx now g req actor)

abbrev pub set_available : ℕ → Bool → ℕ → Registry → Registry
set_available g available now reg = record reg {
  releases =
      update_release g (λ r. record r { available = available; updated_at = now }) reg.releases;
}

unfoldable pub mark_checked :
    Registry → Tx → ℕ → ℕ → Bool → String → Result Error (Unit {0} × Registry)
unfolding record_audit
mark_checked reg tx now g available actor = do
  require (named actor) missing_actor
  require tx.begins storage
  item ← load reg tx g
  require tx.writes storage
  require tx.commits storage
  ok (
    tt,
    record_audit (set_available g available now reg) g item.agent_type
        (if available then acquire_op else evict_op) actor item.image_digest now,
  )

unfoldable pub mark_available :
    Registry → Tx → ℕ → ℕ → Bool → String → Result Error (Unit {0}) × Registry
unfolding mark_checked
mark_available reg tx now g available actor =
    transact reg (mark_checked reg tx now g available actor)

-- What follows a successful verification; `acquire` says whether the acquisition succeeds.
unfoldable pub acquire_verified :
    (Release → Bool)
    → Registry
    → Tx
    → Tx
    → ℕ
    → ℕ
    → String
    → Result Error Release
    → Result Error (Unit {0}) × Registry
acquire_verified acquire reg reading marking now g acquirer (err e) = (err e, reg)
acquire_verified acquire reg reading marking now g acquirer (ok item) =
    if acquire item
    then mark_available reg marking now g true acquirer
    else (err acquire_failed, reg)

abbrev after_verify :
    (Release → Bool)
    → Tx
    → Tx
    → ℕ
    → ℕ
    → String
    → Result Error (Unit {0}) × Registry
    → Result Error (Unit {0}) × Registry
after_verify acquire reading marking now g acquirer (err e, reg) = (err e, reg)
after_verify acquire reading marking now g acquirer (ok _, reg) =
    acquire_verified acquire reg reading marking now g acquirer (load reg reading g)

unfoldable pub verify_and_mark_available :
    (Release → Bool)
    → Registry
    → Tx
    → Tx
    → Tx
    → ℕ
    → ℕ
    → Requirements
    → String
    → String
    → Result Error (Unit {0}) × Registry
unfolding acquire_verified
verify_and_mark_available acquire reg verifying reading marking now g req verifier acquirer =
    after_verify acquire reading marking now g acquirer (verify reg verifying now g req verifier)
