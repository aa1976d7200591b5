-- ===== src/Capability/Mint.antt =====
-- What `NewClaims` accepts, and the claims that it makes.
use gh_agent_broker.Prelude.{
  ◌<◌, ◌==◌, ◌||◌, String, ◌≡◌, ◌≢◌, ◌⊎◌, ◌↔◌, inl, inr, OnOk, Result-cases, refl, true, false,
  arith, eq_iff, List, [], ◌∷◌, pos, ◌≤ℤ◌, ok, err, contains,
}
use gh_agent_broker.Capability.Claims.{
  Claims, ClaimsInput, invalid_claims, non_empty, allows_model, add_model, collect_models,
  new_claims,
}
use gh_agent_broker.Capability.Decision.{IsCoherent}

contains-add_model :
    (models : List String) (m x : String)
    → contains (add_model models m) x ≡ (m == x || contains models x)
unfolding add_model contains
contains-add_model models m x = ground (arith, eq_iff m x)

contains-collect_models :
    (models rest : List String) {out : List String} (x : String)
    → collect_models models rest ≡ ok out
    → contains out x ≡ (contains models x || contains rest x)
unfolding collect_models contains
contains-collect_models models [] x h = ground arith
contains-collect_models models (m ∷ rest) {out} x h = ground (
  arith,
  contains-collect_models (add_model models m) rest {out = out} x,
  contains-add_model models m x,
)

pub record IsWellFormed (input : ClaimsInput) : Type 0 where
  pub agent : input.agent_type ≢ ""
  pub mode : input.mode ≢ ""
  pub run : input.run_id ≢ ""
  pub work_item : input.work_item_id ≢ ""
  pub expires : 0 < input.expiry
  pub no_blank : contains input.allowed_models "" ≡ false
  pub access :
      ((input.allowed_models ≡ []) × (input.call_budget ≡ pos 0) × (input.token_budget ≡ pos 0))
      ⊎ ((input.allowed_models ≢ []) × (pos 1 ≤ℤ input.call_budget) × (pos 1 ≤ℤ input.token_budget))

-- Without a blank name the loop returns a set, which is empty only if it began and stayed so.
collect_models_total :
    (models rest : List String)
    → contains rest "" ≡ false
    → (out : List String) × (collect_models models rest ≡ ok out)
unfolding collect_models contains
collect_models_total models [] h = (models, refl)
collect_models_total models (m ∷ rest) h =
    let (out, e) = collect_models_total (add_model models m) rest (ground arith) in
    (out, ground arith)

collect_models_blank :
    (models rest : List String)
    → contains rest "" ≡ true
    → collect_models models rest ≡ err invalid_claims
unfolding collect_models contains
collect_models_blank models [] h = cc
collect_models_blank models (m ∷ rest) h =
    ground (arith, collect_models_blank (add_model models m) rest)

add_model-non_empty : (models : List String) (m : String) → non_empty (add_model models m) ≡ true
unfolding add_model contains
add_model-non_empty [] m = refl
add_model-non_empty (x ∷ models) m = ground arith

non_empty-collect_models :
    (models rest : List String) {out : List String}
    → collect_models models rest ≡ ok out
    → non_empty out ≡ (non_empty models || non_empty rest)
unfolding collect_models
non_empty-collect_models models [] h = ground arith
non_empty-collect_models models (m ∷ rest) {out} h = ground (
  arith,
  non_empty-collect_models (add_model models m) rest {out = out},
  add_model-non_empty models m,
)

collected :
    (models rest : List String)
    → OnOk
        (λ out. non_empty out ≡ (non_empty models || non_empty rest))
        (collect_models models rest)
collected models rest = elim (Result-cases (collect_models models rest)) [
  | inl (out, e) ↦ rw e (non_empty-collect_models models rest e)
  | inr (x, e) ↦ rw e tt
]

pub record IsMintedFrom (input : ClaimsInput) (c : Claims) : Type 0 where
  pub agent : c.agent_type ≡ input.agent_type
  pub mode : c.mode ≡ input.mode
  pub run : c.run_id ≡ input.run_id
  pub work_item : c.work_item_id ≡ input.work_item_id
  pub calls : c.call_budget ≡ input.call_budget
  pub tokens : c.token_budget ≡ input.token_budget
  pub expiry : c.expiry ≡ input.expiry
  pub enabled : non_empty c.allowed_models ≡ non_empty input.allowed_models

new_claims_sound :
    (input : ClaimsInput) {c : Claims}
    → new_claims input ≡ ok c
    → IsWellFormed input × IsCoherent c × IsMintedFrom input c
unfolding new_claims
new_claims_sound input {c} h = ground (
  arith,
  eq_iff input.agent_type "",
  eq_iff input.mode "",
  eq_iff input.run_id "",
  eq_iff input.work_item_id "",
  collected [] input.allowed_models,
  collect_models_blank [] input.allowed_models,
)

new_claims-models :
    (input : ClaimsInput) {c : Claims}
    → new_claims input ≡ ok c
    → (m : String) → contains c.allowed_models m ≡ contains input.allowed_models m
unfolding new_claims contains
new_claims-models input {c} h m =
    ground (arith, contains-collect_models [] input.allowed_models {out = c.allowed_models} m)

claims_of : ClaimsInput → List String → Claims
claims_of input models = record {
  agent_type = input.agent_type;
  mode = input.mode;
  run_id = input.run_id;
  work_item_id = input.work_item_id;
  allowed_models = models;
  call_budget = input.call_budget;
  token_budget = input.token_budget;
  expiry = input.expiry;
}

new_claims_complete :
    (input : ClaimsInput) → IsWellFormed input → (c : Claims) × (new_claims input ≡ ok c)
unfolding new_claims claims_of
new_claims_complete input w =
    let (models, e) = collect_models_total [] input.allowed_models w.no_blank in
    (
      claims_of input models,
      ground (
        arith,
        e,
        eq_iff input.agent_type "",
        eq_iff input.mode "",
        eq_iff input.run_id "",
        eq_iff input.work_item_id "",
        non_empty-collect_models [] input.allowed_models e,
      ),
    )

-- `NewClaims` returns claims exactly on well-formed input.
pub new_claims_iff :
    (input : ClaimsInput) → ((c : Claims) × (new_claims input ≡ ok c)) ↔ IsWellFormed input
new_claims_iff input = (λ h. (new_claims_sound input (h.1)).0, new_claims_complete input)

-- Claims that `NewClaims` returns are coherent, carry the input's fields, and allow exactly the
-- models that the input lists.
pub new_claims_correct :
    (input : ClaimsInput) (c : Claims)
    → new_claims input ≡ ok c
    → IsCoherent c
      × IsMintedFrom input c
      × ((m : String) → allows_model c m ≡ contains input.allowed_models m)
unfolding allows_model
new_claims_correct input c h =
    ((new_claims_sound input h).1, (new_claims_sound input h).2, λ m. new_claims-models input h m)

pub new_claims_minted :
    (input : ClaimsInput)
    → OnOk (λ c. IsWellFormed input × IsCoherent c × IsMintedFrom input c) (new_claims input)
new_claims_minted input = elim (Result-cases (new_claims input)) [
  | inl (c, e) ↦ rw e (new_claims_sound input e)
  | inr (x, e) ↦ rw e tt
]
