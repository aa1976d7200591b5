-- ===== src/Correlation/Select.antt =====
-- What `ClaimPending` takes, and what it leaves.
use gh_agent_broker.Prelude.{
  ℕ, suc, String, ◌≡◌, refl, ◌∙◌, arith, Bool, true, false, ◌||◌, List, [], ◌∷◌, take, map, some, ℤ,
  eqb, ok, All, if◌then◌else◌,
}
use gh_agent_broker.Correlation.Clock.{Time}
use gh_agent_broker.Correlation.Outbox.{OutboxEvent}
use gh_agent_broker.Correlation.Lease.{
  is_claimable, claimable_ids, outbox_by_id, update_event, set_claimed, claim_each, effective_limit,
}
use gh_agent_broker.Correlation.Candidates.{
  Increasing, Increasing-weaken, Increasing-take, All-take, event_id, self, map_option,
  outbox_by_id-update_event, ids-update_event, IsCandidate, claimable_ids-Increasing,
  claimable_ids_sound,
}

abbrev pub mem_id : ℕ → List ℕ → Bool
mem_id i [] = false
mem_id i (j ∷ ids) = eqb j i || mem_id i ids

not_mem : (i : ℕ) (ids : List ℕ) → Increasing self (suc i) ids → mem_id i ids ≡ false
not_mem i [] inc = refl
not_mem i (j ∷ ids) inc =
    ground (arith, not_mem i ids (Increasing-weaken self (suc i) (suc j) ids (omega arith) inc.1))

module _ {B : Type 0} (token : String) (now expiry : Time) where
  -- The returned event is the candidate's, as it stands after the claim.
  abbrev pub IsTaken : List (OutboxEvent B) → ℕ → OutboxEvent B → Type 0
  IsTaken es i e =
      (e0 : OutboxEvent B) × (outbox_by_id i es ≡ some e0)
      × (is_claimable expiry e0 ≡ true)
      × (e0.id ≡ i)
      × (e ≡ set_claimed token now e0)

  abbrev pub AllTaken : List (OutboxEvent B) → List ℕ → List (OutboxEvent B) → Type 0
  AllTaken es [] [] = Unit
  AllTaken es [] (e ∷ out) = ⊥
  AllTaken es (i ∷ ids) [] = ⊥
  AllTaken es (i ∷ ids) (e ∷ out) = IsTaken es i e × AllTaken es ids out

  -- The events of the ids are claimed, and every other event is as it was.
  abbrev pub IsAfter : List (OutboxEvent B) → List ℕ → List (OutboxEvent B) → Type 0
  IsAfter es ids last =
      (j : ℕ)
      → outbox_by_id j last ≡ (
          if mem_id j ids
          then map_option (set_claimed token now) (outbox_by_id j es)
          else outbox_by_id j es)

  keeps_id : (e : OutboxEvent B) → (set_claimed token now e).id ≡ e.id
  unfolding set_claimed
  keeps_id e = refl

  claim_one : ℕ → List (OutboxEvent B) → List (OutboxEvent B)
  claim_one i es = update_event i (set_claimed token now) es

  by_id-claim_one :
      (i j : ℕ) (es : List (OutboxEvent B))
      → outbox_by_id j (claim_one i es) ≡ (
          if eqb i j
          then map_option (set_claimed token now) (outbox_by_id j es)
          else outbox_by_id j es)
  unfolding claim_one
  by_id-claim_one i j es = outbox_by_id-update_event i j (set_claimed token now) keeps_id es

  Candidate-claim_one :
      (i : ℕ) (es : List (OutboxEvent B)) (ids : List ℕ)
      → Increasing self (suc i) ids
      → All (IsCandidate expiry es) ids
      → All (IsCandidate expiry (claim_one i es)) ids
  Candidate-claim_one i es [] inc all = tt
  Candidate-claim_one i es (j ∷ ids) inc all = (
    (all.0.0, ground (arith, by_id-claim_one i j es, all.0.1), all.0.2, all.0.3),
    Candidate-claim_one i es ids (Increasing-weaken self (suc i) (suc j) ids (omega arith) inc.1)
        all.1,
  )

  AllTaken-claim_one :
      (i : ℕ) (es : List (OutboxEvent B)) (ids : List ℕ) (out : List (OutboxEvent B))
      → Increasing self (suc i) ids
      → AllTaken (claim_one i es) ids out
      → AllTaken es ids out
  AllTaken-claim_one i es [] [] inc all = tt
  AllTaken-claim_one i es [] (e ∷ out) inc all = all
  AllTaken-claim_one i es (j ∷ ids) [] inc all = all
  AllTaken-claim_one i es (j ∷ ids) (e ∷ out) inc all = (
    (all.0.0, ground (arith, by_id-claim_one i j es, all.0.1), all.0.2, all.0.3, all.0.4),
    AllTaken-claim_one i es ids out (Increasing-weaken self (suc i) (suc j) ids (omega arith) inc.1)
        all.1,
  )

  pub claim_each_correct :
      (lo : ℕ) (ids : List ℕ) (es : List (OutboxEvent B))
      → Increasing self lo ids
      → All (IsCandidate expiry es) ids
      → (out last : List (OutboxEvent B)) × (claim_each token now ids es ≡ ok (out, last))
        × AllTaken es ids out
        × IsAfter es ids last
        × (map event_id last ≡ map event_id es)
  unfolding claim_each claim_one
  claim_each_correct lo [] es inc all = ([], es, refl, tt, λ j. refl, refl)
  claim_each_correct lo (i ∷ ids) es inc all =
      let (e0, found, free, same) = all.0 in
      let (out, last, done, taken, after, kept) =
        claim_each_correct (suc i) ids (claim_one i es) inc.1
          (Candidate-claim_one i es ids inc.1 all.1) in
      (
        set_claimed token now e0 ∷ out,
        last,
        ground (arith, by_id-claim_one i i es, found, done),
        ((e0, found, free, same, refl), AllTaken-claim_one i es ids out inc.1 taken),
        λ j. ground (arith, after j, by_id-claim_one i j es, not_mem i ids inc.1),
        kept ∙ ids-update_event i (set_claimed token now) keeps_id es,
      )

abbrev pub selected : {B : Type 0} → Time → ℤ → List (OutboxEvent B) → List ℕ
selected expiry limit es = take (effective_limit limit) (claimable_ids expiry es)

module _ {B : Type 0} (expiry : Time) (limit : ℤ) (es : List (OutboxEvent B))
    (inc : Increasing event_id 0 es) where
  selected-Increasing : Increasing self 0 (selected expiry limit es)
  selected-Increasing =
      Increasing-take self 0 (effective_limit limit) (claimable_ids expiry es)
        (claimable_ids-Increasing expiry 0 es inc)

  pub selected_sound : All (IsCandidate expiry es) (selected expiry limit es)
  selected_sound =
      All-take (IsCandidate expiry es) (effective_limit limit) (claimable_ids expiry es)
        (claimable_ids_sound expiry 0 es inc)

  pub claim_selected :
      (token : String) (now : Time)
      → (out last : List (OutboxEvent B)) × (claim_each token now (selected expiry limit es) es
          ≡ ok (out, last))
        × AllTaken token now expiry es (selected expiry limit es) out
        × IsAfter token now expiry es (selected expiry limit es) last
        × (map event_id last ≡ map event_id es)
  claim_selected token now =
      claim_each_correct token now expiry 0 (selected expiry limit es) es selected-Increasing
        selected_sound
