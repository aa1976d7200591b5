-- ===== src/Release/Rounds.antt =====
-- internal/release/release.go: one round of the first loop of `Reconcile`.
use gh_agent_broker.Prelude.{
  ℕ, String, ◌≡◌, ◌⊎◌, inl, inr, refl, arith, Bool, true, ◌&&◌, List, ◌∷◌, Option, some, eqb, ok,
  Tx, Bool-cases, Option-cases, Result-cases,
}
use gh_agent_broker.Release.Registry.{
  Release, Registry, is_active, load, found_release, by_generation, record_audit,
}
use gh_agent_broker.Release.Operations.{set_available, mark_checked, mark_available}
use gh_agent_broker.Release.Reconcile.{Missing, same, reconcile_one}
use gh_agent_broker.Release.Rows.{by_generation-update_release}
use gh_agent_broker.Release.Items.{covers, Matches, with_available}

module _ (check : String → String → Option Bool) where
  -- An available row has its image.
  unfoldable pub IsSettled : Release → Type 0
  IsSettled row = row.available ≡ true → check row.image_reference row.image_digest ≡ some true

  -- Each active row is settled or still to come.
  unfoldable pub IsCovered : List Release → List Release → Type 0
  IsCovered rows items =
      (g : ℕ) (row : Release)
      → by_generation g rows ≡ some row
      → is_active row.state ≡ true
      → IsSettled row ⊎ (covers g row.available items ≡ true)

  pub mark_releases :
      (reg : Registry) (tx : Tx) (now g : ℕ) (available : Bool) (actor : String)
      → (mark_available reg tx now g available actor).0 ≡ ok tt
      → (mark_available reg tx now g available actor).1.releases
        ≡ (set_available g available now reg).releases
  unfolding mark_available mark_checked load found_release record_audit
  mark_releases reg tx now g available actor e =
      elim (Option-cases (by_generation g reg.releases)) [
        | inl gone ↦ absurd (ground (arith, gone))
        | inr (row, found) ↦ ground (arith, found)
      ]

  -- What one round leaves: the rows, those of the item's generation set to what the check says.
  pub one_cases :
      (reg : Registry) (marking : ℕ → Tx) (now : ℕ) (actor : String) (r : Release)
      (more : List Missing)
      → (reconcile_one check reg marking now actor r).0 ≡ ok more
      → (available : Bool) × (check r.image_reference r.image_digest ≡ some available)
        × (((same available r.available ≡ true)
              × ((reconcile_one check reg marking now actor r).1.releases ≡ reg.releases))
            ⊎ ((reconcile_one check reg marking now actor r).1.releases
                ≡ (set_available r.generation available now reg).releases))
  unfolding reconcile_one
  one_cases reg marking now actor r more e =
      elim (Option-cases (check r.image_reference r.image_digest)) [
        | inl gone ↦ absurd (ground (arith, gone))
        | inr (available, seen) ↦ elim (Bool-cases (same available r.available)) [
          | inl unchanged ↦ (available, seen, inl (unchanged, ground (arith, seen, unchanged)))
          | inr changed ↦
              elim (Result-cases
                (mark_available reg (marking r.generation) now r.generation available actor).0) [
                  | inr (x, bad) ↦ absurd (ground (arith, seen, changed, bad))
                  | inl (u, fine) ↦ (
                    available,
                    seen,
                    inr (
                        ground (
                          arith,
                          seen,
                          changed,
                          fine,
                          mark_releases reg (marking r.generation) now r.generation available actor,
                        )),
                  )
                ]
        ]
      ]

  pub IsCovered-after_mark :
      (rows : List Release) (r : Release) (available : Bool) (now : ℕ) (items : List Release)
      → check r.image_reference r.image_digest ≡ some available
      → Matches rows r
      → IsCovered rows (r ∷ items)
      → IsCovered (with_available r.generation available now rows) items
  unfolding IsCovered IsSettled covers
  IsCovered-after_mark rows r available now items seen (own, at, reference, digest) h g row found
        live =
      let f : Release → Release = λ x. record x { available = available; updated_at = now } in
      let moved = by_generation-update_release f (λ x. refl) r.generation g rows in
      elim (Bool-cases (eqb r.generation g)) [
        | inl same_generation ↦
            inl
              (λ av. ground (arith, moved, same_generation, found, at, reference, digest, seen, av))
        | inr other ↦ elim (h g row (ground (arith, moved, other, found)) live) [
          | inl settled ↦ inl settled
          | inr coming ↦ inr (ground (arith, other, coming))
        ]
      ]

  pub IsCovered-unchanged :
      (rows : List Release) (r : Release) (available : Bool) (items : List Release)
      → check r.image_reference r.image_digest ≡ some available
      → same available r.available ≡ true
      → Matches rows r
      → IsCovered rows (r ∷ items)
      → IsCovered rows items
  unfolding IsCovered IsSettled covers
  IsCovered-unchanged rows r available items seen unchanged (own, at, reference, digest) h g row
        found live =
      elim (h g row found live) [
        | inl settled ↦ inl settled
        | inr coming ↦ elim (Bool-cases (eqb r.generation g && same r.available row.available)) [
          | inr other ↦ inr (ground (arith, other, coming))
          | inl this ↦
              inl (λ av. ground (arith, this, av, found, at, reference, digest, seen, unchanged))
        ]
      ]
