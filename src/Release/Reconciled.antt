-- ===== src/Release/Reconciled.antt =====
-- internal/release/release.go: what `Reconcile` leaves for `Resolve`.
use gh_agent_broker.Prelude.{
  ℕ, String, ◌==◌, ◌≡◌, inl, inr, refl, sym, subst, arith, Bool, true, not, ◌||◌, List, [], ◌∷◌,
  ◌++◌, Option, some, All, ok, Tx, Bool-cases, Result-cases,
}
use gh_agent_broker.Release.Registry.{Release, Registry, is_active, scan, by_generation, resolve}
use gh_agent_broker.Release.Reconcile.{
  Missing, active_rows, active_releases, reconcile_one, reconcile_each, reconcile,
}
use gh_agent_broker.Release.Rows.{Numbered, by_active_found, Numbered-update_release}
use gh_agent_broker.Release.Trace.{IsOrderly}
use gh_agent_broker.Release.Resolution.{resolve_row}
use gh_agent_broker.Release.Items.{
  covers, covers-active_rows, Matches, Matches-active_rows, All-with_available,
}
use gh_agent_broker.Release.Rounds.{
  IsSettled, IsCovered, one_cases, IsCovered-after_mark, IsCovered-unchanged,
}

module _ (check : String → String → Option Bool) where
  -- What the loop needs of the rows and the items to come.
  abbrev Pending : List Release → List Release → Type 0
  Pending rows items = All (Matches rows) items × IsCovered check rows items

  one-Pending :
      (reg : Registry) (marking : ℕ → Tx) (now : ℕ) (actor : String) (r : Release)
      (rs : List Release) (more : List Missing)
      → (reconcile_one check reg marking now actor r).0 ≡ ok more
      → Pending reg.releases (r ∷ rs)
      → Pending (reconcile_one check reg marking now actor r).1.releases rs
  one-Pending reg marking now actor r rs more e (m, h) =
      let after = (reconcile_one check reg marking now actor r).1.releases in
      let (available, seen, outcome) = one_cases check reg marking now actor r more e in
      elim outcome [
        | inl (unchanged, kept) ↦
            subst (λ rows. Pending rows rs) (sym kept)
              (m.1, IsCovered-unchanged check reg.releases r available rs seen unchanged m.0 h)
        | inr marked ↦
            subst (λ rows. Pending rows rs) (sym marked)
              (
                All-with_available r.generation available now reg.releases rs m.1,
                IsCovered-after_mark check reg.releases r available now rs seen m.0 h,
              )
      ]

  each-IsCovered :
      (reg : Registry) (marking : ℕ → Tx) (now : ℕ) (actor : String) (items : List Release)
      (missing out : List Missing)
      → (reconcile_each check reg marking now actor items missing).0 ≡ ok out
      → Pending reg.releases items
      → IsCovered check (reconcile_each check reg marking now actor items missing).1.releases []
  unfolding reconcile_each
  each-IsCovered reg marking now actor [] missing out e (m, h) = h
  each-IsCovered reg marking now actor (r ∷ rs) missing out e p =
      elim (Result-cases (reconcile_one check reg marking now actor r).0) [
        | inr (x, bad) ↦ absurd (ground (arith, bad))
        | inl (more, fine) ↦
            let after = (reconcile_one check reg marking now actor r).1 in
            let rest =
              each-IsCovered after marking now actor rs (missing ++ more) out
                (ground (arith, fine, e)) (one-Pending reg marking now actor r rs more fine p) in
            let same_end : (reconcile_each check after marking now actor rs
                  (missing ++ more)).1.releases
                ≡ (reconcile_each check reg marking now actor (r ∷ rs) missing).1.releases =
              ground (arith, fine) in
            subst (λ rows. IsCovered check rows []) same_end rest
      ]

  reconcile-IsCovered :
      (reg : Registry) (tx : Tx) (marking : ℕ → Tx) (now : ℕ) (actor : String)
      (missing : List Missing)
      → Numbered 1 reg.releases reg.next_generation
      → (reconcile check reg tx marking now actor).0 ≡ ok missing
      → IsCovered check (reconcile check reg tx marking now actor).1.releases []
  unfolding reconcile active_releases IsCovered
  reconcile-IsCovered reg tx marking now actor missing numbered e =
      elim (Bool-cases (actor == "" || not tx.queries)) [
        | inl bad ↦ absurd (ground (arith, bad))
        | inr fine ↦
            let items = active_rows reg.releases in
            elim (Result-cases (reconcile_each check reg marking now actor items []).0) [
              | inr (x, bad) ↦ absurd (ground (arith, fine, bad))
              | inl (out, looped) ↦
                  let start : Pending reg.releases items = (
                    Matches-active_rows reg.releases 1 reg.next_generation reg.releases numbered
                        (λ g row less found. found),
                    λ g row found live. inr (covers-active_rows g reg.releases row found live),
                  ) in
                  let same_end : (reconcile_each check reg marking now actor items []).1.releases
                      ≡ (reconcile check reg tx marking now actor).1.releases =
                    ground (arith, fine, looped) in
                  subst (λ rows. IsCovered check rows []) same_end
                    (each-IsCovered reg marking now actor items [] out looped start)
            ]
      ]

  -- The rows stay numbered.
  one-Numbered :
      (reg : Registry) (marking : ℕ → Tx) (now : ℕ) (actor : String) (r : Release)
      (more : List Missing) (next : ℕ)
      → (reconcile_one check reg marking now actor r).0 ≡ ok more
      → Numbered 1 reg.releases next
      → Numbered 1 (reconcile_one check reg marking now actor r).1.releases next
  one-Numbered reg marking now actor r more next e h =
      let (available, seen, outcome) = one_cases check reg marking now actor r more e in
      elim outcome [
        | inl (unchanged, kept) ↦ subst (λ rows. Numbered 1 rows next) (sym kept) h
        | inr marked ↦
            subst (λ rows. Numbered 1 rows next) (sym marked)
              (Numbered-update_release (λ x. record x { available = available; updated_at = now })
                (λ x. refl) r.generation 1 next reg.releases h)
      ]

  each-Numbered :
      (reg : Registry) (marking : ℕ → Tx) (now : ℕ) (actor : String) (items : List Release)
      (missing out : List Missing) (next : ℕ)
      → (reconcile_each check reg marking now actor items missing).0 ≡ ok out
      → Numbered 1 reg.releases next
      → Numbered 1 (reconcile_each check reg marking now actor items missing).1.releases next
  unfolding reconcile_each
  each-Numbered reg marking now actor [] missing out next e h = h
  each-Numbered reg marking now actor (r ∷ rs) missing out next e h =
      elim (Result-cases (reconcile_one check reg marking now actor r).0) [
        | inr (x, bad) ↦ absurd (ground (arith, bad))
        | inl (more, fine) ↦
            let after = (reconcile_one check reg marking now actor r).1 in
            let same_end : (reconcile_each check after marking now actor rs
                  (missing ++ more)).1.releases
                ≡ (reconcile_each check reg marking now actor (r ∷ rs) missing).1.releases =
              ground (arith, fine) in
            subst (λ rows. Numbered 1 rows next) same_end
              (each-Numbered after marking now actor rs (missing ++ more) out next
                (ground (arith, fine, e)) (one-Numbered reg marking now actor r more next fine h))
      ]

  reconcile-Numbered :
      (reg : Registry) (tx : Tx) (marking : ℕ → Tx) (now : ℕ) (actor : String)
      (missing : List Missing)
      → Numbered 1 reg.releases reg.next_generation
      → (reconcile check reg tx marking now actor).0 ≡ ok missing
      → Numbered 1 (reconcile check reg tx marking now actor).1.releases reg.next_generation
  unfolding reconcile active_releases
  reconcile-Numbered reg tx marking now actor missing numbered e =
      elim (Bool-cases (actor == "" || not tx.queries)) [
        | inl bad ↦ absurd (ground (arith, bad))
        | inr fine ↦
            let items = active_rows reg.releases in
            elim (Result-cases (reconcile_each check reg marking now actor items []).0) [
              | inr (x, bad) ↦ absurd (ground (arith, fine, bad))
              | inl (out, looped) ↦
                  let same_end : (reconcile_each check reg marking now actor items []).1.releases
                      ≡ (reconcile check reg tx marking now actor).1.releases =
                    ground (arith, fine, looped) in
                  subst (λ rows. Numbered 1 rows reg.next_generation) same_end
                    (each-Numbered reg marking now actor items [] out reg.next_generation looped
                      numbered)
            ]
      ]

  settled_row :
      (rows : List Release) (row : Release)
      → IsCovered check rows []
      → by_generation row.generation rows ≡ some row
      → is_active row.state ≡ true
      → row.available ≡ true
      → check row.image_reference row.image_digest ≡ some true
  unfolding IsCovered IsSettled covers
  settled_row rows row h found live av = elim (h row.generation row found live) [
    | inl settled ↦ settled av
    | inr coming ↦ absurd (ground arith)
  ]

  -- Once `Reconcile` has returned on an orderly registry, each release that `Resolve` then returns has its
  -- image, as the availability check says, whatever the registry held of it before.
  pub resolve-reconcile :
      (reg : Registry) (tx tx' : Tx) (marking : ℕ → Tx) (now : ℕ) (actor : String)
      (missing : List Missing) (type : String) (r : Release)
      → IsOrderly reg
      → (reconcile check reg tx marking now actor).0 ≡ ok missing
      → resolve (reconcile check reg tx marking now actor).1 tx' type ≡ ok r
      → check r.image_reference r.image_digest ≡ some true
  unfolding scan
  resolve-reconcile reg tx tx' marking now actor missing type r orderly e found =
      let after = (reconcile check reg tx marking now actor).1 in
      let (row, held, read, av) = resolve_row after tx' type r found in
      let (at, own, live, low) =
        by_active_found type 1 reg.next_generation after.releases row
          (reconcile-Numbered reg tx marking now actor missing orderly.numbered e) held in
      ground (
        arith,
        read,
        settled_row after.releases row
            (reconcile-IsCovered reg tx marking now actor missing orderly.numbered e) at live av,
      )
