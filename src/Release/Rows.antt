-- ===== src/Release/Rows.antt =====
-- internal/release/release.go: the rows under updates, their generations and the active ones counted.
use gh_agent_broker.Prelude.{
  ℕ, suc, ◌+◌, ◌≤◌, ◌<◌, String, ◌==◌, ◌≡◌, inl, inr, refl, arith, eq_iff, true, ◌&&◌, List, [],
  ◌∷◌, ◌++◌, Option, none, some, eqb, if◌then◌else◌, Bool-cases,
}
use gh_agent_broker.Release.Registry.{Release, is_active, by_generation, by_active, update_release}

-- The generations grow from `lo` and stay below the counter.
abbrev pub Numbered : ℕ → List Release → ℕ → Type 0
Numbered lo [] next = lo ≤ next
Numbered lo (r ∷ rs) next = (lo ≤ r.generation) × Numbered (suc r.generation) rs next

abbrev pub one : String → Release → ℕ
one type r = if r.agent_type == type && is_active r.state then 1 else 0

unfoldable pub active_count : String → List Release → ℕ
active_count type [] = 0
active_count type (r ∷ rs) = one type r + active_count type rs

abbrev pub map_found : (Release → Release) → Option Release → Option Release
map_found f none = none
map_found f (some r) = some (f r)

module _ (f : Release → Release) (keeps : (r : Release) → (f r).generation ≡ r.generation) where
  pub by_generation-update_release :
      (g h : ℕ) (rs : List Release)
      → by_generation h (update_release g f rs)
        ≡ (if eqb g h then map_found f (by_generation h rs) else by_generation h rs)
  unfolding by_generation update_release
  by_generation-update_release g h [] = ground arith
  by_generation-update_release g h (r ∷ rs) =
      ground (arith, keeps r, by_generation-update_release g h rs)

  pub Numbered-update_release :
      (g lo next : ℕ) (rs : List Release)
      → Numbered lo rs next
      → Numbered lo (update_release g f rs) next
  unfolding update_release
  Numbered-update_release g lo next [] h = h
  Numbered-update_release g lo next (r ∷ rs) h = elim (Bool-cases (eqb r.generation g)) [
    | inl same ↦
        rw (same, update_release)
          (rw (keeps r) (h.0, Numbered-update_release g (suc r.generation) next rs h.1))
    | inr other ↦
        rw (other, update_release) (h.0, Numbered-update_release g (suc r.generation) next rs h.1)
  ]

pub Numbered-append :
    (lo : ℕ) (rs : List Release) (r : Release) (next : ℕ)
    → Numbered lo rs next
    → r.generation ≡ next
    → Numbered lo (rs ++ r ∷ []) (next + 1)
Numbered-append lo [] r next h e = ground arith
Numbered-append lo (x ∷ rs) r next h e = (h.0, Numbered-append (suc x.generation) rs r next h.1 e)

-- Past the generation no row is touched.
pub active_count-update_past :
    (type : String) (f : Release → Release) (g lo next : ℕ) (rs : List Release)
    → g < lo
    → Numbered lo rs next
    → active_count type (update_release g f rs) ≡ active_count type rs
unfolding active_count update_release
active_count-update_past type f g lo next [] less h = refl
active_count-update_past type f g lo next (r ∷ rs) less h =
    ground (arith, active_count-update_past type f g (suc r.generation) next rs)

-- The update of a row moves the count by what that row counts for.
pub active_count-update_release :
    (type : String) (f : Release → Release) (g lo next : ℕ) (rs : List Release) (found : Release)
    → Numbered lo rs next
    → by_generation g rs ≡ some found
    → active_count type (update_release g f rs) + one type found
      ≡ active_count type rs + one type (f found)
unfolding active_count by_generation update_release
active_count-update_release type f g lo next [] found h e = cc
active_count-update_release type f g lo next (r ∷ rs) found h e =
    elim (Bool-cases (eqb r.generation g)) [
      | inl same ↦ ground (arith, h.1, active_count-update_past type f g (suc r.generation) next rs)
      | inr other ↦
          ground (arith, h.1, active_count-update_release type f g (suc r.generation) next rs found)
    ]

pub active_count-append :
    (type : String) (rs : List Release) (r : Release)
    → active_count type (rs ++ r ∷ []) ≡ active_count type rs + one type r
unfolding active_count
active_count-append type [] r = ground arith
active_count-append type (x ∷ rs) r = ground (arith, active_count-append type rs r)

pub active_count-by_active :
    (type : String) (rs : List Release) → by_active type rs ≡ none → active_count type rs ≡ 0
unfolding active_count by_active
active_count-by_active type [] h = refl
active_count-by_active type (r ∷ rs) h = ground (arith, active_count-by_active type rs)

-- The first active row of a type is found again by its generation.
pub by_active_found :
    (type : String) (lo next : ℕ) (rs : List Release) (found : Release)
    → Numbered lo rs next
    → by_active type rs ≡ some found
    → (by_generation found.generation rs ≡ some found)
      × (found.agent_type ≡ type)
      × (is_active found.state ≡ true)
      × (lo ≤ found.generation)
unfolding by_active by_generation
by_active_found type lo next [] found h e = cc
by_active_found type lo next (r ∷ rs) found h e =
    elim (Bool-cases (r.agent_type == type && is_active r.state)) [
      | inl this ↦ ground (arith, eq_iff r.agent_type type)
      | inr later ↦ ground (arith, by_active_found type (suc r.generation) next rs found)
    ]

pub by_generation-of :
    (g : ℕ) (rs : List Release) (found : Release)
    → by_generation g rs ≡ some found
    → found.generation ≡ g
unfolding by_generation
by_generation-of g [] found h = cc
by_generation-of g (r ∷ rs) found h = ground (arith, by_generation-of g rs found)
