-- ===== src/Release/Items.antt =====
-- internal/release/release.go: the items of `Reconcile` and the rows that they were read from.
use Prim.Native.String.{compare}
use Prim.Native.Nat.{Ordering}
use gh_agent_broker.Prelude.{
  ℕ, suc, ◌≤◌, ◌≡◌, inl, inr, refl, arith, Bool, true, false, ◌&&◌, ◌||◌, List, [], ◌∷◌, some, eqb,
  All, Bool-cases,
}
use gh_agent_broker.Release.Registry.{Release, is_active, scan, by_generation, update_release}
use gh_agent_broker.Release.Reconcile.{insert_by_type, active_rows, same}
use gh_agent_broker.Release.Rows.{Numbered, by_generation-update_release}

-- One of the items has the generation and the availability.
unfoldable pub covers : ℕ → Bool → List Release → Bool
covers g av [] = false
covers g av (i ∷ items) = (eqb i.generation g && same i.available av) || covers g av items

pub covers-insert_by_type :
    (g : ℕ) (av : Bool) (r : Release) (rs : List Release)
    → covers g av (insert_by_type r rs) ≡ covers g av (r ∷ rs)
unfolding covers insert_by_type
covers-insert_by_type g av r [] = refl
covers-insert_by_type g av r (x ∷ rs) = ground (arith, covers-insert_by_type g av r rs)

pub same_refl : (b : Bool) → same b b ≡ true
same_refl true = refl
same_refl false = refl

pub covers-active_rows :
    (g : ℕ) (rs : List Release) (row : Release)
    → by_generation g rs ≡ some row
    → is_active row.state ≡ true
    → covers g row.available (active_rows rs) ≡ true
unfolding active_rows by_generation covers scan
covers-active_rows g [] row h a = absurd (ground arith)
covers-active_rows g (r ∷ rs) row h a = ground (
  arith,
  same_refl row.available,
  covers-insert_by_type g row.available (scan r) (active_rows rs),
  covers-active_rows g rs row,
)

-- The item has the image of the row of its generation.
abbrev pub Matches : List Release → Release → Type 0
Matches rows i =
    (row : Release) × (by_generation i.generation rows ≡ some row)
    × (row.image_reference ≡ i.image_reference)
    × (row.image_digest ≡ i.image_digest)

pub All-by_order :
    (P : Release → Type 0) (r x : Release) (rs later : List Release) (o : Ordering)
    → P r
    → P x
    → All P rs
    → All P later
    → All P (elim o as (λ y. List Release) [ Ordering.gt ↦ r ∷ x ∷ rs | _ ↦ x ∷ later ])
All-by_order P r x rs later Ordering.gt h px k l = (h, (px, k))
All-by_order P r x rs later Ordering.lt h px k l = (px, l)
All-by_order P r x rs later Ordering.eq h px k l = (px, l)

pub All-insert_by_type :
    (P : Release → Type 0) (r : Release) (rs : List Release)
    → P r
    → All P rs
    → All P (insert_by_type r rs)
unfolding insert_by_type
All-insert_by_type P r [] h k = (h, tt)
All-insert_by_type P r (x ∷ rs) h k =
    All-by_order P r x rs (insert_by_type r rs) (compare x.agent_type r.agent_type) h k.0 k.1
      (All-insert_by_type P r rs h k.1)

-- A row of the list is found again by its generation among the numbered ones.
pub Matches-active_rows :
    (rows : List Release) (lo next : ℕ) (rs : List Release)
    → Numbered lo rs next
    → ((g : ℕ) (row : Release)
        → lo ≤ g
        → by_generation g rs ≡ some row
        → by_generation g rows ≡ some row)
    → All (Matches rows) (active_rows rs)
unfolding active_rows scan
Matches-active_rows rows lo next [] h sub = tt
Matches-active_rows rows lo next (r ∷ rs) h sub =
    let later =
      Matches-active_rows rows (suc r.generation) next rs h.1
        (λ g row less e. sub g row (omega (arith, h.0)) (unfold by_generation in ground arith)) in
    elim (Bool-cases (is_active r.state)) [
      | inr idle ↦ rw idle later
      | inl live ↦ rw live (
          All-insert_by_type (Matches rows) (scan r) (active_rows rs)
            (r, sub r.generation r h.0 (unfold by_generation in ground arith), refl, refl) later)
    ]

-- The update of the availability at a generation.
abbrev pub with_available : ℕ → Bool → ℕ → List Release → List Release
with_available g available now rows =
    update_release g (λ r. record r { available = available; updated_at = now }) rows

pub Matches-with_available :
    (g : ℕ) (available : Bool) (now : ℕ) (rows : List Release) (i : Release)
    → Matches rows i
    → Matches (with_available g available now rows) i
Matches-with_available g available now rows i (row, at, reference, digest) =
    let f : Release → Release = λ r. record r { available = available; updated_at = now } in
    elim (Bool-cases (eqb g i.generation)) [
      | inl own ↦ (
        f row,
        ground (arith, at, own, by_generation-update_release f (λ r. refl) g i.generation rows),
        reference,
        digest,
      )
      | inr other ↦ (
        row,
        ground (arith, at, other, by_generation-update_release f (λ r. refl) g i.generation rows),
        reference,
        digest,
      )
    ]

pub All-with_available :
    (g : ℕ) (available : Bool) (now : ℕ) (rows items : List Release)
    → All (Matches rows) items
    → All (Matches (with_available g available now rows)) items
All-with_available g available now rows [] h = tt
All-with_available g available now rows (i ∷ items) h = (
  Matches-with_available g available now rows i h.0,
  All-with_available g available now rows items h.1,
)
