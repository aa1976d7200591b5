-- ===== src/Prelude/Dict.antt =====
-- Go's `map[string]V` as an association list.
use Prim.Native.String.{String}
use mathlib.Core.Path.{◌≡◌, subst₂}
use mathlib.Core.Option.{Option, none, some}
use mathlib.Core.List.{List, [], ◌∷◌}
use native.Mathlib.Omega.{arith}
use text.Mathlib.Text.{◌==◌}
use text.Mathlib.TextEquality.{eq_iff}
use gh_agent_broker.Prelude.Tests.{if◌then◌else◌, Bool-cases}
use mathlib.Core.Bool.{true, false}
use mathlib.Core.Logic.{inl, inr}

abbrev pub Assoc {ℓ} : Type ℓ → Type ℓ
Assoc V = List (String × V)

module _ {ℓ} {V : Type ℓ} where
  unfoldable pub lookup : String → Assoc V → Option V
  lookup key [] = none
  lookup key ((own, held) ∷ rest) =
      let later = lookup key rest in if own == key then some held else later

  -- The first entry of the key is replaced, or one is added at the end.
  unfoldable pub insert : String → V → Assoc V → Assoc V
  insert key new [] = (key, new) ∷ []
  insert key new ((own, held) ∷ rest) =
      let changed = insert key new rest in
      elim (own == key) [ true ↦ (key, new) ∷ rest | false ↦ (own, held) ∷ changed ]

  pub lookup-insert :
      (key want : String) (new : V) (entries : Assoc V)
      → lookup want (insert key new entries)
        ≡ (if key == want then some new else lookup want entries)
  unfolding lookup insert
  lookup-insert key want new [] = ground arith
  lookup-insert key want new ((own, held) ∷ rest) =
      ground
        (arith, lookup-insert key want new rest, eq_iff own key, eq_iff own want, eq_iff key want)

-- The zero value where the key is missing: `m[k]` at type string.
unfoldable pub get_text : String → Assoc String → String
unfolding lookup
get_text k m = elim (lookup k m) [ none ↦ "" | some v ↦ v ]

abbrev pub AllEntries {ℓ κ} : {V : Type ℓ} → (String → V → Type κ) → Assoc V → Type κ
AllEntries P [] = Unit
AllEntries P ((k, v) ∷ m) = P k v × AllEntries P m

module _ {ℓ κ} {V : Type ℓ} (P : String → V → Type κ) where
  pub AllEntries-lookup :
      (k : String) (m : Assoc V) {v : V} → AllEntries P m → lookup k m ≡ some v → P k v
  unfolding lookup
  AllEntries-lookup k [] h e = cc
  AllEntries-lookup k ((j, w) ∷ m) {v} h e = elim (Bool-cases (j == k)) [
    | inl same ↦ subst₂ P ((eq_iff j k).0 same) (ground arith) h.0
    | inr other ↦ AllEntries-lookup k m h.1 (ground arith)
  ]

  pub AllEntries-insert :
      (k : String) (v : V) (m : Assoc V) → AllEntries P m → P k v → AllEntries P (insert k v m)
  unfolding insert
  AllEntries-insert k v [] h p = (p, tt)
  AllEntries-insert k v ((j, w) ∷ m) h p = elim (Bool-cases (j == k)) [
    | inl same ↦ rw (same, insert) (p, h.1)
    | inr other ↦ rw (other, insert) (h.0, AllEntries-insert k v m h.1 p)
  ]
