-- ===== src/Prelude/Map.antt =====
-- Go maps with string keys, as association lists. A map that the source ranges over is visited in
-- the order of the list, which stands for whatever order the runtime takes.
use mathlib.Core.Path.{◌≡◌, refl, sym, subst, subst₂}
use mathlib.Core.Logic.{inl, inr}
use analytics_system.Prelude.Lists.{All}
use mathlib.Core.List.{List, [], ◌∷◌}
use mathlib.Core.Option.{Option, none, some}
use native.Mathlib.Omega.{arith}
use analytics_system.Prelude.Tests.{if◌then◌else◌, Bool-cases}
use analytics_system.Prelude.Text.{Text, text_eq, text_eq_iff}

abbrev pub Map : Type 0 → Type 0
Map V = List (Text × V)

module _ {V : Type 0} where
  -- `m[k]`, with the second result of the form `v, ok := m[k]`
  unfoldable pub lookup : Text → Map V → Option V
  unfolding text_eq
  lookup k [] = none
  lookup k ((j, v) ∷ m) = if text_eq j k then some v else lookup k m

  -- `m[k] = v`
  unfoldable pub insert : Text → V → Map V → Map V
  unfolding text_eq
  insert k v [] = (k, v) ∷ []
  insert k v ((j, w) ∷ m) = if text_eq j k then (j, v) ∷ m else (j, w) ∷ insert k v m

  -- `delete(m, k)`
  unfoldable pub erase : Text → Map V → Map V
  unfolding text_eq
  erase k [] = []
  erase k ((j, w) ∷ m) = if text_eq j k then erase k m else (j, w) ∷ erase k m

module _ {V : Type 0} where
  pub lookup-insert :
      (k j : Text) (v : V) (m : Map V)
      → lookup j (insert k v m) ≡ (if text_eq k j then some v else lookup j m)
  unfolding lookup insert
  lookup-insert k j v [] = refl
  lookup-insert k j v ((i, w) ∷ m) =
      ground (arith, text_eq_iff k j, text_eq_iff i k, text_eq_iff i j, lookup-insert k j v m)

  pub lookup-erase :
      (k j : Text) (m : Map V) → lookup j (erase k m) ≡ (if text_eq k j then none else lookup j m)
  unfolding lookup erase
  lookup-erase k j [] = ground arith
  lookup-erase k j ((i, w) ∷ m) =
      ground (arith, text_eq_iff k j, text_eq_iff i k, text_eq_iff i j, lookup-erase k j m)

  -- `insert` keeps a property of every entry that the new entry has.
  pub All-insert :
      (P : Text × V → Type 0) (k : Text) (v : V) (m : Map V)
      → P (k, v)
      → All P m
      → All P (insert k v m)
  unfolding insert
  All-insert P k v [] p h = (p, tt)
  All-insert P k v ((j, w) ∷ m) p h = elim (Bool-cases (text_eq j k)) [
    | inl e ↦ rw e (subst (λ i. P (i, v)) (sym ((text_eq_iff j k).0 e)) p, h.1)
    | inr e ↦ rw e (h.0, All-insert P k v m p h.1)
  ]

  pub All-erase : (P : Text × V → Type 0) (k : Text) (m : Map V) → All P m → All P (erase k m)
  unfolding erase
  All-erase P k [] h = tt
  All-erase P k ((j, w) ∷ m) h = elim (Bool-cases (text_eq j k)) [
    | inl e ↦ rw e (All-erase P k m h.1)
    | inr e ↦ rw e (h.0, All-erase P k m h.1)
  ]

  pub All-lookup :
      (P : Text × V → Type 0) (k : Text) (v : V) (m : Map V)
      → All P m
      → lookup k m ≡ some v
      → P (k, v)
  unfolding lookup
  All-lookup P k v [] h e = cc
  All-lookup P k v ((j, w) ∷ m) h e = elim (Bool-cases (text_eq j k)) [
    | inl same ↦
        let value : w ≡ v = ground arith in
        subst₂ (λ i x. P (i, x)) ((text_eq_iff j k).0 same) value h.0
    | inr other ↦ All-lookup P k v m h.1 (rw other at e)
  ]

  -- No key stands twice.
  abbrev pub IsDistinct : Map V → Type 0
  IsDistinct [] = Unit {0}
  IsDistinct ((k, v) ∷ m) = (lookup k m ≡ none) × IsDistinct m
