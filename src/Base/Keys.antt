-- ===== src/Base/Keys.antt =====
-- Keys with a test for equality, and finite maps as lists of pairs.
use mathlib.Core.Path.{◌≡◌, refl}
use mathlib.Core.Logic.{◌↔◌, inl, inr}
use mathlib.Core.Bool.{Bool, true}
use mathlib.Core.Option.{Option, none, some}
use mathlib.Core.List.{List, [], ◌∷◌}
use native.Mathlib.Omega.{arith}
use fossilizid.Base.Tests.{if◌then◌else◌, Option-cases}
use fossilizid.Base.Lists.{length}

pub record Eq {ℓ} (A : Type ℓ) : Type ℓ where
  pub beq : A → A → Bool
  pub beq_iff : (x y : A) → (beq x y ≡ true) ↔ (x ≡ y)

-- The first of two values that is there.
abbrev pub or_else : {V : Type 0} → Option V → Option V → Option V
or_else none o = o
or_else (some v) o = some v

module _ {K V : Type 0} ⦃e : Eq K⦄ where
  -- `find`
  abbrev pub lookup : K → List (K × V) → Option V
  lookup k [] = none
  lookup k ((j, v) ∷ l) = if e.beq j k then some v else lookup k l

  -- `insert`: a key that is there keeps its value.
  abbrev pub insert_new : K → V → List (K × V) → List (K × V)
  insert_new k v l = elim (lookup k l) [ none ↦ (k, v) ∷ l | some w ↦ l ]

  pub lookup-insert_new :
      (k j : K) (v : V) (l : List (K × V))
      → lookup j (insert_new k v l)
        ≡ (if e.beq k j then or_else (lookup j l) (some v) else lookup j l)
  lookup-insert_new k j v l = elim (Option-cases (lookup k l)) [
    | inl n ↦ ground (arith, n, e.beq_iff k j)
    | inr (w, y) ↦ ground (arith, y, e.beq_iff k j)
  ]

  -- The value of a key that is there becomes `v`.
  abbrev pub assign : K → V → List (K × V) → List (K × V)
  assign k v [] = []
  assign k v ((j, w) ∷ l) = (j, if e.beq j k then v else w) ∷ assign k v l

  -- `erase`
  abbrev pub remove : K → List (K × V) → List (K × V)
  remove k [] = []
  remove k ((j, w) ∷ l) = if e.beq j k then remove k l else (j, w) ∷ remove k l

  pub lookup-assign :
      (k j : K) (v : V) (l : List (K × V))
      → lookup j (assign k v l)
        ≡ (if e.beq k j then (elim (lookup j l) [ none ↦ none | some w ↦ some v ]) else lookup j l)
  lookup-assign k j v [] = ground arith
  lookup-assign k j v ((i, w) ∷ l) =
      ground (arith, lookup-assign k j v l, e.beq_iff k j, e.beq_iff i j, e.beq_iff i k)

  pub lookup-remove :
      (k j : K) (l : List (K × V))
      → lookup j (remove k l) ≡ (if e.beq k j then none else lookup j l)
  lookup-remove k j [] = ground arith
  lookup-remove k j ((i, w) ∷ l) =
      ground (arith, lookup-remove k j l, e.beq_iff k j, e.beq_iff i j, e.beq_iff i k)

  pub length-assign : (k : K) (v : V) (l : List (K × V)) → length (assign k v l) ≡ length l
  length-assign k v [] = refl
  length-assign k v ((j, w) ∷ l) = omega (arith, length-assign k v l)
