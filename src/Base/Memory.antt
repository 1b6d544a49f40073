-- ===== src/Base/Memory.antt =====
-- Pointers, and families indexed by an address or a thread, with one entry written.
use Prim.Native.Nat.{ℕ}
use mathlib.Core.Path.{◌≡◌}
use mathlib.Core.Logic.{◌≢◌, inl, inr}
use native.Mathlib.Omega.{arith}
use fossilizid.Base.Tests.{◌==◌, if◌then◌else◌, Bool-cases}

abbrev pub Ptr : Type 0
Ptr = ℕ

abbrev pub null : Ptr
null = 0

-- The family `f` with `a` written at `p`.
abbrev pub update {ℓ} : {A : Type ℓ} → (ℕ → A) → ℕ → A → ℕ → A
update f p a q = if p == q then a else f q

module _ {A : Type 0} where
  pub update-All :
      (P : A → Type 0) (f : ℕ → A) (i : ℕ) (a : A)
      → P a
      → ((j : ℕ) → i ≢ j → P (f j))
      → (j : ℕ) → P (update f i a j)
  update-All P f i a h k j = elim (Bool-cases (i == j)) [
    | inl e ↦ rw e h
    | inr e ↦ rw e (k j (ground arith))
  ]

  -- No two entries share a weight other than 0.
  abbrev pub Apart : (A → ℕ) → (ℕ → A) → Type 0
  Apart w f = (j k : ℕ) → w (f j) ≢ 0 → w (f j) ≡ w (f k) → j ≡ k

  pub update-Apart :
      (w : A → ℕ) (f : ℕ → A) (i : ℕ) (a : A)
      → Apart w f
      → ((j : ℕ) → w a ≢ 0 → i ≢ j → w a ≢ w (f j))
      → Apart w (update f i a)
  update-Apart w f i a u h j k = elim (Bool-cases (i == j)) [
    | inl e ↦ rw e (ground (arith, h k))
    | inr e ↦ rw e (ground (arith, u j k, h j))
  ]
