-- ===== src/Msque/Chain/Numbers.antt =====
-- Nodes that are numbered along `_next`.
use fossilizid.Base.{
  ℕ, suc, ◌≤◌, ◌<◌, ◌≡◌, ◌≢◌, refl, sym, some, List, [], ◌∷◌, length, get_elem?, Ptr, null, arith,
}
use fossilizid.Msque.Chain.{Holds}

module _ {A : Type 0} (next : Ptr → Ptr) (value : Ptr → A) (brk : ℕ) where
  -- Nodes that are linked one to the next hold their values.
  pub linked-Holds :
      (q : List A) (at : ℕ → Ptr)
      → ((j : ℕ) → j ≤ length q → (at j ≢ null) × (at j < brk))
      → ((j : ℕ) → j < length q → next (at j) ≡ at (suc j))
      → ((j : ℕ) → j < length q → get_elem? q j ≡ some (value (at (suc j))))
      → Holds next value brk (at (length q)) (at 0) q
  linked-Holds [] at real links values = refl
  linked-Holds (v ∷ q) at real links values =
      let e = links 0 (omega arith) in
      let tail =
        linked-Holds q (λ j. at (suc j)) (λ j h. real (suc j) (omega (arith, h)))
          (λ j h. links (suc j) (omega (arith, h))) (λ j h. values (suc j) (omega (arith, h))) in
      rw e (
        (real 0 (omega arith)).0,
        (real 0 (omega arith)).1,
        (real 1 (omega arith)).0,
        (real 1 (omega arith)).1,
        sym (ground (arith, values 0 (omega arith))),
        tail,
      )
