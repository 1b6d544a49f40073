-- ===== src/Optimisticque/Order/Quiet.antt =====
-- Where the links of a queue lead while threads push.
use mathlib.Core.Path.{subst}
use fossilizid.Base.{
  ℕ, zero, suc, ◌<◌, ◌≡◌, ◌≢◌, inl, inr, refl, sym, ap, ◌∙◌, some, List, [], ◌∷◌, length, get_elem?,
  Ptr, arith,
}
use fossilizid.Msque.Chain.{Holds}
use fossilizid.Msque.Chain.Numbers.{linked-Holds}
use fossilizid.Optimisticque.{push_link}
use fossilizid.Optimisticque.Solo.{Represents}
use fossilizid.Optimisticque.Order.{System, Reach}
use fossilizid.Optimisticque.Order.Steps.{Reach-Inv}

-- So many links back from a node
abbrev pub back : (Ptr → Ptr) → ℕ → Ptr → Ptr
back prev zero d = d
back prev (suc n) d = back prev n (prev d)

-- The values on the way back, the last node's at the end.
abbrev pub values_back : {A : Type 0} → (Ptr → Ptr) → (Ptr → A) → ℕ → Ptr → List A → List A
values_back prev value zero d vs = vs
values_back prev value (suc n) d vs = values_back prev value n (prev d) (value d ∷ vs)

module _ {A : Type 0} (prev : Ptr → Ptr) (value : Ptr → A) where
  back-number :
      (n : ℕ) (at : ℕ → Ptr)
      → ((j : ℕ) → j < n → prev (at (suc j)) ≡ at j)
      → back prev n (at n) ≡ at 0
  back-number zero at h = refl
  back-number (suc n) at h =
      ap (back prev n) (h n (omega arith)) ∙ back-number n at (λ j l. h j (omega (arith, l)))

  values_back-suc :
      (n : ℕ) (d : Ptr) (vs : List A)
      → values_back prev value (suc n) d vs ≡ value (back prev n d) ∷ values_back prev value n d vs
  values_back-suc zero d vs = refl
  values_back-suc (suc n) d vs = values_back-suc n (prev d) (value d ∷ vs)

  values_back-numbers :
      (q : List A) (at : ℕ → Ptr)
      → ((j : ℕ) → j < length q → prev (at (suc j)) ≡ at j)
      → ((j : ℕ) → j < length q → get_elem? q j ≡ some (value (at (suc j))))
      → values_back prev value (length q) (at (length q)) [] ≡ q
  values_back-numbers [] at backs values = refl
  values_back-numbers (v ∷ q) at backs values =
      let n = length q in
      let b = λ (j : ℕ) (h : j < n). backs (suc j) (omega (arith, h)) in
      let first : value (at 1) ≡ v = sym (ground (arith, values 0 (omega arith))) in
      let w =
        values_back-numbers q (λ j. at (suc j)) b (λ j h. values (suc j) (omega (arith, h))) in
      values_back-suc n (at (suc n)) []
      ∙ ap (λ x. x ∷ values_back prev value n (at (suc n)) [])
          (ap value (back-number n (λ j. at (suc j)) b) ∙ first)
      ∙ ap (λ l. v ∷ l) w

module _ {A : Type 0} where
  -- However the accesses of the threads that push are interleaved, at every moment: from `detail`,
  -- as many backward links as values were published lead to `head`, through these values, the
  -- newest first.
  Reach-back :
      (junk : A) {s : System A} {log : List A}
      → Reach junk s log
      → (back s.mem.prev (length log) s.mem.detail ≡ s.mem.head)
        × (values_back s.mem.prev s.mem.value (length log) s.mem.detail [] ≡ log)
  Reach-back junk {s} {log} r =
      let (at, inv) = Reach-Inv junk r in
      let m = s.mem in
      (
        ap (back m.prev (length log)) (sym inv.newest)
            ∙ back-number m.prev m.value (length log) at inv.backs
            ∙ inv.first,
        ap (λ d. values_back m.prev m.value (length log) d []) (sym inv.newest)
            ∙ values_back-numbers m.prev m.value log at inv.backs inv.values,
      )

  -- Whenever no thread stands between its exchange of `detail` and the link that it owes, the queue
  -- holds the values in the order of the exchanges, however the accesses of the threads that push
  -- were interleaved.
  pub Reach-Represents :
      (junk : A) {s : System A} {log : List A}
      → Reach junk s log
      → ((k : ℕ) (n hp : Ptr) → s.pc k ≢ push_link n hp)
      → Represents s.mem log
  Reach-Represents junk {s} {log} r quiet =
      let (at, inv) = Reach-Inv junk r in
      record {
        tail = record {
          real = rw (sym inv.newest) (inv.real (length log) (omega arith));
          below = rw (sym inv.newest) (inv.below (length log) (omega arith));
          ends = rw (sym inv.newest) (inv.open_end);
        };
        holds =
            subst (λ d. Holds s.mem.next s.mem.value s.mem.brk d s.mem.head log) inv.newest
              (subst (λ h. Holds s.mem.next s.mem.value s.mem.brk (at (length log)) h log) inv.first
                (linked-Holds s.mem.next s.mem.value s.mem.brk log at
                  (λ j h. (inv.real j h, inv.below j h))
                  (λ j h. elim (inv.links j h) [
                    | inl e ↦ e
                    | inr (e, k, g) ↦ absurd (quiet k (at (suc j)) (at j) g)
                  ])
                  inv.values));
      }
