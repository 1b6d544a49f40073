-- ===== src/Hazard/Threads/Owns.antt =====
-- What holds of the hazard pointers and of the recover lists that threads have made their own.
use fossilizid.Base.{
  ℕ, suc, ◌≤◌, ◌<◌, ◌≡◌, ◌≢◌, ◌⊎◌, inl, inr, List, [], ◌∷◌, ◌++◌, Ptr, update, Apart, ◌==◌,
  if◌then◌else◌, count, arith, Bool-cases, update-All,
}
use fossilizid.Hazard.Threads.{
  Pc, Thread, acq_count, acq_push, acq_link, rel_clear, rel_active, ret_size, ret_head, ret_scan,
  ret_next, ret_free, ret_push, ret_done, without,
}

-- The node that `acquire` has made and not yet handed out.
abbrev pub fresh : Pc → List Ptr
fresh (acq_count n x) = x ∷ []
fresh (acq_push n x) = x ∷ []
fresh (acq_link n x old) = x ∷ []
fresh p = []

abbrev pub holding : Thread → List Ptr
holding t = fresh t.pc ++ t.held

-- The number of the recover list that a thread works on, and one more; 0: none.
abbrev pub works : Pc → ℕ
works (ret_size p k) = suc k
works (ret_head p k) = suc k
works (ret_scan p k x hv) = suc k
works (ret_next p k x hv) = suc k
works (ret_free p k hv) = suc k
works (ret_push p k) = suc k
works (ret_done k) = suc k
works p = 0

abbrev pub works_of : Thread → ℕ
works_of t = works t.pc

-- A thread releases what it holds.
abbrev pub Releases : Thread → Pc → Type 0
Releases t (rel_clear x) = 1 ≤ count x t.held
Releases t (rel_active x) = 1 ≤ count x t.held
Releases t p = Unit {0}

pub count-without :
    (x y : Ptr) (l : List Ptr) → count y (without x l) ≡ (if x == y then 0 else count y l)
unfolding without
count-without x y [] = ground arith
count-without x y (z ∷ zs) = ground (arith, count-without x y zs)

-- A hazard pointer is held by one thread at most, once, and is then marked as in use.
pub record Owns (active : Ptr → ℕ) (brk : ℕ) (th : ℕ → Thread) : Type 0 where
  pub used : (k : ℕ) (x : Ptr) → 1 ≤ count x (holding (th k)) → (active x ≡ 0) × (x < brk)
  pub once : (k : ℕ) (x : Ptr) → count x (holding (th k)) ≤ 1
  pub apart :
      (j k : ℕ) (x : Ptr) → 1 ≤ count x (holding (th j)) → 1 ≤ count x (holding (th k)) → j ≡ k

-- A recover list is worked on by one thread at most, and is then marked as in use.
pub record Works (busy : ℕ → ℕ) (th : ℕ → Thread) : Type 0 where
  pub marked : (k j : ℕ) → works_of (th k) ≡ suc j → busy j ≡ 0
  pub alone : Apart works_of th

module _ (active : Ptr → ℕ) (brk : ℕ) (th : ℕ → Thread) (inv : Owns active brk th) (i : ℕ)
    (t : Thread) where
  -- Thread `i` goes on with what it held and nobody held, and the others keep what they hold.
  pub Owns-move :
      (active' : Ptr → ℕ) (brk' : ℕ)
      → ((x : Ptr)
          → (count x (holding t) ≡ 0)
            ⊎ ((count x (holding t) ≡ 1)
                × ((1 ≤ count x (holding (th i))) ⊎ ((active x ≢ 0) ⊎ (brk ≤ x)))
                × (active' x ≡ 0)
                × (x < brk')))
      → ((x : Ptr)
          → active x ≡ 0
          → x < brk
          → count x (holding (th i)) ≡ 0
          → (active' x ≡ 0) × (x < brk'))
      → Owns active' brk' (update th i t)
  Owns-move active' brk' mine others = record {
    used =
        update-All (λ u. (x : Ptr) → 1 ≤ count x (holding u) → (active' x ≡ 0) × (x < brk')) th i t
          (λ x h. ground (arith, mine x))
          (λ k ne x h. ground (arith, others x, inv.used k x h, inv.apart i k x));
    once =
        update-All (λ u. (x : Ptr) → count x (holding u) ≤ 1) th i t (λ x. ground (arith, mine x))
          (λ k ne x. inv.once k x);
    apart = λ j k x. elim (Bool-cases (i == j)) [
      | inl e ↦ elim (Bool-cases (i == k)) [
        | inl g ↦ λ h w. ground (arith, e, g)
        | inr g ↦ rw e (rw g (λ h w. ground (arith, mine x, inv.apart i k x, inv.used k x)))
      ]
      | inr e ↦ elim (Bool-cases (i == k)) [
        | inl g ↦ rw e (rw g (λ h w. ground (arith, mine x, inv.apart j i x, inv.used j x)))
        | inr g ↦ rw e (rw g (inv.apart j k x))
      ]
    ];
  }
