-- ===== src/Optimisticque/Order/Inv.antt =====
-- What holds of a queue while threads push.
use fossilizid.Base.{
  ℕ, suc, ◌≤◌, ◌<◌, ◌≡◌, ◌≢◌, ◌⊎◌, Bool, not, ◌==◌, true, false, some, List, length, get_elem?, Ptr,
  null, Apart,
}
use fossilizid.Optimisticque.{
  Queue, Pc, push_node, push_load, push_prev, push_cas, push_link, push_count, pushed,
}

module _ {A : Type 0} where
  -- The node that a thread has not published yet, or null.
  abbrev pub owned : Pc A → Ptr
  owned (push_load n) = n
  owned (push_prev n hp) = n
  owned (push_cas n hp) = n
  owned p = null

  -- The thread pushes, and with a real node.
  abbrev pub pushes : Pc A → Bool
  pushes (push_node v) = true
  pushes (push_load n) = not (n == null)
  pushes (push_prev n hp) = not (n == null)
  pushes (push_cas n hp) = not (n == null)
  pushes (push_link n hp) = true
  pushes push_count = true
  pushes pushed = true
  pushes p = false

  -- `at j` is the node published as number `j`, after the first, which is number 0.
  module _ (m : Queue A) (pc : ℕ → Pc A) (log : List A) (at : ℕ → Ptr) where
    pub record Private (n : Ptr) : Type 0 where
      pub below : n < m.brk
      pub alone : m.next n ≡ null
      pub apart : (j : ℕ) → j ≤ length log → at j ≢ n

    -- The forward link of number `j` is set, or a thread is about to set it.
    abbrev pub Link : ℕ → Type 0
    Link j =
        (m.next (at j) ≡ at (suc j))
        ⊎ ((m.next (at j) ≡ null) × (k : ℕ) × (pc k ≡ push_link (at (suc j)) (at j)))

    pub record Inv : Type 0 where
      pub first : at 0 ≡ m.head
      pub newest : at (length log) ≡ m.detail
      pub real : (j : ℕ) → j ≤ length log → at j ≢ null
      pub below : (j : ℕ) → j ≤ length log → at j < m.brk
      pub apart : (j k : ℕ) → j ≤ length log → k ≤ length log → at j ≡ at k → j ≡ k
      pub backs : (j : ℕ) → j < length log → m.prev (at (suc j)) ≡ at j
      pub values : (j : ℕ) → j < length log → get_elem? log j ≡ some (m.value (at (suc j)))
      pub links : (j : ℕ) → j < length log → Link j
      pub open_end : m.next (at (length log)) ≡ null
      pub private : (k : ℕ) → owned (pc k) ≢ null → Private (owned (pc k))
      pub prevs : (k : ℕ) (n hp : Ptr) → pc k ≡ push_cas n hp → m.prev n ≡ hp
      pub linking :
          (k : ℕ) (n hp : Ptr)
          → pc k ≡ push_link n hp
          → (j : ℕ) × (j < length log) × (at j ≡ hp) × (at (suc j) ≡ n)
      pub pushing : (k : ℕ) → pushes (pc k) ≡ true
      pub unique : Apart owned pc
