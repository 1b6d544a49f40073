-- ===== src/Swapque/Threads/Inv.antt =====
-- What holds of the two lists and of each thread while threads push and pop.
use fossilizid.Base.{
  ℕ, suc, ◌≤◌, ◌<◌, ◌≡◌, ◌≢◌, ◌⊎◌, Bool, not, ◌==◌, true, some, List, length, get_elem?, Ptr, null,
  Apart,
}
use fossilizid.Swapque.{Que, MicroQue}
use fossilizid.Swapque.Threads.{
  Pc, push_lock, push_end, push_link, pop_test, pop_next, pop_cas, pop_read, null_access,
}

module _ {A : Type 0} where
  -- The node that a thread has not published yet, or null.
  abbrev pub owned : Pc A → Ptr
  owned (push_lock n) = n
  owned (push_end n) = n
  owned p = null

  -- A thread that pushes has a real node.
  abbrev pub real_node : Pc A → Bool
  real_node (push_lock n) = not (n == null)
  real_node (push_end n) = not (n == null)
  real_node p = true

  -- `at j` is the node of the value before number `j`, from the first node of a list on.
  pub record Row (next : Ptr → Ptr) (value : Ptr → A) (brk : ℕ) (l : MicroQue) (q : List A)
      (at : ℕ → Ptr) : Type 0 where
    pub first : at 0 ≡ l.begin
    pub newest : at (length q) ≡ l.end
    pub real : (j : ℕ) → j ≤ length q → at j ≢ null
    pub below : (j : ℕ) → j ≤ length q → at j < brk
    pub apart : (j k : ℕ) → j ≤ length q → k ≤ length q → at j ≡ at k → j ≡ k
    pub values : (j : ℕ) → j < length q → get_elem? q j ≡ some (value (at (suc j)))
    pub open_end : next (at (length q)) ≡ null

-- A node that stands in none of the first `n` places, or before them.
abbrev pub Off : (ℕ → Ptr) → ℕ → Ptr → Type 0
Off at n x = (j : ℕ) → j ≤ n → at j ≢ x

-- The node that a pop has loaded as the first one: it is still, or it was and is linked on.
pub record Seen (next : Ptr → Ptr) (brk : ℕ) (begin : Ptr) (at : ℕ → Ptr) (n : ℕ) (x : Ptr)
    : Type 0 where
  pub real : x ≢ null
  pub below : x < brk
  pub stands : (x ≡ begin) ⊎ ((next x ≢ null) × Off at n x)

module _ {A : Type 0} where
  -- What a thread that pops knows of the list to pop from; `at` are the nodes of the other list.
  abbrev pub Local : (Ptr → Ptr) → ℕ → MicroQue → (ℕ → Ptr) → ℕ → Pc A → Type 0
  Local next brk l at n (pop_test x) = Seen next brk l.begin at n x
  Local next brk l at n (pop_next x) = Seen next brk l.begin at n x × (x ≢ l.end)
  Local next brk l at n (pop_cas x y) =
      Seen next brk l.begin at n x × (x ≢ l.end) × (next x ≡ y) × (y ≢ null)
  Local next brk l at n (pop_read x y) = y ≢ null
  Local next brk l at n null_access = ⊥
  Local next brk l at n p = Unit {0}

  module _ (m : Que A) (pc : ℕ → Pc A) (f b : List A) (front back : ℕ → Ptr) where
    pub record Private (n : Ptr) : Type 0 where
      pub below : n < m.brk
      pub alone : m.next n ≡ null
      pub off_front : Off front (length f) n
      pub off_back : Off back (length b) n

    -- The link of a place of the list to push to is set, or a thread is about to set it.
    abbrev pub Link : ℕ → Type 0
    Link j =
        (m.next (back j) ≡ back (suc j))
        ⊎ ((m.next (back j) ≡ null) × (k : ℕ) × (pc k ≡ push_link (back (suc j)) (back j)))

    pub record Inv : Type 0 where
      pub frond : Row m.next m.value m.brk m.frond f front
      pub rear : Row m.next m.value m.brk m.back b back
      pub across : (j k : ℕ) → j ≤ length f → k ≤ length b → front j ≢ back k
      pub linked : (j : ℕ) → j < length f → m.next (front j) ≡ front (suc j)
      pub links : (j : ℕ) → j < length b → Link j
      pub private : (k : ℕ) → owned (pc k) ≢ null → Private (owned (pc k))
      pub unique : Apart owned pc
      pub given : (k : ℕ) → real_node (pc k) ≡ true
      pub linking :
          (k : ℕ) (n old : Ptr)
          → pc k ≡ push_link n old
          → (j : ℕ) × (j < length b) × (back j ≡ old) × (back (suc j) ≡ n)
      pub locals : (k : ℕ) → Local m.next m.brk m.frond back (length b) (pc k)
