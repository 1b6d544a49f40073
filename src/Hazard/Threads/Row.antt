-- ===== src/Hazard/Threads/Row.antt =====
-- The nodes of the hazard pointers in the order in which they came into the list.
use fossilizid.Base.{
  ℕ, suc, ◌≤◌, ◌<◌, ◌≡◌, ◌≢◌, ◌⊎◌, inl, inr, refl, ap, ◌∙◌, Ptr, null, update, ◌==◌, count, arith,
  Bool-cases,
}
use fossilizid.Hazard.Threads.{Pc, Thread, Memory, acq_try, acq_next, acq_count, acq_push, acq_link}

-- A node is number `j` at most `c`.
abbrev pub On : ℕ → (ℕ → Ptr) → Ptr → Type 0
On c at y = (j : ℕ) × (j ≤ c) × (at j ≡ y)

-- A node that is not in the list yet, and is linked to none.
abbrev pub Off : (Ptr → Ptr) → ℕ → (ℕ → Ptr) → Ptr → Type 0
Off next c at y = (y ≢ null) × (next y ≡ null) × ((j : ℕ) → j ≤ c → at j ≢ y)

-- Where a thread that acquires is in the list.
abbrev pub Stands : (Ptr → Ptr) → ℕ → (ℕ → Ptr) → Pc → Type 0
Stands next c at (acq_try n y) = (y ≡ null) ⊎ On c at y
Stands next c at (acq_next n y) = On c at y
Stands next c at (acq_count n y) = Off next c at y
Stands next c at (acq_push n y) = Off next c at y
Stands next c at (acq_link n y old) = (j : ℕ) × (j < c) × (at (suc j) ≡ y) × (at j ≡ old)
Stands next c at p = Unit {0}

-- A link is set, or a thread is about to set it.
abbrev pub Link : (Ptr → Ptr) → (ℕ → Thread) → Ptr → Ptr → Type 0
Link next th x old =
    (next x ≡ old) ⊎ ((next x ≡ null) × (k : ℕ) × (n : ℕ) × ((th k).pc ≡ acq_link n x old))

-- Node 0 is the oldest, node `c` the head.
pub record Row (head : Ptr) (next : Ptr → Ptr) (brk : ℕ) (th : ℕ → Thread) (c : ℕ) (at : ℕ → Ptr)
    : Type 0 where
  pub newest : at c ≡ head
  pub real : (j : ℕ) → j ≤ c → at j ≢ null
  pub below : (j : ℕ) → j ≤ c → at j < brk
  pub apart : (j k : ℕ) → j ≤ c → k ≤ c → at j ≡ at k → j ≡ k
  pub oldest : next (at 0) ≡ null
  pub links : (j : ℕ) → j < c → Link next th (at (suc j)) (at j)
  pub stands : (k : ℕ) → Stands next c at (th k).pc
  pub handed : (k : ℕ) (y : Ptr) → 1 ≤ count y (th k).held → On c at y

-- A list that goes on: it has the nodes and the links that it had.
pub record Longer (next next' : Ptr → Ptr) (c : ℕ) (at : ℕ → Ptr) (c' : ℕ) (at' : ℕ → Ptr)
    : Type 0 where
  pub more : c ≤ c'
  pub same : (j : ℕ) → j ≤ c → at' j ≡ at j
  pub linked : (j : ℕ) → j < c → next (at (suc j)) ≡ at j → next' (at (suc j)) ≡ at j

abbrev pub RowIn : Memory → (ℕ → Thread) → ℕ → (ℕ → Ptr) → Type 0
RowIn m th c at = Row m.head m.next m.brk th c at

abbrev pub Grown : Memory → ℕ → (ℕ → Ptr) → Memory → (ℕ → Thread) → Type 0
Grown m c at m' th' =
    (c' : ℕ) × (at' : ℕ → Ptr) × RowIn m' th' c' at' × Longer m.next m'.next c at c' at'

-- What a thread knows stays true in a longer list where its own node is as it was.
pub Stands-Longer :
    (next next' : Ptr → Ptr) (c : ℕ) (at : ℕ → Ptr) (c' : ℕ) (at' : ℕ → Ptr) (p : Pc)
    → Longer next next' c at c' at'
    → ((n : ℕ) (y : Ptr)
        → (p ≡ acq_count n y) ⊎ (p ≡ acq_push n y)
        → Off next c at y
        → Off next' c' at' y)
    → Stands next c at p
    → Stands next' c' at' p
Stands-Longer next next' c at c' at' (acq_try n y) l f (inl e) = inl e
Stands-Longer next next' c at c' at' (acq_try n y) l f (inr (j, h, e)) =
    inr (j, omega (arith, l.more, h), l.same j h ∙ e)
Stands-Longer next next' c at c' at' (acq_next n y) l f (j, h, e) =
    (j, omega (arith, l.more, h), l.same j h ∙ e)
Stands-Longer next next' c at c' at' (acq_count n y) l f s = f n y (inl refl) s
Stands-Longer next next' c at c' at' (acq_push n y) l f s = f n y (inr refl) s
Stands-Longer next next' c at c' at' (acq_link n y old) l f (j, h, e, g) = (
  j,
  omega (arith, l.more, h),
  l.same (suc j) (omega (arith, h)) ∙ e,
  l.same j (omega (arith, h)) ∙ g,
)
Stands-Longer next next' c at c' at' p l f s = tt

-- A link that another thread owes.
pub Link-update :
    (next : Ptr → Ptr) (th : ℕ → Thread) (i : ℕ) (t : Thread) (x old : Ptr)
    → ((n : ℕ) → (th i).pc ≢ acq_link n x old)
    → Link next th x old
    → Link next (update th i t) x old
Link-update next th i t x old ne (inl e) = inl e
Link-update next th i t x old ne (inr (e, k, n, g)) = inr (
  e,
  k,
  n,
  elim (Bool-cases (i == k)) [
    | inl z ↦ absurd (ne n (ap (λ j. (th j).pc) (ground (arith, z)) ∙ g))
    | inr z ↦ rw z g
  ],
)
