-- ===== src/Hazard/Threads/Below.antt =====
-- No thread comes to a node that was not handed out.
use fossilizid.Base.{
  ℕ, suc, ◌-◌, ◌≤◌, ◌<◌, ◌≡◌, inl, inr, sym, ap, List, ◌∷◌, length, Ptr, null, update, ◌==◌, ◌&&◌,
  leb, ltb, if◌then◌else◌, arith, Bool-cases, update-All,
}
use fossilizid.Hazard.Threads.{
  Pc, Thread, Memory, idle, acq_head, acq_try, acq_next, acq_alloc, acq_count, acq_push, acq_link,
  rel_clear, rel_active, ret_find, ret_size, ret_head, ret_scan, ret_next, ret_free, ret_push,
  ret_done, step, more, vector,
}

-- The node that a thread goes to next; the later one of the two that it links.
abbrev pub node_of : Pc → Ptr
node_of (acq_try n x) = x
node_of (acq_next n x) = x
node_of (acq_count n x) = x
node_of (acq_push n x) = x
node_of (acq_link n x old) = if ltb x old then old else x
node_of p = null

-- The head, the links and the nodes where threads are
pub record Below (head : Ptr) (next : Ptr → Ptr) (brk : ℕ) (th : ℕ → Thread) : Type 0 where
  pub first : head < brk
  pub links : (x : Ptr) → next x < brk
  pub nodes : (k : ℕ) → node_of (th k).pc < brk

abbrev pub BelowIn : Memory → (ℕ → Thread) → Type 0
BelowIn m th = Below m.head m.next m.brk th

module _ (m : Memory) (th : ℕ → Thread) (inv : BelowIn m th) (i : ℕ) where
  pub moves : (t : Thread) → node_of t.pc < m.brk → BelowIn m (update th i t)
  moves t h = record {
    first = inv.first;
    links = inv.links;
    nodes = update-All (λ u. node_of u.pc < m.brk) th i t h (λ k ne. inv.nodes k);
  }

  node_more : (n : ℕ) (x : Ptr) → x < m.brk → node_of (more n x) < m.brk
  node_more n x h = elim (Bool-cases (n == 0)) [
    | inl e ↦ rw e (ground (arith, inv.first))
    | inr e ↦ rw e h
  ]

  pub bottom : null < m.brk
  bottom = omega (arith, inv.first)

  -- The node where the thread stands.
  pub here : (p : Pc) → (th i).pc ≡ p → node_of p < m.brk
  here p e = rw (sym (ap node_of e)) (inv.nodes i)

  -- Nodes are handed out, or linked.
  extends :
      (head : Ptr) (next : Ptr → Ptr) (brk : ℕ) (t : Thread)
      → m.brk ≤ brk
      → head < brk
      → ((x : Ptr) → next x < brk)
      → node_of t.pc < brk
      → Below head next brk (update th i t)
  extends head next brk t l h g n = record {
    first = h;
    links = g;
    nodes = update-All (λ u. node_of u.pc < brk) th i t n (λ k ne. omega (arith, l, inv.nodes k));
  }

  pub step-Below :
      (p : Pc) (h : List Ptr)
      → (th i).pc ≡ p
      → BelowIn (step m p h).mem (update th i (step m p h).thread)
  unfolding step
  step-Below idle h e = moves _ bottom
  step-Below (acq_head n) h e = moves _ (node_more n m.head inv.first)
  step-Below (acq_try n x) h e =
      let found : BelowIn m (update th i (record { pc = acq_alloc n; held = h })) =
        moves (record { pc = acq_alloc n; held = h }) bottom in
      let mine =
        moves (record { pc = more (n - 1) x; held = x ∷ h })
          (node_more (n - 1) x (here (acq_try n x) e)) in
      let others = moves (record { pc = acq_next n x; held = h }) (here (acq_try n x) e) in
      elim (Bool-cases (x == null)) [
        | inl z ↦ rw z found
        | inr z ↦
            rw z (elim (Bool-cases (m.active x == 1)) [ inl w ↦ rw w mine | inr w ↦ rw w others ])
      ]
  step-Below (acq_next n x) h e = moves _ (inv.links x)
  step-Below (acq_alloc n) h e =
      extends m.head (update m.next m.brk null) (suc m.brk)
        (record { pc = acq_count n m.brk; held = h }) (omega arith) (omega (arith, inv.first))
        (λ x. ground (arith, inv.links x)) (omega arith)
  step-Below (acq_count n x) h e = moves _ (here (acq_count n x) e)
  step-Below (acq_push n x) h e =
      extends x m.next m.brk (record { pc = acq_link n x m.head; held = h }) (omega arith)
        (here (acq_push n x) e) inv.links (ground (arith, here (acq_push n x) e, inv.first))
  step-Below (acq_link n x old) h e =
      extends m.head (update m.next x old) m.brk (record { pc = more (n - 1) x; held = x ∷ h })
        (omega arith) inv.first (λ y. ground (arith, inv.links y, here (acq_link n x old) e))
        (node_more (n - 1) x (ground (arith, here (acq_link n x old) e)))
  step-Below (rel_clear x) h e = moves _ bottom
  step-Below (rel_active x) h e = moves _ bottom
  step-Below (ret_find p k) h e = elim (Bool-cases ((m.re_list_set k).active == 0)) [
    | inl z ↦ rw z (moves _ bottom)
    | inr z ↦ rw z (moves _ bottom)
  ]
  step-Below (ret_size p k) h e =
      elim (Bool-cases (leb 32 (length (vector k m)) && ltb m.llen (length (vector k m)))) [
        | inl z ↦ rw z (moves _ bottom)
        | inr z ↦ rw z (moves _ bottom)
      ]
  step-Below (ret_head p k) h e = moves _ bottom
  step-Below (ret_scan p k x hv) h e = elim (Bool-cases (x == null)) [
    | inl z ↦ rw z (moves _ bottom)
    | inr z ↦ rw z (moves _ bottom)
  ]
  step-Below (ret_next p k x hv) h e = moves _ bottom
  step-Below (ret_free p k hv) h e = moves _ bottom
  step-Below (ret_push p k) h e = moves _ bottom
  step-Below (ret_done k) h e = moves _ bottom
