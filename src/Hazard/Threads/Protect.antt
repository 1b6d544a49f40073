-- ===== src/Hazard/Threads/Protect.antt =====
-- A hazard pointer belongs to one thread.
use mathlib.Core.Path.{subst}
use fossilizid.Base.{
  ℕ, suc, ◌≤◌, ◌<◌, ◌≡◌, ◌≢◌, refl, sym, ◌∙◌, List, Ptr, count, count-append, arith,
}
use fossilizid.Hazard.Threads.{
  Pc, Memory, System, idle, acq_head, acq_try, acq_next, acq_alloc, acq_count, acq_push, acq_link,
  rel_clear, rel_active, ret_find, ret_size, ret_head, ret_scan, ret_next, ret_free, ret_push,
  ret_done, step, Reach, Move, acquires, releases, retires, protects, later,
}
use fossilizid.Hazard.Threads.Owns.{fresh, holding, works_of, Releases}
use fossilizid.Hazard.Threads.Steps.{Reach-Safe}

module _ {s : System} (r : Reach s) where
  held-holding : (k x : ℕ) → count x (s.threads k).held ≤ count x (holding (s.threads k))
  held-holding k x = omega (arith, count-append x (fresh (s.threads k).pc) (s.threads k).held)

  -- However the accesses of the threads are interleaved: a hazard pointer that a thread has
  -- acquired is marked as in use, the thread has it once, and no other thread has it.
  pub Reach-exclusive :
      (j k : ℕ) (x : Ptr)
      → j ≢ k
      → 1 ≤ count x (s.threads j).held
      → (s.mem.active x ≡ 0) × (count x (s.threads j).held ≡ 1) × (count x (s.threads k).held ≡ 0)
  Reach-exclusive j k x ne h =
      let o = (Reach-Safe r).inv.owns in
      ground (arith, held-holding j x, held-holding k x, o.used j x, o.once j x, o.apart j k x)

  -- However the accesses of the threads are interleaved: the recover list that a thread works on is
  -- marked as in use, and no other thread works on it.
  Reach-recover :
      (j k l : ℕ)
      → j ≢ k
      → works_of (s.threads j) ≡ suc l
      → ((s.mem.re_list_set l).active ≡ 0) × (works_of (s.threads k) ≢ suc l)
  Reach-recover j k l ne e =
      let w = (Reach-Safe r).inv.works in
      (w.marked j l e, λ g. ne (w.alone j k (ground (arith, e)) (e ∙ sym g)))

-- Who makes a move
abbrev pub mover : {s s' : System} → Move s s' → ℕ
mover (acquires i n e) = i
mover (releases i x e h) = i
mover (retires i p e) = i
mover (protects i x p e h) = i
mover (later i) = i

-- An access of a thread changes no hazard pointer but its own and those not made yet.
step-hazard :
    (m : Memory) (p : Pc) (h : List Ptr) (x : Ptr)
    → x < m.brk
    → ((y : Ptr) → p ≡ rel_clear y → y ≢ x)
    → (step m p h).mem.hazard x ≡ m.hazard x
unfolding step
step-hazard m idle h x l n = refl
step-hazard m (acq_head c) h x l n = refl
step-hazard m (acq_try c y) h x l n = ground arith
step-hazard m (acq_next c y) h x l n = refl
step-hazard m (acq_alloc c) h x l n = ground (arith, l)
step-hazard m (acq_count c y) h x l n = refl
step-hazard m (acq_push c y) h x l n = refl
step-hazard m (acq_link c y old) h x l n = refl
step-hazard m (rel_clear y) h x l n = ground (arith, n y refl)
step-hazard m (rel_active y) h x l n = refl
step-hazard m (ret_find p k) h x l n = ground arith
step-hazard m (ret_size p k) h x l n = ground arith
step-hazard m (ret_head p k) h x l n = refl
step-hazard m (ret_scan p k y hv) h x l n = ground arith
step-hazard m (ret_next p k y hv) h x l n = refl
step-hazard m (ret_free p k hv) h x l n = refl
step-hazard m (ret_push p k) h x l n = refl
step-hazard m (ret_done k) h x l n = refl

-- However the accesses of the threads are interleaved: as long as a thread makes no move itself, it
-- keeps a hazard pointer that it has acquired, and this points to what it pointed to.
Move-hazard :
    {s s' : System} (k : ℕ) (x : Ptr)
    → Reach s
    → (v : Move s s') → mover v ≢ k
    → 1 ≤ count x (s.threads k).held
    → (s'.mem.hazard x ≡ s.mem.hazard x) × (1 ≤ count x (s'.threads k).held)
Move-hazard {s} k x r (acquires i n e) ne h = ground (arith, h, ne)
Move-hazard {s} k x r (releases i y e g) ne h = ground (arith, h, ne)
Move-hazard {s} k x r (retires i p e) ne h = ground (arith, h, ne)
Move-hazard {s} k x r (protects i y p e g) ne h = ground (arith, h, Reach-exclusive r i k y ne g)
Move-hazard {s} k x r (later i) ne h =
    let w = Reach-Safe r in
    let mine : (y : Ptr) → (s.threads i).pc ≡ rel_clear y → y ≢ x = λ y e z.
      let g : 1 ≤ count y (s.threads i).held =
        subst (Releases (s.threads i)) e (w.inv.releases i) in
      let q : count y (s.threads k).held ≡ 0 = (Reach-exclusive r i k y ne g).2 in
      ground (arith, z, q, h) in
    let low : x < s.mem.brk = (w.inv.owns.used k x (omega (arith, held-holding r k x, h))).1 in
    (step-hazard s.mem (s.threads i).pc (s.threads i).held x low mine, ground (arith, h, ne))
