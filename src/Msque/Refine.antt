-- ===== src/Msque/Refine.antt =====
-- Any number of threads, any interleaving: the list is a FIFO queue of the values linked.
use mathlib.Core.Path.{subst}
use fossilizid.Base.{
  zero, suc, ◌<◌, ℕ, ◌≡◌, refl, sym, ap, ◌∙◌, List, [], ◌∷◌, ◌++◌, append-nil, append_assoc, arith,
  Ptr, null, ◌==◌, Bool-cases, inl, inr, Bool, ◌&&◌,
}
use fossilizid.Msque.{
  Mem, System, Pc, idle, push_node, push_link, push_help, push_swing, pop_begin, pop_next, pop_cas,
  pop_empty, step, Reach, start, later_push, later_pop, later, linked, removed, abstract_step, rest,
  get_list,
}
use fossilizid.Msque.Chain.{Leads, Holds-nil, Holds-head}
use fossilizid.Msque.Invariant.{Inv, Local, Old, step-Inv, stays}

module _ {A : Type 0} where
  -- The list of `s` holds the queue `q`, and the locals of each thread agree with it.
  abbrev pub Represents : System A → List A → Type 0
  Represents s q = (last : Ptr) × Inv last s.mem s.pc q

  -- A new list is empty.
  pub get_list-Inv : (junk : A) → Inv 1 (get_list junk) (λ _. idle) []
  unfolding get_list
  get_list-Inv junk = record {
    bottom = omega arith;
    holds = refl;
    tail = (0, refl);
    locals = λ _. tt;
    old = λ _. tt;
    unique = λ i j r. absurd (r refl);
  }

  -- What an access adds and removes agrees with the queue that it leaves.
  step_balance :
      (m : Mem A) (last : Ptr) (pc : ℕ → Pc A) (q : List A) (p : Pc A) (w : Bool)
      → Inv last m pc q
      → Local m.heap last p
      → q ++ linked w m p ≡ removed m p ++ abstract_step w m p q
  unfolding removed linked abstract_step
  step_balance m last pc q (push_link v n hp) w inv l = elim (Bool-cases (w && m.next hp == null)) [
    | inl e ↦ rw e
    | inr e ↦ rw e (append-nil q)
  ]
  step_balance m last pc q (pop_cas a c) w inv l = elim (Bool-cases (m.begin == a)) [
    | inl e ↦ rw e (append-nil q ∙ first (ground arith))
    | inr e ↦ rw e (append-nil q)
  ]
    where
      first : m.begin ≡ a → q ≡ m.value c ∷ rest q
      first e =
          Holds-head m.next m.brk last m.value m.begin q inv.bottom.ends
            (λ z. l.real (sym l.succ ∙ ap m.next (sym e) ∙ z)) inv.holds
          ∙ ap (λ x. m.value x ∷ rest q) (ap m.next e ∙ l.succ)
  step_balance m last pc q p w inv l = append-nil q

  -- While the pool hands out new addresses only: in every interleaving of any number of threads,
  -- from the empty list on, the values linked by `push` are, in order, those removed by `pop`
  -- followed by those in the list; and the list is well formed: `_begin` leads through these values
  -- to the last node, and `_end` is on it.
  pub Reach-fifo :
      {junk : A} {s : System A} {ins outs : List A}
      → Reach junk s ins outs
      → (q : List A) × Represents s q × (ins ≡ outs ++ q)
  Reach-fifo {junk} start = ([], (1, get_list-Inv junk), refl)
  Reach-fifo (later_push {s} i v r e) =
      let (q, (last, inv), b) = Reach-fifo r in
      (q, stays last s.mem s.pc q inv i (push_node v) tt (λ z. absurd (z refl)) tt, b)
  Reach-fifo (later_pop {s} i r e) =
      let (q, (last, inv), b) = Reach-fifo r in
      (q, stays last s.mem s.pc q inv i pop_begin tt (λ z. absurd (z refl)) tt, b)
  Reach-fifo (later {s} {ins} {outs} i w r) =
      let (q, (last, inv), b) = Reach-fifo r in
      let e = step_balance s.mem last s.pc q (s.pc i) w inv (inv.locals i) in
      (
        abstract_step w s.mem (s.pc i) q,
        step-Inv last s.mem s.pc q inv i w,
        ap (λ x. x ++ linked w s.mem (s.pc i)) b
            ∙ append_assoc outs q (linked w s.mem (s.pc i))
            ∙ ap (λ x. outs ++ x) e
            ∙ sym (append_assoc outs (removed s.mem (s.pc i)) (abstract_step w s.mem (s.pc i) q)),
      )

  -- While the pool hands out new addresses only: a `pop` that reports an empty queue does so when
  -- the queue is empty, at the load of `_next` that finds null, whatever ran between that and the
  -- load of `_begin`.
  pop_empty-Represents :
      {s : System A} {q : List A} (i : ℕ) (w : Bool) (hp0 : Ptr)
      → Represents s q
      → s.pc i ≡ pop_next hp0
      → (step w s.mem (pop_next hp0)).1 ≡ pop_empty
      → q ≡ []
  unfolding step
  pop_empty-Represents {s} {q} i w hp0 (last, inv) e d =
      Holds-nil s.mem.next s.mem.brk last s.mem.value s.mem.begin q
        (subst (λ b. s.mem.next b ≡ null) (oldest here.0 here.1) ended) inv.holds
    where
      here : Old s.mem.heap s.mem.begin (pop_next hp0)
      here = subst (Old s.mem.heap s.mem.begin) e (inv.old i)

      ended : s.mem.next hp0 ≡ null
      ended = ground arith

      oldest : (k : ℕ) → Leads s.mem.next s.mem.brk s.mem.begin k hp0 → hp0 ≡ s.mem.begin
      oldest zero l = l
      oldest (suc k) l = absurd (l.2 ended)

  -- No access changes the value of a node that was handed out: what `pop` copies after it has won
  -- the exchange is what the node held then, whatever the other threads do in between.
  pub step-value :
      (w : Bool) (m : Mem A) (p : Pc A) (a : Ptr)
      → a < m.brk
      → ((step w m p).0.value a ≡ m.value a) × (a < (step w m p).0.brk)
  unfolding step
  step-value w m (push_node v) a h = ground arith
  step-value w m (push_help v n hp nx) a h = ground arith
  step-value w m (push_link v n hp) a h = ground arith
  step-value w m (push_swing n hp) a h = ground arith
  step-value w m (pop_cas hp0 hp1) a h = ground arith
  step-value w m p a h = (refl, h)
