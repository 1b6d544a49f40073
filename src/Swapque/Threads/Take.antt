-- ===== src/Swapque/Threads/Take.antt =====
-- The exchange of a pop, and the change of the lists.
use mathlib.Core.Path.{subst}
use fossilizid.Base.{
  ℕ, suc, ◌<◌, ◌≡◌, inl, inr, refl, sym, ap, ◌∙◌, true, false, List, ◌∷◌, length, Ptr, update,
  update-All, update-Apart, arith,
}
use fossilizid.Swapque.{Que, MicroQue, swapped}
use fossilizid.Swapque.Threads.{
  Pc, push_link, pop_test, pop_next, pop_cas, pop_read, null_access, pop_lock, holds,
}
use fossilizid.Swapque.Threads.Inv.{owned, real_node, Row, Seen, Local, Inv}
use fossilizid.Swapque.Threads.Moves.{Private-update, Link-quiet, linking-quiet, Local-map}

module _ {A : Type 0} (next : Ptr → Ptr) (value : Ptr → A) (brk : ℕ) (l : MicroQue) where
  Row-tail :
      (v : A) (q : List A) (at : ℕ → Ptr) (y : Ptr)
      → Row next value brk l (v ∷ q) at
      → at 1 ≡ y
      → Row next value brk (record l { begin = y }) q (λ j. at (suc j))
  Row-tail v q at y r e = record {
    first = e;
    newest = r.newest;
    real = λ j h. r.real (suc j) (omega (arith, h));
    below = λ j h. r.below (suc j) (omega (arith, h));
    apart =
        λ j k h g z. omega (arith, r.apart (suc j) (suc k) (omega (arith, h)) (omega (arith, g)) z);
    values = λ j h. r.values (suc j) (omega (arith, h));
    open_end = r.open_end;
  }

-- A thread that does not hold the lock knows nothing.
free-Local :
    {A : Type 0} (next : Ptr → Ptr) (brk : ℕ) (l : MicroQue) (at : ℕ → Ptr) (n : ℕ) (p : Pc A)
    → holds p ≡ false
    → Local next brk l at n p
unfolding holds
free-Local next brk l at n (pop_test x) h = absurd (ground (arith, h))
free-Local next brk l at n (pop_next x) h = absurd (ground (arith, h))
free-Local next brk l at n (pop_cas x y) h = absurd (ground (arith, h))
free-Local next brk l at n (pop_read x y) h = absurd (ground (arith, h))
free-Local next brk l at n null_access h = absurd (ground (arith, h))
free-Local next brk l at n p h = tt

module _ {A : Type 0} (m : Que A) (pc : ℕ → Pc A) (v : A) (f b : List A) (front back : ℕ → Ptr)
    (i : ℕ) (inv : Inv m pc (v ∷ f) b front back) (x y : Ptr) (before : pc i ≡ pop_cas x y)
    (same : m.frond.begin ≡ x) where
  abbrev taken : Que A
  taken = record m { frond = record (m.frond) { begin = y } }

  abbrev after : ℕ → Pc A
  after = update pc i (pop_read x y)

  abbrev front' : ℕ → Ptr
  front' j = front (suc j)

  local : Local {A = A} m.next m.brk m.frond back (length b) (pop_cas x y)
  local = subst (Local {A = A} m.next m.brk m.frond back (length b)) before (inv.locals i)

  second : front 1 ≡ y
  second = sym (inv.linked 0 (omega arith)) ∙ ap m.next (inv.frond.first ∙ same) ∙ local.2

  Seen-take :
      (z : Ptr)
      → Seen m.next m.brk m.frond.begin back (length b) z
      → Seen m.next m.brk y back (length b) z × (m.next z ≡ m.next z)
  Seen-take z s = (
    record {
      real = s.real;
      below = s.below;
      stands = inr (elim (s.stands) [
        | inl e ↦ (
          λ w.
              inv.frond.real 1 (omega arith)
                (sym (inv.linked 0 (omega arith)) ∙ ap m.next (inv.frond.first ∙ sym e) ∙ w),
          λ j h w. inv.across 0 j (omega arith) h (inv.frond.first ∙ sym e ∙ sym w),
        )
        | inr t ↦ t
      ]);
    },
    refl,
  )

  pub take : Inv taken after f b front' back
  take = record {
    frond = Row-tail m.next m.value m.brk m.frond v f front y inv.frond second;
    rear = inv.rear;
    across = λ j k h g. inv.across (suc j) k (omega (arith, h)) g;
    linked = λ j h. inv.linked (suc j) (omega (arith, h));
    links = λ j h.
        Link-quiet m pc (v ∷ f) b front back inv i (pop_read x y)
          (λ n old e. ground (arith, before, e)) j (inv.links j h);
    private =
        Private-update m pc (v ∷ f) b front back inv i (pop_read x y) taken f b front' back
          (λ k n ne e r q. record {
            below = q.below;
            alone = q.alone;
            off_front = λ j h. q.off_front (suc j) (omega (arith, h));
            off_back = q.off_back;
          })
          (λ r. absurd (r refl));
    unique = update-Apart owned pc i (pop_read x y) inv.unique (λ j r ne. absurd (r refl));
    given = update-All (λ q. real_node q ≡ true) pc i (pop_read x y) refl (λ k ne. inv.given k);
    linking =
        linking-quiet m pc (v ∷ f) b front back inv i (pop_read x y) (λ n old e. ground (arith, e));
    locals =
        update-All (λ q. Local m.next m.brk taken.frond back (length b) q) pc i (pop_read x y)
          local.3
          (λ k ne.
            Local-map m.next m.next m.brk m.brk m.frond taken.frond back back (length b) (length b)
              refl Seen-take (pc k) (inv.locals k));
  }

  -- What is removed is the first value.
  pub removes_first : v ≡ m.value y
  removes_first = ground (arith, inv.frond.values 0, second)

module _ {A : Type 0} (m : Que A) (pc : ℕ → Pc A) (f b : List A) (front back : ℕ → Ptr) (i : ℕ)
    (inv : Inv m pc f b front back) (none_holds : (k : ℕ) → holds (pc k) ≡ false) where
  no_link : (k : ℕ) (n old : Ptr) → pc k ≡ push_link n old → ⊥
  unfolding holds
  no_link k n old e = ground (arith, ap holds (sym e) ∙ none_holds k)

  pub exchange : Inv (swapped m) (update pc i pop_lock) b f back front
  exchange = record {
    frond = inv.rear;
    rear = inv.frond;
    across = λ j k h g e. inv.across k j g h (sym e);
    linked = λ j h. elim (inv.links j h) [
      | inl e ↦ e
      | inr (e, k, g) ↦ absurd (no_link k (back (suc j)) (back j) g)
    ];
    links = λ j h. inl (inv.linked j h);
    private =
        Private-update m pc f b front back inv i pop_lock (swapped m) b f back front
          (λ k n ne e r q. record {
            below = q.below;
            alone = q.alone;
            off_front = q.off_back;
            off_back = q.off_front;
          })
          (λ r. absurd (r refl));
    unique = update-Apart owned pc i pop_lock inv.unique (λ j r ne. absurd (r refl));
    given = update-All (λ q. real_node q ≡ true) pc i pop_lock refl (λ k ne. inv.given k);
    linking =
        update-All
          (λ q.
            (n old : Ptr)
            → q ≡ push_link n old
            → (j : ℕ) × (j < length f) × (front j ≡ old) × (front (suc j) ≡ n))
          pc i pop_lock (λ n old e. ground (arith, e)) (λ k ne n old e. absurd (no_link k n old e));
    locals =
        update-All (λ q. Local m.next m.brk m.back front (length f) q) pc i pop_lock tt
          (λ k ne. free-Local m.next m.brk m.back front (length f) (pc k) (none_holds k));
  }
