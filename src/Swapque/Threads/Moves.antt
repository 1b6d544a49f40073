-- ===== src/Swapque/Threads/Moves.antt =====
-- Accesses that leave the lists alone, and a new node.
use mathlib.Core.Path.{subst}
use fossilizid.Base.{
  ℕ, suc, ◌<◌, ◌≡◌, ◌≢◌, inl, inr, refl, sym, ap, ◌∙◌, true, List, length, Ptr, null, update,
  update-All, update-Apart, arith,
}
use fossilizid.Swapque.{Que, MicroQue}
use fossilizid.Swapque.Threads.{
  Pc, push_node, push_lock, push_link, pop_test, pop_next, pop_cas, pop_read, null_access,
  with_node,
}
use fossilizid.Swapque.Threads.Inv.{owned, real_node, Row, Seen, Local, Private, Link, Inv}

module _ {A : Type 0} (m : Que A) (pc : ℕ → Pc A) (f b : List A) (front back : ℕ → Ptr)
    (inv : Inv m pc f b front back) (i : ℕ) where
  -- The node that a thread is about to publish.
  pub own_node : (k : ℕ) (n : Ptr) → owned (pc k) ≡ n → n ≢ null → Private m pc f b front back n
  own_node k n e r =
      subst (λ x. Private m pc f b front back x) e (inv.private k (λ z. r (sym e ∙ z)))

  module _ (p : Pc A) where
    -- The node of a thread after the move.
    pub Private-update :
        (m' : Que A) (f' b' : List A) (front' back' : ℕ → Ptr)
        → ((k n : ℕ)
            → i ≢ k
            → n ≡ owned (pc k)
            → n ≢ null
            → Private m pc f b front back n
            → Private m' (update pc i p) f' b' front' back' n)
        → (owned p ≢ null → Private m' (update pc i p) f' b' front' back' (owned p))
        → (k : ℕ) → owned (update pc i p k) ≢ null
        → Private m' (update pc i p) f' b' front' back' (owned (update pc i p k))
    Private-update m' f' b' front' back' keep new =
        update-All (λ q. owned q ≢ null → Private m' (update pc i p) f' b' front' back' (owned q))
          pc i p new (λ k ne r. keep k (owned (pc k)) ne refl r (inv.private k r))

    -- Links that are set stay, and other threads still owe theirs.
    pub Link-quiet :
        ((n old : Ptr) → pc i ≢ push_link n old)
        → (j : ℕ) → Link m pc f b front back j
        → Link m (update pc i p) f b front back j
    Link-quiet not_linking j (inl e) = inl e
    Link-quiet not_linking j (inr (e, k, h)) =
        inr (e, k, ground (arith, not_linking (back (suc j)) (back j), ap pc))

    pub linking-quiet :
        ((n old : Ptr) → p ≢ push_link n old)
        → (k : ℕ) (n old : Ptr) → update pc i p k ≡ push_link n old
        → (j : ℕ) × (j < length b) × (back j ≡ old) × (back (suc j) ≡ n)
    linking-quiet l =
        update-All
          (λ q.
            (n old : Ptr)
            → q ≡ push_link n old
            → (j : ℕ) × (j < length b) × (back j ≡ old) × (back (suc j) ≡ n))
          pc i p (λ n old e. absurd (l n old e)) (λ k ne. inv.linking k)

    -- Thread `i` goes on to `p`; the lists stay.
    pub quiet :
        (z : ℕ) (r : List Ptr)
        → ((n old : Ptr) → pc i ≢ push_link n old)
        → ((n old : Ptr) → p ≢ push_link n old)
        → real_node p ≡ true
        → (owned p ≢ null → owned p ≡ owned (pc i))
        → Local m.next m.brk m.frond back (length b) p
        → Inv (record m { size = z; retired = r }) (update pc i p) f b front back
    quiet z r not_linking l g o h = record {
      frond = inv.frond;
      rear = inv.rear;
      across = inv.across;
      linked = inv.linked;
      links = λ j t. Link-quiet not_linking j (inv.links j t);
      private =
          Private-update (record m { size = z; retired = r }) f b front back
            (λ k n ne e x q. record {
              below = q.below;
              alone = q.alone;
              off_front = q.off_front;
              off_back = q.off_back;
            })
            (λ x.
              let q = inv.private i (λ y. x (o x ∙ y)) in
              rw (o x) (record {
                below = q.below;
                alone = q.alone;
                off_front = q.off_front;
                off_back = q.off_back;
              }));
      unique = update-Apart owned pc i p inv.unique (λ j x ne. ground (arith, o, inv.unique i j));
      given = update-All (λ q. real_node q ≡ true) pc i p g (λ k ne. inv.given k);
      linking = linking-quiet l;
      locals =
          update-All (λ q. Local m.next m.brk m.frond back (length b) q) pc i p h
            (λ k ne. inv.locals k);
    }

-- What a thread knows is kept where what it has seen is, with the link behind it.
pub Local-map :
    {A : Type 0} (next next' : Ptr → Ptr) (brk brk' : ℕ) (l l' : MicroQue) (at at' : ℕ → Ptr)
    (n n' : ℕ)
    → l'.end ≡ l.end
    → ((x : Ptr)
        → Seen next brk l.begin at n x
        → Seen next' brk' l'.begin at' n' x × (next' x ≡ next x))
    → (p : Pc A) → Local next brk l at n p
    → Local next' brk' l' at' n' p
Local-map next next' brk brk' l l' at at' n n' e s (pop_test x) h = (s x h).0
Local-map next next' brk brk' l l' at at' n n' e s (pop_next x) h = ((s x h.0).0, λ z. h.1 (z ∙ e))
Local-map next next' brk brk' l l' at at' n n' e s (pop_cas x y) h =
    ((s x h.0).0, λ z. h.1 (z ∙ e), (s x h.0).1 ∙ h.2, h.3)
Local-map next next' brk brk' l l' at at' n n' e s (pop_read x y) h = h
Local-map next next' brk brk' l l' at at' n n' e s null_access h = h
Local-map next next' brk brk' l l' at at' n n' e s p h = tt

Seen-alloc :
    (next : Ptr → Ptr) (brk : ℕ) (begin : Ptr) (at : ℕ → Ptr) (n : ℕ) (x : Ptr)
    → Seen next brk begin at n x
    → Seen (update next brk null) (suc brk) begin at n x × (update next brk null x ≡ next x)
Seen-alloc next brk begin at n x s = (
  record {
    real = s.real;
    below = omega (arith, s.below);
    stands = elim (s.stands) [ inl e ↦ inl e | inr (e, o) ↦ inr (ground (arith, e, s.below), o) ];
  },
  ground (arith, s.below),
)

-- A row outlives a new node.
Row-alloc :
    {A : Type 0} (next : Ptr → Ptr) (value : Ptr → A) (brk : ℕ) (l : MicroQue) (q : List A)
    (at : ℕ → Ptr) (v : A)
    → Row next value brk l q at
    → Row (update next brk null) (update value brk v) (suc brk) l q at
Row-alloc next value brk l q at v r = record {
  first = r.first;
  newest = r.newest;
  real = r.real;
  below = λ j h. omega (arith, r.below j h);
  apart = r.apart;
  values = λ j h. ground (arith, r.values j h, r.below (suc j));
  open_end = ground (arith, r.open_end, r.below (length q));
}

module _ {A : Type 0} (m : Que A) (pc : ℕ → Pc A) (f b : List A) (front back : ℕ → Ptr)
    (inv : Inv m pc f b front back) (i : ℕ) (v : A) (before : pc i ≡ push_node v) where
  abbrev after : ℕ → Pc A
  after = update pc i (push_lock m.brk)

  abbrev grown : Que A
  grown = with_node m v

  Link-alloc :
      (j : ℕ) → j < length b → Link m pc f b front back j → Link grown after f b front back j
  Link-alloc j h (inl e) = inl (ground (arith, e, inv.rear.below j))
  Link-alloc j h (inr (e, k, g)) =
      inr (ground (arith, e, inv.rear.below j), k, ground (arith, g, before, ap pc))

  -- `get_node`
  pub alloc : Inv grown after f b front back
  alloc = record {
    frond = Row-alloc m.next m.value m.brk m.frond f front v inv.frond;
    rear = Row-alloc m.next m.value m.brk m.back b back v inv.rear;
    across = inv.across;
    linked = λ j h. ground (arith, inv.linked j h, inv.frond.below j);
    links = λ j h. Link-alloc j h (inv.links j h);
    private =
        Private-update m pc f b front back inv i (push_lock m.brk) grown f b front back
          (λ k n ne e x q. record {
            below = omega (arith, q.below);
            alone = ground (arith, q.alone);
            off_front = q.off_front;
            off_back = q.off_back;
          })
          (λ x. record {
            below = omega arith;
            alone = ground arith;
            off_front = λ j h. omega (arith, inv.frond.below j h);
            off_back = λ j h. omega (arith, inv.rear.below j h);
          });
    unique =
        update-Apart owned pc i (push_lock m.brk) inv.unique
          (λ j r ne e. let own = inv.private j (λ z. r (e ∙ z)) in omega (arith, e, own.below));
    given =
        update-All (λ q. real_node q ≡ true) pc i (push_lock m.brk)
          (ground (arith, inv.frond.below 0)) (λ k ne. inv.given k);
    linking =
        linking-quiet m pc f b front back inv i (push_lock m.brk) (λ n old e. ground (arith, e));
    locals =
        update-All (λ q. Local grown.next grown.brk m.frond back (length b) q) pc i
          (push_lock m.brk) tt
          (λ k ne.
            Local-map m.next grown.next m.brk grown.brk m.frond m.frond back back (length b)
              (length b) refl (Seen-alloc m.next m.brk m.frond.begin back (length b)) (pc k)
              (inv.locals k));
  }
