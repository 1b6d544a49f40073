-- ===== src/Optimisticque/Order/Moves.antt =====
-- What each kind of access keeps.
use mathlib.Core.Path.{subst}
use fossilizid.Base.{
  ℕ, suc, ◌<◌, ◌≡◌, ◌≢◌, inl, inr, sym, ap, ◌∙◌, true, List, length, Ptr, null, update, update-All,
  update-Apart, arith,
}
use fossilizid.Optimisticque.{Queue, Pc, push_node, push_load, push_cas, push_link, get_node}
use fossilizid.Optimisticque.Order.Inv.{owned, pushes, Private, Link, Inv}

module _ {A : Type 0} (m : Queue A) (pc : ℕ → Pc A) (log : List A) (at : ℕ → Ptr)
    (inv : Inv m pc log at) (i : ℕ) where
  -- The node that a thread is about to publish.
  pub cas_node : (k : ℕ) (n hp : Ptr) → pc k ≡ push_cas n hp → (n ≢ null) × Private m pc log at n
  cas_node k n hp e =
      let real : n ≢ null = ground (arith, ap pushes (sym e) ∙ inv.pushing k) in
      let own : owned (pc k) ≡ n = ap owned e in
      (real, subst (λ x. Private m pc log at x) own (inv.private k (λ z. real (sym own ∙ z))))

  module _ (p : Pc A) where
    -- The node of a thread after the move.
    pub Private-update :
        (m' : Queue A)
        → ((n : Ptr) → n ≢ null → Private m pc log at n → Private m' (update pc i p) log at n)
        → (owned p ≢ null → Private m' (update pc i p) log at (owned p))
        → (k : ℕ) → owned (update pc i p k) ≢ null
        → Private m' (update pc i p) log at (owned (update pc i p k))
    Private-update m' keep new =
        update-All (λ q. owned q ≢ null → Private m' (update pc i p) log at (owned q)) pc i p new
          (λ k ne r. keep (owned (pc k)) r (inv.private k r))

  -- Thread `i` goes on to `p`; the queue stays, but for its size.
  module _ (p : Pc A) (not_linking : (n hp : Ptr) → pc i ≢ push_link n hp) where
    pub Link-quiet : (j : ℕ) → Link m pc log at j → Link m (update pc i p) log at j
    Link-quiet j (inl e) = inl e
    Link-quiet j (inr (e, k, h)) =
        inr (e, k, ground (arith, not_linking (at (suc j)) (at j), ap pc))

    pub quiet :
        (z : ℕ)
        → pushes p ≡ true
        → (owned p ≢ null → owned p ≡ owned (pc i))
        → ((n hp : Ptr) → p ≡ push_cas n hp → m.prev n ≡ hp)
        → ((n hp : Ptr) → p ≢ push_link n hp)
        → Inv (record m { size = z }) (update pc i p) log at
    quiet z w o c l = record {
      first = inv.first;
      newest = inv.newest;
      real = inv.real;
      below = inv.below;
      apart = inv.apart;
      backs = inv.backs;
      values = inv.values;
      links = λ j h. Link-quiet j (inv.links j h);
      open_end = inv.open_end;
      private =
          Private-update p (record m { size = z })
            (λ n r q. record { below = q.below; alone = q.alone; apart = q.apart })
            (λ r.
              let q = inv.private i (λ x. r (o r ∙ x)) in
              record {
                below = rw (o r) (q.below);
                alone = rw (o r) (q.alone);
                apart = λ j h. rw (o r) (q.apart j h);
              });
      prevs =
          update-All (λ q. (n hp : Ptr) → q ≡ push_cas n hp → m.prev n ≡ hp) pc i p c
            (λ k ne. inv.prevs k);
      linking =
          update-All
            (λ q.
              (n hp : Ptr)
              → q ≡ push_link n hp
              → (j : ℕ) × (j < length log) × (at j ≡ hp) × (at (suc j) ≡ n))
            pc i p (λ n hp e. absurd (l n hp e)) (λ k ne. inv.linking k);
      pushing = update-All (λ q. pushes q ≡ true) pc i p w (λ k ne. inv.pushing k);
      unique = update-Apart owned pc i p inv.unique (λ j r ne. ground (arith, o, inv.unique i j));
    }

  -- `get_node`
  module _ (v : A) (before : pc i ≡ push_node v) where
    abbrev after : ℕ → Pc A
    after = update pc i (push_load m.brk)

    abbrev grown : Queue A
    grown = record m { nodes = get_node m.nodes v }

    Link-alloc : (j : ℕ) → j < length log → Link m pc log at j → Link grown after log at j
    Link-alloc j h (inl e) = inl (ground (arith, e, inv.below j))
    Link-alloc j h (inr (e, k, g)) =
        inr (ground (arith, e, inv.below j), k, ground (arith, g, before, ap pc))

    pub alloc : Inv grown after log at
    alloc = record {
      first = inv.first;
      newest = inv.newest;
      real = inv.real;
      below = λ j h. omega (arith, inv.below j h);
      apart = inv.apart;
      backs = λ j h. ground (arith, inv.backs j h, inv.below (suc j));
      values = λ j h. ground (arith, inv.values j h, inv.below (suc j));
      links = λ j h. Link-alloc j h (inv.links j h);
      open_end = ground (arith, inv.open_end, inv.below (length log));
      private =
          Private-update (push_load m.brk) grown
            (λ n r q. record {
              below = omega (arith, q.below);
              alone = ground (arith, q.alone);
              apart = q.apart;
            })
            (λ r. record {
              below = omega arith;
              alone = ground arith;
              apart = λ j h. omega (arith, inv.below j h);
            });
      prevs =
          update-All (λ q. (n hp : Ptr) → q ≡ push_cas n hp → grown.prev n ≡ hp) pc i
            (push_load m.brk) (λ n hp e. ground (arith, e))
            (λ k ne n hp e.
              let c = (cas_node k n hp e).1 in ground (arith, c.below, inv.prevs k n hp e));
      linking =
          update-All
            (λ q.
              (n hp : Ptr)
              → q ≡ push_link n hp
              → (j : ℕ) × (j < length log) × (at j ≡ hp) × (at (suc j) ≡ n))
            pc i (push_load m.brk) (λ n hp e. ground (arith, e)) (λ k ne. inv.linking k);
      pushing =
          update-All (λ q. pushes q ≡ true) pc i (push_load m.brk) (ground (arith, inv.below 0))
            (λ k ne. inv.pushing k);
      unique =
          update-Apart owned pc i (push_load m.brk) inv.unique
            (λ j r ne e. let own = inv.private j (λ z. r (e ∙ z)) in omega (arith, e, own.below));
    }
