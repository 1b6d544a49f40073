-- ===== src/Optimisticque/Order/Steps.antt =====
-- What any access of a thread that pushes does to the order.
use mathlib.Core.Path.{subst}
use fossilizid.Base.{
  ℕ, suc, ◌+◌, ◌%◌, ◌^◌, ◌<◌, ◌≡◌, inl, inr, refl, sym, ap, ◌∙◌, Bool, true, List, [], ◌++◌,
  append-nil, length, Ptr, update, update-All, update-Apart, arith, Bool-cases, ◌==◌, ◌&&◌,
}
use fossilizid.Optimisticque.{
  Queue, Pc, push_node, push_load, push_prev, push_cas, push_link, push_count, pushed, step,
  get_list,
}
use fossilizid.Optimisticque.Order.{System, published, Reach, start, begins, later}
use fossilizid.Optimisticque.Order.Inv.{owned, pushes, Link, Inv}
use fossilizid.Optimisticque.Order.Moves.{quiet, alloc, Private-update}
use fossilizid.Optimisticque.Order.Links.{set_prev, publish}

module _ {A : Type 0} (m : Queue A) (pc : ℕ → Pc A) (log : List A) (at : ℕ → Ptr)
    (inv : Inv m pc log at) (i : ℕ) (n hp : Ptr) (before : pc i ≡ push_link n hp) where
  abbrev linked : Queue A
  linked = record m { nodes = record (m.nodes) { next = update m.next hp n } }

  abbrev after : ℕ → Pc A
  after = update pc i push_count

  -- The forward link is that of one number, and of no other.
  Link-set : (j : ℕ) → j < length log → Link m pc log at j → Link linked after log at j
  Link-set j h l =
      let (k, b, c, d) = inv.linking i n hp before in
      elim (Bool-cases (hp == at j)) [
        | inl e ↦
            let same = inv.apart k j (omega arith) (omega arith) (ground (arith, c, e)) in
            inl (ground (arith, e, d, same))
        | inr e ↦ elim l [
          | inl f ↦ inl (ground (arith, e, f))
          | inr (f, t, g) ↦ inr (ground (arith, e, f), t, ground (arith, e, g, before, ap pc))
        ]
      ]

  set_next : Inv linked after log at
  set_next =
      let (k, b, c, d) = inv.linking i n hp before in
      record {
        first = inv.first;
        newest = inv.newest;
        real = inv.real;
        below = inv.below;
        apart = inv.apart;
        backs = inv.backs;
        values = inv.values;
        links = λ j h. Link-set j h (inv.links j h);
        open_end = ground (arith, inv.open_end, inv.apart k (length log), b, c);
        private =
            Private-update m pc log at inv i push_count linked
              (λ x r q. record {
                below = q.below;
                alone = ground (arith, q.alone, q.apart k, b, c);
                apart = q.apart;
              })
              (λ r. absurd (r refl));
        prevs =
            update-All (λ q. (x y : Ptr) → q ≡ push_cas x y → m.prev x ≡ y) pc i push_count
              (λ x y e. ground (arith, e)) (λ k ne. inv.prevs k);
        linking =
            update-All
              (λ q.
                (x y : Ptr)
                → q ≡ push_link x y
                → (j : ℕ) × (j < length log) × (at j ≡ y) × (at (suc j) ≡ x))
              pc i push_count (λ x y e. ground (arith, e)) (λ k ne. inv.linking k);
        pushing = update-All (λ q. pushes q ≡ true) pc i push_count refl (λ k ne. inv.pushing k);
        unique = update-Apart owned pc i push_count inv.unique (λ j r ne. absurd (r refl));
      }

module _ {A : Type 0} (m : Queue A) (pc : ℕ → Pc A) (log : List A) (at : ℕ → Ptr)
    (inv : Inv m pc log at) (i : ℕ) where
  same_log :
      (m' : Queue A) (pc' : ℕ → Pc A)
      → Inv m' pc' log at
      → (at' : ℕ → Ptr) × Inv m' pc' (log ++ []) at'
  same_log m' pc' r = (at, subst (λ l. Inv m' pc' l at) (sym (append-nil log)) r)

  -- An access of a thread that stands at `p`.
  pub turn-Inv :
      (w : Bool) (p : Pc A)
      → pc i ≡ p
      → (at' : ℕ → Ptr) × Inv
          (step w m p).0
          (update pc i (step w m p).1)
          (log ++ published w m p)
          at'
  unfolding step published
  turn-Inv w (push_node v) e = same_log _ _ (alloc m pc log at inv i v e)
  turn-Inv w (push_load n) e = same_log _ _ (
      quiet m pc log at inv i (push_prev n m.detail) (λ x y f. ground (arith, e, f)) m.size
        (ap pushes (sym e) ∙ inv.pushing i) (λ r. sym (ap owned e)) (λ x y f. ground (arith, f))
        (λ x y f. ground (arith, f)))
  turn-Inv w (push_prev n hp) e = same_log _ _ (set_prev m pc log at inv i n hp e)
  turn-Inv w (push_cas n hp) e = elim (Bool-cases (w && m.detail == hp)) [
    | inl f ↦
        rw f (update at (suc (length log)) n, publish m pc log at inv i n hp e (ground (arith, f)))
    | inr f ↦ rw f (
        same_log m (update pc i (push_load n)) (
          quiet m pc log at inv i (push_load n) (λ x y f. ground (arith, e, f)) m.size
            (ap pushes (sym e) ∙ inv.pushing i) (λ r. sym (ap owned e)) (λ x y f. ground (arith, f))
            (λ x y f. ground (arith, f))))
  ]
  turn-Inv w (push_link n hp) e = same_log _ _ (set_next m pc log at inv i n hp e)
  turn-Inv w push_count e = same_log _ _ (
      quiet m pc log at inv i pushed (λ x y f. ground (arith, e, f)) ((m.size + 1) % 2 ^ 32) refl
        (λ r. absurd (r refl)) (λ x y f. ground (arith, f)) (λ x y f. ground (arith, f)))
  turn-Inv w pushed e = same_log _ _ (
      quiet m pc log at inv i pushed (λ x y f. ground (arith, e, f)) m.size refl
        (λ r. absurd (r refl)) (λ x y f. ground (arith, f)) (λ x y f. ground (arith, f)))
  turn-Inv w p e = absurd (ground (arith, ap pushes (sym e) ∙ inv.pushing i))

module _ {A : Type 0} where
  start-Inv : (junk : A) → Inv (get_list junk) (λ k. pushed) [] (λ j. 1)
  unfolding get_list
  start-Inv junk = record {
    first = refl;
    newest = refl;
    real = λ j h. omega arith;
    below = λ j h. omega arith;
    apart = λ j k h g e. omega (arith, h, g);
    backs = λ j h. absurd (omega (arith, h));
    values = λ j h. absurd (omega (arith, h));
    links = λ j h. absurd (omega (arith, h));
    open_end = refl;
    private = λ k r. absurd (r refl);
    prevs = λ k n hp e. ground (arith, e);
    linking = λ k n hp e. ground (arith, e);
    pushing = λ k. refl;
    unique = λ j k r e. absurd (r refl);
  }

  -- In every state that threads reach which only push, the nodes are ordered.
  pub Reach-Inv :
      (junk : A) {s : System A} {log : List A}
      → Reach junk s log
      → (at : ℕ → Ptr) × Inv s.mem s.pc log at
  Reach-Inv junk start = (λ j. 1, start-Inv junk)
  Reach-Inv junk (begins {s} {log} i v r e) =
      let (at, inv) = Reach-Inv junk r in
      (
        at,
        quiet s.mem s.pc log at inv i (push_node v) (λ x y f. ground (arith, e, f)) s.mem.size refl
            (λ r. absurd (r refl)) (λ x y f. ground (arith, f)) (λ x y f. ground (arith, f)),
      )
  Reach-Inv junk (later {s} {log} i w r) =
      let (at, inv) = Reach-Inv junk r in turn-Inv s.mem s.pc log at inv i w (s.pc i) refl
