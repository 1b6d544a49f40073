-- ===== src/Swapque/Threads/Links.antt =====
-- The forward link of a push.
use fossilizid.Base.{
  ℕ, suc, ◌<◌, ◌≡◌, ◌≢◌, inl, inr, refl, sym, ap, ◌∙◌, true, List, length, Ptr, update, update-All,
  update-Apart, arith, Bool-cases, ◌==◌,
}
use fossilizid.Swapque.{Que, MicroQue}
use fossilizid.Swapque.Threads.{Pc, push_link, push_count}
use fossilizid.Swapque.Threads.Inv.{owned, real_node, Row, Seen, Local, Link, Inv}
use fossilizid.Swapque.Threads.Moves.{Private-update, linking-quiet, Local-map}

module _ {A : Type 0} (next : Ptr → Ptr) (value : Ptr → A) (brk : ℕ) (l : MicroQue) where
  Row-link :
      (q : List A) (at : ℕ → Ptr) (old n : Ptr)
      → Row next value brk l q at
      → at (length q) ≢ old
      → Row (update next old n) value brk l q at
  Row-link q at old n r ne = record {
    first = r.first;
    newest = r.newest;
    real = r.real;
    below = r.below;
    apart = r.apart;
    values = r.values;
    open_end = ground (arith, r.open_end, ne);
  }

module _ {A : Type 0} (m : Que A) (pc : ℕ → Pc A) (b : List A) (front back : ℕ → Ptr) (i : ℕ) where
  module _ (f : List A) (inv : Inv m pc f b front back) (n old : Ptr)
      (before : pc i ≡ push_link n old) where
    abbrev joined : Que A
    joined = record m { next = update m.next old n }

    abbrev after : ℕ → Pc A
    after = update pc i push_count

    -- Where the link is.
    abbrev Place : Type 0
    Place = (j : ℕ) × (j < length b) × (back j ≡ old) × (back (suc j) ≡ n)

    place : Place
    place = inv.linking i n old before

    -- The forward link is that of one place, and of no other.
    Link-set :
        (j : ℕ) → j < length b → Link m pc f b front back j → Link joined after f b front back j
    Link-set j h l =
        let (k, g, c, d) = place in
        elim (Bool-cases (old == back j)) [
          | inl e ↦
              let same = inv.rear.apart k j (omega arith) (omega arith) (ground (arith, c, e)) in
              inl (ground (arith, e, d, same))
          | inr e ↦ elim l [
            | inl t ↦ inl (ground (arith, e, t))
            | inr (t, u, g) ↦ inr (ground (arith, e, t), u, ground (arith, e, g, before, ap pc))
          ]
        ]

    Seen-link :
        (x : Ptr)
        → Seen m.next m.brk m.frond.begin back (length b) x
        → Seen joined.next m.brk m.frond.begin back (length b) x × (joined.next x ≡ m.next x)
    Seen-link x s =
        let (k, g, c, d) = place in
        let far : old ≢ x = λ z. elim (s.stands) [
          | inl e ↦
              inv.across 0 k (omega arith) (omega (arith, g))
                (inv.frond.first ∙ sym e ∙ sym z ∙ sym c)
          | inr (e, o) ↦ o k (omega (arith, g)) (c ∙ z)
        ] in
        let same : joined.next x ≡ m.next x = ground (arith, far) in
        (
          record {
            real = s.real;
            below = s.below;
            stands = elim (s.stands) [
              | inl e ↦ inl e
              | inr (e, o) ↦ inr ((λ z. e (sym same ∙ z)), o)
            ];
          },
          same,
        )

    pub set_next : Inv joined after f b front back
    set_next =
        let (k, g, c, d) = place in
        record {
          frond =
              Row-link m.next m.value m.brk m.frond f front old n inv.frond
                (λ z. inv.across (length f) k (omega arith) (omega (arith, g)) (z ∙ sym c));
          rear = Row-link m.next m.value m.brk m.back b back old n inv.rear (λ z.
              let e = inv.rear.apart (length b) k (omega arith) (omega (arith, g)) (z ∙ sym c) in
              omega (arith, e, g));
          across = inv.across;
          linked = λ j h. ground (arith, inv.linked j h, inv.across j k, c, g, h);
          links = λ j h. Link-set j h (inv.links j h);
          private =
              Private-update m pc f b front back inv i push_count joined f b front back
                (λ t x ne e r q. record {
                  below = q.below;
                  alone = ground (arith, q.alone, q.off_back k, g, c);
                  off_front = q.off_front;
                  off_back = q.off_back;
                })
                (λ r. absurd (r refl));
          unique = update-Apart owned pc i push_count inv.unique (λ j r ne. absurd (r refl));
          given = update-All (λ q. real_node q ≡ true) pc i push_count refl (λ t ne. inv.given t);
          linking = linking-quiet m pc f b front back inv i push_count (λ x y e. ground (arith, e));
          locals =
              update-All (λ q. Local joined.next m.brk m.frond back (length b) q) pc i push_count tt
                (λ t ne.
                  Local-map m.next joined.next m.brk m.brk m.frond m.frond back back (length b)
                    (length b) refl Seen-link (pc t) (inv.locals t));
        }
