-- ===== src/Hazard/Threads/Linking.antt =====
-- The two steps by which a new node comes into the list.
use mathlib.Core.Path.{subst}
use fossilizid.Base.{
  ℕ, suc, ◌≤◌, ◌<◌, ◌≡◌, ◌≢◌, ◌⊎◌, inl, inr, refl, sym, ap, ◌∙◌, ◌∷◌, Ptr, update, ◌==◌, count,
  arith, Bool-cases, update-All,
}
use fossilizid.Hazard.Threads.{Pc, Thread, Memory, acq_count, acq_push, acq_link}
use fossilizid.Hazard.Threads.Grow.{handed_more}
use fossilizid.Hazard.Threads.Row.{
  On, Off, Stands, Link, Longer, RowIn, Grown, Stands-Longer, Link-update,
}

module _ (m : Memory) (th : ℕ → Thread) (c : ℕ) (at : ℕ → Ptr) (r : RowIn m th c at) (i n : ℕ)
    (x old : Ptr) where
  -- A new node becomes the head.
  pub pushes :
      (th i).pc ≡ acq_push n x
      → x < m.brk
      → ((k q : ℕ) → i ≢ k → ((th k).pc ≡ acq_count q x) ⊎ ((th k).pc ≡ acq_push q x) → ⊥)
      → Grown m c at
          (record m { head = x })
          (update th i (record { pc = acq_link n x m.head; held = (th i).held }))
  pushes e low mine = (
    suc c,
    at',
    record {
      newest = ground arith;
      real = λ j l. ground (arith, r.real j, off.0, l);
      below = λ j l. ground (arith, r.below j, low, l);
      apart = λ j k l h g. ground (arith, r.apart j k, off.2 j, off.2 k, l, h, g);
      oldest = ground (arith, r.oldest);
      links = link;
      stands =
          update-All (λ u. Stands m.next (suc c) at' u.pc) th i t
            (c, omega arith, ground arith, ground (arith, r.newest))
            (λ k d.
              Stands-Longer m.next m.next c at (suc c) at' (th k).pc longer
                (λ q y g (z, w, f). (z, w, not_on k q y d g f)) (r.stands k));
      handed =
          update-All (λ u. (y : Ptr) → 1 ≤ count y u.held → On (suc c) at' y) th i t (on i)
            (λ k d. on k);
    },
    longer,
  )
    where
      t : Thread
      t = record { pc = acq_link n x m.head; held = (th i).held }

      at' : ℕ → Ptr
      at' = update at (suc c) x

      off : Off m.next c at x
      off = subst (Stands m.next c at) e (r.stands i)

      longer : Longer m.next m.next c at (suc c) at'
      longer = record { more = omega arith; same = λ j h. ground (arith, h); linked = λ j h g. g }

      on : (k : ℕ) (y : Ptr) → 1 ≤ count y (th k).held → On (suc c) at' y
      on k y h = let (j, l, g) = r.handed k y h in (j, omega (arith, l), ground (arith, l, g))

      -- Other new nodes are not this one.
      not_on :
          (k q : ℕ) (y : Ptr)
          → i ≢ k
          → ((th k).pc ≡ acq_count q y) ⊎ ((th k).pc ≡ acq_push q y)
          → ((j : ℕ) → j ≤ c → at j ≢ y)
          → (j : ℕ) → j ≤ suc c
          → at' j ≢ y
      not_on k q y d g f j l v = elim (Bool-cases (suc c == j)) [
        | inl z ↦
            let w : y ≡ x = ground (arith, z, v) in
            mine k q d (subst (λ o. ((th k).pc ≡ acq_count q o) ⊎ ((th k).pc ≡ acq_push q o)) w g)
        | inr z ↦ f j (ground (arith, z, l)) (ground (arith, z, v))
      ]

      between :
          (j : ℕ) (p o : Ptr)
          → p ≡ at' (suc j)
          → o ≡ at' j
          → Link m.next (update th i t) p o
          → Link m.next (update th i t) (at' (suc j)) (at' j)
      between j p o a b h =
          subst (λ z. Link m.next (update th i t) z (at' j)) a
            (subst (λ z. Link m.next (update th i t) p z) b h)

      link : (j : ℕ) → j < suc c → Link m.next (update th i t) (at' (suc j)) (at' j)
      link j l = elim (Bool-cases (c == j)) [
        | inl z ↦
            let own : update th i t i ≡ t = ground arith in
            let here : (update th i t i).pc ≡ acq_link n x m.head = ap (λ u. u.pc) own in
            between j x m.head (ground (arith, z)) (sym r.newest ∙ ground (arith, z))
              (inr (off.1, i, n, here))
        | inr z ↦ between j (at (suc j)) (at j) (ground (arith, z)) (ground (arith, l)) (
            Link-update m.next th i t (at (suc j)) (at j) (λ q g. ground (arith, sym e ∙ g))
              (r.links j (ground (arith, z, l))))
      ]

  -- The link that a thread owes is set.
  pub links :
      (p : Pc)
      → (th i).pc ≡ acq_link n x old
      → Stands (update m.next x old) c at p
      → Grown m c at
          (record m { next = update m.next x old })
          (update th i (record { pc = p; held = x ∷ (th i).held }))
  links p e s =
      let (j0, l0, e0, o0) = place in
      (
        c,
        at,
        record {
          newest = r.newest;
          real = r.real;
          below = r.below;
          apart = r.apart;
          oldest = ground (arith, r.oldest, r.apart 0 (suc j0), e0, l0);
          links = λ j l. elim (Bool-cases (j0 == j)) [
            | inl z ↦ inl (ground (arith, z, e0, o0))
            | inr z ↦
                let ne : at (suc j) ≢ x =
                  λ w. ground (arith, r.apart (suc j) (suc j0), w, e0, l, l0, z) in
                Link-update next th i t (at (suc j)) (at j) (λ q g. ground (arith, ne, sym e ∙ g))
                  (elim (r.links j l) [
                    | inl g ↦ inl (ground (arith, ne, g))
                    | inr (g, k, q, w) ↦ inr (ground (arith, ne, g), k, q, w)
                  ])
          ];
          stands =
              update-All (λ u. Stands next c at u.pc) th i t s
                (λ k d.
                  Stands-Longer m.next next c at c at (th k).pc longer
                    (λ q y g (z, w, f).
                      (z, ground (arith, w, f (suc j0) (omega (arith, l0)), e0), f))
                    (r.stands k));
          handed =
              update-All (λ u. (y : Ptr) → 1 ≤ count y u.held → On c at y) th i t
                (handed_more m th c at r i x (suc j0, omega (arith, l0), e0)) (λ k d. r.handed k);
        },
        longer,
      )
    where
      next : Ptr → Ptr
      next = update m.next x old

      t : Thread
      t = record { pc = p; held = x ∷ (th i).held }

      place : (j : ℕ) × (j < c) × (at (suc j) ≡ x) × (at j ≡ old)
      place = subst (Stands m.next c at) e (r.stands i)

      longer : Longer m.next next c at c at
      longer = record {
        more = omega arith;
        same = λ j h. refl;
        linked = λ j h g. elim (Bool-cases (x == at (suc j))) [
          | inl z ↦
              let w : place.0 ≡ j =
                ground (arith, z, r.apart (suc j) (suc place.0), h, place.1, place.2) in
              rw z (sym place.3 ∙ ap at w)
          | inr z ↦ rw z g
        ];
      }
