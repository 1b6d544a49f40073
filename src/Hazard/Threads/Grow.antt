-- ===== src/Hazard/Threads/Grow.antt =====
-- Every access leaves the list as it is or makes it longer.
use mathlib.Core.Path.{subst}
use fossilizid.Base.{
  ℕ, zero, suc, ◌≤◌, ◌≡◌, ◌≢◌, ◌⊎◌, inl, inr, refl, sym, ap, ◌∙◌, List, ◌∷◌, Ptr, null, update,
  ◌==◌, count, arith, Bool-cases, update-All,
}
use fossilizid.Hazard.Threads.{Pc, Thread, Memory, acq_alloc, acq_count, acq_link, more, with_node}
use fossilizid.Hazard.Threads.Row.{On, Stands, Longer, RowIn, Grown, Stands-Longer, Link-update}

module _ (m : Memory) (th : ℕ → Thread) (c : ℕ) (at : ℕ → Ptr) (r : RowIn m th c at) (i : ℕ) where
  abbrev held : List Ptr
  held = (th i).held

  unchanged : Longer m.next m.next c at c at
  unchanged = record { more = omega arith; same = λ j h. refl; linked = λ j h e. e }

  pub first : On c at m.head
  first = (c, omega arith, r.newest)

  -- A thread that owes no link goes on, and the list is as it was.
  pub quiet :
      (o : Pc) (t : Thread)
      → (th i).pc ≡ o
      → ((n : ℕ) (x old : Ptr) → o ≢ acq_link n x old)
      → Stands m.next c at t.pc
      → ((y : Ptr) → 1 ≤ count y t.held → On c at y)
      → Grown m c at m (update th i t)
  quiet o t e ne s h = (
    c,
    at,
    record {
      newest = r.newest;
      real = r.real;
      below = r.below;
      apart = r.apart;
      oldest = r.oldest;
      links = λ j l.
          Link-update m.next th i t (at (suc j)) (at j)
            (λ n g. ne n (at (suc j)) (at j) (sym e ∙ g)) (r.links j l);
      stands = update-All (λ u. Stands m.next c at u.pc) th i t s (λ k d. r.stands k);
      handed =
          update-All (λ u. (y : Ptr) → 1 ≤ count y u.held → On c at y) th i t h (λ k d. r.handed k);
    },
    unchanged,
  )

  pub Stands-more : (n : ℕ) (y : Ptr) → On c at y → Stands m.next c at (more n y)
  Stands-more n y h = elim (Bool-cases (n == 0)) [ inl e ↦ rw e tt | inr e ↦ rw e (inr h) ]

  -- One more node is handed out.
  pub handed_more : (x : Ptr) → On c at x → (y : Ptr) → 1 ≤ count y (x ∷ held) → On c at y
  handed_more x o y h = elim (Bool-cases (x == y)) [
    | inl e ↦ subst (On c at) (ground (arith, e)) o
    | inr e ↦ r.handed i y (ground (arith, e, h))
  ]

  -- What follows a node of the list
  pub On-next : (x : Ptr) → On c at x → (m.next x ≡ null) ⊎ On c at (m.next x)
  On-next x (zero, h, e) = inl (ap m.next (sym e) ∙ r.oldest)
  On-next x (suc j, h, e) = elim (r.links j (omega (arith, h))) [
    | inl g ↦ inr (j, omega (arith, h), sym g ∙ ap m.next e)
    | inr (g, k, n, w) ↦ inl (ap m.next (sym e) ∙ g)
  ]

  -- A new node.
  pub alloc :
      (n : ℕ)
      → (th i).pc ≡ acq_alloc n
      → Grown m c at (with_node m) (update th i (record { pc = acq_count n m.brk; held = held }))
  alloc n e = (
    c,
    at,
    record {
      newest = r.newest;
      real = r.real;
      below = λ j l. omega (arith, r.below j l);
      apart = r.apart;
      oldest = ground (arith, r.oldest);
      links = λ j l.
          Link-update next th i (record { pc = acq_count n m.brk; held = held }) (at (suc j)) (at j)
            (λ q g. ground (arith, sym e ∙ g)) (ground (arith, r.links j l, r.below (suc j)));
      stands =
          update-All (λ u. Stands next c at u.pc) th i
            (record { pc = acq_count n m.brk; held = held })
            (ground (arith, r.below 0), ground arith, λ j l. ground (arith, r.below j l))
            (λ k d.
              Stands-Longer m.next next c at c at (th k).pc longer
                (λ q y g (s, z, f). (s, ground (arith, z), f)) (r.stands k));
      handed =
          update-All (λ u. (y : Ptr) → 1 ≤ count y u.held → On c at y) th i
            (record { pc = acq_count n m.brk; held = held }) (r.handed i) (λ k d. r.handed k);
    },
    longer,
  )
    where
      next : Ptr → Ptr
      next = update m.next m.brk null

      longer : Longer m.next next c at c at
      longer = record {
        more = omega arith;
        same = λ j h. refl;
        linked = λ j h g. ground (arith, g, r.below (suc j));
      }
