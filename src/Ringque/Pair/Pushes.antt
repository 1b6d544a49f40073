-- ===== src/Ringque/Pair/Pushes.antt =====
-- What the accesses of the thread that pushes do to the ring.
use mathlib.Core.Path.{subst}
use native.Mathlib.Decide.{ℕ_discrete}
use fossilizid.Base.{
  ℕ, ◌+◌, ◌%◌, ◌^◌, ◌≤◌, ◌<◌, ◌≡◌, ◌≢◌, inl, inr, refl, Bool, true, none, List, [], ◌∷◌, ◌++◌,
  length, length-append, get_elem?-none, ◌==◌, arith, Bool-cases, get_elem?-append_ne,
  get_elem?-append_last,
}
use fossilizid.Ringque.{
  Ring, Pc, step, push_enter, push_test, push_resize, push_relock, push_cas, push_store, push_count,
  pushed, pop_enter, pop_test, pop_cas, pop_wait, pop_count, popped, pop_none,
}
use fossilizid.Ringque.Pair.Inv.{PopAt, Inv}
use fossilizid.Ringque.Slots.{slot, slot_injective}

module _ {A : Type 0} where
  -- What the thread that pops knows stays true, when the other one takes the next slot.
  PopAt-push :
      (push pop max h n : ℕ) (q : Pc A)
      → push ≡ slot max h n
      → h < max
      → push + 1 ≢ pop
      → PopAt pop max h n q
      → PopAt pop max h (n + 1) q
  PopAt-push push pop max h n pop_enter e b ne z = ground (arith, z)
  PopAt-push push pop max h n (pop_test slide slidetail) e b ne z = ground (arith, z)
  PopAt-push push pop max h n (pop_cas slide slidetail) e b ne z = ground (arith, z)
  PopAt-push push pop max h n (pop_wait t) e b ne z = ground (arith, z)
  PopAt-push push pop max h n (pop_count v) e b ne z = ground (arith, z)
  PopAt-push push pop max h n (popped v) e b ne z = ground (arith, z)
  PopAt-push push pop max h n pop_none e b ne z = ground (arith, z)
  PopAt-push push pop max h n (push_enter v) e b ne z = elim z [ ]
  PopAt-push push pop max h n (push_test v s) e b ne z = elim z [ ]
  PopAt-push push pop max h n (push_resize v s) e b ne z = elim z [ ]
  PopAt-push push pop max h n (push_relock v s) e b ne z = elim z [ ]
  PopAt-push push pop max h n (push_cas v s t) e b ne z = elim z [ ]
  PopAt-push push pop max h n (push_store v s) e b ne z = elim z [ ]
  PopAt-push push pop max h n push_count e b ne z = elim z [ ]
  PopAt-push push pop max h n pushed e b ne z = elim z [ ]

  -- No more elements are in the ring than it has slots.
  pub PopAt-bound : (pop max h n : ℕ) (q : Pc A) → PopAt pop max h n q → n ≤ max
  PopAt-bound pop max h n pop_enter z = ground (arith, z)
  PopAt-bound pop max h n (pop_test slide slidetail) z = ground (arith, z)
  PopAt-bound pop max h n (pop_cas slide slidetail) z = ground (arith, z)
  PopAt-bound pop max h n (pop_wait t) z = ground (arith, z)
  PopAt-bound pop max h n (pop_count v) z = ground (arith, z)
  PopAt-bound pop max h n (popped v) z = ground (arith, z)
  PopAt-bound pop max h n pop_none z = ground (arith, z)
  PopAt-bound pop max h n (push_enter v) z = elim z [ ]
  PopAt-bound pop max h n (push_test v s) z = elim z [ ]
  PopAt-bound pop max h n (push_resize v s) z = elim z [ ]
  PopAt-bound pop max h n (push_relock v s) z = elim z [ ]
  PopAt-bound pop max h n (push_cas v s t) z = elim z [ ]
  PopAt-bound pop max h n (push_store v s) z = elim z [ ]
  PopAt-bound pop max h n push_count z = elim z [ ]
  PopAt-bound pop max h n pushed z = elim z [ ]

  -- The next slot is in the ring.
  pub push_below :
      (r : Ring A) (q : Pc A) (h : ℕ) (xs : List A) (p : Pc A)
      → Inv r p q h xs
      → r.push_slide < r.que_max
  push_below r q h xs p i = ground (arith, i.below, i.next, PopAt-bound _ _ _ _ q i.popping)

module _ {A : Type 0} (w : Bool) (r : Ring A) (q : Pc A) (h : ℕ) (xs : List A) where
  pub push_enter-Inv :
      (v : A)
      → Inv r (push_enter v) q h xs
      → Inv (step w r (push_enter v)).0 (step w r (push_enter v)).1 q h xs
  unfolding step
  push_enter-Inv v i = record {
    fits = i.fits;
    below = i.below;
    slots = i.slots;
    next = i.next;
    locks = omega (arith, i.locks);
    pushing = refl;
    popping = i.popping;
  }

  pub push_test-Inv :
      (v : A) (slide : ℕ)
      → Inv r (push_test v slide) q h xs
      → Inv (step w r (push_test v slide)).0 (step w r (push_test v slide)).1 q h xs
  unfolding step
  push_test-Inv v slide i = elim (Bool-cases ((slide + 1) % 2 ^ 32 == r.pop_slide)) [
    | inl e ↦ rw e (record {
      fits = i.fits;
      below = i.below;
      slots = i.slots;
      next = i.next;
      locks = omega (arith, i.locks);
      pushing = i.pushing;
      popping = i.popping;
    })
    | inr e ↦ rw e (record {
      fits = i.fits;
      below = i.below;
      slots = i.slots;
      next = i.next;
      locks = i.locks;
      pushing = ground (arith, i.pushing, e, push_below r q h xs (push_test v slide) i, i.fits);
      popping = i.popping;
    })
  ]

  pub push_relock-Inv :
      (v : A) (slide : ℕ)
      → Inv r (push_relock v slide) q h xs
      → Inv (step w r (push_relock v slide)).0 (step w r (push_relock v slide)).1 q h xs
  unfolding step
  push_relock-Inv v slide i = record {
    fits = i.fits;
    below = i.below;
    slots = i.slots;
    next = i.next;
    locks = omega (arith, i.locks);
    pushing = i.pushing;
    popping = i.popping;
  }

  pub push_count-Inv :
      Inv r push_count q h xs → Inv (step w r push_count).0 (step w r push_count).1 q h xs
  unfolding step
  push_count-Inv i = record {
    fits = i.fits;
    below = i.below;
    slots = i.slots;
    next = i.next;
    locks = omega (arith, i.locks);
    pushing = i.pushing;
    popping = i.popping;
  }

  pub push_cas-Inv :
      (v : A) (slide newslide : ℕ)
      → Inv r (push_cas v slide newslide) q h xs
      → Inv (step w r (push_cas v slide newslide)).0 (step w r (push_cas v slide newslide)).1 q h xs
  unfolding step
  push_cas-Inv v slide newslide i =
      let same : (r.push_slide == slide) ≡ true = ground (arith, i.pushing) in
      rw same (record {
        fits = i.fits;
        below = i.below;
        slots = i.slots;
        next = ground (arith, i.pushing, i.next, i.below, PopAt-bound _ _ _ _ q i.popping, i.fits);
        locks = i.locks;
        pushing = ground (arith, i.pushing, i.next);
        popping = ground (
          arith,
          PopAt-push r.push_slide r.pop_slide r.que_max h (length xs) q (ground (arith, i.next))
              i.below (subst (λ x. x + 1 ≢ r.pop_slide) i.pushing.0 i.pushing.2)
              (subst (λ n. PopAt r.pop_slide r.que_max h n q) (ground arith) i.popping),
        );
      })

  -- The slot that the push has taken is in the ring and empty: it waits for no pop.
  room : (v : A) (slide : ℕ) → Inv r (push_store v slide) q h xs → length xs < r.que_max
  room v slide i = omega (arith, PopAt-bound _ _ _ _ q i.popping)

  pub push_store-empty :
      (v : A) (slide : ℕ) → Inv r (push_store v slide) q h xs → r.que slide ≡ none
  push_store-empty v slide i = ground (
    arith,
    i.pushing,
    i.slots (length xs) (room v slide i),
    get_elem?-none xs (length xs) (omega arith),
  )

  pub push_store-Inv :
      (v : A) (slide : ℕ)
      → Inv r (push_store v slide) q h xs
      → r.que slide ≡ none
      → Inv
          (step true r (push_store v slide)).0
          (step true r (push_store v slide)).1
          q
          h
          (xs ++ (v ∷ []))
  unfolding step
  push_store-Inv v slide i e = rw e (record {
    fits = i.fits;
    below = i.below;
    slots = λ k lt. elim (ℕ_discrete k (length xs)) [
      | yes z ↦ ground (arith, z, i.pushing, get_elem?-append_last xs v)
      | no ne ↦ ground (
        arith,
        i.pushing,
        slot_injective r.que_max h (length xs) k i.below (room v slide i) lt,
        get_elem?-append_ne xs v k ne,
        i.slots k lt,
      )
    ];
    next = ground (arith, i.next, length-append xs (v ∷ []));
    locks = i.locks;
    pushing = tt;
    popping =
        subst (λ n. PopAt r.pop_slide r.que_max h n q) (ground (arith, length-append xs (v ∷ [])))
          i.popping;
  })
