-- ===== src/Ringque/Pair/Moves.antt =====
-- What the accesses of the two threads do to the ring.
use mathlib.Core.Path.{subst}
use fossilizid.Base.{
  ℕ, suc, ◌+◌, ◌%◌, ◌^◌, ◌≤◌, ◌<◌, ◌≡◌, ◌≢◌, ◌⊎◌, inl, inr, refl, sym, ap, ◌∙◌, Bool, true, none,
  some, List, [], ◌∷◌, length, get_elem?, get_elem?-none, ◌==◌, arith, Bool-cases, update,
}
use fossilizid.Ringque.{
  Ring, Pc, step, push_enter, push_test, push_resize, push_relock, push_cas, push_store, push_count,
  pushed, pop_enter, pop_test, pop_cas, pop_wait, pop_count, popped, pop_none,
}
use fossilizid.Ringque.Pair.{taken_by}
use fossilizid.Ringque.Pair.Inv.{unstored, PushAt, Inv}
use native.Mathlib.Decide.{dec_lt}
use fossilizid.Ringque.Slots.{slot, head, slot-suc, slot_last, slot_injective}

-- Facts on places that go round at `max`.
slot_start : (max h n : ℕ) → h < max → n ≤ max → slot max h n ≡ h → (n ≡ 0) ⊎ (n ≡ max)
slot_start max h n b l e = ground arith

module _ {A : Type 0} where
  -- What the thread that pushes knows stays true, when the other one moves `_pop_slide` to where it
  -- does not bar the push, and the oldest element and the number of them so that the next slot
  -- stays.
  PushAt-other :
      (push pop pop' max h h' m m' : ℕ) (p : Pc A)
      → (push + 1 ≢ pop → push + 1 ≢ pop')
      → slot max h m ≡ slot max h' m'
      → PushAt push pop max h m p
      → PushAt push pop' max h' m' p
  PushAt-other a b c d i j k l (push_enter v) f e z = z
  PushAt-other a b c d i j k l (push_test v slide) f e z = z
  PushAt-other a b c d i j k l (push_resize v slide) f e z = z
  PushAt-other a b c d i j k l (push_relock v slide) f e z = z
  PushAt-other a b c d i j k l (push_cas v slide newslide) f e z =
      (z.0, z.1, subst (λ x. x + 1 ≢ c) (sym z.0) (f (subst (λ x. x + 1 ≢ b) z.0 z.2)))
  PushAt-other a b c d i j k l (push_store v slide) f e z = z ∙ e
  PushAt-other a b c d i j k l push_count f e z = z
  PushAt-other a b c d i j k l pushed f e z = z
  PushAt-other a b c d i j k l pop_enter f e z = elim z [ ]
  PushAt-other a b c d i j k l (pop_test s t) f e z = elim z [ ]
  PushAt-other a b c d i j k l (pop_cas s t) f e z = elim z [ ]
  PushAt-other a b c d i j k l (pop_wait t) f e z = elim z [ ]
  PushAt-other a b c d i j k l (pop_count v) f e z = elim z [ ]
  PushAt-other a b c d i j k l (popped v) f e z = elim z [ ]
  PushAt-other a b c d i j k l pop_none f e z = elim z [ ]

module _ {A : Type 0} (w : Bool) (r : Ring A) (p : Pc A) (h : ℕ) (xs : List A) where
  pub pop_enter-Inv :
      Inv r p pop_enter h xs → Inv (step w r pop_enter).0 p (step w r pop_enter).1 h xs
  unfolding step
  pop_enter-Inv i = record {
    fits = i.fits;
    below = i.below;
    slots = i.slots;
    next = i.next;
    locks = omega (arith, i.locks);
    pushing = i.pushing;
    popping = ground (arith, i.popping);
  }

  pub pop_test-Inv :
      (slide slidetail : ℕ)
      → Inv r p (pop_test slide slidetail) h xs
      → Inv (step w r (pop_test slide slidetail)).0 p (step w r (pop_test slide slidetail)).1 h xs
  unfolding step
  pop_test-Inv slide slidetail i = elim (Bool-cases (slidetail == r.push_slide)) [
    | inl e ↦ rw e (record {
      fits = i.fits;
      below = i.below;
      slots = i.slots;
      next = i.next;
      locks = omega (arith, i.locks);
      pushing = i.pushing;
      popping = ground (arith, i.popping);
    })
    | inr e ↦ rw e (record {
      fits = i.fits;
      below = i.below;
      slots = i.slots;
      next = i.next;
      locks = i.locks;
      pushing = i.pushing;
      popping = ground (arith, i.popping, i.next, e);
    })
  ]

  pub pop_cas-Inv :
      (slide slidetail : ℕ)
      → Inv r p (pop_cas slide slidetail) h xs
      → Inv (step w r (pop_cas slide slidetail)).0 p (step w r (pop_cas slide slidetail)).1 h xs
  unfolding step
  pop_cas-Inv slide slidetail i =
      let same : (r.pop_slide == slide) ≡ true = ground (arith, i.popping) in
      let wraps : (slidetail + 1) % 2 ^ 32 ≡ h + 1 = ground (arith, i.popping, i.below, i.fits) in
      rw same (
        rw wraps (record {
          fits = i.fits;
          below = i.below;
          slots = i.slots;
          next = i.next;
          locks = i.locks;
          pushing =
              PushAt-other _ _ _ _ _ _ _ _ p (λ _. ground (arith, i.next, i.popping)) refl
                i.pushing;
          popping = ground (arith, i.popping);
        }))

  pub pop_count-Inv :
      (v : A)
      → Inv r p (pop_count v) h xs
      → Inv (step w r (pop_count v)).0 p (step w r (pop_count v)).1 h xs
  unfolding step
  pop_count-Inv v i = record {
    fits = i.fits;
    below = i.below;
    slots = i.slots;
    next = i.next;
    locks = omega (arith, i.locks);
    pushing = i.pushing;
    popping = i.popping;
  }

  -- While the push has not stored the oldest element, the other thread finds an empty slot.
  pub pop_wait-empty : (t : ℕ) → Inv r p (pop_wait t) h xs → xs ≡ [] → r.que t ≡ none
  pop_wait-empty t i e =
      ground
        (arith, i.popping, i.below, i.slots 0 (omega (arith, i.below)), ap (λ l. get_elem? l 0) e)

-- The first slot is the next one, once the oldest element is taken.
after_first : (max h m : ℕ) → h < max → m < max → slot max h (suc m) ≡ slot max (head max (h + 1)) m
after_first max h m b l = ground arith

module _ {A : Type 0} (w : Bool) (r : Ring A) (p : Pc A) (h : ℕ) (x : A) (xs : List A) (t : ℕ)
    (i : Inv r p (pop_wait t) h (x ∷ xs)) where
  oldest : r.que h ≡ some x
  oldest = ground (arith, i.below, i.slots 0 (omega (arith, i.below)))

  pop_wait_slots :
      (k : ℕ)
      → k < r.que_max
      → update r.que h none (slot r.que_max (head r.que_max (h + 1)) k) ≡ get_elem? xs k
  pop_wait_slots k lt = elim (dec_lt (suc k) r.que_max) [
    | yes l ↦ rw (slot-suc r.que_max h k i.below l) (
        ground (
          arith,
          i.below,
          i.slots (suc k) l,
          slot_injective r.que_max h 0 (suc k) i.below (omega (arith, l)) l,
        ))
    | no ge ↦
        rw (slot_last r.que_max h k i.below (omega (arith, lt, ge)))
          (ground (arith, get_elem?-none xs k (omega (arith, i.popping.3, lt, ge))))
  ]

  waits_at : t ≡ h
  waits_at = i.popping.0

  fewer : length xs + length (unstored p) < r.que_max
  fewer = omega (arith, i.popping.3)

  pub taken_out : step w r (pop_wait t) ≡ (record r { que = update r.que h none }, pop_count x)
  unfolding step
  taken_out = ground (arith, oldest, waits_at)

  -- It takes the oldest element from its slot.
  pub pop_wait-Inv :
      Inv (step w r (pop_wait t)).0 p (step w r (pop_wait t)).1 (head r.que_max (h + 1)) xs
  pop_wait-Inv =
      subst (λ o. Inv o.0 p o.1 (head r.que_max (h + 1)) xs) (sym taken_out)
        (record {
          fits = i.fits;
          below = ground (arith, i.below);
          slots = pop_wait_slots;
          next = ground (arith, i.next, after_first r.que_max h _ i.below fewer);
          locks = i.locks;
          pushing =
              PushAt-other _ _ _ _ _ _ _ _ p (λ z. z)
                (after_first r.que_max h (length xs) i.below (omega (arith, fewer))) i.pushing;
          popping = ground (arith, i.popping, i.below);
        })

  pub pop_wait-taken_by : taken_by r (pop_wait t) ≡ x ∷ []
  unfolding taken_by
  pop_wait-taken_by = ground (arith, oldest, waits_at)
