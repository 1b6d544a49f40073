-- ===== src/Ringque/Pair/Growth.antt =====
-- What the growth of a full ring does, when no thread has the lock.
use mathlib.Core.Path.{subst}
use fossilizid.Base.{
  ℕ, ◌+◌, ◌*◌, ◌%◌, ◌^◌, ◌≤◌, ◌<◌, ◌≡◌, inl, inr, refl, sym, Bool, List, length, get_elem?, ◌==◌,
  ◌&&◌, arith, Bool-cases,
}
use fossilizid.Ringque.{
  Ring, Pc, step, push_enter, push_test, push_resize, push_relock, push_cas, push_store, push_count,
  pushed, pop_enter, pop_test, pop_cas, pop_wait, pop_count, popped, pop_none,
}
use fossilizid.Ringque.Pair.Inv.{inside, PopAt, Inv}
use fossilizid.Ringque.Slots.{
  Represents, Represents-full, slot, head, head-lt, doubled, resize_full, doubled-Represents,
}
use fossilizid.Ringque.Pair.Pushes.{push_below}

module _ {A : Type 0} where
  -- Outside of a call, or at its start, a thread that pops knows where the oldest element is.
  PopAt-outside :
      (pop max h n : ℕ) (q : Pc A)
      → inside q ≡ 0
      → PopAt pop max h n q
      → (0 < pop) × (pop ≤ max) × (h ≡ head max pop) × (n < max)
  PopAt-outside pop max h n pop_enter e z = z
  PopAt-outside pop max h n (pop_test slide slidetail) e z = absurd (omega (arith, e))
  PopAt-outside pop max h n (pop_cas slide slidetail) e z = absurd (omega (arith, e))
  PopAt-outside pop max h n (pop_wait t) e z = absurd (omega (arith, e))
  PopAt-outside pop max h n (pop_count v) e z = absurd (omega (arith, e))
  PopAt-outside pop max h n (popped v) e z = z
  PopAt-outside pop max h n pop_none e z = z
  PopAt-outside pop max h n (push_enter v) e z = elim z [ ]
  PopAt-outside pop max h n (push_test v s) e z = elim z [ ]
  PopAt-outside pop max h n (push_resize v s) e z = elim z [ ]
  PopAt-outside pop max h n (push_relock v s) e z = elim z [ ]
  PopAt-outside pop max h n (push_cas v s t) e z = elim z [ ]
  PopAt-outside pop max h n (push_store v s) e z = elim z [ ]
  PopAt-outside pop max h n push_count e z = elim z [ ]
  PopAt-outside pop max h n pushed e z = elim z [ ]

  PopAt-at :
      (pop max h n pop' max' h' n' : ℕ) (q : Pc A)
      → inside q ≡ 0
      → PopAt pop' max' h' n' q
      → (0 < pop) × (pop ≤ max) × (h ≡ head max pop) × (n < max)
      → PopAt pop max h n q
  PopAt-at pop max h n a b c d pop_enter e k z = z
  PopAt-at pop max h n a b c d (pop_test slide slidetail) e k z = absurd (omega (arith, e))
  PopAt-at pop max h n a b c d (pop_cas slide slidetail) e k z = absurd (omega (arith, e))
  PopAt-at pop max h n a b c d (pop_wait t) e k z = absurd (omega (arith, e))
  PopAt-at pop max h n a b c d (pop_count v) e k z = absurd (omega (arith, e))
  PopAt-at pop max h n a b c d (popped v) e k z = z
  PopAt-at pop max h n a b c d pop_none e k z = z
  PopAt-at pop max h n a b c d (push_enter v) e k z = elim k [ ]
  PopAt-at pop max h n a b c d (push_test v s) e k z = elim k [ ]
  PopAt-at pop max h n a b c d (push_resize v s) e k z = elim k [ ]
  PopAt-at pop max h n a b c d (push_relock v s) e k z = elim k [ ]
  PopAt-at pop max h n a b c d (push_cas v s t) e k z = elim k [ ]
  PopAt-at pop max h n a b c d (push_store v s) e k z = elim k [ ]
  PopAt-at pop max h n a b c d push_count e k z = elim k [ ]
  PopAt-at pop max h n a b c d pushed e k z = elim k [ ]

module _ {A : Type 0} (w : Bool) (r : Ring A) (q : Pc A) (h : ℕ) (xs : List A) where
  module _ (v : A) (slide : ℕ) (i : Inv r (push_resize v slide) q h xs) (free : r.readers ≡ 0)
      (full : slide + 1 ≡ r.pop_slide) (small : r.que_max < 2 ^ 31) where
    outside :
        (0 < r.pop_slide)
        × (r.pop_slide ≤ r.que_max)
        × (h ≡ head r.que_max r.pop_slide)
        × (length xs + 0 < r.que_max)
    outside = PopAt-outside _ _ _ _ q (omega (arith, free, i.locks)) i.popping

    -- The ring with its elements counted
    abbrev counted : Ring A
    counted = record r { size = length xs }

    counted-Represents : Represents counted xs
    counted-Represents = record {
      fits = i.fits;
      pop_pos = outside.0;
      pop_le = outside.1;
      room = omega (arith, outside.3);
      next = ground (arith, i.next, outside.2);
      count = refl;
      slots =
          subst (λ j. (k : ℕ) → k < r.que_max → r.que (slot r.que_max j k) ≡ get_elem? xs k)
            outside.2 i.slots;
    }

    both : Represents (doubled counted) xs
    both =
        doubled-Represents counted xs counted-Represents
          ((Represents-full counted xs counted-Represents).0 (ground (arith, full, i.pushing)))
          small

    doubled-Inv :
        Inv (doubled r) (push_relock v slide) q (head (r.que_max * 2) (r.pop_slide + r.que_max)) xs
    doubled-Inv = record {
      fits = both.fits;
      below = head-lt _ _ both.pop_pos both.pop_le;
      slots = both.slots;
      next = ground (arith, both.next);
      locks = i.locks;
      pushing = i.pushing;
      popping =
          PopAt-at _ _ _ _ _ _ _ _ q (omega (arith, free, i.locks)) i.popping
            (both.pop_pos, both.pop_le, refl, omega (arith, both.room));
    }

  pub push_resize-Inv :
      (v : A) (slide : ℕ)
      → Inv r (push_resize v slide) q h xs
      → r.que_max < 2 ^ 31
      → (j : ℕ) × Inv (step w r (push_resize v slide)).0 (step w r (push_resize v slide)).1 q j xs
  unfolding step
  push_resize-Inv v slide i b =
      elim (Bool-cases (r.readers == 0 && (slide + 1) % 2 ^ 32 == r.pop_slide)) [
        | inl e ↦
            let free : r.readers ≡ 0 = ground (arith, e) in
            let full : slide + 1 ≡ r.pop_slide =
              ground (arith, e, i.pushing, i.fits, push_below r q h xs (push_resize v slide) i) in
            rw e (
              head (r.que_max * 2) (r.pop_slide + r.que_max),
              subst
                  (λ o.
                    Inv o (push_relock v slide) q (head (r.que_max * 2) (r.pop_slide + r.que_max))
                      xs)
                  (sym (
                    resize_full r (ground (arith, i.pushing, full))
                      (outside v slide i free full b).1 b))
                  (doubled-Inv v slide i free full b),
            )
        | inr e ↦ rw e (
          h,
          record {
            fits = i.fits;
            below = i.below;
            slots = i.slots;
            next = i.next;
            locks = i.locks;
            pushing = i.pushing;
            popping = i.popping;
          },
        )
      ]
