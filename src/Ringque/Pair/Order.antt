-- ===== src/Ringque/Pair/Order.antt =====
-- What the two threads do together: the values come out in the order in which they went in.
use mathlib.Core.Path.{subst}
use fossilizid.Base.{
  ℕ, ◌^◌, ◌<◌, ◌≡◌, ◌⊎◌, ◌↔◌, length-append, inl, inr, ap, ◌∙◌, Bool, true, List, [], ◌∷◌, ◌++◌,
  length, arith, append-nil, get_elem?,
}
use fossilizid.Ringque.{
  Ring, Pc, step, push_enter, push_test, push_resize, push_relock, push_cas, push_store, push_count,
  pushed, pop_enter, pop_test, pop_cas, pop_wait, pop_count, popped, pop_none,
}
use fossilizid.Ringque.Slots.{slot}
use fossilizid.Ringque.Pair.{Duo, push_turn, pop_turn, Reach}
use fossilizid.Ringque.Pair.Inv.{unstored, Inv}
use fossilizid.Ringque.Pair.Moves
use fossilizid.Ringque.Pair.Pushes
use fossilizid.Ringque.Pair.Held.{Reach-Held}

module _ {A : Type 0} where
  no_more : (xs ys zs : List A) → xs ≡ ys ++ zs → length zs ≡ 0 → xs ≡ ys
  no_more xs ys [] e z = e ∙ append-nil ys
  no_more xs ys (v ∷ zs) e z = absurd (omega (arith, z))

  -- A pop that compares its slot with `_push_slide` sees whether there is an element.
  test_exact :
      (w : Bool) (r : Ring A) (p : Pc A) (h slide slidetail : ℕ) (xs : List A)
      → Inv r p (pop_test slide slidetail) h xs
      → ((step w r (pop_test slide slidetail)).1 ≡ pop_none) ↔ (length (xs ++ unstored p) ≡ 0)
  unfolding step
  test_exact w r p h slide slidetail xs i = (
    λ e. ground (arith, i.popping, i.next, i.below, length-append xs (unstored p)),
    λ e. ground (arith, i.popping, i.next, i.below, length-append xs (unstored p)),
  )

  wait_gets :
      (w : Bool) (r : Ring A) (p : Pc A) (h t : ℕ) (xs : List A)
      → Inv r p (pop_wait t) h xs
      → (v : A) × (((step w r (pop_wait t)).1 ≡ pop_count v)
          ⊎ ((step w (step true r p).0 (pop_wait t)).1 ≡ pop_count v))
  wait_gets w r p h t (x ∷ xs) i = (x, inl (ap (λ o. o.1) (Moves.taken_out w r p h x xs t i)))
  wait_gets w r (push_store v slide) h t [] i = (
    v,
    inr (
        ap (λ o. o.1)
          (Moves.taken_out w (step true r (push_store v slide)).0
            (step true r (push_store v slide)).1 h v [] t
            (Pushes.push_store-Inv true r (pop_wait t) h [] v slide i
              (Pushes.push_store-empty true r (pop_wait t) h [] v slide i)))),
  )
  wait_gets w r (push_enter v) h t [] i = absurd (omega (arith, i.popping.2))
  wait_gets w r (push_test v a) h t [] i = absurd (omega (arith, i.popping.2))
  wait_gets w r (push_resize v a) h t [] i = absurd (omega (arith, i.popping.2))
  wait_gets w r (push_relock v a) h t [] i = absurd (omega (arith, i.popping.2))
  wait_gets w r (push_cas v a b) h t [] i = absurd (omega (arith, i.popping.2))
  wait_gets w r push_count h t [] i = absurd (omega (arith, i.popping.2))
  wait_gets w r pushed h t [] i = absurd (omega (arith, i.popping.2))
  wait_gets w r pop_enter h t [] i = absurd (omega (arith, i.popping.2))
  wait_gets w r (pop_test a b) h t [] i = absurd (omega (arith, i.popping.2))
  wait_gets w r (pop_cas a b) h t [] i = absurd (omega (arith, i.popping.2))
  wait_gets w r (pop_wait a) h t [] i = absurd (omega (arith, i.popping.2))
  wait_gets w r (pop_count v) h t [] i = absurd (omega (arith, i.popping.2))
  wait_gets w r (popped v) h t [] i = absurd (omega (arith, i.popping.2))
  wait_gets w r pop_none h t [] i = absurd (omega (arith, i.popping.2))

  module _ (n : ℕ) (g : 0 < n) (l : n < 2 ^ 32) where
    -- What the two threads reach from a new ring of at least one slot, with fewer than 2^31 slots
    -- at each access: the values published are, in this order, those taken, those that stand in the
    -- slots from the oldest one on, and the one whose push has not stored it yet; every other slot
    -- is empty.
    pub Reach-order :
        (s : Duo A)
        → Reach n s
        → (h : ℕ) × (xs : List A) × (h < s.ring.que_max)
          × ((k : ℕ) → k < s.ring.que_max → s.ring.que (slot s.ring.que_max h k) ≡ get_elem? xs k)
          × (s.ins ≡ s.outs ++ (xs ++ unstored s.pusher))
    Reach-order s c = let (h, xs, i, o) = Reach-Held n g l s c in (h, xs, i.below, i.slots, o)

    -- In a state that the two threads reach from a new ring of at least one slot, with fewer than
    -- 2^31 slots at each access, a pop that compares its slot with `_push_slide` returns false from
    -- there if and only if every value published has been taken.
    pub Reach-empty :
        (w : Bool) (s : Duo A) (slide slidetail : ℕ)
        → Reach n s
        → s.popper ≡ pop_test slide slidetail
        → ((pop_turn w s).popper ≡ pop_none) ↔ (s.ins ≡ s.outs)
    Reach-empty w s slide slidetail c e =
        let (h, xs, i, o) = Reach-Held n g l s c in
        let (f, b) =
          test_exact w s.ring s.pusher h slide slidetail xs
            (subst (λ q. Inv s.ring s.pusher q h xs) e i) in
        rw e (
          λ z. no_more s.ins s.outs (xs ++ unstored s.pusher) o (f z),
          λ z. b (
              omega
                (arith, ap length o, ap length z, length-append s.outs (xs ++ unstored s.pusher))),
        )

    -- In a state that the two threads reach from a new ring of at least one slot, with fewer than
    -- 2^31 slots at each access, a pop that has taken its slot gets a value from it with its next
    -- access, or with the one after the next access of the thread that pushes, if the weak exchange
    -- does not fail there.
    pub Reach-gets :
        (w : Bool) (s : Duo A) (t : ℕ)
        → Reach n s
        → s.popper ≡ pop_wait t
        → (v : A) × (((pop_turn w s).popper ≡ pop_count v)
            ⊎ ((pop_turn w (push_turn true s)).popper ≡ pop_count v))
    Reach-gets w s t c e =
        let (h, xs, i, o) = Reach-Held n g l s c in
        rw e (wait_gets w s.ring s.pusher h t xs (subst (λ q. Inv s.ring s.pusher q h xs) e i))
