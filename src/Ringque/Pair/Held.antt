-- ===== src/Ringque/Pair/Held.antt =====
-- What holds of whatever the two threads reach.
use mathlib.Core.Path.{subst}
use fossilizid.Base.{ℕ, ◌^◌, ◌<◌, ◌≡◌, refl, sym, ap, ◌∙◌, List, [], ◌++◌, arith, append_assoc}
use fossilizid.Ringque.{Ring, Pc, create, push_enter, pushed, pop_enter, popped, pop_none}
use fossilizid.Ringque.Pair.{
  Duo, new_pair, Reach, start, pushes, pops, pops_again, push_later, pop_later, taken_by, sent_by,
}
use fossilizid.Ringque.Pair.Inv.{unstored, Inv}
use fossilizid.Ringque.Pair.Turns.{push_turn_done, pop_turn_done}

module _ {A : Type 0} where
  -- The values published are those taken, those in the ring and the one that is not in its slot.
  abbrev pub Held : Duo A → Type 0
  Held s =
      (h : ℕ) × (xs : List A) × Inv s.ring s.pusher s.popper h xs
      × (s.ins ≡ s.outs ++ (xs ++ unstored s.pusher))

  new_pair-Held : (n : ℕ) → 0 < n → n < 2 ^ 32 → Held (new_pair n)
  unfolding create
  new_pair-Held n g l = (
    0,
    [],
    record {
      fits = l;
      below = g;
      slots = λ k lt. refl;
      next = ground arith;
      locks = refl;
      pushing = tt;
      popping = (g, omega arith, ground arith, g);
    },
    refl,
  )

  -- A thread that calls again
  call_push :
      (v : A) (r : Ring A) (q : Pc A) (h : ℕ) (xs : List A)
      → Inv r pushed q h xs
      → Inv r (push_enter v) q h xs
  call_push v r q h xs i = record {
    fits = i.fits;
    below = i.below;
    slots = i.slots;
    next = i.next;
    locks = i.locks;
    pushing = tt;
    popping = i.popping;
  }

  call_pop :
      (r : Ring A) (p : Pc A) (h : ℕ) (xs : List A) → Inv r p pop_none h xs → Inv r p pop_enter h xs
  call_pop r p h xs i = record {
    fits = i.fits;
    below = i.below;
    slots = i.slots;
    next = i.next;
    locks = i.locks;
    pushing = i.pushing;
    popping = i.popping;
  }

  call_pop_again :
      (v : A) (r : Ring A) (p : Pc A) (h : ℕ) (xs : List A)
      → Inv r p (popped v) h xs
      → Inv r p pop_enter h xs
  call_pop_again v r p h xs i = record {
    fits = i.fits;
    below = i.below;
    slots = i.slots;
    next = i.next;
    locks = i.locks;
    pushing = i.pushing;
    popping = i.popping;
  }

  regroup : (a b c d : List A) → a ++ ((b ++ c) ++ d) ≡ (a ++ b) ++ (c ++ d)
  regroup a b c d = ap (λ m. a ++ m) (append_assoc b c d) ∙ sym (append_assoc a b (c ++ d))

  module _ (n : ℕ) (g : 0 < n) (l : n < 2 ^ 32) where
    -- It holds of whatever the two threads reach.
    pub Reach-Held : (s : Duo A) → Reach n s → Held s
    Reach-Held _ start = new_pair-Held n g l
    Reach-Held _ (pushes {s} v c e) =
        let (h, xs, i, o) = Reach-Held s c in
        (
          h,
          xs,
          call_push v s.ring s.popper h xs (subst (λ p. Inv s.ring p s.popper h xs) e i),
          subst (λ p. s.ins ≡ s.outs ++ (xs ++ unstored p)) e o,
        )
    Reach-Held _ (pops {s} c e) =
        let (h, xs, i, o) = Reach-Held s c in
        (h, xs, call_pop s.ring s.pusher h xs (subst (λ q. Inv s.ring s.pusher q h xs) e i), o)
    Reach-Held _ (pops_again {s} v c e) =
        let (h, xs, i, o) = Reach-Held s c in
        (
          h,
          xs,
          call_pop_again v s.ring s.pusher h xs (subst (λ q. Inv s.ring s.pusher q h xs) e i),
          o,
        )
    Reach-Held _ (push_later {s} w c b) =
        let (h, xs, i, o) = Reach-Held s c in
        let (j, ys, k, e) = push_turn_done w s.ring s.pusher s.popper h xs i b in
        (
          j,
          ys,
          k,
          ap (λ m. m ++ sent_by s.ring s.pusher) o
              ∙ append_assoc s.outs (xs ++ unstored s.pusher) (sent_by s.ring s.pusher)
              ∙ ap (λ m. s.outs ++ m) e,
        )
    Reach-Held _ (pop_later {s} w c b) =
        let (h, xs, i, o) = Reach-Held s c in
        let (j, ys, k, e) = pop_turn_done w s.ring s.pusher s.popper h xs i in
        (
          j,
          ys,
          k,
          o
              ∙ ap (λ m. s.outs ++ (m ++ unstored s.pusher)) e
              ∙ regroup s.outs (taken_by s.ring s.popper) ys (unstored s.pusher),
        )
