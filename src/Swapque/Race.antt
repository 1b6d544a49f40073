-- ===== src/Swapque/Race.antt =====
-- Two pops that both find the list to pop from empty: the second to get the exclusive lock changes
-- the lists without a second look.
use fossilizid.Base.{◌≡◌, refl, some, List, [], ◌∷◌, arith}
use fossilizid.Swapque.{Que, push, pop, pop_loop, swapped}
use fossilizid.Swapque.Fifo.{Lists, Represents, Lists-swapped, push-Lists, pop_loop-Lists, pop_swap}

module _ {A : Type 0} where
  -- Two pops find the list to pop from empty, while the other holds x, y and more. The first swaps
  -- the lists and returns x; then z is pushed; and the second, which goes on with its swap, returns
  -- z though y is older: the queue then holds y and the rest.
  pub late_swap :
      (q : Que A) (x y z : A) (b : List A)
      → Lists q [] (x ∷ y ∷ b)
      → (r : Que A) × (pop 2 q ≡ some (some x, r))
        × (r' : Que A) × (pop_loop 1 (swapped (push z r)) ≡ some (some z, r'))
        × Represents r' (y ∷ b)
  unfolding pop
  late_swap q x y z b i =
      let (e, w) = pop_swap 1 q x (y ∷ b) i in
      let (r, p, l) = pop_loop-Lists 0 (swapped q) x (y ∷ b) [] w in
      let mixed = push-Lists z r (y ∷ b) [] (omega (arith, l.counted, i.counted, i.bounded)) l in
      let (r', p', l') =
        pop_loop-Lists 0 (swapped (push z r)) z [] (y ∷ b)
          (Lists-swapped (push z r) (y ∷ b) (z ∷ []) mixed) in
      (r, ground (arith, e, p, i.counted), r', p', ([], y ∷ b, l', refl))
