-- ===== src/Ringque/Pair/Tests.antt =====
-- Runs of the two threads, and the theorems at states that they reach.
use fossilizid.Base.{ℕ, ◌<◌, ◌≡◌, ◌⊎◌, ◌↔◌, refl, true, List, ◌++◌, get_elem?, arith}
use fossilizid.Ringque.{
  create, step, push_enter, push_store, pop_enter, pop_wait, pop_count, pop_none,
}
use fossilizid.Ringque.Slots.{slot}
use fossilizid.Ringque.Pair.{
  Duo, new_pair, push_turn, pop_turn, Reach, start, pushes, pops, push_later, pop_later,
}
use fossilizid.Ringque.Pair.Inv.{unstored}
use fossilizid.Ringque.Pair.Order.{Reach-order, Reach-empty, Reach-gets}

-- A pop on the new ring of two slots has seen `_pop_slide`.
abbrev looking : Duo ℕ
looking = pop_turn true (record (new_pair 2) { popper = pop_enter })

looking-Reach : Reach 2 looking
unfolding create
looking-Reach = pop_later true (pops start refl) (omega arith)

-- The other thread publishes 5 meanwhile.
abbrev publishing : Duo ℕ
publishing =
    push_turn true (push_turn true (push_turn true (record looking { pusher = push_enter 5 })))

publishing-Reach : Reach 2 publishing
unfolding create step
publishing-Reach =
    push_later true
      (push_later true (push_later true (pushes 5 looking-Reach refl) (omega arith)) (omega arith))
      (omega arith)

-- The pop takes the slot, which is empty so far.
abbrev waiting : Duo ℕ
waiting = pop_turn true (pop_turn true publishing)

waiting-Reach : Reach 2 waiting
unfolding create step
waiting-Reach = pop_later true (pop_later true publishing-Reach (omega arith)) (omega arith)

waits : (waiting.popper ≡ pop_wait 0) × (waiting.pusher ≡ push_store 5 0)
unfolding create step
waits = (refl, refl)

Reach-order_example :
    (h : ℕ) × (xs : List ℕ) × (h < waiting.ring.que_max)
    × ((k : ℕ)
        → k < waiting.ring.que_max
        → waiting.ring.que (slot waiting.ring.que_max h k) ≡ get_elem? xs k)
    × (waiting.ins ≡ waiting.outs ++ (xs ++ unstored waiting.pusher))
Reach-order_example = Reach-order 2 (omega arith) (omega arith) waiting waiting-Reach

Reach-empty_example :
    ((pop_turn true publishing).popper ≡ pop_none) ↔ (publishing.ins ≡ publishing.outs)
unfolding create step
Reach-empty_example =
    Reach-empty 2 (omega arith) (omega arith) true publishing 2 0 publishing-Reach refl

Reach-gets_example :
    (v : ℕ) × (((pop_turn true waiting).popper ≡ pop_count v)
      ⊎ ((pop_turn true (push_turn true waiting)).popper ≡ pop_count v))
unfolding create step
Reach-gets_example = Reach-gets 2 (omega arith) (omega arith) true waiting 0 waiting-Reach refl
