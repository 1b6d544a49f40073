-- ===== src/Swapque/Tests.antt =====
-- Runs of the queue, and the theorems at concrete states.
use fossilizid.Base.{◌∷◌, ℕ, ◌+◌, ◌^◌, ◌<◌, ◌≡◌, refl, false, some, none, [], arith}
use fossilizid.Swapque.{swapped, Que, get_que, push, pop, pop_loop, empty}
use fossilizid.Swapque.History.{run, run-fifo, pushes, pops}
use fossilizid.Swapque.Race.{late_swap}
use fossilizid.Swapque.Fifo.{Lists, push-Lists, Represents, pop-empty}

abbrev fresh : Que ℕ
fresh = get_que 0

fresh-Lists : Lists fresh [] []
unfolding get_que
fresh-Lists = record {
  frond_end = record { real = omega arith; below = omega arith; ends = refl };
  back_end = record { real = omega arith; below = omega arith; ends = refl };
  ends_apart = omega arith;
  in_frond = refl;
  in_back = refl;
  counted = refl;
  bounded = omega arith;
}

fresh-Represents : Represents fresh []
fresh-Represents = ([], [], fresh-Lists, refl)

-- Two pushes and a pop, for which the lists change places.
two_pushed : (r : Que ℕ) × (pop 2 (push 8 (push 7 fresh)) ≡ some (some 7, r)) × (empty r ≡ false)
unfolding pop pop_loop push get_que empty
two_pushed = (_, refl, refl)

small : fresh.size + 1 < 2 ^ 32
unfolding get_que
small = omega arith

reports_empty : pop 1 fresh ≡ some (none, fresh)
reports_empty = pop-empty 1 fresh fresh-Represents

no_elements : 0 + 5 < 2 ^ 32
no_elements = omega arith

run-fifo_example :
    run (pushes 7 ∷ pushes 8 ∷ pops ∷ pops ∷ pops ∷ []) fresh ≡ some (some 7 ∷ some 8 ∷ none ∷ [])
run-fifo_example =
    run-fifo (pushes 7 ∷ pushes 8 ∷ pops ∷ pops ∷ pops ∷ []) fresh [] no_elements fresh-Represents

small_second : (push 7 fresh).size + 1 < 2 ^ 32
unfolding push get_que
small_second = omega arith

late_swap_example :
    (r : Que ℕ) × (pop 2 (push 8 (push 7 fresh)) ≡ some (some 7, r))
    × (r' : Que ℕ) × (pop_loop 1 (swapped (push 9 r)) ≡ some (some 9, r'))
    × Represents r' (8 ∷ [])
late_swap_example = late_swap (push 8 (push 7 fresh)) 7 8 9 [] (
    push-Lists 8 (push 7 fresh) [] (7 ∷ []) small_second
      (push-Lists 7 fresh [] [] small fresh-Lists))
