-- ===== src/Optimisticque/Order/Tests.antt =====
-- Two threads that push, one past the other.
use fossilizid.Base.{ℕ, ◌≡◌, ◌≢◌, refl, true, [], ◌∷◌, arith, update}
use fossilizid.Optimisticque.{push_node, push_cas, push_link, pushed, step, get_list}
use fossilizid.Optimisticque.Order.{System, turn, published, Reach, start, begins, later}
use fossilizid.Optimisticque.Order.Quiet.{Reach-Represents}
use fossilizid.Optimisticque.Solo.{Represents}

-- Thread 0 has stored its backward link when thread 1 makes a whole push up to its exchange.
abbrev empty_system : System ℕ
empty_system = record { mem = get_list 0; pc = λ _. pushed }

abbrev starts : ℕ → ℕ → System ℕ → System ℕ
starts i v s = record s { pc = update s.pc i (push_node v) }

abbrev waiting : System ℕ
waiting = turn 0 true (turn 0 true (turn 0 true (starts 0 5 empty_system)))

abbrev overtaken : System ℕ
overtaken = turn 1 true (turn 1 true (turn 1 true (turn 1 true (starts 1 8 waiting))))

waiting-Reach : Reach 0 waiting []
unfolding step published get_list
waiting-Reach = later 0 true (later 0 true (later 0 true (begins 0 5 start refl)))

overtaken-Reach : Reach 0 overtaken (8 ∷ [])
unfolding step published get_list
overtaken-Reach =
    later 1 true (later 1 true (later 1 true (later 1 true (begins 1 8 waiting-Reach refl))))

overtaken_prev : (overtaken.pc 1 ≡ push_link 3 1) × (overtaken.pc 0 ≡ push_cas 2 1)
unfolding step get_list
overtaken_prev = (refl, refl)

-- Thread 0 fails in its exchange, and thread 1 sets its forward link.
abbrev settled : System ℕ
settled = turn 1 true (turn 0 true overtaken)

settled-Reach : Reach 0 settled (8 ∷ [])
unfolding step published get_list
settled-Reach = later 1 true (later 0 true overtaken-Reach)

settled_quiet : (k : ℕ) (n hp : ℕ) → settled.pc k ≢ push_link n hp
unfolding step get_list
settled_quiet k n hp = ground arith

Reach-Represents_example : Represents settled.mem (8 ∷ [])
Reach-Represents_example = Reach-Represents 0 settled-Reach settled_quiet
