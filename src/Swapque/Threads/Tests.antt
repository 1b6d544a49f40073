-- ===== src/Swapque/Threads/Tests.antt =====
-- A thread that pushes twice, and a thread that exchanges the lists and pops meanwhile.
use fossilizid.Base.{ℕ, ◌≡◌, ◌≢◌, refl, false, List, [], ◌∷◌, arith, update}
use fossilizid.Swapque.{get_que, swapped}
use fossilizid.Swapque.Threads.{
  idle, push_node, push_link, pop_size, pop_lock, pop_read, null_access, step, holds, happens,
  Event, publishes, removes, exchanges, System, turn, Reach, start, pushes, pops, later, swaps,
  Queues,
}
use fossilizid.Swapque.Threads.Order.{Micro, Reach-front, Reach-lists}

abbrev empty_system : System ℕ
empty_system = record { mem = get_que 0; pc = λ _. idle }

abbrev to_push : ℕ → ℕ → System ℕ → System ℕ
to_push i v s = record s { pc = update s.pc i (push_node v) }

abbrev to_pop : ℕ → System ℕ → System ℕ
to_pop i s = record s { pc = update s.pc i pop_size }

abbrev two : ℕ → System ℕ → System ℕ
two i s = turn i (turn i s)

abbrev three : ℕ → System ℕ → System ℕ
three i s = turn i (two i s)

-- Thread 0 makes a push of 5 up to its exchange, then the rest.
abbrev one_sent : System ℕ
one_sent = three 0 (to_push 0 5 empty_system)

abbrev one_pushed : System ℕ
one_pushed = two 0 (two 0 one_sent)

-- Thread 1 finds the list to pop from empty and waits for the exclusive lock.
abbrev one_waits : System ℕ
one_waits = three 1 (three 1 (to_pop 1 one_pushed))

abbrev one_swapped : System ℕ
one_swapped = record { mem = swapped one_waits.mem; pc = update one_waits.pc 1 pop_lock }

-- It comes to its exchange of `_begin` while thread 0 pushes 8, up to the link.
abbrev one_removed : System ℕ
one_removed = three 1 (two 1 (three 0 (to_push 0 8 one_swapped)))

abbrev history : List (Event ℕ)
history = removes 5 ∷ publishes 8 ∷ exchanges ∷ publishes 5 ∷ []

one_sent-Reach : Reach 0 one_sent (publishes 5 ∷ [])
unfolding step happens get_que
one_sent-Reach = later 0 (later 0 (later 0 (pushes 0 5 start refl)))

one_pushed-Reach : Reach 0 one_pushed (publishes 5 ∷ [])
unfolding step happens get_que
one_pushed-Reach = later 0 (later 0 (later 0 (later 0 one_sent-Reach)))

one_waits-Reach : Reach 0 one_waits (publishes 5 ∷ [])
unfolding step happens get_que
one_waits-Reach =
    later 1 (later 1 (later 1 (later 1 (later 1 (later 1 (pops 1 one_pushed-Reach refl))))))

one_waits_free : (k : ℕ) → holds (one_waits.pc k) ≡ false
unfolding step holds get_que
one_waits_free k = ground arith

one_swapped-Reach : Reach 0 one_swapped (exchanges ∷ publishes 5 ∷ [])
unfolding step get_que
one_swapped-Reach = swaps 1 one_waits-Reach refl one_waits_free

one_removed-Reach : Reach 0 one_removed history
unfolding step happens get_que
one_removed-Reach = later 1 (
    later 1 (
      later 1
        (later 1 (later 1 (later 0 (later 0 (later 0 (pushes 0 8 one_swapped-Reach refl))))))))

one_removed_pc : (one_removed.pc 0 ≡ push_link 4 1) × (one_removed.pc 1 ≡ pop_read 2 3)
unfolding step get_que
one_removed_pc = (refl, refl)

Reach-front_example :
    (f : List ℕ) × (b : List ℕ) × Queues history f b
    × Micro one_removed.mem one_removed.mem.frond f
    × (one_removed.pc 1 ≢ null_access)
Reach-front_example = Reach-front 0 1 one_removed-Reach

-- Thread 0 sets its link.
abbrev settled : System ℕ
settled = turn 0 one_removed

settled-Reach : Reach 0 settled history
unfolding step happens get_que
settled-Reach = later 0 one_removed-Reach

settled_quiet : (k : ℕ) (n old : ℕ) → settled.pc k ≢ push_link n old
unfolding step get_que
settled_quiet k n old = ground arith

Reach-lists_example :
    (f : List ℕ) × (b : List ℕ) × Queues history f b
    × Micro settled.mem settled.mem.frond f
    × Micro settled.mem settled.mem.back b
Reach-lists_example = Reach-lists 0 settled-Reach settled_quiet
