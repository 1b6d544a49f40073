-- ===== src/Msque/Tests.antt =====
-- Runs of the queue, and the theorems at concrete states.
use fossilizid.Base.{
  some, ℕ, zero, suc, ◌*◌, ◌+◌, ◌≡◌, refl, true, List, [], ◌∷◌, ◌++◌, arith, update,
}
use fossilizid.Msque.Chain.{Leads}
use fossilizid.Msque.{
  Mem, System, Pc, idle, push_node, push_swing, pushed, pop_begin, step, turn, solo, get_list,
  Reach, start, later_push, later, linked, removed,
}
use fossilizid.Msque.Invariant.{Inv}
use fossilizid.Msque.Refine.{Represents, Reach-fifo}
use fossilizid.Msque.Reuse.{Misses, pop_reused}
use fossilizid.Msque.Clear.{destroy}
use fossilizid.Msque.Progress.{Done, push-solo, pop_retires_end}

abbrev quiet : ℕ → Pc ℕ
quiet _ = idle

abbrev fresh : Mem ℕ
fresh = get_list 0

-- One value, with `_end` at the first node still.
abbrev lagging : Mem ℕ
lagging = record {
  heap = record { next = update (λ _. 0) 1 2; value = update (λ _. 0) 2 5; brk = 3 };
  begin = 1;
  end = 1;
  size = 1;
  retired = [];
}

lagging-Inv : Inv 2 lagging quiet (5 ∷ [])
lagging-Inv = record {
  bottom = omega arith;
  holds = omega arith;
  tail = (1, omega arith);
  locals = λ _. tt;
  old = λ _. tt;
  unique = λ i j r. absurd (r refl);
}

-- Two values
abbrev two : Mem ℕ
two = record {
  heap = record {
    next = update (update (λ _. 0) 1 2) 2 3;
    value = update (update (λ _. 0) 2 5) 3 6;
    brk = 4;
  };
  begin = 1;
  end = 3;
  size = 2;
  retired = [];
}

two-Inv : Inv 3 two quiet (5 ∷ 6 ∷ [])
two-Inv = record {
  bottom = omega arith;
  holds = omega arith;
  tail = (0, refl);
  locals = λ _. tt;
  old = λ _. tt;
  unique = λ i j r. absurd (r refl);
}

pop_reused_example : Misses true 3 1 9 [] (6 ∷ []) (solo 7 two pop_begin).0
pop_reused_example = pop_reused true 3 two quiet 5 6 9 [] two-Inv

-- A thread pushes 7 and stops before it moves `_end`: five accesses reach such a state.
stops_before_swing :
    let r = solo 5 fresh (push_node 7) in (r.1 ≡ push_swing 2 1) × (r.0.end ≡ 1) × (r.0.begin ≡ 1)
unfolding solo step get_list
stops_before_swing = (refl, refl, refl)

push-solo_example :
    (k : ℕ) × Leads lagging.next lagging.brk 2 k lagging.end
    × Done lagging (5 ∷ 8 ∷ []) 1 pushed (solo (3 * k + 7) lagging (push_node 8))
push-solo_example = push-solo 2 lagging quiet (5 ∷ []) 8 lagging-Inv

pop_retires_end_example :
    let r = (solo 7 lagging pop_begin).0 in (r.retired ≡ 1 ∷ []) × (r.end ≡ 1) × (r.begin ≡ 2)
pop_retires_end_example = pop_retires_end lagging refl (omega arith)

abbrev called : System ℕ
called = record { mem = fresh; pc = update quiet 0 (push_node 7) }

abbrev turns : ℕ → System ℕ → System ℕ
turns zero s = s
turns (suc n) s = turn 0 true (turns n s)

Reach-called : Reach 0 called [] []
Reach-called = later_push 0 7 start refl

Reach-pushed : Reach 0 (turns 5 called) (7 ∷ []) []
unfolding step get_list linked removed
Reach-pushed = later 0 true (later 0 true (later 0 true (later 0 true (later 0 true Reach-called))))

Reach-fifo_example : (q : List ℕ) × Represents (turns 5 called) q × (7 ∷ [] ≡ [] ++ q)
Reach-fifo_example = Reach-fifo Reach-pushed

destroys : destroy 2 lagging ≡ some (2 ∷ 1 ∷ [])
unfolding destroy
destroys = refl
