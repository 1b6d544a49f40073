-- ===== src/Optimisticque/Order.antt =====
-- Any number of threads that push, interleaved access by access.
pub mod Inv
mod Moves
mod Links
pub mod Steps
pub mod Quiet
mod Tests
use fossilizid.Base.{
  ℕ, suc, ◌≡◌, Bool, ◌&&◌, true, false, List, [], ◌∷◌, ◌++◌, ◌==◌, if◌then◌else◌, Ptr, update,
}
use fossilizid.Optimisticque.{
  Queue, Pc, push_node, push_load, push_prev, push_cas, push_link, push_count, pushed, step,
  get_list,
}

-- The queue and the program counters of the threads.
pub record System (A : Type 0) : Type 0 where
  pub mem : Queue A
  pub pc : ℕ → Pc A

module _ {A : Type 0} where
  -- Thread `i` makes an access.
  abbrev pub turn : ℕ → Bool → System A → System A
  turn i w s = record {
    mem = (step w s.mem (s.pc i)).0;
    pc = update s.pc i (step w s.mem (s.pc i)).1;
  }

  -- The value that an access publishes: that of an exchange of `detail` which succeeds.
  pub published : Bool → Queue A → Pc A → List A
  published w m (push_cas n hp) = if w && m.detail == hp then m.value n ∷ [] else []
  published w m p = []

  -- The states that threads which only push reach from an empty queue, with the values published.
  pub data Reach (junk : A) : System A → List A → Type 0 where
    start : Reach junk (record { mem = get_list junk; pc = λ _. pushed }) []
    begins :
        {s : System A} {log : List A} (i : ℕ) (v : A)
        → Reach junk s log
        → s.pc i ≡ pushed
        → Reach junk (record s { pc = update s.pc i (push_node v) }) log
    later :
        {s : System A} {log : List A} (i : ℕ) (w : Bool)
        → Reach junk s log
        → Reach junk (turn i w s) (log ++ published w s.mem (s.pc i))
