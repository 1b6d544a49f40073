-- ===== src/Swapque/Threads.antt =====
-- container/swapque.h: threads that push and pop, one access to shared memory at a time. The
-- exclusive lock is had only while no thread stands where it holds the shared one, and a try of it
-- may fail at any time; the test and the change of the lists under it are one access. The queue
-- stays the same: `clear` is not called.
pub mod Inv
mod Moves
mod Publish
mod Links
mod Take
pub mod Steps
pub mod Order
mod Tests
use fossilizid.Base.{
  ℕ, suc, ◌+◌, ◌-◌, ◌%◌, ◌^◌, ◌≡◌, Bool, true, false, Option, none, some, List, [], ◌∷◌, ◌++◌, ◌==◌,
  if◌then◌else◌, Ptr, null, update,
}
use fossilizid.Swapque.{Que, get_que, swapped}

-- Where a thread stands: `n` is `_node`, `old` is `_old_end`, `hp0` and `hp1` are the hazards of
-- `_hp_node`.
pub data Pc (A : Type 0) : Type 0 where
  idle : Pc A
  push_node : A → Pc A
  push_lock : Ptr → Pc A
  push_end : Ptr → Pc A
  push_link : Ptr → Ptr → Pc A
  push_count : Pc A
  push_unlock : Pc A
  pushed : Pc A
  pop_size : Pc A
  pop_lock : Pc A
  pop_begin : Pc A
  pop_test : Ptr → Pc A
  pop_again : Pc A
  pop_unlock : Pc A
  pop_swap : Pc A
  pop_next : Ptr → Pc A
  pop_cas : Ptr → Ptr → Pc A
  pop_read : Ptr → Ptr → Pc A
  pop_retire : Ptr → A → Pc A
  pop_count : A → Pc A
  pop_leave : Option A → Pc A
  popped : Option A → Pc A
  null_access : Pc A

-- What changes the lists: a node behind the last one, the first value taken, the lists exchanged.
pub data Event (A : Type 0) : Type 0 where
  publishes : A → Event A
  removes : A → Event A
  exchanges : Event A

module _ {A : Type 0} where
  -- `get_node`
  abbrev pub with_node : Que A → A → Que A
  with_node m v = record m {
    next = update m.next m.brk null;
    value = update m.value m.brk v;
    brk = suc m.brk;
  }

  -- One access. At `pop_swap` the exclusive lock is not had.
  pub step : Que A → Pc A → Que A × Pc A
  step m idle = (m, idle)
  step m (push_node v) = (with_node m v, push_lock m.brk)
  step m (push_lock n) = (m, push_end n)
  step m (push_end n) = (record m { back = record (m.back) { end = n } }, push_link n m.back.end)
  step m (push_link n old) = (record m { next = update m.next old n }, push_count)
  step m push_count = (record m { size = (m.size + 1) % 2 ^ 32 }, push_unlock)
  step m push_unlock = (m, pushed)
  step m pushed = (m, idle)
  step m pop_size = (m, if m.size == 0 then popped none else pop_lock)
  step m pop_lock = (m, pop_begin)
  step m pop_begin = (m, pop_test m.frond.begin)
  step m (pop_test hp0) = (m, if hp0 == m.frond.end then pop_again else pop_next hp0)
  step m pop_again = (m, if m.size == 0 then pop_leave none else pop_unlock)
  step m pop_unlock = (m, pop_swap)
  step m pop_swap = (m, pop_lock)
  step m (pop_next hp0) = (m, if hp0 == null then null_access else pop_cas hp0 (m.next hp0))
  step m (pop_cas hp0 hp1) =
      if m.frond.begin == hp0
      then (record m { frond = record (m.frond) { begin = hp1 } }, pop_read hp0 hp1)
      else (m, pop_test m.frond.begin)
  step m (pop_read hp0 hp1) = (m, if hp1 == null then null_access else pop_retire hp0 (m.value hp1))
  step m (pop_retire hp0 v) = (record m { retired = hp0 ∷ m.retired }, pop_count v)
  step m (pop_count v) = (record m { size = (m.size + (2 ^ 32 - 1)) % 2 ^ 32 }, pop_leave (some v))
  step m (pop_leave o) = (m, popped o)
  step m (popped o) = (m, idle)
  step m null_access = (m, null_access)

  -- Where a thread holds the shared lock.
  pub holds : Pc A → Bool
  holds idle = false
  holds (push_node v) = false
  holds (push_lock n) = false
  holds pushed = false
  holds pop_size = false
  holds pop_lock = false
  holds pop_swap = false
  holds (popped o) = false
  holds p = true

  -- What an access changes of the lists.
  pub happens : Que A → Pc A → List (Event A)
  happens m (push_end n) = publishes (m.value n) ∷ []
  happens m (pop_cas hp0 hp1) = if m.frond.begin == hp0 then removes (m.value hp1) ∷ [] else []
  happens m p = []

-- The queue and the threads.
pub record System (A : Type 0) : Type 0 where
  pub mem : Que A
  pub pc : ℕ → Pc A

module _ {A : Type 0} where
  -- Thread `i` makes an access.
  abbrev pub turn : ℕ → System A → System A
  turn i s = record { mem = (step s.mem (s.pc i)).0; pc = update s.pc i (step s.mem (s.pc i)).1 }

  -- The states that threads reach from an empty queue, with what has happened, the newest first.
  pub data Reach (junk : A) : System A → List (Event A) → Type 0 where
    start : Reach junk (record { mem = get_que junk; pc = λ _. idle }) []
    pushes :
        {s : System A} {es : List (Event A)} (i : ℕ) (v : A)
        → Reach junk s es
        → s.pc i ≡ idle
        → Reach junk (record s { pc = update s.pc i (push_node v) }) es
    pops :
        {s : System A} {es : List (Event A)} (i : ℕ)
        → Reach junk s es
        → s.pc i ≡ idle
        → Reach junk (record s { pc = update s.pc i pop_size }) es
    later :
        {s : System A} {es : List (Event A)} (i : ℕ)
        → Reach junk s es
        → Reach junk (turn i s) (happens s.mem (s.pc i) ++ es)
    swaps :
        {s : System A} {es : List (Event A)} (i : ℕ)
        → Reach junk s es
        → s.pc i ≡ pop_swap
        → ((k : ℕ) → holds (s.pc k) ≡ false)
        → Reach junk (record { mem = swapped s.mem; pc = update s.pc i pop_lock }) (exchanges ∷ es)

  -- Two queues, one to take from and one to add to, that change places.
  pub data Queues : List (Event A) → List A → List A → Type 0 where
    empty : Queues [] [] []
    publish :
        {es : List (Event A)} {f b : List A} (v : A)
        → Queues es f b
        → Queues (publishes v ∷ es) f (b ++ (v ∷ []))
    remove :
        {es : List (Event A)} {f b : List A} (v : A)
        → Queues es (v ∷ f) b
        → Queues (removes v ∷ es) f b
    exchange : {es : List (Event A)} {f b : List A} → Queues es f b → Queues (exchanges ∷ es) b f
