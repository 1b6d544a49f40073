-- ===== src/Swapque.antt =====
-- container/swapque.h: a queue of two linked lists, one to push to and one to pop from, that change
-- places when the second is empty. But for Race and Threads, each call runs by itself, so it gets
-- the lock at the first try; the hazard pointers are not modelled, and a retired address is not
-- handed out again.
pub mod Fifo
pub mod Clear
pub mod Race
pub mod Threads
pub mod History
mod Tests
use fossilizid.Base.{
  ℕ, zero, suc, ◌+◌, ◌-◌, ◌%◌, ◌^◌, Bool, Option, none, some, List, [], ◌∷◌, ◌==◌, if◌then◌else◌,
  Ptr, null, update,
}

-- `_mirco_que`
pub record MicroQue : Type 0 where
  pub begin : Ptr
  pub end : Ptr

-- `_que` with its nodes: `next` and `value` are `_next` and `data`, `brk` is the next address to
-- hand out.
pub record Que (A : Type 0) : Type 0 where
  pub next : Ptr → Ptr
  pub value : Ptr → A
  pub brk : ℕ
  pub frond : MicroQue
  pub back : MicroQue
  pub size : ℕ  -- uint32_t
  pub retired : List Ptr

module _ {A : Type 0} where
  -- `get_que` on a store with nothing in it
  pub get_que : A → Que A
  get_que junk = record {
    next = λ _. null;
    value = λ _. junk;
    brk = 3;
    frond = record { begin = 1; end = 1 };
    back = record { begin = 2; end = 2 };
    size = 0;
    retired = [];
  }

  -- `empty`
  pub empty : Que A → Bool
  empty q = q.size == 0

  pub push : A → Que A → Que A
  push v q = record q {
    next = update (update q.next q.brk null) q.back.end q.brk;
    value = update q.value q.brk v;
    brk = suc q.brk;
    back = record (q.back) { end = q.brk };
    size = (q.size + 1) % 2 ^ 32;
  }

  -- `std::swap` of the two lists
  abbrev pub swapped : Que A → Que A
  swapped q = record q { frond = q.back; back = q.frond }

  -- The node behind the first one becomes the first.
  abbrev pub popped : Que A → Option A × Que A
  popped q = (
    some (q.value (q.next q.frond.begin)),
    record q {
      frond = record (q.frond) { begin = q.next q.frond.begin };
      retired = q.frond.begin ∷ q.retired;
      size = (q.size + (2 ^ 32 - 1)) % 2 ^ 32;
    },
  )

  -- The loop of `pop`; a result of `none` is `false`, no result is out of fuel.
  pub pop_loop : ℕ → Que A → Option (Option A × Que A)
  pop_loop zero q = none
  pop_loop (suc n) q =
      let later = pop_loop n (swapped q) in
      if q.frond.begin == q.frond.end
      then (if q.size == 0 then some (none, q) else later)
      else some (popped q)

  pub pop : ℕ → Que A → Option (Option A × Que A)
  pop n q = if q.size == 0 then some (none, q) else pop_loop n q
