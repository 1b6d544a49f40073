-- ===== src/Msque.antt =====
-- container/msque.h: the lock-free queue, one shared access of a thread at a time.
pub mod Chain
mod Invariant
pub mod Refine
pub mod Progress
pub mod Reuse
pub mod Clear
mod Tests
use fossilizid.Base.{
  ℕ, zero, suc, ◌+◌, ◌-◌, ◌%◌, ◌^◌, ◌≡◌, Bool, true, ◌&&◌, List, [], ◌∷◌, ◌++◌, Ptr, null, update,
  ◌==◌, if◌then◌else◌,
}

-- `_list_node` by its two fields, with the addresses handed out so far: those below `brk`. The pool
-- may hand out the address of a node that was retired and freed; `step` and what is built on it
-- assume that it hands out new addresses only. Msque.Reuse shows a pop where it does not.
pub record Heap (A : Type 0) : Type 0 where
  pub next : Ptr → Ptr
  pub value : Ptr → A
  pub brk : ℕ

-- `_list`, the nodes, and what was given to `_hazard_sys.retire`.
pub record Mem (A : Type 0) : Type 0 where
  pub heap : Heap A
  pub open heap use *
  pub begin : Ptr
  pub end : Ptr
  pub size : ℕ  -- uint32_t
  pub retired : List Ptr

-- Where a thread stands, with the locals that are live there: `node` is `_node`, `hp` is
-- `_hp->_hazard`, `hp0` and `hp1` are those of `_hp_node`.
pub data Pc (A : Type 0) : Type 0 where
  idle : Pc A
  push_node : A → Pc A
  push_end : A → Ptr → Pc A
  push_next : A → Ptr → Ptr → Pc A
  push_help : A → Ptr → Ptr → Ptr → Pc A
  push_check : A → Ptr → Ptr → Pc A
  push_link : A → Ptr → Ptr → Pc A
  push_swing : Ptr → Ptr → Pc A
  push_count : Pc A
  pushed : Pc A
  pop_begin : Pc A
  pop_next : Ptr → Pc A
  pop_check : Ptr → Ptr → Pc A
  pop_cas : Ptr → Ptr → Pc A
  pop_read : Ptr → Ptr → Pc A
  pop_retire : Ptr → A → Pc A
  pop_count : A → Pc A
  popped : A → Pc A
  pop_empty : Pc A

abbrev pub u32 : ℕ → ℕ
u32 n = n % 2 ^ 32

module _ {A : Type 0} where
  -- `get_node` where the pool hands out `p`: a node with no successor
  abbrev pub node_at : Heap A → Ptr → A → Heap A
  node_at h p v = record h { next = update h.next p null; value = update h.value p v }

  -- `get_node` where the pool hands out a new address
  abbrev pub get_node : Heap A → A → Heap A
  get_node h v = record (node_at h h.brk v) { brk = suc h.brk }

  -- `_next` of the node `p` becomes `n`.
  abbrev pub set_next : Heap A → Ptr → Ptr → Heap A
  set_next h p n = record h { next = update h.next p n }

  -- One access of `push` or `pop` to the list: a load and the store of what it gave in a hazard
  -- pointer are one, since the list does not read the hazard pointers. The flag is the choice of
  -- `compare_exchange_weak`: `false` makes it fail though the values agree.
  pub step : Bool → Mem A → Pc A → Mem A × Pc A
  step w m idle = (m, idle)
  step w m (push_node v) = (record m { heap = get_node m.heap v }, push_end v m.brk)
  step w m (push_end v n) = (m, push_next v n m.end)
  step w m (push_next v n hp) =
      (m, if m.next hp == null then push_check v n hp else push_help v n hp (m.next hp))
  step w m (push_help v n hp nx) =
      (if w && m.end == hp then record m { end = nx } else m, push_end v n)
  step w m (push_check v n hp) = (m, if m.end == hp then push_link v n hp else push_end v n)
  step w m (push_link v n hp) =
      if w && m.next hp == null
      then (record m { heap = set_next m.heap hp n }, push_swing n hp)
      else (m, push_end v n)
  step w m (push_swing n hp) = (if w && m.end == hp then record m { end = n } else m, push_count)
  step w m push_count = (record m { size = u32 (m.size + 1) }, pushed)
  step w m pushed = (m, idle)
  step w m pop_begin = (m, pop_next m.begin)
  step w m (pop_next hp0) =
      (m, if m.next hp0 == null then pop_empty else pop_check hp0 (m.next hp0))
  step w m (pop_check hp0 hp1) = (m, if m.begin == hp0 then pop_cas hp0 hp1 else pop_begin)
  step w m (pop_cas hp0 hp1) =
      if m.begin == hp0 then (record m { begin = hp1 }, pop_read hp0 hp1) else (m, pop_begin)
  step w m (pop_read hp0 hp1) = (m, pop_retire hp0 (m.value hp1))
  step w m (pop_retire hp0 v) = (record m { retired = hp0 ∷ m.retired }, pop_count v)
  step w m (pop_count v) = (record m { size = u32 (m.size + (2 ^ 32 - 1)) }, popped v)
  step w m (popped v) = (m, idle)
  step w m pop_empty = (m, idle)

  -- A thread runs alone for a number of accesses.
  pub solo : ℕ → Mem A → Pc A → Mem A × Pc A
  solo zero m p = (m, p)
  solo (suc n) m p = let (m', p') = step true m p in solo n m' p'

  -- `get_list` on a store with nothing in it: the list begins and ends at one node.
  pub get_list : A → Mem A
  get_list junk = record {
    heap = get_node (record { next = λ _. null; value = λ _. junk; brk = 1 }) junk;
    begin = 1;
    end = 1;
    size = 0;
    retired = [];
  }

  -- `empty` and `size`
  pub empty : Mem A → Bool
  empty m = m.size == 0

  pub size : Mem A → ℕ
  size m = m.size

-- Any number of threads over one list.
pub record System (A : Type 0) : Type 0 where
  pub mem : Mem A
  pub pc : ℕ → Pc A

module _ {A : Type 0} where
  abbrev pub turn : ℕ → Bool → System A → System A
  turn i w s = record {
    mem = (step w s.mem (s.pc i)).0;
    pc = update s.pc i (step w s.mem (s.pc i)).1;
  }

  abbrev pub rest : List A → List A
  rest [] = []
  rest (x ∷ xs) = xs

  -- What an access adds to the sequence of values linked, and to that of values removed.
  pub linked : Bool → Mem A → Pc A → List A
  linked w m (push_link v n hp) = if w && m.next hp == null then v ∷ [] else []
  linked w m p = []

  pub removed : Mem A → Pc A → List A
  removed m (pop_cas hp0 hp1) = if m.begin == hp0 then m.value hp1 ∷ [] else []
  removed m p = []

  -- The states that threads reach from an empty list, with the values linked and removed so far.
  pub data Reach (junk : A) : System A → List A → List A → Type 0 where
    start : Reach junk (record { mem = get_list junk; pc = λ _. idle }) [] []
    later_push :
        {s : System A} {ins outs : List A} (i : ℕ) (v : A)
        → Reach junk s ins outs
        → s.pc i ≡ idle
        → Reach junk (record s { pc = update s.pc i (push_node v) }) ins outs
    later_pop :
        {s : System A} {ins outs : List A} (i : ℕ)
        → Reach junk s ins outs
        → s.pc i ≡ idle
        → Reach junk (record s { pc = update s.pc i pop_begin }) ins outs
    later :
        {s : System A} {ins outs : List A} (i : ℕ) (w : Bool)
        → Reach junk s ins outs
        → Reach junk (turn i w s) (ins ++ linked w s.mem (s.pc i)) (outs ++ removed s.mem (s.pc i))

  -- The queue that is left after an access: a link appends, a won exchange removes.
  pub abstract_step : Bool → Mem A → Pc A → List A → List A
  abstract_step w m (push_link v n hp) q = if w && m.next hp == null then q ++ (v ∷ []) else q
  abstract_step w m (pop_cas hp0 hp1) q = if m.begin == hp0 then rest q else q
  abstract_step w m p q = q
