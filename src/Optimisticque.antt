-- ===== src/Optimisticque.antt =====
-- container/optimisticque.h: a queue whose nodes are linked in both directions; a push publishes
-- its node before it sets the forward link. One step is one access to shared memory. The hazard
-- pointers are not modelled: a retired address is not handed out again.
pub mod Solo
pub mod Clear
pub mod Order
mod Tests
use fossilizid.Base.{
  ℕ, zero, suc, ◌+◌, ◌-◌, ◌%◌, ◌^◌, Bool, ◌&&◌, true, not, List, [], ◌∷◌, ◌==◌, if◌then◌else◌, Ptr,
  null, update,
}

-- `node`, as a store of nodes; `brk` is the next address to hand out.
pub record Nodes (A : Type 0) : Type 0 where
  pub next : Ptr → Ptr
  pub prev : Ptr → Ptr
  pub value : Ptr → A
  pub brk : ℕ

-- `list`, and the nodes that were retired.
pub record Queue (A : Type 0) : Type 0 where
  pub nodes : Nodes A
  pub open nodes use *
  pub head : Ptr
  pub detail : Ptr
  pub size : ℕ  -- uint32_t
  pub retired : List Ptr

-- Where a thread stands: `hp` is `_ptr_detail->_hazard` in push, `h` and `nx` are those of
-- `_ptr_node`, and `d` is `_ptr_detail->_hazard` of the loop that repairs the forward links.
pub data Pc (A : Type 0) : Type 0 where
  push_node : A → Pc A
  push_load : Ptr → Pc A
  push_prev : Ptr → Ptr → Pc A
  push_cas : Ptr → Ptr → Pc A
  push_link : Ptr → Ptr → Pc A
  push_count : Pc A
  pushed : Pc A
  pop_head : Pc A
  pop_test : Ptr → Pc A
  pop_next : Ptr → Pc A
  repair_load : Ptr → Pc A
  repair_head : Ptr → Ptr → Pc A
  repair_prev : Ptr → Ptr → Pc A
  repair_store : Ptr → Ptr → Ptr → Pc A
  pop_cas : Ptr → Ptr → Pc A
  pop_read : Ptr → Ptr → Pc A
  pop_retire : Ptr → A → Pc A
  pop_count : A → Pc A
  popped : A → Pc A
  pop_empty : Pc A
  null_access : Pc A

module _ {A : Type 0} where
  -- `get_node`: a new node without links
  abbrev pub get_node : Nodes A → A → Nodes A
  get_node s v = record {
    next = update s.next s.brk null;
    prev = update s.prev s.brk null;
    value = update s.value s.brk v;
    brk = suc s.brk;
  }

  -- One access. The flag is the choice of `compare_exchange_weak`.
  pub step : Bool → Queue A → Pc A → Queue A × Pc A
  step w m (push_node v) = (record m { nodes = get_node m.nodes v }, push_load m.brk)
  step w m (push_load n) = (m, push_prev n m.detail)
  step w m (push_prev n hp) =
      (record m { nodes = record (m.nodes) { prev = update m.prev n hp } }, push_cas n hp)
  step w m (push_cas n hp) =
      if w && m.detail == hp then (record m { detail = n }, push_link n hp) else (m, push_load n)
  step w m (push_link n hp) =
      (record m { nodes = record (m.nodes) { next = update m.next hp n } }, push_count)
  step w m push_count = (record m { size = (m.size + 1) % 2 ^ 32 }, pushed)
  step w m pop_head = (m, pop_test m.head)
  step w m (pop_test h) = (m, if h == m.detail then pop_empty else pop_next h)
  step w m (pop_next h) = (m, if m.next h == null then repair_load h else pop_cas h (m.next h))
  step w m (repair_load h) = (m, repair_head h m.detail)
  step w m (repair_head h d) =
      (m, if h == m.head && not (d == h) then repair_prev h d else pop_cas h null)
  step w m (repair_prev h d) =
      (m, if m.prev d == null then null_access else repair_store h d (m.prev d))
  step w m (repair_store h d p) =
      (record m { nodes = record (m.nodes) { next = update m.next p d } }, repair_head h p)
  step w m (pop_cas h nx) =
      if w && m.head == h then (record m { head = nx }, pop_read h nx) else (m, pop_head)
  step w m (pop_read h nx) = (m, if nx == null then null_access else pop_retire h (m.value nx))
  step w m (pop_retire h v) = (record m { retired = h ∷ m.retired }, pop_count v)
  step w m (pop_count v) = (record m { size = (m.size + (2 ^ 32 - 1)) % 2 ^ 32 }, popped v)
  step w m p = (m, p)

  -- A thread runs alone for a number of accesses.
  pub solo : ℕ → Queue A → Pc A → Queue A × Pc A
  solo zero m p = (m, p)
  solo (suc n) m p = let (m', p') = step true m p in solo n m' p'

  -- `get_list` on a store with nothing in it
  pub get_list : A → Queue A
  get_list junk = record {
    nodes =
        get_node (record { next = λ _. null; prev = λ _. null; value = λ _. junk; brk = 1 }) junk;
    head = 1;
    detail = 1;
    size = 0;
    retired = [];
  }
