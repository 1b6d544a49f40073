-- ===== src/Hazard/Threads.antt =====
-- container/detail/_hazard_ptr.h: threads that acquire, release and retire, one access to shared
-- memory at a time. A recover list that a thread has made its own is scanned in one step.
pub mod Owns
mod Moves
pub mod Below
pub mod Steps
pub mod Row
mod Grow
mod Linking
pub mod Rows
pub mod Guard
pub mod Covered
pub mod Protect
pub mod Window
mod Tests
use fossilizid.Base.{
  ℕ, zero, suc, ◌+◌, ◌-◌, ◌≤◌, ◌≡◌, Bool, true, ◌&&◌, List, [], ◌∷◌, ◌++◌, Ptr, null, update, ◌==◌,
  leb, ltb, if◌then◌else◌, length, count,
}
use fossilizid.Hazard.{RecoverList, empty_list, scan_all}

-- `_hazard_system` with its nodes: `next`, `active` and `hazard` are the fields of `_list_node`,
-- `brk` is the next address to hand out, `freed` what `_fn_dealloc` was called with.
pub record Memory : Type 0 where
  pub head : Ptr
  pub next : Ptr → Ptr
  pub active : Ptr → ℕ
  pub hazard : Ptr → Ptr
  pub brk : ℕ
  pub llen : ℕ
  pub re_list_set : ℕ → RecoverList
  pub freed : List Ptr

-- Where a thread stands: `n` is `size`, `x` is `_node`, `p` the pointer to retire, `k` the recover
-- list and `hv` is `hvector`.
pub data Pc : Type 0 where
  idle : Pc
  acq_head : ℕ → Pc
  acq_try : ℕ → Ptr → Pc
  acq_next : ℕ → Ptr → Pc
  acq_alloc : ℕ → Pc
  acq_count : ℕ → Ptr → Pc
  acq_push : ℕ → Ptr → Pc
  acq_link : ℕ → Ptr → Ptr → Pc
  rel_clear : Ptr → Pc
  rel_active : Ptr → Pc
  ret_find : Ptr → ℕ → Pc
  ret_size : Ptr → ℕ → Pc
  ret_head : Ptr → ℕ → Pc
  ret_scan : Ptr → ℕ → Ptr → List Ptr → Pc
  ret_next : Ptr → ℕ → Ptr → List Ptr → Pc
  ret_free : Ptr → ℕ → List Ptr → Pc
  ret_push : Ptr → ℕ → Pc
  ret_done : ℕ → Pc

-- A thread, with the hazard pointers that `acquire` gave it.
pub record Thread : Type 0 where
  pub pc : Pc
  pub held : List Ptr

-- What a thread has and the memory that it leaves.
pub record Step : Type 0 where
  pub mem : Memory
  pub thread : Thread

abbrev pub goes : Memory → Pc → List Ptr → Step
goes m p h = record { mem = m; thread = record { pc = p; held = h } }

-- The loop of `acquire`, with `n` pointers left to find.
abbrev pub more : ℕ → Ptr → Pc
more n x = if n == 0 then idle else acq_try n x

-- `_get_node`, and the `store` of `acquire`
abbrev pub with_node : Memory → Memory
with_node m = record m {
  next = update m.next m.brk null;
  active = update m.active m.brk 0;
  hazard = update m.hazard m.brk null;
  brk = suc m.brk;
}

-- The hazard pointers without one of them
pub without : Ptr → List Ptr → List Ptr
without x [] = []
without x (y ∷ ys) = let rest = without x ys in if x == y then rest else y ∷ rest

-- The recover list `k` holds these pointers.
abbrev pub store : ℕ → List Ptr → ℕ → Memory → Memory
store k v a m = record m {
  re_list_set = update m.re_list_set k (record { re_vector = v; active = a });
}

-- `re_vector` of the recover list `k`
abbrev pub vector : ℕ → Memory → List Ptr
vector k m = (m.re_list_set k).re_vector

-- One access of a thread that holds `h`.
pub step : Memory → Pc → List Ptr → Step
step m idle h = goes m idle h
step m (acq_head n) h = goes m (more n m.head) h
step m (acq_try n x) h =
    if x == null
    then goes m (acq_alloc n) h
    else (if m.active x == 1
        then goes (record m { active = update m.active x 0 }) (more (n - 1) x) (x ∷ h)
        else goes (record m { active = update m.active x 0 }) (acq_next n x) h)
step m (acq_next n x) h = goes m (acq_try n (m.next x)) h
step m (acq_alloc n) h = goes (with_node m) (acq_count n m.brk) h
step m (acq_count n x) h = goes (record m { llen = m.llen + 1 }) (acq_push n x) h
step m (acq_push n x) h = goes (record m { head = x }) (acq_link n x m.head) h
step m (acq_link n x old) h =
    goes (record m { next = update m.next x old }) (more (n - 1) x) (x ∷ h)
step m (rel_clear x) h = goes (record m { hazard = update m.hazard x null }) (rel_active x) h
step m (rel_active x) h = goes (record m { active = update m.active x 1 }) idle (without x h)
step m (ret_find p k) h =
    if (m.re_list_set k).active == 0
    then goes (store k (vector k m) 0 m) (ret_find p (if k == 7 then 0 else suc k)) h
    else goes (store k (vector k m) 0 m) (ret_size p k) h
step m (ret_size p k) h =
    if leb 32 (length (vector k m)) && ltb m.llen (length (vector k m))
    then goes m (ret_head p k) h
    else goes m (ret_push p k) h
step m (ret_head p k) h = goes m (ret_scan p k m.head []) h
step m (ret_scan p k x hv) h =
    if x == null
    then goes m (ret_free p k hv) h
    else goes m (ret_next p k x (if m.hazard x == null then hv else hv ++ (m.hazard x ∷ []))) h
step m (ret_next p k x hv) h = goes m (ret_scan p k (m.next x) hv) h
step m (ret_free p k hv) h =
    let s = scan_all hv (vector k m) in
    goes (record (store k s.vector 0 m) { freed = m.freed ++ s.gone }) (ret_push p k) h
step m (ret_push p k) h = goes (store k (vector k m ++ (p ∷ [])) 0 m) (ret_done k) h
step m (ret_done k) h = goes (store k (vector k m) 1 m) idle h

pub record System : Type 0 where
  pub mem : Memory
  pub threads : ℕ → Thread

-- The constructor: one node, which nobody has acquired.
abbrev pub created : Memory
created = record {
  head = 1;
  next = λ _. null;
  active = λ _. 1;
  hazard = λ _. null;
  brk = 2;
  llen = 1;
  re_list_set = λ _. empty_list;
  freed = [];
}

abbrev pub begun : System
begun = record { mem = created; threads = λ _. record { pc = idle; held = [] } }

-- Thread `i` stands at `p` now.
abbrev pub calls : ℕ → Pc → System → System
calls i p s = record s {
  threads = update s.threads i (record { pc = p; held = (s.threads i).held });
}

-- Thread `i` makes an access.
abbrev pub turn : ℕ → System → System
turn i s =
    let r = step s.mem (s.threads i).pc (s.threads i).held in
    record { mem = r.mem; threads = update s.threads i r.thread }

-- A thread points a hazard pointer to `p`.
abbrev pub points : Ptr → Ptr → System → System
points x p s = record s { mem = record (s.mem) { hazard = update s.mem.hazard x p } }

-- What a thread that makes no call may do, and an access of a call.
pub data Move : System → System → Type 0 where
  acquires : {s : System} (i n : ℕ) → (s.threads i).pc ≡ idle → Move s (calls i (acq_head n) s)
  releases :
      {s : System} (i : ℕ) (x : Ptr)
      → (s.threads i).pc ≡ idle
      → 1 ≤ count x (s.threads i).held
      → Move s (calls i (rel_clear x) s)
  retires :
      {s : System} (i : ℕ) (p : Ptr) → (s.threads i).pc ≡ idle → Move s (calls i (ret_find p 0) s)
  protects :
      {s : System} (i : ℕ) (x p : Ptr)
      → (s.threads i).pc ≡ idle
      → 1 ≤ count x (s.threads i).held
      → Move s (points x p s)
  later : {s : System} (i : ℕ) → Move s (turn i s)

-- The states that threads reach.
pub data Reach : System → Type 0 where
  start : Reach begun
  goes_on : {s s' : System} → Reach s → Move s s' → Reach s'
