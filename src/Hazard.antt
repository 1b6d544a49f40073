-- ===== src/Hazard.antt =====
-- container/detail/_hazard_ptr.h: hazard pointers, and the nodes that wait until none points to
-- them.
pub mod Scan
pub mod Acquire
pub mod Retire
pub mod Threads
mod Tests
use mathlib.Core.Option
use fossilizid.Base.{
  ℕ, zero, suc, ◌+◌, ◌-◌, ◌≤◌, ◌<◌, Bool, true, false, ◌&&◌, not, Option, none, some, List, [], ◌∷◌,
  ◌++◌, Ptr, null, ◌==◌, leb, ltb, if◌then◌else◌, length, contains, replicate,
}

-- `_list_node` with its `_hazard_ptr`. `id` is the address of the pointer that `acquire` hands out.
pub record Slot : Type 0 where
  pub id : ℕ
  pub hazard : Ptr
  pub active : ℕ  -- 0 in use, 1 not in use

-- `recover_list`
pub record RecoverList : Type 0 where
  pub re_vector : List Ptr
  pub active : ℕ  -- 0 in use, 1 not in use

-- `_hazard_system`: the list from `_head` on, and what `_fn_dealloc` was called with.
pub record Hazards : Type 0 where
  pub slots : List Slot
  pub llen : ℕ
  pub re_list_set : List RecoverList
  pub freed : List Ptr

abbrev pub free_slot : ℕ → Slot
free_slot i = record { id = i; hazard = null; active = 1 }

abbrev pub empty_list : RecoverList
empty_list = record { re_vector = []; active = 1 }

-- The constructor.
pub create : Hazards
create = record {
  slots = free_slot 0 ∷ [];
  llen = 1;
  re_list_set = replicate 8 empty_list;
  freed = [];
}

-- The destructor: each recover list that is not empty is freed.
abbrev pub pending : List RecoverList → List Ptr
pending [] = []
pending (l ∷ ls) = l.re_vector ++ pending ls

pub destroy : Hazards → Hazards
destroy h = record h { re_list_set = []; freed = h.freed ++ pending h.re_list_set }

abbrev pub reverse_onto : List Slot → List Slot → List Slot
reverse_onto [] ys = ys
reverse_onto (x ∷ xs) ys = reverse_onto xs (x ∷ ys)

-- What `acquire` returns: the array `ptr`, the list and its length.
pub record Acquired : Type 0 where
  pub ptr : List ℕ
  pub list : List Slot
  pub count : ℕ

-- The loop of `acquire`: `n` pointers are left to find, `seen` are the nodes before `_node`, the
-- last one first, and `rest` those from `_node` on. At the end of the list a new node goes to its
-- head.
pub acquire_from : ℕ → List Slot → List Slot → ℕ → List ℕ → Acquired
acquire_from zero seen rest llen ptr = record {
  ptr = ptr;
  list = reverse_onto seen rest;
  count = llen;
}
acquire_from (suc n) seen [] llen ptr =
    acquire_from n [] (record (free_slot llen) { active = 0 } ∷ reverse_onto seen []) (llen + 1)
      (llen ∷ ptr)
acquire_from (suc n) seen (s ∷ rest) llen ptr =
    let taken = acquire_from n seen (record s { active = 0 } ∷ rest) llen (s.id ∷ ptr) in
    let further = acquire_from (suc n) (record s { active = 0 } ∷ seen) rest llen ptr in
    if s.active == 1 then taken else further

pub acquire : ℕ → Hazards → Acquired
acquire size h = acquire_from size [] h.slots h.llen []

-- `ptr->_hazard = p`, by the client
pub protect : ℕ → Ptr → List Slot → List Slot
protect i p [] = []
protect i p (s ∷ l) = (if s.id == i then record s { hazard = p } else s) ∷ protect i p l

pub release : ℕ → List Slot → List Slot
release i [] = []
release i (s ∷ l) = (if s.id == i then record s { hazard = null; active = 1 } else s) ∷ release i l

-- The non-null hazard pointers. The source sorts them and looks one up by `std::binary_search`.
pub hvector : List Slot → List Ptr
hvector [] = []
hvector (s ∷ l) = if s.hazard == null then hvector l else s.hazard ∷ hvector l

abbrev pub back : Ptr → List Ptr → Ptr
back x [] = x
back x (y ∷ ys) = back y ys

abbrev pub pop_back : Ptr → List Ptr → List Ptr
pop_back x [] = []
pop_back x (y ∷ ys) = x ∷ pop_back y ys

-- What the vector holds, and what was freed.
pub record Scanned : Type 0 where
  pub vector : List Ptr
  pub gone : List Ptr

-- The loop over `re_vector`: `before` stands before `iter`, `rest` from it on. A pointer to free is
-- replaced by the last one, or erased where it equals the last one. Each round is one less.
pub scan : ℕ → List Ptr → List Ptr → List Ptr → List Ptr → Scanned
scan zero hv before rest gone = record { vector = before ++ rest; gone = gone }
scan (suc n) hv before [] gone = record { vector = before; gone = gone }
scan (suc n) hv before (x ∷ rest) gone =
    let kept = scan n hv (before ++ (x ∷ [])) rest gone in
    let moved = scan n hv before (pop_back (back x rest) rest) (x ∷ gone) in
    let erased = scan n hv before rest (x ∷ gone) in
    if contains hv x then kept else (if x == back x rest then erased else moved)

-- The scan of a whole vector.
abbrev pub scan_all : List Ptr → List Ptr → Scanned
scan_all hv v = scan (length v) hv [] v []

-- What `retire` does with the recover list that it got hold of.
pub retire_into : Ptr → List Ptr → ℕ → List Ptr → Scanned
retire_into p hv llen v =
    let s = scan_all hv v in
    if leb 32 (length v) && ltb llen (length v)
    then record { vector = s.vector ++ (p ∷ []); gone = s.gone }
    else record { vector = v ++ (p ∷ []); gone = [] }

-- The first recover list that is not in use takes `p`. `none`: all are in use, and `retire` tries
-- again.
pub retire_in : Ptr → List Ptr → ℕ → List RecoverList → Option (List RecoverList × List Ptr)
retire_in p hv llen [] = none
retire_in p hv llen (l ∷ ls) =
    if l.active == 1
    then some (
      record { re_vector = (retire_into p hv llen l.re_vector).vector; active = 1 } ∷ ls,
      (retire_into p hv llen l.re_vector).gone,
    )
    else Option.map (λ r. (l ∷ r.0, r.1)) (retire_in p hv llen ls)

pub retire : Ptr → Hazards → Option Hazards
retire p h =
    Option.map (λ r. record h { re_list_set = r.0; freed = h.freed ++ r.1 })
      (retire_in p (hvector h.slots) h.llen h.re_list_set)
