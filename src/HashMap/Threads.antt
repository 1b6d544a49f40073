-- ===== src/HashMap/Threads.antt =====
-- container/small_hash_map.h: threads that work on one bucket, one access at a time, with the
-- lock of the bucket. The lock of a node is had for one access, which reads or writes its value.
pub mod Locks
pub mod Known
pub mod Content
pub mod Agrees
pub mod Order
pub mod Unlocked
mod Tests
use fossilizid.Base.{
  ℕ, suc, ◌+◌, ◌-◌, ◌^◌, ◌≡◌, ◌≢◌, Bool, true, false, Option, none, some, List, [], ◌∷◌, ◌++◌, Eq,
  lookup, insert_new, remove, Ptr, update, if◌then◌else◌,
}
use fossilizid.HashMap.{u32}

-- `bucket` with the nodes of its map and the `_size` of the table: `value` is the field of `node`,
-- `brk` the next address to hand out. Only one map is ever made for a bucket; `none` is the null
-- pointer before that.
pub record Bucket (K V : Type 0) : Type 0 where
  pub hash_bucket : Option (List (K × Ptr))
  pub value : Ptr → V
  pub brk : ℕ
  pub size : ℕ

-- How a thread has the lock of the bucket.
pub data Mode : Type 0 where
  free : Mode
  shared : Mode
  upgrade : Mode
  exclusive : Mode

-- Where a thread stands, with its locals. The flag of `insert` is whether it has its upgrade lock
-- still.
pub data Pc (K V : Type 0) : Type 0 where
  idle : Pc K V
  set_enter : K → V → Pc K V
  set_load : K → V → Pc K V
  set_find : K → V → Pc K V
  set_write : K → Ptr → V → Pc K V
  set_leave : Bool → Pc K V
  set_done : Bool → Pc K V
  null_read : Pc K V
  ins_enter : K → V → Pc K V
  ins_load : K → V → Pc K V
  ins_grow : K → V → Pc K V
  ins_make : K → V → Pc K V
  ins_find : Bool → K → V → Pc K V
  ins_write : Bool → K → Ptr → V → Pc K V
  ins_wait : K → V → Pc K V
  ins_add : Bool → K → V → Pc K V
  ins_count : Bool → Pc K V
  ins_leave : Pc K V
  ins_done : Pc K V
  sea_enter : K → Pc K V
  sea_load : K → Pc K V
  sea_find : K → Pc K V
  sea_read : K → Ptr → Pc K V
  sea_leave : Option V → Pc K V
  sea_done : Option V → Pc K V
  era_enter : K → Pc K V
  era_load : K → Pc K V
  era_find : K → Pc K V
  era_wait : K → Pc K V
  era_cut : K → Pc K V
  era_count : Pc K V
  era_leave : Pc K V
  era_done : Bool → Pc K V

-- What takes effect at an access, and what a search, a set or an erase finds.
pub data Event (K V : Type 0) : Type 0 where
  inserts : K → V → Event K V
  sets : K → V → Event K V
  erases : K → Event K V
  finds : K → V → Event K V
  misses : K → Event K V

-- The entries of a map, none where it is not made yet.
abbrev pub entries : {K : Type 0} → Option (List (K × Ptr)) → List (K × Ptr)
entries none = []
entries (some l) = l

module _ {K V : Type 0} where
  pub mode : Pc K V → Mode
  mode (set_load k v) = shared
  mode (set_find k v) = shared
  mode (set_write k n v) = shared
  mode (set_leave b) = shared
  mode null_read = shared
  mode (ins_load k v) = upgrade
  mode (ins_grow k v) = upgrade
  mode (ins_make k v) = exclusive
  mode (ins_find true k v) = upgrade
  mode (ins_write true k n v) = upgrade
  mode (ins_wait k v) = upgrade
  mode (ins_add true k v) = exclusive
  mode (ins_count true) = upgrade
  mode ins_leave = upgrade
  mode (sea_load k) = shared
  mode (sea_find k) = shared
  mode (sea_read k n) = shared
  mode (sea_leave o) = shared
  mode (era_load k) = upgrade
  mode (era_find k) = upgrade
  mode (era_wait k) = upgrade
  mode (era_cut k) = exclusive
  mode era_count = exclusive
  mode era_leave = upgrade
  mode p = free

  -- Where a thread that waits for the lock goes on when it has it.
  pub waits : Pc K V → Option (Pc K V)
  waits (set_enter k v) = some (set_load k v)
  waits (ins_enter k v) = some (ins_load k v)
  waits (ins_grow k v) = some (ins_make k v)
  waits (ins_wait k v) = some (ins_add true k v)
  waits (sea_enter k) = some (sea_load k)
  waits (era_enter k) = some (era_load k)
  waits (era_wait k) = some (era_cut k)
  waits p = none

-- What `boost::shared_mutex` promises: which lock may be granted beside one that another thread
-- has.
pub admits : Mode → Mode → Bool
admits free m = true
admits shared free = true
admits shared shared = true
admits shared upgrade = true
admits shared exclusive = false
admits upgrade free = true
admits upgrade shared = true
admits upgrade upgrade = false
admits upgrade exclusive = false
admits exclusive free = true
admits exclusive m = false

module _ {K V : Type 0} ⦃e : Eq K⦄ where
  -- One access of a thread that does not wait for the lock.
  pub step : Bucket K V → Pc K V → Bucket K V × Pc K V
  step m (set_load k v) = (m, elim (m.hash_bucket) [ none ↦ null_read | some l ↦ set_find k v ])
  step m (set_find k v) = (
    m,
    elim (lookup k (entries m.hash_bucket)) [ none ↦ set_leave false | some n ↦ set_write k n v ],
  )
  step m (set_write k n v) = (record m { value = update m.value n v }, set_leave true)
  step m (set_leave b) = (m, set_done b)
  step m (set_done b) = (m, idle)
  step m (ins_load k v) =
      (m, elim (m.hash_bucket) [ none ↦ ins_grow k v | some l ↦ ins_find true k v ])
  step m (ins_make k v) = (record m { hash_bucket = some [] }, ins_find false k v)
  step m (ins_find own k v) = (
    m,
    elim (lookup k (entries m.hash_bucket)) [
      | none ↦ if own then ins_wait k v else ins_add false k v
      | some n ↦ ins_write own k n v
    ],
  )
  step m (ins_write own k n v) = (record m { value = update m.value n v }, ins_count own)
  step m (ins_add own k v) = (
    record m {
      hash_bucket = some (insert_new k m.brk (entries m.hash_bucket));
      value = update m.value m.brk v;
      brk = suc m.brk;
    },
    ins_count false,
  )
  step m (ins_count own) =
      (record m { size = u32 (m.size + 1) }, if own then ins_leave else ins_done)
  step m ins_leave = (m, ins_done)
  step m ins_done = (m, idle)
  step m (sea_load k) = (m, elim (m.hash_bucket) [ none ↦ sea_leave none | some l ↦ sea_find k ])
  step m (sea_find k) =
      (m, elim (lookup k (entries m.hash_bucket)) [ none ↦ sea_leave none | some n ↦ sea_read k n ])
  step m (sea_read k n) = (m, sea_leave (some (m.value n)))
  step m (sea_leave o) = (m, sea_done o)
  step m (sea_done o) = (m, idle)
  step m (era_load k) = (m, elim (m.hash_bucket) [ none ↦ era_leave | some l ↦ era_find k ])
  step m (era_find k) =
      (m, elim (lookup k (entries m.hash_bucket)) [ none ↦ era_leave | some n ↦ era_wait k ])
  step m (era_cut k) =
      (record m { hash_bucket = some (remove k (entries m.hash_bucket)) }, era_count)
  step m era_count = (record m { size = u32 (m.size + (2 ^ 32 - 1)) }, era_done true)
  step m era_leave = (m, era_done false)
  step m (era_done b) = (m, idle)
  step m p = (m, p)

  pub happens : Bucket K V → Pc K V → List (Event K V)
  happens m (set_find k v) = elim (lookup k (entries m.hash_bucket)) [
    | none ↦ misses k ∷ []
    | some n ↦ []
  ]
  happens m (set_write k n v) = sets k v ∷ []
  happens m (ins_write own k n v) = inserts k v ∷ []
  happens m (ins_add own k v) = inserts k v ∷ []
  happens m (sea_find k) = elim (lookup k (entries m.hash_bucket)) [
    | none ↦ misses k ∷ []
    | some n ↦ []
  ]
  happens m (sea_read k n) = finds k (m.value n) ∷ []
  happens m (era_find k) = elim (lookup k (entries m.hash_bucket)) [
    | none ↦ misses k ∷ []
    | some n ↦ []
  ]
  happens m (era_cut k) = erases k ∷ []
  happens m p = []

-- The bucket and the threads.
pub record System (K V : Type 0) : Type 0 where
  pub mem : Bucket K V
  pub pc : ℕ → Pc K V

-- The calls
abbrev pub begins : {K V : Type 0} → Pc K V → Bool
begins (set_enter k v) = true
begins (ins_enter k v) = true
begins (sea_enter k) = true
begins (era_enter k) = true
begins p = false

module _ {K V : Type 0} ⦃e : Eq K⦄ where
  abbrev pub at : ℕ → Pc K V → System K V → System K V
  at i p s = record s { pc = update s.pc i p }

  abbrev pub turn : ℕ → System K V → System K V
  turn i s = record { mem = (step s.mem (s.pc i)).0; pc = update s.pc i (step s.mem (s.pc i)).1 }

  -- What threads reach from a bucket, with what took effect, the newest first.
  pub data Reach (b : Bucket K V) : System K V → List (Event K V) → Type 0 where
    start : Reach b (record { mem = b; pc = λ _. idle }) []
    calls :
        {s : System K V} {es : List (Event K V)} (i : ℕ) (p : Pc K V)
        → Reach b s es
        → s.pc i ≡ idle
        → begins p ≡ true
        → Reach b (at i p s) es
    gets :
        {s : System K V} {es : List (Event K V)} (i : ℕ) (p : Pc K V)
        → Reach b s es
        → waits (s.pc i) ≡ some p
        → ((j : ℕ) → i ≢ j → admits (mode p) (mode (s.pc j)) ≡ true)
        → Reach b (at i p s) es
    later :
        {s : System K V} {es : List (Event K V)} (i : ℕ)
        → Reach b s es
        → Reach b (turn i s) (happens s.mem (s.pc i) ++ es)
