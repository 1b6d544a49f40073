-- ===== src/Hazard/Threads/Tests.antt =====
-- Threads that acquire and retire: the list that a scan finds is cut.
use fossilizid.Base.{
  ℕ, ◌≢◌, zero, suc, ◌+◌, ◌≤◌, ◌<◌, ◌≡◌, ◌⊎◌, inl, inr, refl, List, [], ◌∷◌, count, arith,
}
use fossilizid.Hazard.{scan}
use fossilizid.Hazard.Threads.{
  Pc, System, Reach, idle, acq_head, acq_alloc, ret_find, ret_head, ret_free, acq_link, begun,
  calls, points, turn, start, goes_on, acquires, retires, protects, later, step, vector,
}
use fossilizid.Hazard.Threads.Window.{turns, scan-window}
use fossilizid.Hazard.Threads.Guard.{Guarded, loads, moves}
use fossilizid.Hazard.Threads.Covered.{Guarded-free}
use fossilizid.Hazard.Threads.Protect.{Reach-exclusive}

Reach-turns : (i n : ℕ) (s : System) → Reach s → Reach (turns i n s)
Reach-turns i zero s r = r
Reach-turns i (suc n) s r = Reach-turns i n (turn i s) (goes_on r (later i))

is_idle : (p : Pc) → (p ≡ idle) ⊎ Unit {0}
is_idle idle = inl refl
is_idle p = inr tt

-- Thread 1 retires a row of pointers, one call after the other.
abbrev retire_row : List ℕ → (s : System) → Reach s → (s' : System) × Reach s'
retire_row [] s r = (s, r)
retire_row (p ∷ ps) s r = elim (is_idle (s.threads 1).pc) [
  | inl e ↦
      retire_row ps (turns 1 4 (calls 1 (ret_find p 0) s))
        (Reach-turns 1 4 (calls 1 (ret_find p 0) s) (goes_on r (retires 1 p e)))
  | inr e ↦ (s, r)
]

abbrev from : ℕ → ℕ → List ℕ
from zero a = []
from (suc n) a = a ∷ from n (suc a)

-- Thread 2 acquires a hazard pointer and points it to 40.
abbrev acquired : System
acquired = turns 2 2 (calls 2 (acq_head 1) begun)

acquired-Reach : Reach acquired
acquired-Reach = Reach-turns 2 2 (calls 2 (acq_head 1) begun) (goes_on start (acquires 2 1 refl))

acquired_pc : ((acquired.threads 2).pc ≡ idle) × ((acquired.threads 2).held ≡ 1 ∷ [])
unfolding step
acquired_pc = (refl, refl)

abbrev guarded : System
guarded = points 1 40 acquired

guarded-Reach : Reach guarded
unfolding step
guarded-Reach = goes_on acquired-Reach (protects 2 1 40 refl (ground arith))

-- Thread 1 retires 40 and 31 more, and comes to the scan of the next call.
abbrev filled : System
filled = (retire_row (from 32 40) guarded guarded-Reach).0

filled_vector : vector 0 filled.mem ≡ from 32 40
unfolding step is_idle
filled_vector = refl

filled-Reach : Reach filled
filled-Reach = (retire_row (from 32 40) guarded guarded-Reach).1

filled_idle : ((filled.threads 1).pc ≡ idle) × ((filled.threads 0).pc ≡ idle)
unfolding step is_idle
filled_idle = (refl, refl)

abbrev scanning : System
scanning = turns 1 2 (calls 1 (ret_find 99 0) filled)

scanning-Reach : Reach scanning
scanning-Reach =
    Reach-turns 1 2 (calls 1 (ret_find 99 0) filled)
      (goes_on filled-Reach (retires 1 99 filled_idle.0))

scanning_idle : (scanning.threads 0).pc ≡ idle
unfolding step is_idle
scanning_idle = refl

-- Thread 0 finds no free node.
abbrev allocating : System
allocating = turns 0 4 (calls 0 (acq_head 1) scanning)

allocating-Reach : Reach allocating
allocating-Reach =
    Reach-turns 0 4 (calls 0 (acq_head 1) scanning)
      (goes_on scanning-Reach (acquires 0 1 scanning_idle))

allocating_pc :
    ((allocating.threads 0).pc ≡ acq_alloc 1)
    × ((allocating.threads 1).pc ≡ ret_head 99 0)
    × (1 < allocating.mem.brk)
    × (1 ≤ count 1 (allocating.threads 2).held)
unfolding step is_idle
allocating_pc = (refl, refl, omega arith, omega arith)

-- The hazard pointer 1 points to 40, and 40 is freed.
scan-window_example :
    let m = (turns 1 5 (turns 0 3 allocating)).mem in
    (m.hazard 1 ≡ allocating.mem.hazard 1)
    × (count 40 m.freed ≡ count 40 allocating.mem.freed + count 40 (vector 0 allocating.mem))
scan-window_example =
    scan-window allocating 0 1 1 99 0 40 1 allocating-Reach (λ e. ground (arith, e)) allocating_pc.0
      allocating_pc.1 allocating_pc.2

protected_freed :
    let m = (turns 1 5 (turns 0 3 allocating)).mem in (m.hazard 1 ≡ 40) × (count 40 m.freed ≡ 1)
unfolding step is_idle scan
protected_freed = (refl, refl)

Reach-exclusive_example :
    (allocating.mem.active 1 ≡ 0)
    × (count 1 (allocating.threads 2).held ≡ 1)
    × (count 1 (allocating.threads 0).held ≡ 0)
Reach-exclusive_example =
    Reach-exclusive allocating-Reach 2 0 1 (λ e. ground (arith, e)) allocating_pc.3

-- No thread owes a link when thread 1 loads the head; thread 0 begins to acquire meanwhile.
abbrev loaded : System
loaded = turn 1 scanning

abbrev scanned : System
scanned = turns 1 3 (turn 0 (calls 0 (acq_head 1) loaded))

scanning_quiet : (i n y old : ℕ) → (scanning.threads i).pc ≢ acq_link n y old
unfolding step is_idle
scanning_quiet i n y old = ground arith

loaded-Guarded : Guarded 1 2 1 40 loaded
unfolding step is_idle
loaded-Guarded = loads 99 0 scanning-Reach scanning_quiet refl (refl, omega arith)

scanned-Guarded : Guarded 1 2 1 40 scanned
unfolding step is_idle
scanned-Guarded =
    moves
      (moves
        (moves
          (moves (moves loaded-Guarded refl (acquires 0 1 refl) (refl, omega arith)) refl (later 0)
            (refl, omega arith))
          refl (later 1) (refl, omega arith))
        refl (later 1) (refl, omega arith))
      refl (later 1) (refl, omega arith)

scanned_pc : (scanned.threads 1).pc ≡ ret_free 99 0 (40 ∷ [])
unfolding step is_idle
scanned_pc = refl

Guarded-free_example : count 40 (turn 1 scanned).mem.freed ≡ count 40 scanned.mem.freed
Guarded-free_example =
    Guarded-free 1 2 1 40 99 0 (40 ∷ []) (λ e. ground (arith, e)) scanned-Guarded scanned_pc
