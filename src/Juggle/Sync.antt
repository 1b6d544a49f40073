-- ===== src/Juggle/Sync.antt =====
-- juggle/service/mutex.cpp and juggle/service/semaphore.cpp: what fibers wait on.
use fossilizid.Base.{
  ℕ, zero, suc, ◌≡◌, refl, Bool, true, false, Option, none, some, List, [], ◌∷◌, ◌++◌, length,
  replicate, if◌then◌else◌, arith,
}

-- `mutex`: `taken` is `_mutex`; the last of `wait_context_list` stands first.
pub record Mutex (Ctx : Type 0) : Type 0 where
  pub taken : Bool
  pub wait_context_list : List Ctx

pub data MutexCall : Type 0 where
  locks : MutexCall
  unlocks : MutexCall

-- What a call does besides: nothing, a call of `scheduler`, or a context woken.
pub data Effect (Ctx : Type 0) : Type 0 where
  nothing : Effect Ctx
  schedules : Effect Ctx
  wakes : Ctx → Effect Ctx

module _ {Ctx : Type 0} where
  -- The constructor
  abbrev pub new_mutex : Mutex Ctx
  new_mutex = record { taken = false; wait_context_list = [] }

  pub lock : Mutex Ctx → Effect Ctx × Mutex Ctx
  lock m = if m.taken then (nothing, record m { taken = true }) else (schedules, m)

  pub unlock : Mutex Ctx → Effect Ctx × Mutex Ctx
  unlock m =
      if m.taken
      then (elim m.wait_context_list [
        | [] ↦ (nothing, record m { taken = false })
        | ct ∷ cts ↦ (wakes ct, record { taken = false; wait_context_list = cts })
      ])
      else (nothing, m)

  abbrev pub perform : MutexCall → Mutex Ctx → Effect Ctx × Mutex Ctx
  perform locks m = lock m
  perform unlocks m = unlock m

  abbrev pub performs : List MutexCall → Mutex Ctx → List (Effect Ctx) × Mutex Ctx
  performs [] m = ([], m)
  performs (c ∷ cs) m =
      let here = perform c m in let later = performs cs here.1 in (here.0 ∷ later.0, later.1)

  abbrev pub only_schedules : List MutexCall → List (Effect Ctx)
  only_schedules [] = []
  only_schedules (locks ∷ cs) = schedules ∷ only_schedules cs
  only_schedules (unlocks ∷ cs) = nothing ∷ only_schedules cs

  -- Whatever calls are made of a new mutex, it is never taken: every lock calls the scheduler once
  -- and goes on, every unlock does nothing.
  pub performs-new_mutex :
      (cs : List MutexCall) → performs cs new_mutex ≡ (only_schedules cs, new_mutex)
  unfolding lock unlock
  performs-new_mutex [] = refl
  performs-new_mutex (locks ∷ cs) = ground (arith, performs-new_mutex cs)
  performs-new_mutex (unlocks ∷ cs) = ground (arith, performs-new_mutex cs)

module _ {Obj : Type 0} where
  -- `_signal.back()`
  abbrev pub last : Obj → List Obj → Obj
  last x [] = x
  last x (y ∷ ys) = last y ys

  last-append : (x y : Obj) (xs : List Obj) → last x (xs ++ (y ∷ [])) ≡ y
  last-append x y [] = refl
  last-append x y (z ∷ xs) = last-append z y xs

-- `semaphore`: the front of `_signal` stands first, `wait_ct` is `none` for 0.
pub record Semaphore (Obj Ctx : Type 0) : Type 0 where
  pub signal : List Obj
  pub timeout : ℕ  -- uint64_t
  pub wait_ct : Option Ctx

module _ {Obj Ctx : Type 0} where
  -- The constructor leaves `_timeout` as the memory has it.
  abbrev pub new_semaphore : ℕ → Semaphore Obj Ctx
  new_semaphore junk = record { signal = []; timeout = junk; wait_ct = none }

  -- The context that `post` wakes, if any.
  pub post : Obj → Semaphore Obj Ctx → Option Ctx × Semaphore Obj Ctx
  post x s = (s.wait_ct, record s { signal = s.signal ++ (x ∷ []) })

  -- `wait` up to its call of `scheduler`, and whether it makes it. The timeout is taken bit by bit
  -- for a number without a sign.
  pub wait_begin : ℕ → Ctx → Semaphore Obj Ctx → Bool × Semaphore Obj Ctx
  wait_begin t ct s = elim s.signal [
    | [] ↦ (true, record s { timeout = t; wait_ct = some ct })
    | x ∷ xs ↦ (false, s)
  ]

  -- `wait` after that; `none` where it reads the last element of an empty queue.
  pub wait_end : Semaphore Obj Ctx → Option (Obj × Semaphore Obj Ctx)
  wait_end s = elim s.signal [ [] ↦ none | x ∷ xs ↦ some (last x xs, record s { signal = xs }) ]

  abbrev waits : ℕ → Semaphore Obj Ctx → List Obj × Semaphore Obj Ctx
  waits zero s = ([], s)
  waits (suc n) s = elim (wait_end s) [
    | none ↦ ([], s)
    | some p ↦ let later = waits n p.1 in (p.0 ∷ later.0, later.1)
  ]

  -- From a queue of several signals, as many waits as there are signals all return the last one.
  waits-last :
      (xs : List Obj) (x : Obj) (t : ℕ) (ct : Option Ctx)
      → waits (suc (length xs)) (record { signal = xs ++ (x ∷ []); timeout = t; wait_ct = ct })
        ≡ (replicate (suc (length xs)) x, record { signal = []; timeout = t; wait_ct = ct })
  unfolding wait_end
  waits-last [] x t ct = refl
  waits-last (y ∷ xs) x t ct = ground (arith, waits-last xs x t ct, last-append y x xs)

  -- A wait that begins on an empty queue overwrites what the constructor left unset.
  pub wait_begin-empty :
      (t : ℕ) (ct : Ctx) (s : Semaphore Obj Ctx)
      → s.signal ≡ []
      → (wait_begin t ct s).1 ≡ record { signal = []; timeout = t; wait_ct = some ct }
  unfolding wait_begin
  wait_begin-empty t ct s h = ground (arith, h)

  -- Where no signal is there, a wait calls the scheduler, the next post wakes the context that
  -- waits, and the wait then returns what was posted and leaves no signal.
  pub wait_end-post :
      (t : ℕ) (ct : Ctx) (x : Obj) (s : Semaphore Obj Ctx)
      → s.signal ≡ []
      → let s1 = (wait_begin t ct s).1 in
        let s2 = (post x s1).1 in
        ((wait_begin t ct s).0 ≡ true)
        × ((post x s1).0 ≡ some ct)
        × (wait_end s2 ≡ some (x, record { signal = []; timeout = t; wait_ct = some ct }))
  unfolding wait_begin post wait_end
  wait_end-post t ct x s h = ground (arith, h)
