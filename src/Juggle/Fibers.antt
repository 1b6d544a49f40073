-- ===== src/Juggle/Fibers.antt =====
-- juggle/service/service.cpp: `init`, `poll`, `scheduler` and the context of the thread. A context
-- is the address of a fiber, 0 for none; `context::yield` switches to it.
use fossilizid.Base.{
  ℕ, ◌≡◌, ◌≢◌, refl, ◌∙◌, Option, none, some, List, [], ◌∷◌, ◌==◌, if◌then◌else◌, arith, Ptr, null,
}
use fossilizid.Juggle.{Service, wake_up_context, tick, admit, wake}

-- The fiber that runs, `tss_current_context` and `_main_context`.
pub record Fibers : Type 0 where
  pub running : Ptr
  pub current : Ptr
  pub main : Ptr

abbrev pub yield_to : Ptr → Fibers → Fibers
yield_to ct f = record f { running = ct }

module _ {Name Handler Callback : Type 0} where
  -- `init` on the fiber `here`, with the fiber that it makes for the loop.
  pub init :
      ℕ
      → ℕ
      → Ptr
      → Ptr
      → Service Name Handler Callback Ptr
      → Service Name Handler Callback Ptr × Fibers
  init clock time here loop s = (
    record s { clockstamp = clock; timestamp = time },
    record { running = here; current = here; main = loop },
  )

  pub poll : Fibers → Service Name Handler Callback Ptr → Fibers × Service Name Handler Callback Ptr
  poll f s = (yield_to f.main f, wake_up_context f.current s)

  -- The part of a round that wakes a context.
  unfoldable pub resume :
      Fibers → Service Name Handler Callback Ptr → Fibers × Service Name Handler Callback Ptr
  resume f s =
      let (woken, s') = wake s in elim woken [ none ↦ (f, s') | some ct ↦ (yield_to ct f, s') ]

-- `scheduler`, with the fiber that it makes for another loop; `none` is an exception.
pub scheduler : Ptr → Fibers → Option Fibers
scheduler fresh f =
    if f.main == null
    then none
    else if f.main == f.current
    then some (yield_to fresh (record f { current = fresh }))
    else some (yield_to f.main f)

-- What the fibers of a service do, in any order.
pub data Turn : Type 0 where
  polls : Turn
  resumes : Turn
  schedules : Ptr → Turn

module _ {Name Handler Callback : Type 0} where
  -- A fiber that has called init and polls gets the processor back in the next round, whatever the
  -- clock and the new channels, if nothing that the round dispatched has woken another context; the
  -- contexts that waited before wait on.
  pub poll-resume :
      (clock : ℕ) (f : Fibers) (s : Service Name Handler Callback Ptr)
      → f.running ≡ f.current
      → let p = poll f s in
        let r = resume p.0 (admit (tick clock p.1)) in
        (p.0.running ≡ f.main) × (r.0 ≡ f) × (r.1.wait_weak_up_context ≡ s.wait_weak_up_context)
  unfolding poll resume wake tick admit wake_up_context
  poll-resume clock f s h = ground (arith, h)

  abbrev pub turns : List Turn → Fibers → Service Name Handler Callback Ptr → Option Fibers
  turns [] f s = some f
  turns (polls ∷ ts) f s = turns ts (poll f s).0 (poll f s).1
  turns (resumes ∷ ts) f s = turns ts (resume f s).0 (resume f s).1
  turns (schedules fresh ∷ ts) f s = elim (scheduler fresh f) [
    | none ↦ none
    | some g ↦ turns ts g s
  ]

  resume-kept :
      (f : Fibers) (s : Service Name Handler Callback Ptr)
      → ((resume f s).0.current ≡ f.current) × ((resume f s).0.main ≡ f.main)
  unfolding resume
  resume-kept f s = ground arith

  turns_kept :
      (ts : List Turn) (f : Fibers) (s : Service Name Handler Callback Ptr)
      → f.main ≢ null
      → f.main ≢ f.current
      → (g : Fibers) × (turns ts f s ≡ some g) × (g.current ≡ f.current) × (g.main ≡ f.main)
  unfolding poll scheduler
  turns_kept [] f s h k = (f, refl, refl, refl)
  turns_kept (polls ∷ ts) f s h k = turns_kept ts (poll f s).0 (poll f s).1 h k
  turns_kept (resumes ∷ ts) f s h k =
      let r = resume f s in
      let q = resume-kept f s in
      let (g, e, c, m) = turns_kept ts r.0 r.1 (omega (arith, q)) (omega (arith, q)) in
      (g, e, c ∙ q.0, m ∙ q.1)
  turns_kept (schedules fresh ∷ ts) f s h k =
      let (g, e, c, m) = turns_kept ts (yield_to f.main f) s h k in
      (g, ground (arith, e, h, k), c, m)

  -- After init on one fiber, with another for the loop, however polls, rounds and calls of
  -- scheduler follow one another: no call throws, and the thread's current context is the fiber
  -- that called init for good, whichever fiber runs. So scheduler never makes another loop.
  pub init-turns :
      (clock time : ℕ) (here loop : Ptr) (ts : List Turn) (s : Service Name Handler Callback Ptr)
      → loop ≢ null
      → loop ≢ here
      → let i = init clock time here loop s in
        (g : Fibers) × (turns ts i.1 i.0 ≡ some g) × (g.current ≡ here) × (g.main ≡ loop)
  unfolding init
  init-turns clock time here loop ts s h k =
      let i = init clock time here loop s in turns_kept ts i.1 i.0 h k
