-- ===== src/Juggle/Round.antt =====
-- juggle/service/service.cpp: a round of `loop_main` up to its switch to a context that was woken.
use fossilizid.Base.{ℕ, ◌≡◌, refl, suc, arith, ap, ◌∙◌, Option, List, [], ◌∷◌, Eq, Ptr}
use fossilizid.Juggle.{Service, Command, Call, tick, dispatch_all, admit, wake, wake_up_context}
use fossilizid.Juggle.Fibers.{Fibers, resume}

module _ {Name Handler Callback : Type 0} where
  resume_woken :
      (f : Fibers) (s : Service Name Handler Callback Ptr) (ct : Ptr) (l : List Ptr)
      → s.wait_weak_up_context ≡ ct ∷ l
      → ((resume f s).0.running ≡ ct) × ((resume f s).1.wait_weak_up_context ≡ l)
  unfolding resume wake
  resume_woken f s ct l e = ground (arith, e)

module _ {Name Handler Callback Payload : Type 0} ⦃e : Eq Name⦄ (call_text reply_text : Name) where
  -- The clock, the calls for what the channels have, the new channels, and the context that is
  -- woken. The handlers and callbacks are the client's: `perform` is what such calls do to the
  -- service, before a context is picked.
  unfoldable pub round :
      (List (Call Handler Callback Name Payload)
        → Service Name Handler Callback Ptr
        → Service Name Handler Callback Ptr)
      → ℕ
      → (ℕ → Option (Command Name Payload))
      → Fibers
      → Service Name Handler Callback Ptr
      → List (Call Handler Callback Name Payload) × Fibers × Service Name Handler Callback Ptr
  round perform clock pop f s =
      let ticked = tick clock s in
      let calls = dispatch_all call_text reply_text pop ticked ticked.set_channel in
      let woken = resume f (admit (perform calls ticked)) in (calls, woken.0, woken.1)

  -- Before each round a context is woken. The result is the fibers that the rounds switched to.
  abbrev pub rounds :
      (List (Call Handler Callback Name Payload)
        → Service Name Handler Callback Ptr
        → Service Name Handler Callback Ptr)
      → (ℕ → ℕ)
      → (ℕ → ℕ → Option (Command Name Payload))
      → List Ptr
      → Fibers
      → Service Name Handler Callback Ptr
      → List Ptr × Service Name Handler Callback Ptr
  rounds perform clock pop [] f s = ([], s)
  rounds perform clock pop (ct ∷ cts) f s =
      let r = round perform (clock 0) (pop 0) f (wake_up_context ct s) in
      let later = rounds perform (λ i. clock (suc i)) (λ i. pop (suc i)) cts r.1 r.2 in
      (r.1.running ∷ later.0, later.1)

  module _
      (perform : List (Call Handler Callback Name Payload)
        → Service Name Handler Callback Ptr
        → Service Name Handler Callback Ptr)
      (wakes_none : (cs : List (Call Handler Callback Name Payload))
          (s : Service Name Handler Callback Ptr)
        → (perform cs s).wait_weak_up_context ≡ s.wait_weak_up_context) where
    round-wakes :
        (clock : ℕ) (pop : ℕ → Option (Command Name Payload)) (ct : Ptr) (f : Fibers)
        (s : Service Name Handler Callback Ptr)
        → let r = round perform clock pop f (wake_up_context ct s) in
          (r.1.running ≡ ct) × (r.2.wait_weak_up_context ≡ s.wait_weak_up_context)
    unfolding round tick admit wake_up_context
    round-wakes clock pop ct f s =
        let ticked = tick clock (wake_up_context ct s) in
        let calls = dispatch_all call_text reply_text pop ticked ticked.set_channel in
        resume_woken f (admit (perform calls ticked)) ct s.wait_weak_up_context
          (wakes_none calls ticked)

    -- Where the handlers and callbacks that the rounds call wake no context: while some context is
    -- woken before each round, however many rounds there are and whatever the channels have, each
    -- round switches to the newcomer, and every context that waited before waits on.
    pub rounds-starve :
        (clock : ℕ → ℕ) (pop : ℕ → ℕ → Option (Command Name Payload)) (cts : List Ptr) (f : Fibers)
        (s : Service Name Handler Callback Ptr)
        → let r = rounds perform clock pop cts f s in
          (r.0 ≡ cts) × (r.1.wait_weak_up_context ≡ s.wait_weak_up_context)
    rounds-starve clock pop [] f s = (refl, refl)
    rounds-starve clock pop (ct ∷ cts) f s =
        let (a, b) = round-wakes (clock 0) (pop 0) ct f s in
        let r = round perform (clock 0) (pop 0) f (wake_up_context ct s) in
        let later = rounds perform (λ i. clock (suc i)) (λ i. pop (suc i)) cts r.1 r.2 in
        let (c, d) = rounds-starve (λ i. clock (suc i)) (λ i. pop (suc i)) cts r.1 r.2 in
        (ap (λ x. x ∷ later.0) a ∙ ap (λ l. ct ∷ l) c, d ∙ b)
