-- ===== src/Juggle/Clock.antt =====
-- The clock, the contexts to wake and the timeouts.
use fossilizid.Base.{
  ℕ, zero, suc, ◌+◌, ◌*◌, ◌^◌, ◌<◌, ◌≡◌, refl, none, some, arith, ◌==◌, if◌then◌else◌,
}
use native.Mathlib.Nat.{suc-mul}
use fossilizid.Juggle.{
  Service, tick, wake, wake_up_context, past_end, switch_to, timer, find_timer, insert_timer,
  register_semaphore,
}

module _ {Name Handler Callback Ctx : Type 0} where
  abbrev pub ticks : ℕ → ℕ → Service Name Handler Callback Ctx → Service Name Handler Callback Ctx
  ticks zero clock s = s
  ticks (suc n) clock s = tick clock (ticks n clock s)

  ticks-clockstamp :
      (n clock : ℕ) (s : Service Name Handler Callback Ctx)
      → (ticks n clock s).clockstamp ≡ s.clockstamp
  unfolding tick
  ticks-clockstamp zero clock s = refl
  ticks-clockstamp (suc n) clock s = ticks-clockstamp n clock s

  -- While the clock stands still, every round adds the time since `init` to the timestamp once
  -- more, up to the bound of the type.
  pub ticks-timestamp :
      (n d : ℕ) (s : Service Name Handler Callback Ctx)
      → s.timestamp + n * d < 2 ^ 64
      → (ticks n (s.clockstamp + d) s).timestamp ≡ s.timestamp + n * d
  unfolding tick
  ticks-timestamp zero d s b = omega arith
  ticks-timestamp (suc n) d s b = omega (
    arith,
    suc-mul n d,
    ticks-timestamp n d s (omega (arith, suc-mul n d)),
    ticks-clockstamp n (s.clockstamp + d) s,
  )

  -- The context that was woken last is switched to first, and the others wait as before.
  pub wake-wake_up_context :
      (ct : Ctx) (s : Service Name Handler Callback Ctx)
      → wake (wake_up_context ct s) ≡ (some ct, s)
  unfolding wake wake_up_context
  wake-wake_up_context ct s = refl

  -- With one more context registered for a time without one, a round switches to it if that is the
  -- present timestamp, and otherwise, if no context is registered for that, uses the iterator past
  -- the end.
  pub timer-register :
      (t : ℕ) (ct : Ctx) (s : Service Name Handler Callback Ctx)
      → find_timer t s.vsemaphore ≡ none
      → find_timer s.timestamp s.vsemaphore ≡ none
      → (timer (register_semaphore t ct s)).0
        ≡ (if t == s.timestamp then switch_to ct else past_end)
  unfolding timer register_semaphore find_timer insert_timer
  timer-register t ct s h k = ground (arith, h, k)
