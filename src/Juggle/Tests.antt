-- ===== src/Juggle/Tests.antt =====
-- Runs of the service, and the theorems at concrete states.
use fossilizid.Base.{
  ℕ, Option, ◌+◌, ◌≡◌, refl, true, none, some, [], ◌∷◌, Eq, ◌==◌, ==_iff, contains, if◌then◌else◌,
  arith,
}
use fossilizid.Juggle.{
  call_back, insert_channel, wake_up_context, Service, Command, call_method, dispatch, dispatch_all,
  admit, tick, wake, add_rpcsession, remove_rpcsession, register_module_method, timer, find_timer,
  erase_timer,
}
use fossilizid.Juggle.Channels.{remove-admit}
use fossilizid.Juggle.Dispatch.{calls, dispatch-register}
use fossilizid.Juggle.Round.{round, rounds, rounds-starve}
use fossilizid.Juggle.Fibers.{polls, resumes, schedules, resume, init, turns, init-turns, Fibers}
use fossilizid.Juggle.Caller.{Peer, forever, call_sync, replies_of, call_sync-returns}
use fossilizid.Juggle.Sync.{
  new_semaphore, wait_end, new_mutex, locks, unlocks, performs, only_schedules, performs-new_mutex,
}

instance ℕ-Eq : Eq ℕ
ℕ-Eq = record { beq = ◌==◌; beq_iff = ==_iff }

-- Two channels, and a handler 50 for the method 7.
abbrev running : Service ℕ ℕ ℕ ℕ
running = record {
  method_map = (7, 50) ∷ [];
  method_callback_map = [];
  wait_weak_up_context = [];
  vsemaphore = [];
  set_channel = 3 ∷ 8 ∷ [];
  array_new_channel = 5 ∷ [];
  clockstamp = 100;
  timestamp = 1000;
}

abbrev command : ℕ → ℕ → ℕ → Command ℕ ℕ
command e m u = record { rpcevent = e; method = m; suuid = u; payload = 0 }

-- Channel 8 has a call of the method 7, channel 3 has nothing.
dispatches :
    dispatch_all 1 2
      (λ c. if c == 8 then some (command 1 7 0) else none)
      running
      running.set_channel
    ≡ call_method 50 8 (command 1 7 0) ∷ []
unfolding dispatch_all dispatch ℕ-Eq
dispatches = refl

timer_erased :
    (timer (record running { vsemaphore = (1000, 4) ∷ (2000, 5) ∷ [] })).1.vsemaphore
    ≡ (2000, 5) ∷ []
unfolding timer find_timer erase_timer
timer_erased = refl

remove-admit_example :
    (contains (remove_rpcsession 3 running).set_channel 8 ≡ true)
    × (contains (admit (remove_rpcsession 3 (admit (add_rpcsession 3 running)))).set_channel 3
        ≡ true)
remove-admit_example = remove-admit running 3 8 (omega arith, (omega arith, omega arith))

dispatch-register_example :
    dispatch 1 2 (register_module_method 7 60 running) 8 (some (command 1 7 0))
    ≡ calls 8 (command 1 7 0) (some 50)
unfolding ℕ-Eq
dispatch-register_example = dispatch-register 1 2 running 7 60 8 (command 1 7 0) refl

performs-new_mutex_example :
    performs {Ctx = ℕ} (locks ∷ locks ∷ unlocks ∷ []) new_mutex
    ≡ (only_schedules (locks ∷ locks ∷ unlocks ∷ []), new_mutex)
performs-new_mutex_example = performs-new_mutex (locks ∷ locks ∷ unlocks ∷ [])

abbrev polling : Fibers
polling = record { running = 6; current = 6; main = 9 }

init-turns_example :
    let i = init 100 1000 6 9 running in
    (g : Fibers) × (turns (polls ∷ schedules 7 ∷ resumes ∷ []) i.1 i.0 ≡ some g)
    × (g.current ≡ 6)
    × (g.main ≡ 9)
init-turns_example =
    init-turns 100 1000 6 9 (polls ∷ schedules 7 ∷ resumes ∷ []) running (omega arith) (omega arith)

abbrev peer : Peer ℕ ℕ ℕ
peer = record { service = running; semaphores = λ _. new_semaphore 77; sent = [] }

-- While the context 6 waits for its reply, another call gets one.
call_sync-returns_example :
    let called = call_sync 1 3 7 44 5 80 6 peer in
    let later = replies_of (call_back 81 (command 2 0 45) ∷ []) called.1 in
    let after = replies_of (dispatch 1 2 later.service 8 (some (command 2 0 44))) later in
    (called.0 ≡ true)
    × (later.semaphores 80 ≡ called.1.semaphores 80)
    × (wake after.service ≡ (some 6, later.service))
    × (wait_end (after.semaphores 80)
        ≡ some (command 2 0 44, record { signal = []; timeout = forever; wait_ct = some 6 }))
unfolding ℕ-Eq
call_sync-returns_example =
    call_sync-returns 1 2 3 8 7 44 5 80 6 peer (call_back 81 (command 2 0 45) ∷ []) (command 2 0 44)
      refl (omega arith, tt) refl refl refl

-- A round on a service whose channel 3 has a call: it goes to its handler, and nothing is switched
-- to.
a_round :
    let r =
      round 1 2
        (λ cs s. s)
        120
        (λ c. if c == 3 then some (command 1 7 9) else none)
        polling
        running in
    (r.0 ≡ call_method 50 3 (command 1 7 9) ∷ [])
    × (r.1 ≡ polling)
    × (r.2.set_channel ≡ 3 ∷ 5 ∷ 8 ∷ [])
unfolding round tick admit resume wake dispatch_all dispatch insert_channel ℕ-Eq
a_round = (refl, refl, refl)

-- In each round every channel has a call.
abbrev traffic : ℕ → ℕ → Option (Command ℕ ℕ)
traffic i c = some (command 1 7 i)

-- The context 4 waits while 5, 6 and 5 again are woken.
rounds-starve_example :
    let r =
      rounds 1 2
        (λ cs s. s)
        (λ i. 120 + i)
        traffic
        (5 ∷ 6 ∷ 5 ∷ [])
        polling
        (wake_up_context 4 running) in
    (r.0 ≡ 5 ∷ 6 ∷ 5 ∷ [])
    × (r.1.wait_weak_up_context ≡ (wake_up_context 4 running).wait_weak_up_context)
rounds-starve_example =
    rounds-starve 1 2 (λ cs s. s) (λ cs s. refl) (λ i. 120 + i) traffic (5 ∷ 6 ∷ 5 ∷ []) polling
      (wake_up_context 4 running)
