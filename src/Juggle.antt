-- ===== src/Juggle.antt =====
-- juggle/service/service.cpp: the registries and the rounds of `loop_main`. Handlers, contexts,
-- channels and commands are types that the client chooses; what a command's fields say and what a
-- channel's `pop` yields are parameters. Each access of a registry holds its lock, so it runs by
-- itself.
pub mod Sync
pub mod Dispatch
pub mod Channels
pub mod Clock
pub mod Fibers
pub mod Round
pub mod Caller
mod Tests
use fossilizid.Base.{
  insert_new, ℕ, ◌+◌, ◌-◌, ◌%◌, ◌^◌, Bool, true, false, Option, none, some, List, [], ◌∷◌, ◌++◌, Eq,
  lookup, ◌==◌, if◌then◌else◌, ltb,
}

-- `juggleservice`. The maps are lists of pairs; channels are their addresses, and `set_channel` is
-- in their order. The last of a vector stands first.
pub record Service (Name Handler Callback Ctx : Type 0) : Type 0 where
  pub method_map : List (Name × Handler)
  pub method_callback_map : List (Name × Callback)
  pub wait_weak_up_context : List Ctx
  pub vsemaphore : List (ℕ × Ctx)
  pub set_channel : List ℕ
  pub array_new_channel : List ℕ
  pub clockstamp : ℕ  -- time_t
  pub timestamp : ℕ  -- time_t

abbrev pub u64 : ℕ → ℕ
u64 n = n % 2 ^ 64

-- A command, by its three fields that a round reads.
pub record Command (Name Payload : Type 0) : Type 0 where
  pub rpcevent : Name
  pub method : Name
  pub suuid : Name
  pub payload : Payload

-- What a round calls.
pub data Call (Handler Callback Name Payload : Type 0) : Type 0 where
  call_method : Handler → ℕ → Command Name Payload → Call Handler Callback Name Payload
  call_back : Callback → Command Name Payload → Call Handler Callback Name Payload

-- `insert` and `erase` of a set
pub insert_channel : ℕ → List ℕ → List ℕ
insert_channel ch [] = ch ∷ []
insert_channel ch (c ∷ l) =
    if ltb ch c then ch ∷ c ∷ l else if c == ch then c ∷ l else c ∷ insert_channel ch l

pub erase_channel : ℕ → List ℕ → List ℕ
erase_channel ch [] = []
erase_channel ch (c ∷ l) = if c == ch then l else c ∷ erase_channel ch l

-- The loop over `array_new_channel`
abbrev pub insert_all : List ℕ → List ℕ → List ℕ
insert_all [] s = s
insert_all (c ∷ cs) s = insert_all cs (insert_channel c s)

-- `find`, `insert` and `erase` of the map of timeouts
pub find_timer : {Ctx : Type 0} → ℕ → List (ℕ × Ctx) → Option Ctx
find_timer t [] = none
find_timer t ((k, ct) ∷ l) = if k == t then some ct else find_timer t l

pub insert_timer : {Ctx : Type 0} → ℕ → Ctx → List (ℕ × Ctx) → List (ℕ × Ctx)
insert_timer t ct l = elim (find_timer t l) [ none ↦ (t, ct) ∷ l | some w ↦ l ]

pub erase_timer : {Ctx : Type 0} → ℕ → List (ℕ × Ctx) → List (ℕ × Ctx)
erase_timer t [] = []
erase_timer t ((k, ct) ∷ l) = if k == t then l else (k, ct) ∷ erase_timer t l

-- The last part of a round: nothing to wake, a context to switch to, or the use of the iterator
-- past the end of `vsemaphore`.
pub data Timer (Ctx : Type 0) : Type 0 where
  no_timer : Timer Ctx
  switch_to : Ctx → Timer Ctx
  past_end : Timer Ctx

module _ {Name Handler Callback Ctx : Type 0} ⦃e : Eq Name⦄ where
  pub register_module_method :
      Name → Handler → Service Name Handler Callback Ctx → Service Name Handler Callback Ctx
  register_module_method n h s = record s { method_map = insert_new n h s.method_map }

  pub register_rpc_callback :
      Name → Callback → Service Name Handler Callback Ctx → Service Name Handler Callback Ctx
  register_rpc_callback n c s = record s {
    method_callback_map = insert_new n c s.method_callback_map;
  }

module _ {Name Handler Callback Ctx : Type 0} where
  pub add_rpcsession : ℕ → Service Name Handler Callback Ctx → Service Name Handler Callback Ctx
  add_rpcsession ch s = record s { array_new_channel = s.array_new_channel ++ (ch ∷ []) }

  pub remove_rpcsession : ℕ → Service Name Handler Callback Ctx → Service Name Handler Callback Ctx
  remove_rpcsession ch s = record s { set_channel = erase_channel ch s.set_channel }

  pub wake_up_context : Ctx → Service Name Handler Callback Ctx → Service Name Handler Callback Ctx
  wake_up_context ct s = record s { wait_weak_up_context = ct ∷ s.wait_weak_up_context }

  -- The first part of a round: the clock.
  pub tick : ℕ → Service Name Handler Callback Ctx → Service Name Handler Callback Ctx
  tick clock s = record s { timestamp = u64 (s.timestamp + u64 (clock + 2 ^ 64 - s.clockstamp)) }

  -- The new channels.
  pub admit : Service Name Handler Callback Ctx → Service Name Handler Callback Ctx
  admit s = record s { set_channel = insert_all s.array_new_channel s.set_channel }

  -- The context that is switched to, if one waits.
  pub wake : Service Name Handler Callback Ctx → Option Ctx × Service Name Handler Callback Ctx
  wake s = elim s.wait_weak_up_context [
    | [] ↦ (none, s)
    | ct ∷ cts ↦ (some ct, record s { wait_weak_up_context = cts })
  ]

  pub register_semaphore :
      ℕ → Ctx → Service Name Handler Callback Ctx → Service Name Handler Callback Ctx
  register_semaphore timeout ct s = record s { vsemaphore = insert_timer timeout ct s.vsemaphore }

  pub timer : Service Name Handler Callback Ctx → Timer Ctx × Service Name Handler Callback Ctx
  timer s = elim s.vsemaphore [
    | [] ↦ (no_timer, s)
    | x ∷ xs ↦ elim (find_timer s.timestamp (x ∷ xs)) [
      | none ↦ (past_end, s)
      | some ct ↦ (switch_to ct, record s { vsemaphore = erase_timer s.timestamp (x ∷ xs) })
    ]
  ]

-- The body of the loop over the channels, with the texts that `rpcevent` is compared to.
module _ {Name Handler Callback Ctx Payload : Type 0} ⦃e : Eq Name⦄
    (call_text reply_text : Name) where
  pub dispatch :
      Service Name Handler Callback Ctx
      → ℕ
      → Option (Command Name Payload)
      → List (Call Handler Callback Name Payload)
  dispatch s ch none = []
  dispatch s ch (some cmd) =
      if e.beq cmd.rpcevent call_text
      then (elim (lookup cmd.method s.method_map) [
        | none ↦ []
        | some h ↦ call_method h ch cmd ∷ []
      ])
      else if e.beq cmd.rpcevent reply_text
      then (elim (lookup cmd.suuid s.method_callback_map) [
        | none ↦ []
        | some c ↦ call_back c cmd ∷ []
      ])
      else []

  pub dispatch_all :
      (ℕ → Option (Command Name Payload))
      → Service Name Handler Callback Ctx
      → List ℕ
      → List (Call Handler Callback Name Payload)
  dispatch_all pop s [] = []
  dispatch_all pop s (c ∷ cs) = dispatch s c (pop c) ++ dispatch_all pop s cs
