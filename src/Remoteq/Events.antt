-- ===== src/Remoteq/Events.antt =====
-- remoteq/windows/queueimpl.cpp: the events of a queue. What GetQueuedCompletionStatus yields is a
-- parameter; `evque` is the `msque` of the queue, by its values.
use fossilizid.Base.{
  ℕ, suc, ◌≡◌, refl, sym, ◌+◌, length, ◌∙◌, Option, none, some, List, [], ◌∷◌, ◌++◌, append-nil,
  append_assoc, arith, Ptr, null,
}

-- `event_type`
pub data EventType : Type 0 where
  event_none event_accept event_recv event_disconnect : EventType

-- `iocp_type`
pub data IocpType : Type 0 where
  iocp_accept iocp_send iocp_recv : IocpType

-- `EVENT`
pub record Event : Type 0 where
  pub handle : Ptr
  pub type : EventType

-- `overlappedex`, but for the bytes of a send
pub record Overlapped : Type 0 where
  pub h : Ptr
  pub type : IocpType

-- `queueimpl`, with the completions that were handed back to the pool.
pub record Queue : Type 0 where
  pub evque : List Event
  pub released : List Overlapped

abbrev pub no_event : Event
no_event = record { handle = null; type = event_none }

abbrev pub event_of : Overlapped → Event
event_of o = elim (o.type) [
  | iocp_accept ↦ record { handle = o.h; type = event_accept }
  | iocp_recv ↦ record { handle = o.h; type = event_recv }
  | iocp_send ↦ no_event
]

abbrev closing : Ptr → Event
closing ch = record { handle = ch; type = event_disconnect }

-- `queue(que)`
pub poll : Option Overlapped → Queue → Event × Queue
poll none q = (no_event, q)
poll (some o) q = (event_of o, record q { released = o ∷ q.released })

-- `pop` finds that the other side has closed: its push to `evque`.
pub push_disconnect : Ptr → Queue → Queue
push_disconnect ch q = record q { evque = q.evque ++ (closing ch ∷ []) }

-- What a program does with a queue, in any order.
pub data Use : Type 0 where
  polls : Option Overlapped → Use
  disconnects : Ptr → Use

abbrev run : List Use → Queue → List Event × Queue
run [] q = ([], q)
run (polls o ∷ us) q =
    let here = poll o q in let later = run us here.1 in (here.0 ∷ later.0, later.1)
run (disconnects ch ∷ us) q = run us (push_disconnect ch q)

-- The events of the channels that were closed, in their order.
abbrev pub closed : List Use → List Event
closed [] = []
closed (polls o ∷ us) = closed us
closed (disconnects ch ∷ us) = closing ch ∷ closed us

abbrev pub completions : List Use → ℕ
completions [] = 0
completions (polls none ∷ us) = completions us
completions (polls (some o) ∷ us) = suc (completions us)
completions (disconnects ch ∷ us) = completions us

-- How many of the events tell of a closed channel.
abbrev disconnect_count : List Event → ℕ
disconnect_count [] = 0
disconnect_count (e ∷ es) = (elim (e.type) [ event_disconnect ↦ 1 | _ ↦ 0 ]) + disconnect_count es

event_of-connected : (o : Overlapped) → disconnect_count (event_of o ∷ []) ≡ 0
event_of-connected o = ground arith

-- However polls and closed channels follow one another: no poll returns an event of a closed
-- channel, these pile up in `evque` in their order, and each completion goes back to the pool once.
run_events :
    (us : List Use) (q : Queue)
    → (disconnect_count (run us q).0 ≡ 0)
      × ((run us q).1.evque ≡ q.evque ++ closed us)
      × (length (run us q).1.released ≡ length q.released + completions us)
unfolding poll push_disconnect
run_events [] q = (refl, sym (append-nil q.evque), omega arith)
run_events (polls none ∷ us) q = ground (arith, run_events us q)
run_events (polls (some o) ∷ us) q =
    ground (arith, run_events us (record q { released = o ∷ q.released }), event_of-connected o)
run_events (disconnects ch ∷ us) q =
    let e = closing ch in
    let ih = run_events us (push_disconnect ch q) in
    (ih.0, ih.1 ∙ append_assoc q.evque (e ∷ []) (closed us), ih.2)
