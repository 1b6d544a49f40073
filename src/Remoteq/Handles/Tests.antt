-- ===== src/Remoteq/Handles/Tests.antt =====
-- Calls, and the theorems at concrete states.
use fossilizid.Base.{◌≡◌, refl, true, [], ◌∷◌, arith}
use fossilizid.Remoteq.Events.{iocp_send}
use fossilizid.Remoteq.Handles.{
  World, create_acceptor, nothing_open, handle_channel, accept, close, push,
}
use fossilizid.Remoteq.Handles.Accepting.{
  Listening, Orderly, Reach, here, later, completes, serves, created, created-Reach,
}

-- A closed channel goes back to the pool; its socket stays open.
closes :
    close handle_channel (record nothing_open { sockets = 4 ∷ [] })
    ≡ record nothing_open { sockets = 4 ∷ []; freed = handle_channel ∷ [] }
unfolding close
closes = refl

sends :
    push 50 true nothing_open
    ≡ (true, record nothing_open { posted = record { h = 50; type = iocp_send } ∷ [] })
unfolding push
sends = refl

abbrev completed : World
completed = record { sockets = 5 ∷ 4 ∷ []; posted = []; freed = [] }

abbrev served : Listening
served = record {
  acceptor = record { que = 60; sl = 4; sa = 6 };
  world = (accept 50 6 true true 70 (record { que = 60; sl = 4; sa = 5 }) completed).2;
  unserved = 0;
  channels = record { que = 60; s = 5 } ∷ [];
}

-- The accept completes, and the client serves it.
served-Reach : Reach 70 (created 4 5 60 70) served
unfolding create_acceptor accept
served-Reach = later (later here (completes 0)) (serves 50 6 true true (omega arith) refl)

created-Reach_example : Orderly served
created-Reach_example = created-Reach 4 5 60 70 (omega arith) served-Reach
