-- ===== src/Remoteq/Tests.antt =====
-- Runs of `pop`, and the theorems at concrete states.
use fossilizid.Base.{ℕ, ◌≡◌, refl, true, some, none, List, [], ◌∷◌}
use fossilizid.Remoteq.{Channel, breaks, receive}
use fossilizid.Remoteq.Events.{Queue, Use, polls, disconnects, iocp_recv}
use fossilizid.Remoteq.Receive.{open_socket}

-- A buffer of four bytes that holds two, of which one has been parsed.
abbrev holding : Channel ℕ
holding = record { buf = 10 ∷ 11 ∷ []; buflen = 4; rindex = 1; has_que = true; disconnects = 0 }

-- Five bytes wait: the buffer is filled, doubled, and has room for the others.
doubles :
    receive open_socket 6 holding (1 ∷ 2 ∷ 3 ∷ 4 ∷ 5 ∷ [])
    ≡ breaks (record holding { buf = 10 ∷ 11 ∷ 1 ∷ 2 ∷ 3 ∷ 4 ∷ 5 ∷ []; buflen = 8 }) []
unfolding receive
doubles = refl

-- A channel has bytes, then its other side closes, and the client polls on.
abbrev uses : List Use
uses = polls (some (record { h = 50; type = iocp_recv })) ∷ disconnects 50 ∷ polls none ∷ []

abbrev idle_queue : Queue
idle_queue = record { evque = []; released = [] }
