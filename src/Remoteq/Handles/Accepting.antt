-- ===== src/Remoteq/Handles/Accepting.antt =====
-- What `connect` leaves open, and how an acceptor and its client go on together.
use fossilizid.Base.{
  ℕ, zero, suc, ◌+◌, ◌-◌, ◌≤◌, ◌<◌, ◌≡◌, ◌≢◌, refl, Bool, ◌&&◌, not, true, List, [], ◌∷◌, ◌==◌,
  if◌then◌else◌, arith, Ptr, null, count,
}
use fossilizid.Remoteq.Events.{Overlapped, iocp_accept}
use fossilizid.Remoteq.Handles.{
  World, nothing_open, ChannelImpl, AcceptorImpl, Answers, channel, refused, null_que, closesocket,
  connect, create_acceptor, accept,
}

-- connect returns a channel only if all three calls succeed and there is a queue. Its socket is
-- then open; it is closed again where bind or connect fails; and it stays open though no channel is
-- returned where WSARecv fails, and where the queue is null, through which connect then reads.
pub connect_sockets :
    (a : Answers) (s : ℕ) (ch que : Ptr) (w : World) (x : ℕ)
    → let r = connect a s ch que w in
      (r.0 ≡ (
        if not (a.bound && a.connected)
        then refused
        else if que == null
        then null_que
        else if a.received
        then channel (record { que = que; s = s })
        else refused))
      × (count x r.1.sockets
          ≡ (if a.bound && a.connected then (if s == x then 1 else 0) else 0) + count x w.sockets)
unfolding connect closesocket
connect_sockets a s ch que w x = ground arith

-- How many accepts are posted.
abbrev pub accepts : List Overlapped → ℕ
accepts [] = 0
accepts (o ∷ os) = (elim (o.type) [ iocp_accept ↦ 1 | _ ↦ 0 ]) + accepts os

-- A completion of the operation that stands at a place of the list
abbrev pub drop_at : ℕ → List Overlapped → List Overlapped
drop_at i [] = []
drop_at zero (o ∷ os) = os
drop_at (suc i) (o ∷ os) = o ∷ drop_at i os

abbrev pub accept_at : ℕ → List Overlapped → ℕ
accept_at i [] = 0
accept_at zero (o ∷ os) = elim (o.type) [ iocp_accept ↦ 1 | _ ↦ 0 ]
accept_at (suc i) (o ∷ os) = accept_at i os

accepts-drop_at :
    (i : ℕ) (os : List Overlapped) → accepts (drop_at i os) + accept_at i os ≡ accepts os
accepts-drop_at i [] = refl
accepts-drop_at zero (o ∷ os) = omega arith
accepts-drop_at (suc i) (o ∷ os) = omega (arith, accepts-drop_at i os)

-- An acceptor with what it works on, the accept events that its client has not served, and the
-- channels that it has handed out.
pub record Listening : Type 0 where
  pub acceptor : AcceptorImpl
  pub world : World
  pub unserved : ℕ
  pub channels : List ChannelImpl

abbrev pub sockets_of : List ChannelImpl → List ℕ
sockets_of [] = []
sockets_of (c ∷ cs) = c.s ∷ sockets_of cs

-- An operation completes, or the client serves an event by a call of `accept`, for which the system
-- gives a socket that is not open yet.
pub data Step (ap : Ptr) (l : Listening) : Listening → Type 0 where
  completes :
      (i : ℕ)
      → Step ap l (record l {
        world = record (l.world) { posted = drop_at i l.world.posted };
        unserved = l.unserved + accept_at i l.world.posted;
      })
  serves :
      (ch : Ptr) (fresh : ℕ) (received accepted : Bool)
      → 0 < l.unserved
      → count fresh l.world.sockets ≡ 0
      → Step ap l (record {
        acceptor = (accept ch fresh received accepted ap l.acceptor l.world).1;
        world = (accept ch fresh received accepted ap l.acceptor l.world).2;
        unserved = l.unserved - 1;
        channels = (accept ch fresh received accepted ap l.acceptor l.world).0 ∷ l.channels;
      })

pub data Reach (ap : Ptr) (l : Listening) : Listening → Type 0 where
  here : Reach ap l l
  later : {m n : Listening} → Reach ap l m → Step ap m n → Reach ap l n

-- At most one accept is posted or waits to be served, and the open sockets are that of the
-- acceptor, the next channel's, and those of the channels handed out, each once.
pub record Orderly (l : Listening) : Type 0 where
  pub one_accept : accepts l.world.posted + l.unserved ≤ 1
  pub owned :
      (x : ℕ)
      → count x l.world.sockets ≡ count x (l.acceptor.sl ∷ l.acceptor.sa ∷ sockets_of l.channels)
  pub distinct : (x : ℕ) → count x l.world.sockets ≤ 1

Step-Orderly : (ap : Ptr) {l m : Listening} → Step ap l m → Orderly l → Orderly m
unfolding accept
Step-Orderly ap {l} (completes i) o = record {
  one_accept = omega (arith, o.one_accept, accepts-drop_at i l.world.posted);
  owned = o.owned;
  distinct = o.distinct;
}
Step-Orderly ap {l} (serves ch fresh received accepted h f) o = record {
  one_accept = ground (arith, o.one_accept, h);
  owned = λ x. ground (arith, o.owned x);
  distinct = λ x. ground (arith, o.distinct x, f);
}

-- If an acceptor is orderly, however completions and calls of accept follow one another, while the
-- client calls accept once for each accept event and the system gives sockets that are not open: at
-- most one accept is posted or waits to be served, and the open sockets are the acceptor's own, the
-- next channel's and those of the channels handed out, each once.
pub Reach-Orderly : (ap : Ptr) {l m : Listening} → Reach ap l m → Orderly l → Orderly m
Reach-Orderly ap here o = o
Reach-Orderly ap (later r s) o = Step-Orderly ap s (Reach-Orderly ap r o)

-- A new acceptor in a world with nothing open: no call of its constructor fails.
abbrev pub created : ℕ → ℕ → Ptr → Ptr → Listening
created sl sa que ap = record {
  acceptor = record { que = que; sl = sl; sa = sa };
  world = (create_acceptor true true true true sl sa que ap nothing_open).1;
  unserved = 0;
  channels = [];
}

created-Orderly : (sl sa : ℕ) (que ap : Ptr) → sl ≢ sa → Orderly (created sl sa que ap)
unfolding create_acceptor
created-Orderly sl sa que ap n = record {
  one_accept = omega arith;
  owned = λ x. ground arith;
  distinct = λ x. ground (arith, n);
}

-- From a new acceptor, for which the system gives two sockets, however completions and calls of
-- accept follow one another, while the client calls accept once for each accept event and the
-- system gives sockets that are not open: at most one accept is posted or waits to be served, and
-- the open sockets are the acceptor's own, the next channel's and those of the channels handed out,
-- each once.
pub created-Reach :
    (sl sa : ℕ) (que ap : Ptr) {l : Listening}
    → sl ≢ sa
    → Reach ap (created sl sa que ap) l
    → Orderly l
created-Reach sl sa que ap n r = Reach-Orderly ap r (created-Orderly sl sa que ap n)
