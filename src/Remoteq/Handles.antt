-- ===== src/Remoteq/Handles.antt =====
-- remoteq/windows/channelimpl.cpp, acceptorimpl.cpp and close.cpp: how sockets and
-- handles come and go. What a call of the system returns is a parameter.
pub mod Accepting
mod Tests
use fossilizid.Base.{
  ℕ, suc, ◌+◌, ◌≡◌, refl, Bool, ◌&&◌, not, true, false, Option, none, some, List, [], ◌∷◌, ◌==◌,
  if◌then◌else◌, arith, Ptr, null,
}
use fossilizid.Remoteq.Events.{Overlapped, IocpType, iocp_accept, iocp_send, iocp_recv}

-- `handle_type`
pub data HandleType : Type 0 where
  handle_channel handle_queue handle_acceptor handle_endpoint : HandleType

-- What the module has taken of the system: the sockets that are open, the operations that were
-- posted, the newest first, and the objects of each type that went back to the pool.
pub record World : Type 0 where
  pub sockets : List ℕ
  pub posted : List Overlapped
  pub freed : List HandleType

abbrev pub nothing_open : World
nothing_open = record { sockets = []; posted = []; freed = [] }

-- `channelimpl`, as far as the handles go
pub record ChannelImpl : Type 0 where
  pub que : Ptr
  pub s : ℕ

-- `acceptorimlp`: the socket that listens, and the one that the next channel will have.
pub record AcceptorImpl : Type 0 where
  pub que : Ptr
  pub sl : ℕ
  pub sa : ℕ

-- `socket`, for the socket that it returns
abbrev pub open_socket : ℕ → World → World
open_socket s w = record w { sockets = s ∷ w.sockets }

pub closesocket : ℕ → List ℕ → List ℕ
closesocket s [] = []
closesocket s (t ∷ ts) = if t == s then ts else t ∷ closesocket s ts

abbrev pub post : Ptr → IocpType → World → World
post h t w = record w { posted = record { h = h; type = t } ∷ w.posted }

-- How the calls that `connect` makes end: `bind`, `connect`, and whether WSARecv succeeds or is
-- pending.
pub record Answers : Type 0 where
  pub bound : Bool
  pub connected : Bool
  pub received : Bool

-- What `connect` comes to: a channel, 0, or a read through a null queue.
pub data Connected : Type 0 where
  channel : ChannelImpl → Connected
  refused : Connected
  null_que : Connected

-- `connect(ep, que)`; `s` is the socket that it gets, `ch` the address of the channel.
pub connect : Answers → ℕ → Ptr → Ptr → World → Connected × World
connect a s ch que w =
    let opened = open_socket s w in
    let closed = record w { sockets = closesocket s opened.sockets } in
    if not (a.bound && a.connected)
    then (refused, closed)
    else if que == null
    then (null_que, opened)
    else if a.received
    then (channel (record { que = que; s = s }), post ch iocp_recv opened)
    else (refused, opened)

-- The constructor of `acceptorimlp`, with the two sockets that it gets and whether `bind`,
-- `listen`, the completion port and AcceptEx succeed; `none` is an exception.
pub create_acceptor :
    Bool → Bool → Bool → Bool → ℕ → ℕ → Ptr → Ptr → World → Option AcceptorImpl × World
create_acceptor bound listened ported accepted sl sa que ap w =
    let opened = open_socket sa (open_socket sl w) in
    if bound && (listened && (ported && accepted))
    then (some (record { que = que; sl = sl; sa = sa }), post ap iocp_accept opened)
    else (none, opened)

-- `accept(ap)`, for the address of the new channel, the next socket, and whether WSARecv and
-- AcceptEx are pending: the source does not look.
pub accept : Ptr → ℕ → Bool → Bool → Ptr → AcceptorImpl → World → ChannelImpl × AcceptorImpl × World
accept ch next received accepted ap a w =
    let reading = if received then post ch iocp_recv w else w in
    let opened = open_socket next reading in
    (
      record { que = a.que; s = a.sa },
      record a { sa = next },
      if accepted then post ap iocp_accept opened else opened,
    )

-- `push`, when the command has been put into bytes: whether WSASend succeeds or is pending.
pub push : Ptr → Bool → World → Bool × World
push ch sent w = if sent then (true, post ch iocp_send w) else (false, w)

-- `close`
pub close : HandleType → World → World
close t w = record w { freed = t ∷ w.freed }
