-- ===== src/Remoteq.antt =====
-- remoteq/windows/channelimpl.h: the receive buffer of a channel and `pop`. The socket (`recv`,
-- `WSARecv`) and the parser `fn` are parameters.
pub mod Receive
pub mod Events
pub mod Handles
pub mod Commands
mod Tests
use fossilizid.Base.{
  ℕ, zero, suc, ◌+◌, ◌-◌, ◌*◌, ◌^◌, Bool, ◌||◌, true, false, Option, none, some, List, [], ◌∷◌,
  ◌++◌, length, ltb, ◌==◌, if◌then◌else◌,
}

-- `buf` has the bytes from 0 to `windex` of the buffer, so its length is `windex`; `has_que` says
-- that `que` is not null, and `disconnects` counts the events of that type in its queue.
pub record Channel (A : Type 0) : Type 0 where
  pub buf : List A
  pub buflen : ℕ
  pub rindex : ℕ
  pub has_que : Bool
  pub disconnects : ℕ

-- The constructor of `channelimpl`, and whether it gets a queue.
abbrev pub new_channel : {A : Type 0} → Bool → Channel A
new_channel q = record { buf = []; buflen = 65536; rindex = 0; has_que = q; disconnects = 0 }

-- What `recv` returns: the bytes read (none of them where the other side has closed), or an error
-- and whether it is WSAEWOULDBLOCK.
pub data Received (A : Type 0) : Type 0 where
  bytes : List A → Received A
  error : Bool → Received A

-- How the loop of `pop` ends: by `break`, by the use of a null `que`, with a `buflen` that is no
-- int, or not within the fuel.
pub data Loop (A S : Type 0) : Type 0 where
  breaks : Channel A → S → Loop A S
  null_que : Loop A S
  overflow : Loop A S
  no_fuel : Loop A S

abbrev pub drop : {A : Type 0} → ℕ → List A → List A
drop zero l = l
drop (suc n) [] = []
drop (suc n) (x ∷ l) = drop n l

abbrev pub disconnected : {A : Type 0} → Channel A → Channel A
disconnected c = record c { disconnects = suc c.disconnects }

-- `S` is the state of the socket.
module _ {A S : Type 0} (recv : ℕ → S → Received A × S) where
  -- The loop of `pop`. A buffer that was filled is doubled before the next turn.
  pub receive : ℕ → Channel A → S → Loop A S
  receive zero c s = no_fuel
  receive (suc n) c s =
      let room = c.buflen - length c.buf in
      let (r, s') = recv room s in
      elim r [
        | error blocks ↦
            if blocks
            then breaks c s'
            else if c.has_que
            then breaks (disconnected c) s'
            else null_que
        | bytes [] ↦ breaks (if c.has_que then disconnected c else c) s'
        | bytes (x ∷ l) ↦
            let c' = record c { buf = c.buf ++ (x ∷ l) } in
            let rest = receive n (record c' { buflen = c.buflen * 2 }) s' in
            if ltb (length (x ∷ l)) room
            then breaks c' s'
            else if ltb (c.buflen * 2) (2 ^ 31)
            then rest
            else overflow
      ]

-- The part of `pop` after its loop. `fn` is given the bytes from `rindex` on and a length, and
-- returns a command with the number of bytes that it took, or `none` for a negative number;
-- `recv_posted` says whether `WSARecv` succeeds or is pending. The result is `pop`'s, with the
-- command if `fn` made one.
module _ {A Cmd : Type 0} (fn : List A → ℕ → Option (Cmd × ℕ)) (recv_posted : Bool) where
  pub parse : Channel A → Bool × Option Cmd × Channel A
  parse c =
      if length c.buf == c.rindex
      then (false, none, c)
      else if length c.buf == 0
      then (true, none, c)
      else (elim (fn (drop c.rindex c.buf) (length c.buf)) [
        | none ↦ (false, none, c)
        | some (cmd, n) ↦
            if c.rindex + n == length c.buf
            then (
              if c.has_que then recv_posted else true,
              some cmd,
              record c { buf = []; rindex = 0 },
            )
            else (true, some cmd, record c { rindex = c.rindex + n })
      ])
