-- ===== src/Remoteq/Commands.antt =====
-- remoteq/windows/channelimpl.h: `push` at one end of a connection and `pop` at the other. Bytes
-- arrive in the order in which they were sent, any number of them at a time.
pub mod Parse
pub mod Pops
pub mod Fifo
mod Tests
use fossilizid.Base.{
  ℕ, suc, ◌+◌, ◌-◌, leb, ◌<◌, ◌≡◌, ◌⊎◌, Bool, true, false, Option, none, some, List, [], ◌∷◌, ◌++◌,
  length, if◌then◌else◌,
}
use fossilizid.Remoteq.{Channel, breaks, null_que, overflow, no_fuel, receive, parse, drop}
use fossilizid.Remoteq.Receive.{open_socket, take}

-- What the two ends do: a push, with whether WSASend succeeds or is pending, and a pop, with how
-- many of the bytes on the way have arrived by then and since the last one.
pub data Call (Cmd : Type 0) : Type 0 where
  pushes : Cmd → Bool → Call Cmd
  pops : ℕ → Call Cmd

-- `encode` puts a command into bytes.
module _ {A Cmd : Type 0} (encode : Cmd → List A) where
  -- `push`: the bytes of the command go behind those that are on the way.
  pub push : Cmd → Bool → List A → Bool × List A
  push cmd sent wire = if sent then (true, wire ++ encode cmd) else (false, wire)

  -- The bytes of some commands
  abbrev pub encode_all : List Cmd → List A
  encode_all [] = []
  encode_all (d ∷ ds) = encode d ++ encode_all ds

-- `fn` reads a command from bytes.
module _ {A Cmd : Type 0} (fn : List A → ℕ → Option (Cmd × ℕ)) where
  -- `pop` where the first `n` bytes on the way have arrived, with a turn of its loop for each of
  -- them and one more; WSARecv succeeds. `none` where it does not come to its end or `buflen`
  -- overflows.
  pub pop : ℕ → Channel A → List A → Option (Bool × Option Cmd × Channel A × List A)
  pop n c wire = elim (receive open_socket (suc (length (take n wire))) c (take n wire)) [
    | breaks c' unread ↦ let (b, o, d) = parse fn true c' in some (b, o, d, unread ++ drop n wire)
    | null_que ↦ none
    | overflow ↦ none
    | no_fuel ↦ none
  ]

module _ {A Cmd : Type 0} (encode : Cmd → List A) (fn : List A → ℕ → Option (Cmd × ℕ)) where
  -- What the calls return, with the commands that the pops make.
  pub converse : List (Call Cmd) → Channel A → List A → List (Bool × Option Cmd)
  unfolding push
  converse [] c wire = []
  converse (pushes cmd sent ∷ ks) c wire =
      let (b, wire') = push encode cmd sent wire in
      let rest = converse ks c wire' in (b, none) ∷ rest
  converse (pops n ∷ ks) c wire = elim (pop fn n c wire) [
    | none ↦ []
    | some (b, o, c', wire') ↦ (b, o) ∷ converse ks c' wire'
  ]

-- How many bytes are there, when `n` more arrive than the `a` that were, of `t` in all.
abbrev pub arrived : ℕ → ℕ → ℕ → ℕ
arrived a n t = if leb (a + n) t then a + n else t

module _ {A Cmd : Type 0} (encode : Cmd → List A) where
  -- What the calls return of a queue of commands, of which `a` bytes are there: a pop makes the
  -- first command once all its bytes are.
  pub fifo : List (Call Cmd) → List Cmd → ℕ → List (Bool × Option Cmd)
  fifo [] ds a = []
  fifo (pushes d true ∷ ks) ds a = (true, none) ∷ fifo ks (ds ++ (d ∷ [])) a
  fifo (pushes d false ∷ ks) ds a = (false, none) ∷ fifo ks ds a
  fifo (pops n ∷ ks) [] a = (false, none) ∷ fifo ks [] a
  fifo (pops n ∷ ks) (d ∷ ds) a =
      let b = arrived a n (length (encode_all encode (d ∷ ds))) in
      let made = fifo ks ds (b - length (encode d)) in
      let waits = fifo ks (d ∷ ds) b in
      if leb (length (encode d)) b then (true, some d) ∷ made else (false, none) ∷ waits

  -- The bytes that the pushes of some calls send.
  abbrev pub sending : List (Call Cmd) → ℕ
  sending [] = 0
  sending (pushes d sent ∷ ks) = length (encode d) + sending ks
  sending (pops n ∷ ks) = sending ks

module _ {A : Type 0} where
  -- The channel has the bytes of these commands before it, some of them in its buffer.
  pub record Holds (c : Channel A) (wire bs : List A) : Type 0 where
    pub room : length c.buf < c.buflen
    pub place : (c.rindex < length c.buf) ⊎ ((c.rindex ≡ 0) × (length c.buf ≡ 0))
    pub all : drop c.rindex c.buf ++ wire ≡ bs
