-- ===== src/Uuid.antt =====
-- uuid/uuid.cpp: the sixteen bytes of an identifier and the counter that ends it. The time, the
-- address of the adapter, the process, the clock and the random number are parameters.
mod Tests
use fossilizid.Base.{
  ℕ, zero, suc, ◌+◌, ◌/◌, ◌%◌, ◌^◌, ◌<◌, ◌≡◌, ◌≢◌, refl, ap, List, [], ◌∷◌, ◌++◌, ◌==◌,
  if◌then◌else◌, arith, get_or,
}

-- What `UUID` asks the system for; `address` has the six bytes of the adapter.
pub record Sources : Type 0 where
  pub time : ℕ
  pub address : ℕ → ℕ
  pub process : ℕ
  pub clock : ℕ
  pub rand : ℕ

-- The byte `i` of a number
abbrev pub byte : ℕ → ℕ → ℕ
byte i n = n / 256 ^ i % 256

-- The counter after a call, an unsigned char
pub next_key : ℕ → ℕ
next_key key = if (key + 1) % 256 == 0 then 1 else (key + 1) % 256

-- The bytes, with the counter after the call.
pub make_uuid : Sources → ℕ → List ℕ × ℕ
make_uuid s key = (
  byte 0 s.time
      ∷ byte 1 s.time
      ∷ byte 2 s.time
      ∷ byte 3 s.time
      ∷ s.address 0
      ∷ s.address 1
      ∷ s.address 2
      ∷ s.address 3
      ∷ s.address 4
      ∷ s.address 5
      ∷ byte 0 s.process
      ∷ byte 1 s.process
      ∷ byte 0 s.clock
      ∷ byte 1 s.clock
      ∷ (s.rand % 256 + 1) % 256
      ∷ key
      ∷ [],
  next_key key,
)

-- The counter after a number of calls
abbrev pub key_after : (ℕ → Sources) → ℕ → ℕ
key_after s zero = 1
key_after s (suc n) = (make_uuid (s n) (key_after s n)).1

pub key_after-mod : (s : ℕ → Sources) (n : ℕ) → key_after s n ≡ n % 255 + 1
unfolding make_uuid next_key
key_after-mod s zero = refl
key_after-mod s (suc n) = ground (arith, key_after-mod s n)

-- Two of any 255 calls in a row return different identifiers, whatever the system gives them.
pub make_uuid-distinct :
    (s : ℕ → Sources) (i j : ℕ)
    → i < j
    → j < i + 255
    → (make_uuid (s i) (key_after s i)).0 ≢ (make_uuid (s j) (key_after s j)).0
unfolding make_uuid
make_uuid-distinct s i j h k e =
    let q = ap (λ l. get_or l 15 0) e in omega (arith, q, key_after-mod s i, key_after-mod s j)
