-- ===== src/HashMap/Hash.antt =====
-- The hash functions of the map, for each type of key, and the range of the index that they give.
use Prim.Native.Nat.{bit_xor}
use fossilizid.Base.{
  ℕ, suc, ◌+◌, ◌-◌, ◌*◌, ◌/◌, ◌%◌, ◌^◌, ◌<◌, ◌≡◌, ◌↔◌, refl, ap, ◌∙◌, List, [], ◌∷◌, arith, ltb,
  if◌then◌else◌,
}
use fossilizid.HashMap.{mask, u32}

-- A signed integer; `negsuc n` is -(n + 1).
pub data ℤ : Type 0 where
  pos : ℕ → ℤ
  negsuc : ℕ → ℤ

-- `hash(std::string &, mod)`, and the same over `char *`, `wchar_t *` and `std::wstring &`. A
-- character is what its conversion to `unsigned int` gives.
hash_chars : ℕ → List ℕ → ℕ
hash_chars hash [] = hash
hash_chars hash (c ∷ cs) = hash_chars (u32 (hash + u32 (u32 (hash * 2 ^ 5) + hash + c))) cs

unfoldable pub hash_string : ℕ → List ℕ → ℕ
unfolding hash_chars
hash_string m key = hash_chars 5831 key % m

abbrev not32 : ℕ → ℕ
not32 n = 2 ^ 32 - 1 - u32 n

-- `hash(uint32_t, mod)`
unfoldable pub hash_uint32 : ℕ → ℕ → ℕ
hash_uint32 m key =
    let a = u32 (key + not32 (key * 2 ^ 15)) in
    let b = bit_xor a (a / 2 ^ 10) in
    let c = u32 (b + b * 2 ^ 3) in
    let d = bit_xor c (c / 2 ^ 6) in
    let f = u32 (d + not32 (d * 2 ^ 11)) in bit_xor f (f / 2 ^ 16) % m

-- `key % mod` over signed numbers takes the sign of `key`; the result becomes an `unsigned int`.
abbrev rem_u32 : ℤ → ℕ → ℕ
rem_u32 (pos n) m = n % m
rem_u32 (negsuc n) m = u32 (2 ^ 32 - suc n % m)

-- `key >> k` over an `int32_t` as a bit pattern: the sign goes on to the left.
abbrev shift_right : ℕ → ℕ → ℕ
shift_right key k =
    if ltb key (2 ^ 31) then key / 2 ^ k else key / 2 ^ k + (2 ^ 32 - 2 ^ 32 / 2 ^ k)

abbrev signed32 : ℕ → ℤ
signed32 w = if ltb w (2 ^ 31) then pos w else negsuc (2 ^ 32 - w - 1)

-- `hash(int32_t, mod)`, the key and what becomes of it as bit patterns.
unfoldable pub hash_int32 : ℕ → ℕ → ℕ
hash_int32 m key =
    let a = u32 (key + not32 (key * 2 ^ 15)) in
    let b = bit_xor a (shift_right a 10) in
    let c = u32 (b + b * 2 ^ 3) in
    let d = bit_xor c (shift_right c 6) in
    let f = u32 (d + not32 (d * 2 ^ 11)) in rem_u32 (signed32 (bit_xor f (shift_right f 16))) m

-- `hash(int64_t, mod)`
unfoldable pub hash_int64 : ℕ → ℤ → ℕ
hash_int64 m key = rem_u32 key m

-- `hash(uint64_t, mod)`
unfoldable pub hash_uint64 : ℕ → ℕ → ℕ
hash_uint64 m key = key % m

-- The value of a text read as digits to the base 34, with no bound.
abbrev pub polynomial : ℕ → List ℕ → ℕ
polynomial h [] = h
polynomial h (c ∷ cs) = polynomial (34 * h + c) cs

u32-polynomial :
    (g h : ℕ) (s : List ℕ) → u32 g ≡ u32 h → u32 (polynomial g s) ≡ u32 (polynomial h s)
u32-polynomial g h [] e = e
u32-polynomial g h (c ∷ cs) e = u32-polynomial (34 * g + c) (34 * h + c) cs (omega arith)

hash_chars-polynomial : (h : ℕ) (s : List ℕ) → u32 (hash_chars h s) ≡ u32 (polynomial h s)
unfolding hash_chars
hash_chars-polynomial h [] = refl
hash_chars-polynomial h (c ∷ cs) =
    let h' = u32 (h + u32 (u32 (h * 2 ^ 5) + h + c)) in
    hash_chars-polynomial h' cs ∙ u32-polynomial h' (34 * h + c) cs (omega arith)

hash_chars-lt : (h : ℕ) (s : List ℕ) → h < 2 ^ 32 → hash_chars h s < 2 ^ 32
unfolding hash_chars
hash_chars-lt h [] b = b
hash_chars-lt h (c ∷ cs) b =
    hash_chars-lt (u32 (h + u32 (u32 (h * 2 ^ 5) + h + c))) cs (omega arith)

-- The hash of a text is the value of its characters as digits to the base 34 behind 5831, modulo
-- 2^32 and then modulo `m`: no wrap on the way changes it.
pub hash_string-polynomial : (m : ℕ) (s : List ℕ) → hash_string m s ≡ u32 (polynomial 5831 s) % m
unfolding hash_string
hash_string-polynomial m s =
    ap (λ t. t % m)
      (omega (arith, hash_chars-polynomial 5831 s, hash_chars-lt 5831 s (omega arith)))

-- The index of a text or of an unsigned number is one of a bucket. That of a 64-bit number is one
-- for a number from 0 on, and for a negative one exactly where the number of buckets divides it.
pub hash_range :
    (s : List ℕ) (n : ℕ)
    → (hash_string mask s < mask)
      × (hash_uint32 mask n < mask)
      × (hash_uint64 mask n < mask)
      × (hash_int64 mask (pos n) < mask)
      × ((hash_int64 mask (negsuc n) < mask) ↔ (suc n % mask ≡ 0))
unfolding hash_string hash_uint32 hash_uint64 hash_int64
hash_range s n =
    (omega arith, omega arith, omega arith, omega arith, (λ h. omega arith, λ h. omega arith))
