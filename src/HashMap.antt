-- ===== src/HashMap.antt =====
-- container/small_hash_map.h: a hash map of 1023 buckets, each a `std::map` made on first use. Here
-- each operation runs by itself; Threads has the lock of a bucket.
pub mod Hash
pub mod Laws
pub mod Size
pub mod Each
pub mod History
pub mod Threads
mod Tests
use fossilizid.Base.{
  ℕ, zero, suc, ◌+◌, ◌-◌, ◌%◌, ◌^◌, Bool, true, false, Option, none, some, List, [], ◌∷◌, Eq,
  lookup, assign, remove, update, length,
}

-- `mask`, the number of buckets
abbrev pub mask : ℕ
mask = 1023

-- `_hash_array` and `_size`. A bucket is `none` while its `_hash_bucket` is the null pointer. The
-- array is as long as `mask`: an index beyond it is out of range.
pub record Table (K V : Type 0) : Type 0 where
  pub hash_array : ℕ → Option (List (K × V))
  pub size : ℕ  -- atomic_uint

abbrev pub u32 : ℕ → ℕ
u32 n = n % 2 ^ 32

-- What `set` comes to: its result with the map, or a `find` through the null pointer.
pub data Assigned (K V : Type 0) : Type 0 where
  null_read : Assigned K V
  returns : Bool → Table K V → Assigned K V

-- `_hash_array` when the constructor has run. (It leaves `_size` as it finds it.)
abbrev pub create : {K V : Type 0} → ℕ → Table K V
create size = record { hash_array = λ _. none; size = size }

module _ {K V : Type 0} ⦃e : Eq K⦄ where
  -- The map of a bucket after `insert`.
  abbrev pub inserted : K → V → Option (List (K × V)) → List (K × V)
  inserted k v none = (k, v) ∷ []
  inserted k v (some l) = elim (lookup k l) [ none ↦ (k, v) ∷ l | some w ↦ assign k v l ]

-- `hash` is `hash(key, mask)`, by the type of the key.
module _ {K V : Type 0} ⦃e : Eq K⦄ (hash : K → ℕ) where
  pub set : K → V → Table K V → Assigned K V
  set k v m = elim (m.hash_array (hash k)) [
    | none ↦ null_read
    | some l ↦ elim (lookup k l) [
      | none ↦ returns false m
      | some w ↦
          returns true
            (record m { hash_array = update m.hash_array (hash k) (some (assign k v l)) })
    ]
  ]

  pub insert : K → V → Table K V → Table K V
  insert k v m = record m {
    hash_array = update m.hash_array (hash k) (some (inserted k v (m.hash_array (hash k))));
    size = u32 (m.size + 1);
  }

  pub search : K → Table K V → Option V
  search k m = elim (m.hash_array (hash k)) [ none ↦ none | some l ↦ lookup k l ]

  pub erase : K → Table K V → Bool × Table K V
  erase k m = elim (m.hash_array (hash k)) [
    | none ↦ (false, m)
    | some l ↦ elim (lookup k l) [
      | none ↦ (false, m)
      | some w ↦ (
        true,
        record m {
          hash_array = update m.hash_array (hash k) (some (remove k l));
          size = u32 (m.size + (2 ^ 32 - 1));
        },
      )
    ]
  ]

-- `size`
pub size : {K V : Type 0} → Table K V → ℕ
size m = m.size

-- The entries of a bucket, and of the first `n` buckets.
abbrev pub held : {K V : Type 0} → Option (List (K × V)) → ℕ
held none = 0
held (some l) = length l

pub entries : {K V : Type 0} → ℕ → Table K V → ℕ
entries zero m = 0
entries (suc n) m = entries n m + held (m.hash_array n)
