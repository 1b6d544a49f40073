-- ===== src/HashMap/Size.antt =====
-- `_size` against the number of entries.
use fossilizid.Base.{
  ℕ, zero, suc, ◌+◌, ◌≤◌, ◌<◌, ◌≡◌, refl, Option, none, some, List, arith, Eq, length, update,
  if◌then◌else◌, length-assign,
}
use native.Mathlib.Decide.{dec_lt}
use fossilizid.HashMap.{Table, insert, inserted, search, entries, held, u32}
use fossilizid.HashMap.Laws.{is_some, find, search-find}

module _ {K V : Type 0} ⦃e : Eq K⦄ where
  length-inserted :
      (k : K) (v : V) (o : Option (List (K × V)))
      → length (inserted k v o) ≡ held o + (if is_some (find k o) then 0 else 1)
  length-inserted k v none = omega arith
  length-inserted k v (some l) = ground (arith, length-assign k v l)

entries-past :
    {K V : Type 0} (n i : ℕ) (o : Option (List (K × V))) (m : Table K V) (z : ℕ)
    → n ≤ i
    → entries n (record { hash_array = update m.hash_array i o; size = z }) ≡ entries n m
unfolding entries
entries-past zero i o m z h = refl
entries-past (suc n) i o m z h = ground (arith, entries-past n i o m z)

entries-update :
    {K V : Type 0} (n i : ℕ) (o : Option (List (K × V))) (m : Table K V) (z : ℕ)
    → i < n
    → entries n (record { hash_array = update m.hash_array i o; size = z }) + held (m.hash_array i)
      ≡ entries n m + held o
unfolding entries
entries-update zero i o m z h = absurd (omega arith)
entries-update (suc n) i o m z h = elim (dec_lt i n) [
  | yes l ↦ ground (arith, entries-update n i o m z l)
  | no g ↦ ground (arith, entries-past n i o m z)
]

module _ {K V : Type 0} ⦃e : Eq K⦄ where
  -- `insert` of a key that is there leaves the number of entries as it is, and of another adds one
  -- entry; `_size` grows by one, modulo 2^32, in both cases.
  pub entries-insert :
      (n : ℕ) (hash : K → ℕ) (k : K) (v : V) (m : Table K V)
      → hash k < n
      → (entries n (insert hash k v m) ≡ entries n m + (if is_some (search hash k m) then 0 else 1))
        × ((insert hash k v m).size ≡ u32 (m.size + 1))
  unfolding insert
  entries-insert n hash k v m h = (
    rw (search-find hash k m) (
        omega (
          arith,
          entries-update n (hash k) (some (inserted k v (m.hash_array (hash k)))) m
              (u32 (m.size + 1)) h,
          length-inserted k v (m.hash_array (hash k)),
        )),
    refl,
  )
