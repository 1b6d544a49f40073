-- ===== src/HashMap/Each.antt =====
-- container/small_hash_map.h: `for_each` and the destructor, each run by itself.
use fossilizid.Base.{
  ℕ, zero, suc, ◌+◌, ◌≤◌, ◌<◌, ◌≡◌, refl, sym, ◌∙◌, Bool, Option, none, some, List, [], ◌∷◌, ◌++◌,
  arith, Eq, update, if◌then◌else◌,
}
use native.Mathlib.Decide.{dec_lt}
use fossilizid.HashMap.{Table, mask, insert, inserted, search, u32}
use fossilizid.HashMap.Laws.{find, search-find}

-- `sorted` puts the entries of a map in the order in which `std::map` iterates over them; `handle`
-- is the callback, with what it changes.
module _ {K V S : Type 0} (sorted : List (K × V) → List (K × V)) (handle : V → S → S) where
  -- The loop over a map
  abbrev pub for_entries : List (K × V) → S → S
  for_entries [] s = s
  for_entries ((k, v) ∷ l) s = for_entries l (handle v s)

  abbrev pub for_bucket : Option (List (K × V)) → S → S
  for_bucket none s = s
  for_bucket (some l) s = for_entries (sorted l) s

  -- The loop over the first `n` buckets
  unfoldable pub for_buckets : ℕ → Table K V → S → S
  for_buckets zero m s = s
  for_buckets (suc n) m s = for_bucket (m.hash_array n) (for_buckets n m s)

  -- `for_each`
  pub for_each : Table K V → S → S
  for_each m s = for_buckets mask m s

-- The buckets whose maps the destructor gives back, of the first `n`.
unfoldable pub destroy : {K V : Type 0} → ℕ → Table K V → List ℕ
destroy zero m = []
destroy (suc n) m = elim (m.hash_array n) [ none ↦ destroy n m | some l ↦ destroy n m ++ (n ∷ []) ]

-- A callback that counts the values that pass a test.
abbrev pub counts : {V : Type 0} → (V → Bool) → V → ℕ → ℕ
counts p v n = (if p v then 1 else 0) + n

module _ {K V : Type 0} (p : V → Bool) where
  -- The entries of a map that pass
  abbrev pub tally : List (K × V) → ℕ
  tally [] = 0
  tally ((k, v) ∷ l) = (if p v then 1 else 0) + tally l

  abbrev pub tally_bucket : Option (List (K × V)) → ℕ
  tally_bucket none = 0
  tally_bucket (some l) = tally l

  tally-inserted :
      ⦃e : Eq K⦄ (k : K) (v : V) (o : Option (List (K × V)))
      → find k o ≡ none
      → tally (inserted k v o) ≡ (if p v then 1 else 0) + tally_bucket o
  tally-inserted k v none h = refl
  tally-inserted k v (some l) h = ground (arith, h)

  module _ (sorted : List (K × V) → List (K × V)) where
    for_entries-counts :
        (l : List (K × V)) (n : ℕ) → for_entries sorted (counts p) l n ≡ tally l + n
    for_entries-counts [] n = omega arith
    for_entries-counts ((k, v) ∷ l) n = omega (arith, for_entries-counts l (counts p v n))

    module _ (keeps : (l : List (K × V)) → tally (sorted l) ≡ tally l) where
      for_bucket-counts :
          (o : Option (List (K × V))) (n : ℕ)
          → for_bucket sorted (counts p) o n ≡ tally_bucket o + n
      for_bucket-counts none n = omega arith
      for_bucket-counts (some l) n = omega (arith, for_entries-counts (sorted l) n, keeps l)

      -- The calls for a bucket, with those for the buckets before
      calls-suc :
          (n c : ℕ) (m : Table K V)
          → for_buckets sorted (counts p) (suc n) m c
            ≡ tally_bucket (m.hash_array n) + for_buckets sorted (counts p) n m c
      unfolding for_buckets
      calls-suc n c m = for_bucket-counts (m.hash_array n) (for_buckets sorted (counts p) n m c)

      calls-past :
          (n i : ℕ) (o : Option (List (K × V))) (m : Table K V) (z c : ℕ)
          → n ≤ i
          → for_buckets sorted
              (counts p)
              n
              (record { hash_array = update m.hash_array i o; size = z })
              c
            ≡ for_buckets sorted (counts p) n m c
      unfolding for_buckets
      calls-past zero i o m z c h = refl
      calls-past (suc n) i o m z c h = ground (
        arith,
        calls-past n i o m z c,
        calls-suc n c m,
        calls-suc n c (record { hash_array = update m.hash_array i o; size = z }),
      )

      calls-update :
          (n i : ℕ) (o : Option (List (K × V))) (m : Table K V) (z c : ℕ)
          → i < n
          → for_buckets sorted
                (counts p)
                n
                (record { hash_array = update m.hash_array i o; size = z })
                c
              + tally_bucket (m.hash_array i)
            ≡ for_buckets sorted (counts p) n m c + tally_bucket o
      calls-update zero i o m z c h = absurd (omega arith)
      calls-update (suc n) i o m z c h =
          let t : Table K V = record { hash_array = update m.hash_array i o; size = z } in
          elim (dec_lt i n) [
            | yes l ↦ ground (arith, calls-update n i o m z c l, calls-suc n c m, calls-suc n c t)
            | no g ↦ ground (arith, calls-past n i o m z c, calls-suc n c m, calls-suc n c t)
          ]

      -- for_each calls the callback for the value of a new key once more than before insert, and
      -- for the others as often as before, whatever is counted of the values and in whatever order
      -- a map is iterated over.
      for_each-insert :
          ⦃e : Eq K⦄ (hash : K → ℕ) (k : K) (v : V) (m : Table K V) (c : ℕ)
          → hash k < mask
          → search hash k m ≡ none
          → for_each sorted (counts p) (insert hash k v m) c
            ≡ (if p v then 1 else 0) + for_each sorted (counts p) m c
      unfolding for_each insert
      for_each-insert hash k v m c h s =
          let o = m.hash_array (hash k) in
          omega (
            arith,
            calls-update mask (hash k) (some (inserted k v o)) m (u32 (m.size + 1)) c h,
            tally-inserted k v o (sym (search-find hash k m) ∙ s),
          )
