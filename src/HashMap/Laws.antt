-- ===== src/HashMap/Laws.antt =====
-- What `search` finds after each operation.
use fossilizid.Base.{
  ℕ, ◌+◌, ◌≡◌, ◌≢◌, refl, sym, ap, ◌∙◌, Bool, ◌&&◌, true, false, Bool-cases, inl, inr, Option, none,
  some, List, arith, Eq, lookup, assign, remove, lookup-assign, lookup-remove, if◌then◌else◌,
  Option-cases, ◌-◌, ◌^◌, update, ◌==◌,
}
use fossilizid.HashMap.{Table, null_read, returns, set, insert, inserted, search, erase, u32}

-- Equal keys have equal hash values.
same_hash : {K : Type 0} ⦃e : Eq K⦄ (hash : K → ℕ) (k j : K) → e.beq k j ≡ true → hash k ≡ hash j
same_hash ⦃e⦄ hash k j h = ap hash ((e.beq_iff k j).0 h)

abbrev pub is_some {ℓ} : {A : Type ℓ} → Option A → Bool
is_some none = false
is_some (some _) = true

module _ {K V : Type 0} ⦃e : Eq K⦄ where
  -- `find` in a bucket that may not have its map yet
  abbrev pub find : K → Option (List (K × V)) → Option V
  find k none = none
  find k (some l) = lookup k l

  find-inserted :
      (k j : K) (v : V) (o : Option (List (K × V)))
      → lookup j (inserted k v o) ≡ (if e.beq k j then some v else find j o)
  find-inserted k j v none = refl
  find-inserted k j v (some l) = ground (arith, lookup-assign k j v l, e.beq_iff k j)

  module _ (hash : K → ℕ) where
    pub search-find : (k : K) (m : Table K V) → search hash k m ≡ find k (m.hash_array (hash k))
    unfolding search
    search-find k m = ground arith

    -- The table after the bucket of `k` has become `l`.
    abbrev stored : K → List (K × V) → ℕ → Table K V → Table K V
    stored k l z m = record { hash_array = update m.hash_array (hash k) (some l); size = z }

    -- A bucket that changes for one key only changes the table for that key only.
    search-stored :
        (k j : K) (l : List (K × V)) (z : ℕ) (m : Table K V) (o : Option V)
        → lookup j l ≡ (if e.beq k j then o else find j (m.hash_array (hash k)))
        → search hash j (stored k l z m) ≡ (if e.beq k j then o else search hash j m)
    unfolding search
    search-stored k j l z m o h = elim (Bool-cases (hash k == hash j)) [
      | inl y ↦ ground (arith, h)
      | inr n ↦ ground (arith, same_hash hash k j)
    ]

    -- After `insert`, `search` finds the value at its key, new or not, and at the other keys what
    -- it found before.
    pub search-insert :
        (k j : K) (v : V) (m : Table K V)
        → search hash j (insert hash k v m) ≡ (if e.beq k j then some v else search hash j m)
    unfolding insert
    search-insert k j v m =
        search-stored k j (inserted k v (m.hash_array (hash k))) (u32 (m.size + 1)) m (some v)
          (find-inserted k j v (m.hash_array (hash k)))

    -- The two ways in which a key is not there, and the one in which it is.
    data Bucket (k : K) (m : Table K V) : Type 0 where
      absent : search hash k m ≡ none → erase hash k m ≡ (false, m) → Bucket k m
      present :
          (l : List (K × V)) (w : V)
          → m.hash_array (hash k) ≡ some l
          → lookup k l ≡ some w
          → Bucket k m

    bucket : (k : K) (m : Table K V) → Bucket k m
    unfolding search erase
    bucket k m = elim (Option-cases (m.hash_array (hash k))) [
      | inl n ↦ absent (ground arith) (ground arith)
      | inr (l, y) ↦ elim (Option-cases (lookup k l)) [
        | inl n ↦ absent (ground arith) (ground arith)
        | inr (w, z) ↦ present l w y z
      ]
    ]

    erase_present :
        (k : K) (m : Table K V) (l : List (K × V)) (w : V)
        → m.hash_array (hash k) ≡ some l
        → lookup k l ≡ some w
        → erase hash k m ≡ (true, stored k (remove k l) (u32 (m.size + (2 ^ 32 - 1))) m)
    unfolding erase
    erase_present k m l w y z = ground arith

    set_present :
        (k : K) (v : V) (m : Table K V) (l : List (K × V)) (w : V)
        → m.hash_array (hash k) ≡ some l
        → lookup k l ≡ some w
        → set hash k v m ≡ returns true (stored k (assign k v l) m.size m)
    unfolding set
    set_present k v m l w y z = ground arith

    set_absent :
        (k : K) (v : V) (m : Table K V)
        → m.hash_array (hash k) ≢ none
        → search hash k m ≡ none
        → set hash k v m ≡ returns false m
    unfolding set search
    set_absent k v m u n = ground arith

    -- `erase` returns whether the key was there; afterwards `search` finds nothing at it, and at
    -- the other keys what it found before.
    pub search-erase :
        (k j : K) (m : Table K V)
        → ((erase hash k m).0 ≡ is_some (search hash k m))
          × (search hash j (erase hash k m).1 ≡ (if e.beq k j then none else search hash j m))
    search-erase k j m = elim (bucket k m) [
      | absent n y ↦ rw (y, n) (refl, ground (arith, e.beq_iff k j))
      | present l w y z ↦ rw (erase_present k m l w y z) (
        ground (arith, search-find k m),
        search-stored k j (remove k l) (u32 (m.size + (2 ^ 32 - 1))) m none
            (lookup-remove k j l ∙ ap (λ o. if e.beq k j then none else find j o) (sym y)),
      )
    ]

    -- In a bucket that has its map, `set` returns whether the key was there; afterwards `search`
    -- finds the value at the key if it was there, and elsewhere what it found before.
    pub search-set :
        (k j : K) (v : V) (m : Table K V)
        → m.hash_array (hash k) ≢ none
        → (m' : Table K V) × (set hash k v m ≡ returns (is_some (search hash k m)) m')
          × (search hash j m'
              ≡ (if e.beq k j && is_some (search hash k m) then some v else search hash j m))
    search-set k j v m u = elim (bucket k m) [
      | absent n y ↦ (m, ground (arith, set_absent k v m u n), ground arith)
      | present l w y z ↦ (
        stored k (assign k v l) m.size m,
        ground (arith, set_present k v m l w y z, search-find k m),
        search-stored k j (assign k v l) m.size m (some v)
              (ground (arith, lookup-assign k j v l, e.beq_iff k j))
            ∙ ground (arith, search-find k m),
      )
    ]

    -- In a bucket without a map, that is, before the first `insert` there, `set` reads through
    -- the null pointer, where `search` and `erase` return that the key is not there.
    pub set_unused :
        (k : K) (v : V) (m : Table K V)
        → m.hash_array (hash k) ≡ none
        → (set hash k v m ≡ null_read) × (search hash k m ≡ none) × (erase hash k m ≡ (false, m))
    unfolding set search erase
    set_unused k v m u = (ground arith, ground arith, ground arith)
