-- ===== src/HashMap/Threads/Known.antt =====
-- What a thread knows of the map of a bucket that has one.
use mathlib.Core.Path.{subst}
use fossilizid.Base.{
  ◌≡◌, ◌≢◌, ◌⊎◌, inl, inr, refl, true, false, none, some, List, Eq, lookup, Ptr, arith,
}
use fossilizid.HashMap.Threads.{
  Bucket, Pc, set_enter, set_load, set_find, set_write, set_leave, null_read, ins_enter, ins_load,
  ins_grow, ins_make, ins_find, ins_write, ins_wait, ins_add, ins_count, sea_enter, sea_load,
  sea_find, sea_read, sea_leave, era_enter, era_load, era_find, era_wait, era_cut, era_leave, free,
  exclusive, mode, waits, step, begins, entries,
}

module _ {K V : Type 0} ⦃e : Eq K⦄ where
  -- What a thread has found of its key, and that it has not made the map.
  abbrev pub Known : List (K × Ptr) → Pc K V → Type 0
  Known l (set_write k n v) = lookup k l ≡ some n
  Known l null_read = ⊥
  Known l (ins_grow k v) = ⊥
  Known l (ins_make k v) = ⊥
  Known l (ins_find false k v) = ⊥
  Known l (ins_write true k n v) = lookup k l ≡ some n
  Known l (ins_write false k n v) = ⊥
  Known l (ins_wait k v) = lookup k l ≡ none
  Known l (ins_add true k v) = lookup k l ≡ none
  Known l (ins_add false k v) = ⊥
  Known l (sea_read k n) = lookup k l ≡ some n
  Known l (era_wait k) = lookup k l ≢ none
  Known l (era_cut k) = lookup k l ≢ none
  Known l p = Unit {0}

  -- A thread without the lock knows nothing of the entries.
  pub free-Known : (l l' : List (K × Ptr)) (p : Pc K V) → mode p ≡ free → Known l p → Known l' p
  unfolding mode
  free-Known l l' (set_write k n v) h w = absurd (ground (arith, h))
  free-Known l l' null_read h w = w
  free-Known l l' (ins_grow k v) h w = w
  free-Known l l' (ins_make k v) h w = w
  free-Known l l' (ins_find true k v) h w = tt
  free-Known l l' (ins_find false k v) h w = w
  free-Known l l' (ins_write true k n v) h w = absurd (ground (arith, h))
  free-Known l l' (ins_write false k n v) h w = w
  free-Known l l' (ins_wait k v) h w = absurd (ground (arith, h))
  free-Known l l' (ins_add true k v) h w = absurd (ground (arith, h))
  free-Known l l' (ins_add false k v) h w = w
  free-Known l l' (sea_read k n) h w = absurd (ground (arith, h))
  free-Known l l' (era_wait k) h w = absurd (ground (arith, h))
  free-Known l l' (era_cut k) h w = absurd (ground (arith, h))
  free-Known l l' p h w = tt

  pub begins-Known : (l : List (K × Ptr)) (p : Pc K V) → begins p ≡ true → Known l p
  begins-Known l (set_enter k v) h = tt
  begins-Known l (ins_enter k v) h = tt
  begins-Known l (sea_enter k) h = tt
  begins-Known l (era_enter k) h = tt
  begins-Known l p h = absurd (ground (arith, h))

  -- The lock that a thread has waited for tells it nothing, and takes nothing that it knew.
  pub waits-Known : (l : List (K × Ptr)) (p q : Pc K V) → waits p ≡ some q → Known l p → Known l q
  unfolding waits
  waits-Known l (set_enter k v) q h w =
      let g : set_load k v ≡ q = ground (arith, h) in subst (Known l) g tt
  waits-Known l (ins_enter k v) q h w =
      let g : ins_load k v ≡ q = ground (arith, h) in subst (Known l) g tt
  waits-Known l (ins_grow k v) q h w =
      let g : ins_make k v ≡ q = ground (arith, h) in subst (Known l) g w
  waits-Known l (ins_wait k v) q h w =
      let g : ins_add true k v ≡ q = ground (arith, h) in subst (Known l) g w
  waits-Known l (sea_enter k) q h w =
      let g : sea_load k ≡ q = ground (arith, h) in subst (Known l) g tt
  waits-Known l (era_enter k) q h w =
      let g : era_load k ≡ q = ground (arith, h) in subst (Known l) g tt
  waits-Known l (era_wait k) q h w =
      let g : era_cut k ≡ q = ground (arith, h) in subst (Known l) g w
  waits-Known l p q h w = absurd (ground (arith, h))

  Known-found :
      (l : List (K × Ptr)) (k : K) (a : Pc K V) (b : Ptr → Pc K V)
      → (lookup k l ≡ none → Known l a)
      → ((n : Ptr) → lookup k l ≡ some n → Known l (b n))
      → Known l (elim (lookup k l) [ none ↦ a | some n ↦ b n ])
  Known-found l k a b f g =
      elim (lookup k l) as (λ o. lookup k l ≡ o → Known l (elim o [ none ↦ a | some n ↦ b n ])) [
        | none ↦ f
        | some n ↦ g n
      ]
        refl

  -- After its own access.
  pub step-Known :
      (m : Bucket K V) (l : List (K × Ptr)) (p : Pc K V)
      → m.hash_bucket ≡ some l
      → Known l p
      → Known (entries (step m p).0.hash_bucket) (step m p).1
  unfolding step
  step-Known m l (set_load k v) h w = rw h tt
  step-Known m l (set_find k v) h w =
      rw h (Known-found l k (set_leave false) (λ n. set_write k n v) (λ z. tt) (λ n z. z))
  step-Known m l (ins_load k v) h w = rw h tt
  step-Known m l (ins_find true k v) h w =
      rw h (Known-found l k (ins_wait k v) (λ n. ins_write true k n v) (λ z. z) (λ n z. z))
  step-Known m l (ins_count true) h w = tt
  step-Known m l (ins_count false) h w = tt
  step-Known m l (sea_load k) h w = rw h tt
  step-Known m l (sea_find k) h w =
      rw h (Known-found l k (sea_leave none) (λ n. sea_read k n) (λ z. tt) (λ n z. z))
  step-Known m l (era_load k) h w = rw h tt
  step-Known m l (era_find k) h w =
      rw h (Known-found l k era_leave (λ n. era_wait k) (λ z. tt) (λ n z e. ground (arith, z, e)))
  step-Known m l null_read h w = w
  step-Known m l (ins_grow k v) h w = w
  step-Known m l (ins_make k v) h w = w
  step-Known m l (ins_find false k v) h w = absurd w
  step-Known m l (ins_write false k n v) h w = absurd w
  step-Known m l (ins_write true k n v) h w = tt
  step-Known m l (ins_add false k v) h w = tt
  step-Known m l (ins_wait k v) h w = rw h w
  step-Known m l (era_wait k) h w = rw h w
  step-Known m l p h w = tt

  -- Only a thread with the exclusive lock changes the entries.
  pub step-entries :
      (m : Bucket K V) (l : List (K × Ptr)) (p : Pc K V)
      → m.hash_bucket ≡ some l
      → Known l p
      → ((step m p).0.hash_bucket ≡ some l) ⊎ (mode p ≡ exclusive)
  unfolding step mode
  step-entries m l (ins_make k v) h w = inr refl
  step-entries m l (ins_add true k v) h w = inr refl
  step-entries m l (ins_add false k v) h w = absurd w
  step-entries m l (era_cut k) h w = inr refl
  step-entries m l p h w = inl h
