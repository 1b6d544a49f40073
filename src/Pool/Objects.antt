-- ===== src/Pool/Objects.antt =====
-- pool/objpool.h and pool/factory.h: objects of a type, of `size` bytes each, in memory of the
-- pool. A constructor or destructor call is the address of its object. `owns` and `i` say which
-- locks are had, and `malloc` is the address that malloc returns if it is called.
use native.Mathlib.Nat.{mul_comm}
use fossilizid.Base.{
  ℕ, zero, suc, ◌+◌, ◌*◌, ◌≤◌, ◌<◌, ◌≡◌, ◌≢◌, ap, ◌∙◌, Bool, List, [], ◌∷◌, ◌==◌, Ptr, null, length,
}
use fossilizid.Pool.{Pool, allocator, give_to}
use fossilizid.Pool.Reuse.{allocator-give_to}

module _ (size : ℕ) where
  -- The loop over the objects from number `i` on
  abbrev pub objects : Ptr → ℕ → ℕ → List Ptr
  objects p zero i = []
  objects p (suc n) i = (p + size * i) ∷ objects p n (suc i)

  -- `objpool::allocator`; it constructs nothing.
  pub objpool_allocator : (ℕ → Bool) → Ptr → ℕ → Pool → Ptr × Pool
  objpool_allocator owns malloc len p = allocator owns malloc (size * len) p

  -- `objpool::deallocator`
  pub objpool_deallocator : ℕ → Ptr → ℕ → Pool → List Ptr × Pool
  objpool_deallocator i buff count p = (objects buff count 0, give_to i buff (size * count) p)

  -- `factory::create`
  pub create : (ℕ → Bool) → Ptr → ℕ → Pool → Ptr × List Ptr × Pool
  create owns malloc count p =
      let mem = allocator owns malloc (count * size) p in (mem.0, objects mem.0 count 0, mem.1)

  -- `factory::release`
  pub release : ℕ → Ptr → ℕ → Pool → List Ptr × Pool
  release i p count m = (objects p count 0, give_to i p (count * size) m)

  -- Up to 512 bytes, create that finds the lock of core `i` only gets the memory that was released
  -- to that core last for as many objects, constructs the objects that release destroyed, in the
  -- same order, and leaves the free lists as they were before release; the object pool gets that
  -- memory as well.
  pub create-release :
      (i count : ℕ) (b malloc : Ptr) (p : Pool)
      → i < length p.vpool
      → b ≢ null
      → count * size ≤ 512
      → let gone = release i b count p in
        let made = create (λ j. j == i) malloc count gone.1 in
        let taken = objpool_allocator (λ j. j == i) malloc count gone.1 in
        (made.0 ≡ b)
        × (made.1 ≡ gone.0)
        × (made.2.vpool ≡ p.vpool)
        × (taken.0 ≡ b)
        × (objpool_deallocator i b count p ≡ gone)
  unfolding create release objpool_allocator objpool_deallocator
  create-release i count b malloc p h n k =
      let (e, v) = allocator-give_to i (count * size) b malloc p h n k in
      let same : size * count ≡ count * size = mul_comm size count in
      (
        e,
        ap (λ x. objects x count 0) e,
        v,
        ap (λ l. (allocator (λ j. j == i) malloc l (give_to i b (count * size) p)).0) same ∙ e,
        ap (λ l. (objects b count 0, give_to i b l p)) same,
      )
