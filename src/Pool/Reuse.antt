-- ===== src/Pool/Reuse.antt =====
-- Which blocks `allocator` hands out again.
use fossilizid.Base.{
  ℕ, zero, suc, ◌+◌, ◌*◌, ◌/◌, ◌≤◌, ◌<◌, ◌≡◌, ◌≢◌, refl, ap, ◌∙◌, Bool, true, none, some, List, [],
  ◌∷◌, arith, Bool-cases, inl, inr, ◌==◌, if◌then◌else◌, Ptr, null, update, get_or, length,
}
use mathlib.Core.Path.{fun_ext}
use native.Mathlib.Decide.{dec_le}
use fossilizid.Pool.{
  Block, Pool, standardization_lenght, take_block, take_from, allocator, give_block, on_core,
  give_to, no_block, core_taken, deallocator,
}

-- A free list that takes a block and gives it back is as before.
update_undo : (f : ℕ → Ptr) (c : ℕ) (v : Ptr) → update (update f c v) c (f c) ≡ f
update_undo f c v = fun_ext λ i. ground arith

-- The three kinds of lengths.
short :
    (len : ℕ)
    → len ≤ 512
    → (r : ℕ) × (c : ℕ) × (standardization_lenght len ≡ (r, some c)) × (r ≤ 4096)
unfolding standardization_lenght
short len h = elim (dec_le len 8) [
  | yes a ↦ (8, 0, ground arith, omega arith)
  | no a ↦ elim (dec_le len 32) [
    | yes b ↦ (32, 1, ground arith, omega arith)
    | no b ↦ elim (dec_le len 128) [
      | yes d ↦ (128, 2, ground arith, omega arith)
      | no d ↦ (512, 3, ground arith, omega arith)
    ]
  ]
]

middle :
    (len : ℕ)
    → 512 < len
    → len ≤ 65536
    → (r : ℕ) × (c : ℕ) × (standardization_lenght len ≡ (r, some c)) × (4096 < r)
unfolding standardization_lenght
middle len h k = elim (dec_le len 32768) [
  | yes a ↦ (32768, 4, ground arith, omega arith)
  | no a ↦ (65536, 5, ground arith, omega arith)
]

long : (len : ℕ) → 65536 < len → (r : ℕ) × (standardization_lenght len ≡ (r, none))
unfolding standardization_lenght
long len h = ((len + 4095) / 4096 * 4096, ground arith)

take-give :
    (b : Block) (buff : Ptr) (len c : ℕ) (link : Ptr → Ptr)
    → buff ≢ null
    → len ≤ 4096
    → link buff ≡ b.recvlist c
    → take_block link len (some c) (give_block buff len (some c) b) ≡ (buff, b)
unfolding take_block
take-give b buff len c link n h e = ground (arith, e, update_undo b.recvlist c buff)

shift : (i : ℕ) → ◌≡◌ {A = ℕ → Bool} (λ j. suc j == suc i) (λ j. j == i)
shift i = fun_ext λ j. ground arith

take_from-on_core :
    (bs : List Block) (i : ℕ) (buff : Ptr) (len c : ℕ) (link : Ptr → Ptr)
    → i < length bs
    → buff ≢ null
    → len ≤ 4096
    → link buff ≡ (get_or bs i no_block).recvlist c
    → take_from (λ j. j == i) link len (some c) (on_core i (give_block buff len (some c)) bs)
      ≡ (buff, bs)
unfolding take_from
take_from-on_core [] i buff len c link h n z e = absurd (omega arith)
take_from-on_core (b ∷ bs) zero buff len c link h n z e =
    ground (arith, take-give b buff len c link n z e)
take_from-on_core (b ∷ bs) (suc i) buff len c link h n z e =
    let l = on_core i (give_block buff len (some c)) bs in
    ground (
      arith,
      ap (λ o. take_from o link len (some c) l) (shift i)
          ∙ take_from-on_core bs i buff len c link (omega arith) n z e,
    )

-- Of the lengths up to 512, a block that core `i` is given is the next that `allocator` returns for
-- that length, if it finds the lock of that core only; the free lists and maps are then as before.
pub allocator-give_to :
    (i len : ℕ) (buff malloc : Ptr) (p : Pool)
    → i < length p.vpool
    → buff ≢ null
    → len ≤ 512
    → let r = allocator (λ j. j == i) malloc len (give_to i buff len p) in
      (r.0 ≡ buff) × (r.1.vpool ≡ p.vpool)
unfolding allocator give_to
allocator-give_to i len buff malloc p h n z =
    let (r, c, e, q) = short len z in
    let b = get_or p.vpool i no_block in
    ground (
      arith,
      e,
      take_from-on_core p.vpool i buff r c (update p.link buff (b.recvlist c)) h n q (ground arith),
    )

take_none :
    (owns : ℕ → Bool) (link : Ptr → Ptr) (len c : ℕ) (bs : List Block)
    → 4096 < len
    → take_from owns link len (some c) bs ≡ (null, bs)
unfolding take_from take_block
take_none owns link len c [] h = refl
take_none owns link len c (b ∷ bs) h = ground (arith, take_none (λ i. owns (suc i)) link len c bs h)

-- From 513 to 65536, every allocation calls malloc, whatever the free lists hold, and leaves them
-- as they are.
pub allocator_large :
    (owns : ℕ → Bool) (malloc : Ptr) (len : ℕ) (p : Pool)
    → 512 < len
    → len ≤ 65536
    → let r = allocator owns malloc len p in (r.0 ≡ malloc) × (r.1.vpool ≡ p.vpool)
unfolding allocator
allocator_large owns malloc len p h z =
    let (r, c, e, q) = middle len h z in ground (arith, e, take_none owns p.link r c p.vpool q)

take_chunk :
    (owns : ℕ → Bool) (link : Ptr → Ptr) (len : ℕ) (bs : List Block)
    → (take_from owns link len none bs).1 ≡ bs
unfolding take_from take_block
take_chunk owns link len [] = refl
take_chunk owns link len (b ∷ bs) = ground (arith, take_chunk (λ i. owns (suc i)) link len bs)

take_chunk-link :
    (owns : ℕ → Bool) (k l : Ptr → Ptr) (len : ℕ) (bs : List Block)
    → take_from owns k len none bs ≡ take_from owns l len none bs
unfolding take_from take_block
take_chunk-link owns k l len [] = refl
take_chunk-link owns k l len (b ∷ bs) =
    ground (arith, take_chunk-link (λ i. owns (suc i)) k l len bs)

-- Beyond 65536, an allocation leaves the maps as they are: if it returns a block of a map, the next
-- one of that length that finds the same locks returns the same block again.
pub allocator_twice :
    (owns : ℕ → Bool) (m n : Ptr) (len : ℕ) (p : Pool)
    → 65536 < len
    → (allocator owns m len p).0 ≢ m
    → let r = allocator owns m len p in ((allocator owns n len r.1).0 ≡ r.0) × (r.1.vpool ≡ p.vpool)
unfolding allocator
allocator_twice owns m n len p h z =
    let (r, e) = long len h in
    let found = take_from owns p.link r none p.vpool in
    let out = if found.0 == null then m else found.0 in
    ground (
      arith,
      e,
      take_chunk owns p.link r p.vpool,
      take_chunk-link owns (update p.link out 0) p.link r p.vpool,
    )

core_taken-some :
    (n k i cores : ℕ) (tries : ℕ → Bool)
    → i < cores
    → k < n
    → tries k ≡ true
    → (j : ℕ) × (core_taken n tries cores i ≡ some j) × (j < cores)
unfolding core_taken
core_taken-some zero k i cores tries h z t = absurd (omega arith)
core_taken-some (suc n) zero i cores tries h z t = (i, ground arith, h)
core_taken-some (suc n) (suc k) i cores tries h z t =
    let next = if suc i == cores then 0 else suc i in
    let (j, e, q) =
      core_taken-some n k next cores (λ m. tries (suc m)) (ground arith) (omega arith) t in
    elim (Bool-cases (tries 0)) [ inl y ↦ (i, ground arith, h) | inr y ↦ (j, ground (arith, e), q) ]

-- Where one of the first `n` tries takes a lock, `deallocator` returns after at most `n` of them,
-- and has given the block to one of the cores.
deallocator_returns :
    (n k corenum : ℕ) (tries : ℕ → Bool) (buff : Ptr) (len : ℕ) (p : Pool)
    → 0 < corenum
    → k < n
    → tries k ≡ true
    → (i : ℕ) × (i < corenum)
      × (deallocator n tries corenum buff len p ≡ some (give_to i buff len p))
unfolding deallocator
deallocator_returns n k corenum tries buff len p h z t =
    let (i, e, q) = core_taken-some n k 0 corenum tries h z t in (i, q, ground (arith, e))
