-- ===== src/Pool/Tests.antt =====
-- Runs of the pool, and the theorems at concrete states.
use fossilizid.Base.{
  ◌≢◌, ◌+◌, if◌then◌else◌, length, false, ℕ, ◌+◌, ◌*◌, ◌≤◌, ◌<◌, ◌≡◌, refl, ◌∷◌, [], true, arith,
  ◌==◌, Bool,
}
use fossilizid.Pool.Init.{
  Arena, covers, block_len, make_block, make_blocks, mempool, make_block-words,
}
use fossilizid.Pool.{
  insert_chunk, Pool, no_block, standardization_lenght, allocator, take_from, take_block,
  lower_bound,
}
use fossilizid.Pool.Objects.{
  objpool_allocator, objpool_deallocator, create, release, create-release,
}
use fossilizid.Pool.Reuse.{allocator_twice}

-- Two cores; the second has a block of 69632 bytes.
abbrev cores : Pool
cores = record {
  vpool = no_block ∷ record { recvlist = λ _. 0; recvlistchunk = (69632, 40) ∷ [] } ∷ [];
  link = λ _. 0;
}

abbrev all_free : ℕ → Bool
all_free _ = true

handed_out : (allocator all_free 90 69000 cores).0 ≡ 40
unfolding allocator take_from take_block standardization_lenght lower_bound
handed_out = refl

allocator_twice_example :
    let r = allocator all_free 90 69000 cores in
    ((allocator all_free 91 69000 r.1).0 ≡ r.0) × (r.1.vpool ≡ cores.vpool)
allocator_twice_example =
    allocator_twice all_free 90 91 69000 cores (omega arith) (ground (arith, handed_out))

-- The first two locks are held by others.
abbrev third_try : ℕ → Bool
third_try k = k == 2

-- A second block of the same length is not kept.
insert_same : insert_chunk 69632 41 ((69632, 40) ∷ []) ≡ (69632, 40) ∷ []
unfolding insert_chunk
insert_same = refl

-- Addresses far apart.
abbrev blocks : ℕ → ℕ
blocks i = 100000 * (1 + i)

abbrev dirty : Arena
dirty = record { size = λ _. 0; word = λ _. 7; overruns = [] }

-- The constructor makes the blocks of each core, and nothing where it has run.
constructs :
    (length (mempool false 2 (λ c i. 1000000 * c + blocks i) dirty).overruns ≡ 4)
    × (mempool true 2 (λ c i. blocks i) dirty ≡ dirty)
unfolding mempool make_blocks make_block
constructs = (refl, refl)

block_len_le : (i : ℕ) → block_len i ≤ 65536
block_len_le i = ground arith

blocks_apart : (i j : ℕ) → i ≢ j → covers (blocks j) (block_len j) (blocks i) ≡ false
blocks_apart i j n = ground (arith, n, block_len_le j)

make_block-words_example :
    let r = make_block blocks dirty in
    ((i : ℕ) → i ≤ 4 → r.word (blocks i) ≡ 0)
    × ((i : ℕ)
        → 4 < i
        → i ≤ 10
        → r.word (blocks i) ≡ (if covers 500000 65536 (blocks i) then 0 else 7))
    × (r.overruns ≡ (500000, 32768) ∷ (500000, 32768) ∷ [])
make_block-words_example = make_block-words blocks dirty blocks_apart

create-release_example :
    let gone = release 8 1 5000 3 cores in
    let made = create 8 (λ j. j == 1) 90 3 gone.1 in
    let taken = objpool_allocator 8 (λ j. j == 1) 90 3 gone.1 in
    (made.0 ≡ 5000)
    × (made.1 ≡ gone.0)
    × (made.2.vpool ≡ cores.vpool)
    × (taken.0 ≡ 5000)
    × (objpool_deallocator 8 1 5000 3 cores ≡ gone)
create-release_example =
    create-release 8 1 3 5000 90 cores (omega arith) (omega arith) (omega arith)
