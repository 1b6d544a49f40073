-- ===== src/Pool.antt =====
-- pool/mempool.cpp with `___mempool___` defined, as src/CMakeLists.txt does: size classes, the free
-- lists and the map of large blocks of each core. A lock that is tried is a choice of the caller;
-- the address that `malloc` returns is a parameter. Lengths are not negative.
pub mod Size
pub mod Reuse
pub mod Init
pub mod Objects
mod Tests
use fossilizid.Base.{
  ℕ, zero, suc, ◌+◌, ◌*◌, ◌/◌, Bool, ◌&&◌, true, false, not, Option, none, some, List, [], ◌∷◌, leb,
  ltb, ◌==◌, if◌then◌else◌, Ptr, null, update, get_or,
}

-- The constants, as they are named and as they are set.
abbrev pub len_1k : ℕ
len_1k = 32768

abbrev pub len_2k : ℕ
len_2k = 65536

abbrev pub len_4k : ℕ
len_4k = 4096

abbrev pub len_8k : ℕ
len_8k = 8192

abbrev pub len_16k : ℕ
len_16k = 16384

abbrev pub len_32k : ℕ
len_32k = 32768

abbrev pub len_64k : ℕ
len_64k = 65536

-- The rounded length, and the index of its free list or `none` for -1.
pub standardization_lenght : ℕ → ℕ × Option ℕ
standardization_lenght len =
    if leb len 8
    then (8, some 0)
    else if leb len 32
    then (32, some 1)
    else if leb len 128
    then (128, some 2)
    else if leb len 512
    then (512, some 3)
    else if leb len len_1k
    then (len_1k, some 4)
    else if leb len len_2k
    then (len_2k, some 5)
    else if leb len len_4k
    then (len_4k, some 6)
    else if leb len len_8k
    then (len_8k, some 7)
    else if leb len len_16k
    then (len_16k, some 8)
    else if leb len len_32k
    then (len_32k, some 9)
    else if leb len len_64k
    then (len_64k, some 10)
    else ((len + 4095) / 4096 * 4096, none)

-- The heads of a core's free lists, and its map from length to large block in the order of keys.
pub record Block : Type 0 where
  pub recvlist : ℕ → Ptr
  pub recvlistchunk : List (ℕ × Ptr)

-- `link` is the first word of each block: while the block is free, the next free one.
pub record Pool : Type 0 where
  pub vpool : List Block
  pub link : Ptr → Ptr

-- `lower_bound`: the value at the first key from `len` on
pub lower_bound : ℕ → List (ℕ × Ptr) → Ptr
lower_bound len [] = null
lower_bound len ((k, v) ∷ l) = if leb len k then v else lower_bound len l

-- `insert` of a map: a key that is there keeps its value.
pub insert_chunk : ℕ → Ptr → List (ℕ × Ptr) → List (ℕ × Ptr)
insert_chunk len v [] = (len, v) ∷ []
insert_chunk len v ((k, w) ∷ l) =
    if ltb len k
    then (len, v) ∷ (k, w) ∷ l
    else if len == k
    then (k, w) ∷ l
    else (k, w) ∷ insert_chunk len v l

-- The body of the loop of `allocator` under the lock of a core.
pub take_block : (Ptr → Ptr) → ℕ → Option ℕ → Block → Ptr × Block
take_block link len (some c) b =
    if leb len len_4k && not (b.recvlist c == null)
    then (b.recvlist c, record b { recvlist = update b.recvlist c (link (b.recvlist c)) })
    else (null, b)
take_block link len none b = (lower_bound len b.recvlistchunk, b)

-- The loop of `allocator`; `owns` says which locks are free.
pub take_from : (ℕ → Bool) → (Ptr → Ptr) → ℕ → Option ℕ → List Block → Ptr × List Block
take_from owns link len c [] = (null, [])
take_from owns link len c (b ∷ bs) =
    let here = if owns 0 then take_block link len c b else (null, b) in
    let rest = take_from (λ i. owns (suc i)) link len c bs in
    if here.0 == null then (rest.0, here.1 ∷ rest.1) else (here.0, here.1 ∷ bs)

-- `allocator`; `malloc` is the address that malloc returns if it is called.
pub allocator : (ℕ → Bool) → Ptr → ℕ → Pool → Ptr × Pool
allocator owns malloc len p =
    let (rounded, c) = standardization_lenght len in
    let found = take_from owns p.link rounded c p.vpool in
    let mem = if found.0 == null then malloc else found.0 in
    (mem, record { vpool = found.1; link = update p.link mem 0 })

-- The loop of `deallocator` takes the locks in turn; `tries` says how each try ends, and the fuel
-- is how many there are. The result is the core whose lock is taken.
pub core_taken : ℕ → (ℕ → Bool) → ℕ → ℕ → Option ℕ
core_taken zero tries corenum i = none
core_taken (suc n) tries corenum i =
    let later = core_taken n (λ k. tries (suc k)) corenum (if suc i == corenum then 0 else suc i) in
    if tries 0 then some i else later

-- What a core does with a block that it is given.
abbrev pub give_block : Ptr → ℕ → Option ℕ → Block → Block
give_block buff len (some c) b = record b { recvlist = update b.recvlist c buff }
give_block buff len none b = record b { recvlistchunk = insert_chunk len buff b.recvlistchunk }

abbrev pub on_core : ℕ → (Block → Block) → List Block → List Block
on_core i f [] = []
on_core zero f (b ∷ bs) = f b ∷ bs
on_core (suc i) f (b ∷ bs) = b ∷ on_core i f bs

abbrev pub no_block : Block
no_block = record { recvlist = λ _. null; recvlistchunk = [] }

abbrev pub give_link : Ptr → Option ℕ → Block → (Ptr → Ptr) → Ptr → Ptr
give_link buff (some c) b link = update link buff (b.recvlist c)
give_link buff none b link = link

-- `deallocator` once it has the lock of core `i`.
pub give_to : ℕ → Ptr → ℕ → Pool → Pool
give_to i buff len p =
    let (rounded, c) = standardization_lenght len in
    record {
      vpool = on_core i (give_block buff rounded c) p.vpool;
      link = give_link buff c (get_or p.vpool i no_block) p.link;
    }

pub deallocator : ℕ → (ℕ → Bool) → ℕ → Ptr → ℕ → Pool → Option Pool
deallocator n tries corenum buff len p = elim (core_taken n tries corenum 0) [
  | none ↦ none
  | some i ↦ some (give_to i buff len p)
]
