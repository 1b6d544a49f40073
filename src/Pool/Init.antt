-- ===== src/Pool/Init.antt =====
-- pool/mempool.cpp: the constructor. What malloc returns is a parameter, and the first word of a
-- block is what malloc leaves there until it is set.
use fossilizid.Base.{
  ℕ, zero, suc, ◌+◌, ◌-◌, ◌&&◌, leb, true, false, ◌≤◌, ◌<◌, ◌≡◌, ◌≢◌, ap, sym, ◌∙◌, ◌==◌, Bool,
  List, ◌∷◌, ltb, if◌then◌else◌, arith, Ptr, update,
}
use native.Mathlib.Decide.{ℕ_discrete}
use fossilizid.Pool.{len_1k, len_2k, len_4k, len_8k, len_16k, len_32k, len_64k}

-- The bytes of each block, the word at each address, and the memsets that went beyond the end of a
-- block, with the bytes that they wrote there.
pub record Arena : Type 0 where
  pub size : Ptr → ℕ
  pub word : Ptr → ℕ
  pub overruns : List (Ptr × ℕ)

abbrev pub malloc : Ptr → ℕ → Arena → Arena
malloc a len s = record s { size = update s.size a len }

-- Whether the word at `p` is one of the `len` bytes from `a` on; addresses and lengths are whole
-- words.
abbrev pub covers : Ptr → ℕ → Ptr → Bool
covers a len p = leb a p && ltb p (a + len)

abbrev pub memset : Ptr → ℕ → Arena → Arena
memset a len s = record s {
  word = λ p. if covers a len p then 0 else s.word p;
  overruns = if ltb (s.size a) len then (a, len - s.size a) ∷ s.overruns else s.overruns;
}

-- The first block of the free list `i`, and the memset that follows, of the list `j`; `at` has the
-- addresses.
abbrev pub init_list : (ℕ → Ptr) → ℕ → ℕ → ℕ → Arena → Arena
init_list at i j len s = memset (at j) len (malloc (at i) len s)

-- A turn of the loop of the constructor
unfoldable pub make_block : (ℕ → Ptr) → Arena → Arena
make_block at s =
    let small =
      init_list at 3 3 512 (init_list at 2 2 128 (init_list at 1 1 32 (init_list at 0 0 8 s))) in
    let middle =
      init_list at 6 4 len_4k (init_list at 5 4 len_2k (init_list at 4 4 len_1k small)) in
    init_list at 10 4 len_64k
      (init_list at 9 4 len_32k (init_list at 8 4 len_16k (init_list at 7 4 len_8k middle)))

-- The constructor, for a number of cores.
unfoldable pub make_blocks : ℕ → (ℕ → ℕ → Ptr) → Arena → Arena
make_blocks zero at s = s
make_blocks (suc n) at s = make_block (at n) (make_blocks n at s)

unfoldable pub mempool : Bool → ℕ → (ℕ → ℕ → Ptr) → Arena → Arena
mempool init n at s = if init then s else make_blocks n at s

module _ (at : ℕ → Ptr) where
  -- The memset of the block that was just made stays inside it.
  init_list-own :
      (i len : ℕ) (s : Arena)
      → let r = init_list at i i len s in (r.size (at i) ≡ len) × (r.overruns ≡ s.overruns)
  init_list-own i len s = (ground arith, ground arith)

  -- The memset of the block of list 4 stays inside it up to its length.
  init_list-other :
      (i len : ℕ) (s : Arena)
      → at 4 ≢ at i
      → s.size (at 4) ≡ len_1k
      → let r = init_list at i 4 len s in
        (r.size (at 4) ≡ len_1k)
        × (r.overruns ≡ (if ltb len_1k len then (at 4, len - len_1k) ∷ s.overruns else s.overruns))
  init_list-other i len s n e = (ground (arith, n, e), ground (arith, n, e))

-- A memset of more bytes from the same address on leaves nothing of a shorter one.
absorb :
    (a n m p x : ℕ)
    → n ≤ m
    → (if covers a m p then 0 else (if covers a n p then 0 else x))
      ≡ (if covers a m p then 0 else x)
absorb a n m p x l = ground (arith, l)

-- The first word at an address after the memsets of the lists 0 to 3, and of list 4 at its longest.
abbrev set_small : (ℕ → Ptr) → (Ptr → ℕ) → Ptr → ℕ
set_small at word p =
    if covers (at 3) 512 p
    then 0
    else if covers (at 2) 128 p
    then 0
    else if covers (at 1) 32 p
    then 0
    else if covers (at 0) 8 p
    then 0
    else word p

make_block_word :
    (at : ℕ → Ptr) (s : Arena) (p : Ptr)
    → (make_block at s).word p ≡ (if covers (at 4) len_64k p then 0 else set_small at s.word p)
unfolding make_block
make_block_word at s p =
    absorb (at 4) len_32k len_64k p _ (omega arith)
    ∙ absorb (at 4) len_16k len_64k p _ (omega arith)
    ∙ absorb (at 4) len_8k len_64k p _ (omega arith)
    ∙ absorb (at 4) len_4k len_64k p _ (omega arith)
    ∙ absorb (at 4) len_2k len_64k p _ (omega arith)
    ∙ absorb (at 4) len_1k len_64k p _ (omega arith)

-- The length of a block of the free list `i`
abbrev pub block_len : ℕ → ℕ
block_len i =
    if i == 0
    then 8
    else if i == 1
    then 32
    else if i == 2
    then 128
    else if i == 3
    then 512
    else if i == 4
    then len_1k
    else if i == 5
    then len_2k
    else if i == 6
    then len_4k
    else if i == 7
    then len_8k
    else if i == 8
    then len_16k
    else if i == 9
    then len_32k
    else len_64k

block_len-pos : (i : ℕ) → 0 < block_len i
block_len-pos i = ground arith

covers_own : (a n : ℕ) → 0 < n → covers a n a ≡ true
covers_own a n h = ground (arith, h)

module _ (at : ℕ → Ptr) (s : Arena)
    (apart : (i j : ℕ) → i ≢ j → covers (at j) (block_len j) (at i) ≡ false) where
  distinct : (i j : ℕ) → at i ≡ at j → i ≡ j
  distinct i j e = elim (ℕ_discrete i j) [
    | yes y ↦ y
    | no n ↦ absurd (
        let own : covers (at j) (block_len j) (at i) ≡ true =
          rw e (covers_own (at j) (block_len j) (block_len-pos j)) in
        let no : true ≡ false = sym own ∙ apart i j n in ground (arith, no))
  ]

  words_set : (i : ℕ) → i ≤ 4 → (make_block at s).word (at i) ≡ 0
  words_set zero h =
      rw (make_block_word at s (at 0)) (ground (arith, covers_own (at 0) 8 (omega arith)))
  words_set (suc zero) h =
      rw (make_block_word at s (at 1)) (ground (arith, covers_own (at 1) 32 (omega arith)))
  words_set (suc (suc zero)) h =
      rw (make_block_word at s (at 2)) (ground (arith, covers_own (at 2) 128 (omega arith)))
  words_set (suc (suc (suc zero))) h =
      rw (make_block_word at s (at 3)) (ground (arith, covers_own (at 3) 512 (omega arith)))
  words_set (suc (suc (suc (suc zero)))) h =
      rw (make_block_word at s (at 4)) (ground (arith, covers_own (at 4) len_64k (omega arith)))
  words_set (suc (suc (suc (suc (suc i))))) h = absurd (omega arith)

  words_unset :
      (i : ℕ)
      → 4 < i
      → (make_block at s).word (at i) ≡ (if covers (at 4) len_64k (at i) then 0 else s.word (at i))
  words_unset i h = rw (make_block_word at s (at i)) (
      ground (
        arith,
        apart i 0 (omega (arith, h)),
        apart i 1 (omega (arith, h)),
        apart i 2 (omega (arith, h)),
        apart i 3 (omega (arith, h)),
      ))

  -- For each core, where no block that malloc returns begins inside another: the free lists 0 to 4
  -- end at their first block; the first word of the block of a list 5 to 10 is cleared if it is one
  -- of the 65536 bytes from the block of list 4 on, and is otherwise what malloc left there; and
  -- two memsets write 32768 bytes beyond the end of the block of list 4.
  pub make_block-words :
      let r = make_block at s in
      ((i : ℕ) → i ≤ 4 → r.word (at i) ≡ 0)
      × ((i : ℕ)
          → 4 < i
          → i ≤ 10
          → r.word (at i) ≡ (if covers (at 4) len_64k (at i) then 0 else s.word (at i)))
      × (r.overruns ≡ (at 4, 32768) ∷ (at 4, 32768) ∷ s.overruns)
  unfolding make_block
  make_block-words = (
    words_set,
    λ i h k. words_unset i h,
    (let apart_4 = λ (i : ℕ) (n : 4 ≢ i) (e : at 4 ≡ at i). n (distinct 4 i e) in
        let s1 = init_list at 0 0 8 s in
        let s2 = init_list at 1 1 32 s1 in
        let s3 = init_list at 2 2 128 s2 in
        let s4 = init_list at 3 3 512 s3 in
        let s5 = init_list at 4 4 len_1k s4 in
        let s6 = init_list at 5 4 len_2k s5 in
        let s7 = init_list at 6 4 len_4k s6 in
        let s8 = init_list at 7 4 len_8k s7 in
        let s9 = init_list at 8 4 len_16k s8 in
        let s10 = init_list at 9 4 len_32k s9 in
        let l5 =
          init_list-other at 5 len_2k s5 (apart_4 5 (omega arith))
            (init_list-own at 4 len_1k s4).0 in
        let l6 = init_list-other at 6 len_4k s6 (apart_4 6 (omega arith)) l5.0 in
        let l7 = init_list-other at 7 len_8k s7 (apart_4 7 (omega arith)) l6.0 in
        let l8 = init_list-other at 8 len_16k s8 (apart_4 8 (omega arith)) l7.0 in
        let l9 = init_list-other at 9 len_32k s9 (apart_4 9 (omega arith)) l8.0 in
        let l10 = init_list-other at 10 len_64k s10 (apart_4 10 (omega arith)) l9.0 in
        let before =
          (init_list-own at 4 len_1k s4).1
          ∙ (init_list-own at 3 512 s3).1
          ∙ (init_list-own at 2 128 s2).1
          ∙ (init_list-own at 1 32 s1).1
          ∙ (init_list-own at 0 8 s).1 in
        l10.1
        ∙ ap (λ l. (at 4, 32768) ∷ l)
            (l9.1 ∙ l8.1 ∙ l7.1 ∙ l6.1 ∙ l5.1 ∙ ap (λ l. (at 4, 32768) ∷ l) before)),
  )
