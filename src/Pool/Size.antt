-- ===== src/Pool/Size.antt =====
-- The size classes.
use fossilizid.Base.{ℕ, ◌+◌, ◌*◌, ◌≤◌, ◌<◌, ◌≡◌, Option, none, some, arith}
use fossilizid.Pool.{standardization_lenght}

-- The index of a free list is at most 5.
abbrev pub Reached : Option ℕ → Type 0
Reached none = 0 ≤ 0
Reached (some c) = c ≤ 5

-- The rounded length has room for the length asked for, by less than a factor of 64 or, beyond
-- 65536, by less than 4096; and of the eleven free lists only the first six are ever used.
standardization_fits :
    (len : ℕ)
    → let r = standardization_lenght len in (len ≤ r.0) × (r.0 < 64 * len + 4096) × Reached r.1
unfolding standardization_lenght
standardization_fits len = ground arith

-- Rounding a rounded length gives the same length and the same free list, so that a block goes back
-- to the list that it is taken from, whichever of the two lengths is given.
pub standardization_twice :
    (len : ℕ) → standardization_lenght (standardization_lenght len).0 ≡ standardization_lenght len
unfolding standardization_lenght
standardization_twice len = ground arith
