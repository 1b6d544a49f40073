-- ===== src/Hazard/Acquire.antt =====
-- `acquire`: the pointers that it hands out, and what it leaves alone.
use fossilizid.Base.{
  ℕ, zero, suc, ◌+◌, ◌≤◌, ◌≡◌, ◌≢◌, List, [], ◌∷◌, arith, Ptr, null, ◌==◌, ltb, if◌then◌else◌,
  length, count,
}
use fossilizid.Hazard.{Slot, Hazards, reverse_onto, acquire_from, acquire}

abbrev pub total : (Slot → ℕ) → List Slot → ℕ
total w [] = 0
total w (s ∷ l) = w s + total w l

abbrev pub with_id : ℕ → Slot → ℕ
with_id a s = if s.id == a then 1 else 0

abbrev pub in_use : ℕ → Slot → ℕ
in_use a s = if s.active == 1 then 0 else with_id a s

abbrev pub guards : Ptr → Slot → ℕ
guards p s = if s.hazard == p then 1 else 0

total-reverse_onto :
    (w : Slot → ℕ) (xs ys : List Slot) → total w (reverse_onto xs ys) ≡ total w xs + total w ys
total-reverse_onto w [] ys = omega arith
total-reverse_onto w (x ∷ xs) ys = omega (arith, total-reverse_onto w xs (x ∷ ys))

in_use-le : (a : ℕ) (l : List Slot) → total (in_use a) l ≤ total (with_id a) l
in_use-le a [] = omega arith
in_use-le a (s ∷ l) = ground (arith, in_use-le a l)

-- The pointers have the numbers below `llen`, each of them once.
abbrev pub Numbered : List Slot → ℕ → Type 0
Numbered l llen = (b : ℕ) → total (with_id b) l ≡ (if ltb b llen then 1 else 0)

acquire_from-used :
    (n : ℕ) (seen rest : List Slot) (llen : ℕ) (ptr : List ℕ) (a : ℕ)
    → let out = acquire_from n seen rest llen ptr in
      total (in_use a) out.list + count a ptr
      ≡ total (in_use a) seen + total (in_use a) rest + count a out.ptr
unfolding acquire_from
acquire_from-used zero seen rest llen ptr a = omega (arith, total-reverse_onto (in_use a) seen rest)
acquire_from-used (suc n) seen [] llen ptr a = ground (
  arith,
  total-reverse_onto (in_use a) seen [],
  acquire_from-used n [] (record { id = llen; hazard = null; active = 0 } ∷ reverse_onto seen [])
      (llen + 1) (llen ∷ ptr) a,
)
acquire_from-used (suc n) seen (s ∷ rest) llen ptr a = ground (
  arith,
  acquire_from-used n seen (record s { active = 0 } ∷ rest) llen (s.id ∷ ptr) a,
  acquire_from-used (suc n) (record s { active = 0 } ∷ seen) rest llen ptr a,
)

acquire_from-guards :
    (n : ℕ) (seen rest : List Slot) (llen : ℕ) (ptr : List ℕ) (p : Ptr)
    → p ≢ null
    → let out = acquire_from n seen rest llen ptr in
      total (guards p) out.list ≡ total (guards p) seen + total (guards p) rest
unfolding acquire_from
acquire_from-guards zero seen rest llen ptr p r =
    omega (arith, total-reverse_onto (guards p) seen rest)
acquire_from-guards (suc n) seen [] llen ptr p r = ground (
  arith,
  total-reverse_onto (guards p) seen [],
  acquire_from-guards n [] (record { id = llen; hazard = null; active = 0 } ∷ reverse_onto seen [])
      (llen + 1) (llen ∷ ptr) p,
)
acquire_from-guards (suc n) seen (s ∷ rest) llen ptr p r = ground (
  arith,
  acquire_from-guards n seen (record s { active = 0 } ∷ rest) llen (s.id ∷ ptr) p,
  acquire_from-guards (suc n) (record s { active = 0 } ∷ seen) rest llen ptr p,
)

length-acquire_from :
    (n : ℕ) (seen rest : List Slot) (llen : ℕ) (ptr : List ℕ)
    → let out = acquire_from n seen rest llen ptr in length out.ptr ≡ n + length ptr
unfolding acquire_from
length-acquire_from zero seen rest llen ptr = omega arith
length-acquire_from (suc n) seen [] llen ptr = ground (
  arith,
  length-acquire_from n [] (record { id = llen; hazard = null; active = 0 } ∷ reverse_onto seen [])
      (llen + 1) (llen ∷ ptr),
)
length-acquire_from (suc n) seen (s ∷ rest) llen ptr = ground (
  arith,
  length-acquire_from n seen (record s { active = 0 } ∷ rest) llen (s.id ∷ ptr),
  length-acquire_from (suc n) (record s { active = 0 } ∷ seen) rest llen ptr,
)

acquire_from-ids :
    (n : ℕ) (seen rest : List Slot) (llen : ℕ) (ptr : List ℕ) (a : ℕ)
    → total (with_id a) seen + total (with_id a) rest ≡ (if ltb a llen then 1 else 0)
    → let out = acquire_from n seen rest llen ptr in
      total (with_id a) out.list ≡ (if ltb a out.count then 1 else 0)
unfolding acquire_from
acquire_from-ids zero seen rest llen ptr a h =
    ground (arith, total-reverse_onto (with_id a) seen rest)
acquire_from-ids (suc n) seen [] llen ptr a h = ground (
  arith,
  total-reverse_onto (with_id a) seen [],
  acquire_from-ids n [] (record { id = llen; hazard = null; active = 0 } ∷ reverse_onto seen [])
      (llen + 1) (llen ∷ ptr) a,
)
acquire_from-ids (suc n) seen (s ∷ rest) llen ptr a h = ground (
  arith,
  acquire_from-ids n seen (record s { active = 0 } ∷ rest) llen (s.id ∷ ptr) a,
  acquire_from-ids (suc n) (record s { active = 0 } ∷ seen) rest llen ptr a,
)

-- A call of `acquire` on a well-formed list hands out as many pointers as were asked for, each of
-- them once and none that was in use; they and those in use before are the ones in use afterwards.
-- No hazard pointer changes what it points to, and the list stays well formed.
acquire_lem :
    (size : ℕ) (h : Hazards) (a p : ℕ)
    → Numbered h.slots h.llen
    → p ≢ null
    → let out = acquire size h in
      (length out.ptr ≡ size)
      × (count a out.ptr + total (in_use a) h.slots ≤ 1)
      × (total (in_use a) out.list ≡ count a out.ptr + total (in_use a) h.slots)
      × (total (guards p) out.list ≡ total (guards p) h.slots)
      × (total (with_id a) out.list ≡ (if ltb a out.count then 1 else 0))
unfolding acquire
acquire_lem size h a p w r =
    let ids = acquire_from-ids size [] h.slots h.llen [] a (ground (arith, w a)) in
    let used = acquire_from-used size [] h.slots h.llen [] a in
    let le = in_use-le a (acquire_from size [] h.slots h.llen []).list in
    (
      omega (arith, length-acquire_from size [] h.slots h.llen []),
      ground arith,
      omega arith,
      omega (arith, acquire_from-guards size [] h.slots h.llen [] p r),
      ids,
    )
