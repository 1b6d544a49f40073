-- ===== src/Hazard/Scan.antt =====
-- The scan of a recover list: what it frees and what it keeps.
use fossilizid.Base.{
  ℕ, zero, suc, ◌+◌, ◌≡◌, refl, ap, List, [], ◌∷◌, ◌++◌, append-nil, arith, Ptr, if◌then◌else◌,
  length, contains, count, count-append,
}
use fossilizid.Hazard.{Scanned, back, pop_back, scan, scan_all}

length-pop_back : (x : Ptr) (xs : List Ptr) → length (pop_back x xs) ≡ length xs
length-pop_back x [] = refl
length-pop_back x (y ∷ ys) = ap suc (length-pop_back y ys)

-- Taking the last pointer off.
count-pop_back :
    (a x : Ptr) (xs : List Ptr)
    → count a (pop_back x xs) + count a (back x xs ∷ []) ≡ count a (x ∷ xs)
count-pop_back a x [] = omega arith
count-pop_back a x (y ∷ ys) = omega (arith, count-pop_back a y ys)

-- Overwriting the first pointer by the last one and taking that off takes out the first.
count-moved : (a x : Ptr) (xs : List Ptr) → count a (pop_back (back x xs) xs) ≡ count a xs
count-moved a x [] = refl
count-moved a x (y ∷ ys) = omega (arith, count-pop_back a y ys)

-- How often `a` is among what a scan keeps, and among what it has freed.
abbrev Splits : List Ptr → Ptr → List Ptr → List Ptr → List Ptr → Scanned → Type 0
Splits hv a before rest gone s =
    (count a s.vector ≡ count a before + (if contains hv a then count a rest else 0))
    × (count a s.gone ≡ count a gone + (if contains hv a then 0 else count a rest))

scan-Splits :
    (n : ℕ) (hv before rest gone : List Ptr) (a : Ptr)
    → length rest ≡ n
    → Splits hv a before rest gone (scan n hv before rest gone)
unfolding scan
scan-Splits zero hv before [] gone a h = ground (arith, append-nil before)
scan-Splits zero hv before (x ∷ rest) gone a h = absurd (omega arith)
scan-Splits (suc n) hv before [] gone a h = absurd (omega arith)
scan-Splits (suc n) hv before (x ∷ rest) gone a h = ground (
  arith,
  count-append a before (x ∷ []),
  count-moved a x rest,
  length-pop_back (back x rest) rest,
  scan-Splits n hv (before ++ (x ∷ [])) rest gone a,
  scan-Splits n hv before (pop_back (back x rest) rest) (x ∷ gone) a,
  scan-Splits n hv before rest (x ∷ gone) a,
)

-- The scan frees every pointer of the vector that no hazard pointer holds, and keeps every one that
-- a hazard pointer holds: each as often as it stands there.
pub scan_all-count :
    (hv v : List Ptr) (a : Ptr)
    → (count a (scan_all hv v).vector ≡ (if contains hv a then count a v else 0))
      × (count a (scan_all hv v).gone ≡ (if contains hv a then 0 else count a v))
scan_all-count hv v a = omega (arith, scan-Splits (length v) hv [] v [] a refl)
