-- ===== src/Base/Count.antt =====
-- How often a number stands in a list: a list without its order.
use Prim.Native.Nat.{ℕ, ◌+◌}
use mathlib.Core.Path.{◌≡◌}
use mathlib.Core.Bool.{Bool, true, false}
use mathlib.Core.List.{List, [], ◌∷◌, ◌++◌}
use native.Mathlib.Omega.{arith}
use fossilizid.Base.Tests.{◌==◌, if◌then◌else◌}

abbrev pub count : ℕ → List ℕ → ℕ
count a [] = 0
count a (x ∷ xs) = (if x == a then 1 else 0) + count a xs

abbrev pub contains : List ℕ → ℕ → Bool
contains [] a = false
contains (x ∷ xs) a = if x == a then true else contains xs a

pub count-append : (v : ℕ) (l m : List ℕ) → count v (l ++ m) ≡ count v l + count v m
count-append v [] m = omega arith
count-append v (w ∷ l) m = ground (arith, count-append v l m)
