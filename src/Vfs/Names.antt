-- ===== src/Vfs/Names.antt =====
-- Which files are opened.
use fossilizid.Base.{Bool, true, false, List, [], ◌∷◌, if◌then◌else◌, Eq}
use fossilizid.Vfs.{Vfs}

module _ {Name : Type 0} ⦃e : Eq Name⦄ where
  -- Whether a name stands in a list.
  abbrev pub listed_in : Name → List Name → Bool
  listed_in n [] = false
  listed_in n (m ∷ ms) = if e.beq m n then true else listed_in n ms
