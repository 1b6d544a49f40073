-- ===== src/Hazard/Tests.antt =====
-- Runs of the hazard system, and the theorems at concrete states.
use fossilizid.Base.{List, Ptr, ◌≡◌, refl, some, [], ◌∷◌, arith, count, replicate}
use fossilizid.Hazard.{Hazards, create, retire, scan, scan_all, empty_list}
use fossilizid.Hazard.Acquire.{Numbered}
use fossilizid.Hazard.Retire.{Kept, retire_conserves, retire_safe}

-- A vector with 5 twice, of which 7 and 9 are held.
scans : (scan_all (7 ∷ 9 ∷ []) (5 ∷ 7 ∷ 6 ∷ 9 ∷ 5 ∷ [])).vector ≡ 7 ∷ 9 ∷ []
unfolding scan
scans = refl

create-Numbered : Numbered create.slots create.llen
unfolding create
create-Numbered b = ground arith

-- Two pointers in use, the second holds 7; a recover list with 33 pointers to free.
abbrev busy : Hazards
busy = record {
  slots =
      record { id = 1; hazard = 7; active = 0 } ∷ record { id = 0; hazard = 0; active = 0 } ∷ [];
  llen = 2;
  re_list_set = record { re_vector = 7 ∷ replicate 32 5; active = 1 } ∷ empty_list ∷ [];
  freed = [];
}

retire_conserves_example : (h : Hazards) × (retire 6 busy ≡ some h) × Kept 6 5 busy h
retire_conserves_example = retire_conserves 6 5 busy refl

retire_safe_example : (h : Hazards) × (retire 6 busy ≡ some h) × (count 7 h.freed ≡ 0)
retire_safe_example = retire_safe 6 7 busy refl (omega arith) (omega arith)

abbrev dirty : List Ptr
dirty = 5 ∷ 7 ∷ 6 ∷ 9 ∷ 5 ∷ []

abbrev guarded : List Ptr
guarded = 7 ∷ 9 ∷ []
