-- ===== src/HashMap/History.antt =====
-- Calls of a hash map, one after another, against a finite map.
use mathlib.Core.Path.{fun_ext}
use fossilizid.Base.{
  ℕ, ◌≡◌, refl, ap, ◌∙◌, Bool, Option, none, some, List, [], ◌∷◌, Eq, if◌then◌else◌, ltb, ◌<◌,
  arith, true,
}
use fossilizid.HashMap.{Table, mask, insert, search, erase}
use fossilizid.HashMap.Laws.{is_some, search-insert, search-erase}

-- Calls, and what they return.
pub data Use (K V : Type 0) : Type 0 where
  inserts : K → V → Use K V
  searches : K → Use K V
  erases : K → Use K V

pub data Answer (V : Type 0) : Type 0 where
  inserted : Answer V
  found : Option V → Answer V
  erased : Bool → Answer V
  out_of_range : Answer V

module _ {K : Type 0} where
  in_range : (hash : K → ℕ) (k : K) → ((j : K) → hash j < mask) → ltb (hash k) mask ≡ true
  in_range hash k h = ground (arith, h k)

module _ {K V : Type 0} ⦃e : Eq K⦄ where
  -- A call whose key has no bucket in `_hash_array` reads out of range: nothing is said from there.
  abbrev pub run : (K → ℕ) → List (Use K V) → Table K V → List (Answer V)
  run hash [] m = []
  run hash (inserts k v ∷ us) m =
      let rest = run hash us (insert hash k v m) in
      if ltb (hash k) mask then inserted ∷ rest else out_of_range ∷ []
  run hash (searches k ∷ us) m =
      let rest = run hash us m in
      if ltb (hash k) mask then found (search hash k m) ∷ rest else out_of_range ∷ []
  run hash (erases k ∷ us) m =
      let rest = run hash us (erase hash k m).1 in
      if ltb (hash k) mask then erased (erase hash k m).0 ∷ rest else out_of_range ∷ []

  -- The value that a map has at a key becomes another.
  abbrev pub rebind : K → Option V → (K → Option V) → K → Option V
  rebind k o f j = if e.beq k j then o else f j

  -- What the calls return of a map from keys to values.
  abbrev pub answers : List (Use K V) → (K → Option V) → List (Answer V)
  answers [] f = []
  answers (inserts k v ∷ us) f = inserted ∷ answers us (rebind k (some v) f)
  answers (searches k ∷ us) f = found (f k) ∷ answers us f
  answers (erases k ∷ us) f = erased (is_some (f k)) ∷ answers us (rebind k none f)

  -- However calls of insert, search and erase follow one another, and whatever the hash function,
  -- if it gives each key a bucket of the array, they return what they would return of the finite
  -- map that search describes.
  pub run-answers :
      (hash : K → ℕ) (us : List (Use K V)) (m : Table K V)
      → ((k : K) → hash k < mask)
      → run hash us m ≡ answers us (λ k. search hash k m)
  run-answers hash [] m h = refl
  run-answers hash (inserts k v ∷ us) m h = rw (in_range hash k h) (
      ap (λ l. inserted ∷ l)
        (run-answers hash us (insert hash k v m) h
          ∙ ap (answers us) (fun_ext λ j. search-insert hash k j v m)))
  run-answers hash (searches k ∷ us) m h =
      rw (in_range hash k h) (ap (λ l. found (search hash k m) ∷ l) (run-answers hash us m h))
  run-answers hash (erases k ∷ us) m h = rw (in_range hash k h) (
      ap (λ b. erased b ∷ run hash us (erase hash k m).1) (search-erase hash k k m).0
      ∙ ap (λ l. erased (is_some (search hash k m)) ∷ l)
          (run-answers hash us (erase hash k m).1 h
            ∙ ap (answers us) (fun_ext λ j. (search-erase hash k j m).1)))
