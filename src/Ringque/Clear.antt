-- ===== src/Ringque/Clear.antt =====
-- `clear`, and what it does with the elements.
use fossilizid.Base.{ℕ, suc, ◌≡◌, refl, List, [], ◌∷◌, arith}
use fossilizid.Ringque.{Ring, create, clear, drain, done, null_destroyed}
use fossilizid.Ringque.Slots.{Represents, create-Represents, head-lt, unlocked}

module _ {A : Type 0} where
  -- The ring is empty afterwards, with as many slots as before. Of elements that it held none
  -- is destroyed: the loop ends at its first test.
  pub clear-Represents :
      (f : ℕ) (r : Ring A) (x : A) (xs : List A)
      → Represents r (x ∷ xs)
      → Represents (clear (suc f) r).0 []
        × ((clear (suc f) r).0.que_max ≡ r.que_max)
        × ((clear (suc f) r).1 ≡ done 0)
  unfolding clear drain create
  clear-Represents f r x xs i = (
    unlocked (create r.que_max) r.readers
        (create-Represents r.que_max (omega (arith, i.room)) i.fits),
    refl,
    ground (arith, i.next, i.room, head-lt r.que_max r.pop_slide i.pop_pos i.pop_le),
  )

  -- On an empty ring `clear` destroys the target of a null pointer.
  pub clear_empty : (f : ℕ) (r : Ring A) → Represents r [] → (clear (suc f) r).1 ≡ null_destroyed
  unfolding clear drain
  clear_empty f r i = ground (arith, i.next, i.room, i.slots 0 i.room)
