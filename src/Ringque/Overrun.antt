-- ===== src/Ringque/Overrun.antt =====
-- A push whose test for room is out of date: `_push_slide` has come round to the same slot.
use fossilizid.Base.{ℕ, ◌+◌, ◌≡◌, true, List, ◌∷◌, length, arith, ◌==◌, if◌then◌else◌}
use fossilizid.Ringque.{Ring, solo, step, push_cas, push_store, pop_enter, pop_none}
use fossilizid.Ringque.Slots.{Represents, head-lt}

module _ {A : Type 0} where
  -- The slot behind the one to push to
  abbrev pub behind : Ring A → ℕ
  behind r = if r.push_slide + 1 == r.que_max then 0 else r.push_slide + 1

  -- On a full ring, a push that has passed its test for room before the others filled it, and whose
  -- exchange finds the slot that it had seen, succeeds; a pop that runs alone from there on reports
  -- that the ring is empty, while the ring counts as many elements as before.
  pub push_overrun :
      (r : Ring A) (x v : A) (xs : List A)
      → Represents r (x ∷ xs)
      → length (x ∷ xs) + 1 ≡ r.que_max
      → let after = step true r (push_cas v r.push_slide (behind r)) in
        (after.1 ≡ push_store v r.push_slide)
        × ((solo 2 after.0 pop_enter).1 ≡ pop_none)
        × ((after.0).size ≡ length (x ∷ xs))
  unfolding step solo
  push_overrun r x v xs i full = ground (
    arith,
    i.next,
    i.room,
    i.count,
    i.pop_pos,
    i.pop_le,
    head-lt r.que_max r.pop_slide i.pop_pos i.pop_le,
  )
