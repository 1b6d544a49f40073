-- ===== src/Ringque/Race.antt =====
-- Two threads in `pop` with the same slot in view.
use fossilizid.Base.{ℕ, zero, suc, ◌+◌, ◌-◌, ◌^◌, ◌<◌, ◌≡◌, ◌≢◌, refl, List, ◌∷◌, none, arith}
use fossilizid.Ringque.{Ring, solo, step, pop_cas, pop_wait, popped}
use fossilizid.Ringque.Slots.{Represents, head, removed, head-lt}

module _ {A : Type 0} where
  waits : (k : ℕ) (r : Ring A) (t : ℕ) → r.que t ≡ none → solo k r (pop_wait t) ≡ (r, pop_wait t)
  unfolding solo step
  waits zero r t e = refl
  waits (suc k) r t e = ground (arith, waits k r t e)

  loses :
      (k : ℕ) (r : Ring A) (slide t : ℕ)
      → r.que t ≡ none
      → r.pop_slide ≡ t + 1
      → t + 1 < 2 ^ 32
      → r.pop_slide ≢ slide
      → t ≢ r.push_slide
      → solo (suc (suc (suc k))) r (pop_cas slide t) ≡ (r, pop_wait t)
  unfolding solo step
  loses k r slide t e p b ne nf = ground (arith, waits k r t e)

  -- The ring after one of the threads has taken the oldest element and left.
  abbrev pub taken : Ring A → Ring A
  taken r = record (removed r) { readers = r.readers - 1 }

  wins :
      (r : Ring A) (x : A) (xs : List A)
      → Represents r (x ∷ xs)
      → solo 3 r (pop_cas r.pop_slide (head r.que_max r.pop_slide)) ≡ (taken r, popped x)
  unfolding solo step
  wins r x xs i =
      ground
        (arith, i.slots 0 (omega (arith, i.room)), head-lt r.que_max r.pop_slide i.pop_pos i.pop_le)

  -- Two threads have read the same `_pop_slide` of a ring of at least two elements, and are about
  -- to exchange it. The first takes the oldest element and returns. The other, alone from there on,
  -- fails its exchange, wins the next one with the slot that it computed before, leaves
  -- `_pop_slide` where it is, and waits on the slot that the first has emptied for as long as it
  -- runs.
  pub pop_race :
      (r : Ring A) (x y : A) (ys : List A) (k : ℕ)
      → Represents r (x ∷ y ∷ ys)
      → (solo 3 r (pop_cas r.pop_slide (head r.que_max r.pop_slide)) ≡ (taken r, popped x))
        × (solo (suc (suc (suc k))) (taken r) (pop_cas r.pop_slide (head r.que_max r.pop_slide))
            ≡ (taken r, pop_wait (head r.que_max r.pop_slide)))
  pop_race r x y ys k i = (
    wins r x (y ∷ ys) i,
    loses k (taken r) r.pop_slide (head r.que_max r.pop_slide) (ground arith) refl
        (omega (arith, i.fits, below)) (ground (arith, i.pop_pos, i.room))
        (ground (arith, i.next, i.room, below)),
  )
    where
      below : head r.que_max r.pop_slide < r.que_max
      below = head-lt r.que_max r.pop_slide i.pop_pos i.pop_le
