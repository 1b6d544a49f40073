-- ===== src/Ringque/Pair/Inv.antt =====
-- What holds of the ring while one thread pushes and another pops.
use fossilizid.Base.{
  ℕ, ◌+◌, ◌^◌, ◌≤◌, ◌<◌, ◌≡◌, ◌≢◌, List, [], ◌∷◌, length, get_elem?, ◌==◌, if◌then◌else◌,
}
use fossilizid.Ringque.{
  Ring, Pc, push_enter, push_test, push_resize, push_relock, push_cas, push_store, push_count,
  pushed, pop_enter, pop_test, pop_cas, pop_wait, pop_count, popped, pop_none,
}
use fossilizid.Ringque.Slots.{slot, head}

module _ {A : Type 0} where
  -- The value that is published and not in its slot yet.
  abbrev pub unstored : Pc A → List A
  unstored (push_store v slide) = v ∷ []
  unstored p = []

  -- How often a thread has the shared lock.
  abbrev pub inside : Pc A → ℕ
  inside (push_test v slide) = 1
  inside (push_cas v slide newslide) = 1
  inside (push_store v slide) = 1
  inside push_count = 1
  inside (pop_test slide slidetail) = 1
  inside (pop_cas slide slidetail) = 1
  inside (pop_wait t) = 1
  inside (pop_count v) = 1
  inside p = 0

  -- What the thread that pops knows: `pop` is `_pop_slide`, `max` is `_que_max`; the oldest element
  -- is at `h`, `n` places before `_push_slide`.
  abbrev pub PopAt : ℕ → ℕ → ℕ → ℕ → Pc A → Type 0
  PopAt pop max h n pop_enter = (0 < pop) × (pop ≤ max) × (h ≡ head max pop) × (n < max)
  PopAt pop max h n (pop_test slide slidetail) =
      (0 < pop) × (pop ≤ max) × (h ≡ head max pop) × (n < max) × (slide ≡ pop) × (slidetail ≡ h)
  PopAt pop max h n (pop_cas slide slidetail) =
      (0 < pop)
      × (pop ≤ max)
      × (h ≡ head max pop)
      × (n < max)
      × (slide ≡ pop)
      × (slidetail ≡ h)
      × (0 < n)
  PopAt pop max h n (pop_wait t) = (t ≡ h) × (pop ≡ h + 1) × (0 < n) × (n ≤ max)
  PopAt pop max h n (pop_count v) = (0 < pop) × (pop ≤ max) × (h ≡ head max pop) × (n < max)
  PopAt pop max h n (popped v) = (0 < pop) × (pop ≤ max) × (h ≡ head max pop) × (n < max)
  PopAt pop max h n pop_none = (0 < pop) × (pop ≤ max) × (h ≡ head max pop) × (n < max)
  PopAt pop max h n p = ⊥

  -- What the thread that pushes knows: `push` is `_push_slide`; `m` elements are in their slots.
  abbrev pub PushAt : ℕ → ℕ → ℕ → ℕ → ℕ → Pc A → Type 0
  PushAt push pop max h m (push_enter v) = Unit {0}
  PushAt push pop max h m (push_test v slide) = slide ≡ push
  PushAt push pop max h m (push_resize v slide) = slide ≡ push
  PushAt push pop max h m (push_relock v slide) = slide ≡ push
  PushAt push pop max h m (push_cas v slide newslide) =
      (slide ≡ push) × (newslide ≡ (if slide + 1 == max then 0 else slide + 1)) × (slide + 1 ≢ pop)
  PushAt push pop max h m (push_store v slide) = slide ≡ slot max h m
  PushAt push pop max h m push_count = Unit {0}
  PushAt push pop max h m pushed = Unit {0}
  PushAt push pop max h m p = ⊥

  -- `xs` are in their slots, the oldest at `h`, and the other slots are empty.
  pub record Inv (r : Ring A) (p q : Pc A) (h : ℕ) (xs : List A) : Type 0 where
    pub fits : r.que_max < 2 ^ 32
    pub below : h < r.que_max
    pub slots : (k : ℕ) → k < r.que_max → r.que (slot r.que_max h k) ≡ get_elem? xs k
    pub next : r.push_slide ≡ slot r.que_max h (length xs + length (unstored p))
    pub locks : r.readers ≡ inside p + inside q
    pub pushing : PushAt r.push_slide r.pop_slide r.que_max h (length xs) p
    pub popping : PopAt r.pop_slide r.que_max h (length xs + length (unstored p)) q
