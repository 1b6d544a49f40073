-- ===== src/Ringque/Tests.antt =====
-- Runs of the ring, and the theorems at concrete states.
use fossilizid.Base.{
  ℕ, zero, suc, ◌≤◌, ◌<◌, ◌≡◌, refl, true, List, [], ◌∷◌, none, arith, length, get_elem?, ◌-◌, ◌==◌,
  if◌then◌else◌,
}
use fossilizid.Ringque.{
  Ring, create, step, solo, push_enter, push_cas, push_store, pushed, pop_enter, pop_cas, pop_wait,
  popped, pop_none,
}
use fossilizid.Ringque.Slots.{Represents, slot, create-Represents}
use fossilizid.Ringque.Solo.{Done, push_alone}
use fossilizid.Ringque.Overrun.{behind, push_overrun}
use fossilizid.Ringque.Race.{taken, pop_race}

abbrev slots_of : List ℕ → ℕ → ℕ → Ring ℕ
slots_of xs push pop = record {
  que = λ i. if i == 0 then none else get_elem? xs (i - 1);
  push_slide = push;
  pop_slide = pop;
  size = length xs;
  que_max = 4;
  readers = 0;
}

-- Three values in the slots 1, 2 and 3 of four: the ring is full.
abbrev full : Ring ℕ
full = slots_of (7 ∷ 8 ∷ 9 ∷ []) 0 1

full-Represents : Represents full (7 ∷ 8 ∷ 9 ∷ [])
full-Represents = record {
  fits = omega arith;
  pop_pos = omega arith;
  pop_le = omega arith;
  room = omega arith;
  next = refl;
  count = refl;
  slots = λ k lt. full_slots k lt;
}
  where
    full_slots : (k : ℕ) → k < 4 → full.que (slot 4 1 k) ≡ get_elem? (7 ∷ 8 ∷ 9 ∷ []) k
    full_slots zero lt = refl
    full_slots (suc zero) lt = refl
    full_slots (suc (suc zero)) lt = refl
    full_slots (suc (suc (suc zero))) lt = refl
    full_slots (suc (suc (suc (suc k)))) lt = absurd (omega arith)

-- A push on the full ring grows it.
grows : (solo 8 full (push_enter 6)).0.que_max ≡ 8
unfolding solo step
grows = refl

push_alone_example :
    (n : ℕ) × (n ≤ 8) × Done (7 ∷ 8 ∷ 9 ∷ 6 ∷ []) pushed (solo n full (push_enter 6))
push_alone_example = push_alone full (7 ∷ 8 ∷ 9 ∷ []) 6 full-Represents refl (omega arith)

abbrev fresh : Ring ℕ
fresh = create 1024

fresh-Represents : Represents fresh []
fresh-Represents = create-Represents 1024 (omega arith) (omega arith)

pop_race_example :
    (solo 3 full (pop_cas 1 1) ≡ (taken full, popped 7))
    × (solo 100 (taken full) (pop_cas 1 1) ≡ (taken full, pop_wait 1))
pop_race_example = pop_race full 7 8 (9 ∷ []) 97 full-Represents

push_overrun_example :
    ((step true full (push_cas 6 0 (behind full))).1 ≡ push_store 6 0)
    × ((solo 2 (step true full (push_cas 6 0 (behind full))).0 pop_enter).1 ≡ pop_none)
    × ((step true full (push_cas 6 0 (behind full))).0.size ≡ 3)
push_overrun_example = push_overrun full 7 6 (8 ∷ 9 ∷ []) full-Represents refl
