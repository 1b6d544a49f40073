-- ===== src/Remoteq/Commands/Tests.antt =====
-- A run of both ends, and the theorem at it.
use fossilizid.Base.{ℕ, ◌≡◌, refl, true, false, Option, some, none, List, [], ◌∷◌}
use fossilizid.Remoteq.Commands.{Call, pushes, pops, fifo}

-- A command of two bytes
abbrev twice : ℕ → List ℕ
twice d = d ∷ d ∷ []

abbrev first_two : List ℕ → ℕ → Option (ℕ × ℕ)
first_two [] n = none
first_two (d ∷ []) n = none
first_two (d ∷ e ∷ l) n = some (d, 2)

-- At the first pop three bytes have arrived: a command and a part of the next.
abbrev talk : List (Call ℕ)
talk = pushes 4 true ∷ pushes 5 true ∷ pops 3 ∷ pushes 6 false ∷ pops 0 ∷ pops 1 ∷ pops 9 ∷ []

-- The pops make 4, nothing, 5, and nothing.
talked :
    fifo twice talk [] 0
    ≡ (true, none)
      ∷ (true, none)
      ∷ (true, some 4)
      ∷ (false, none)
      ∷ (false, none)
      ∷ (true, some 5)
      ∷ (false, none)
      ∷ []
unfolding fifo
talked = refl
