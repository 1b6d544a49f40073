-- ===== src/Swapque/History.antt =====
-- Calls of a queue, one after another, against a list.
use fossilizid.Base.{
  ◌+◌, ◌^◌, ◌<◌, ◌≡◌, refl, sym, ap, ◌∙◌, Option, none, some, List, [], ◌∷◌, ◌++◌, length,
  length-append, arith,
}
use fossilizid.Swapque.{Que, push, pop}
use fossilizid.Swapque.Fifo.{Represents, push-Represents, pop-Represents, pop-empty}

-- Calls
pub data Use (A : Type 0) : Type 0 where
  pushes : A → Use A
  pops : Use A

module _ {A : Type 0} where
  -- What the pops return; no result is out of fuel.
  abbrev pub run : List (Use A) → Que A → Option (List (Option A))
  run [] q = some []
  run (pushes v ∷ us) q = run us (push v q)
  run (pops ∷ us) q = elim (pop 2 q) [
    | none ↦ none
    | some (x, r) ↦ elim (run us r) [ none ↦ none | some xs ↦ some (x ∷ xs) ]
  ]

  -- What they return of a list with the oldest element first.
  abbrev pub fifo : List (Use A) → List A → List (Option A)
  fifo [] l = []
  fifo (pushes v ∷ us) l = fifo us (l ++ (v ∷ []))
  fifo (pops ∷ us) [] = none ∷ fifo us []
  fifo (pops ∷ us) (x ∷ l) = some x ∷ fifo us l

  Represents-size : (q : Que A) (l : List A) → Represents q l → q.size ≡ length l
  Represents-size q l (f, b, i, e) = i.counted ∙ sym (ap length e ∙ length-append f b)

  -- However calls of push and pop follow one another on a queue that holds a list, each pop ends
  -- within two turns, and the pops return what they would return of the list. So it is while the
  -- elements and the calls are less than 2^32.
  pub run-fifo :
      (us : List (Use A)) (q : Que A) (l : List A)
      → length l + length us < 2 ^ 32
      → Represents q l
      → run us q ≡ some (fifo us l)
  run-fifo [] q l h r = refl
  run-fifo (pushes v ∷ us) q l h r =
      run-fifo us (push v q) (l ++ (v ∷ [])) (omega (arith, length-append l (v ∷ [])))
        (push-Represents v q l (omega (arith, Represents-size q l r)) r)
  run-fifo (pops ∷ us) q [] h r = ground (arith, pop-empty 2 q r, run-fifo us q [] (omega arith) r)
  run-fifo (pops ∷ us) q (x ∷ l) h r =
      let (q', p, r') = pop-Represents q x l r in
      ground (arith, p, run-fifo us q' l (omega arith) r')
