-- ===== src/Ringque/Pair/Turns.antt =====
-- What an access of either thread does to the elements and to what is not in its slot yet.
use mathlib.Core.Path.{subst}
use fossilizid.Base.{
  ℕ, ◌+◌, ◌^◌, ◌<◌, ◌≡◌, inl, inr, refl, sym, ap, Bool, true, false, List, [], ◌∷◌, ◌++◌, arith,
  append-nil, Bool-cases, ◌==◌,
}
use fossilizid.Ringque.{
  Ring, Pc, u32, step, push_enter, push_test, push_resize, push_relock, push_cas, push_store,
  push_count, pushed, pop_enter, pop_test, pop_cas, pop_wait, pop_count, popped, pop_none,
}
use fossilizid.Ringque.Pair.{taken_by, sent_by}
use fossilizid.Ringque.Pair.Inv.{unstored, Inv}
use fossilizid.Ringque.Pair.Moves
use fossilizid.Ringque.Pair.Pushes
use fossilizid.Ringque.Pair.Growth

module _ {A : Type 0} where
  -- After an access of the thread that pops: the elements, and what it has taken before them.
  abbrev PopDone : Bool → Ring A → Pc A → Pc A → List A → Type 0
  PopDone w r p q xs =
      (j : ℕ) × (ys : List A) × Inv (step w r q).0 p (step w r q).1 j ys × (xs ≡ taken_by r q ++ ys)

  pub pop_turn_done :
      (w : Bool) (r : Ring A) (p q : Pc A) (h : ℕ) (xs : List A)
      → Inv r p q h xs
      → PopDone w r p q xs
  unfolding step taken_by
  pop_turn_done w r p pop_enter h xs i = (h, xs, Moves.pop_enter-Inv w r p h xs i, refl)
  pop_turn_done w r p (pop_test s t) h xs i = (h, xs, Moves.pop_test-Inv w r p h xs s t i, refl)
  pop_turn_done w r p (pop_cas s t) h xs i = (h, xs, Moves.pop_cas-Inv w r p h xs s t i, refl)
  pop_turn_done w r p (pop_wait t) h [] i =
      let stays : step w r (pop_wait t) ≡ (r, pop_wait t) =
        ground (arith, Moves.pop_wait-empty w r p h [] t i refl) in
      let none_taken : taken_by r (pop_wait t) ≡ [] =
        ground (arith, Moves.pop_wait-empty w r p h [] t i refl) in
      (h, [], subst (λ o. Inv o.0 p o.1 h []) (sym stays) i, ap (λ l. l ++ []) (sym none_taken))
  pop_turn_done w r p (pop_wait t) h (x ∷ xs) i = (
    _,
    xs,
    Moves.pop_wait-Inv w r p h x xs t i,
    ap (λ l. l ++ xs) (sym (Moves.pop_wait-taken_by w r p h x xs t i)),
  )
  pop_turn_done w r p (pop_count v) h xs i = (h, xs, Moves.pop_count-Inv w r p h xs v i, refl)
  pop_turn_done w r p (popped v) h xs i = (h, xs, i, refl)
  pop_turn_done w r p pop_none h xs i = (h, xs, i, refl)
  pop_turn_done w r p (push_enter v) h xs i = elim (i.popping) [ ]
  pop_turn_done w r p (push_test v t) h xs i = elim (i.popping) [ ]
  pop_turn_done w r p (push_resize v t) h xs i = elim (i.popping) [ ]
  pop_turn_done w r p (push_relock v t) h xs i = elim (i.popping) [ ]
  pop_turn_done w r p (push_cas v t u) h xs i = elim (i.popping) [ ]
  pop_turn_done w r p (push_store v t) h xs i = elim (i.popping) [ ]
  pop_turn_done w r p push_count h xs i = elim (i.popping) [ ]
  pop_turn_done w r p pushed h xs i = elim (i.popping) [ ]

  -- After an access of the thread that pushes
  abbrev PushDone : Bool → Ring A → Pc A → Pc A → List A → Type 0
  PushDone w r p q xs =
      (j : ℕ) × (ys : List A) × Inv (step w r p).0 (step w r p).1 q j ys
      × ((xs ++ unstored p) ++ sent_by r p ≡ ys ++ unstored (step w r p).1)

  nothing_sent : (xs : List A) → (xs ++ []) ++ [] ≡ xs ++ []
  nothing_sent xs = append-nil (xs ++ [])

  test_pending :
      (w : Bool) (r : Ring A) (q : Pc A) (xs : List A) (v : A) (t : ℕ)
      → (xs ++ []) ++ [] ≡ xs ++ unstored (step w r (push_test v t)).1
  unfolding step
  test_pending w r q xs v t = elim (Bool-cases (u32 (t + 1) == r.pop_slide)) [
    | inl e ↦ rw e (nothing_sent xs)
    | inr e ↦ rw e (nothing_sent xs)
  ]

  pub push_turn_done :
      (w : Bool) (r : Ring A) (p q : Pc A) (h : ℕ) (xs : List A)
      → Inv r p q h xs
      → r.que_max < 2 ^ 31
      → PushDone w r p q xs
  unfolding step sent_by
  push_turn_done w r (push_enter v) q h xs i b =
      (h, xs, Pushes.push_enter-Inv w r q h xs v i, nothing_sent xs)
  push_turn_done w r (push_test v t) q h xs i b =
      (h, xs, Pushes.push_test-Inv w r q h xs v t i, test_pending w r q xs v t)
  push_turn_done w r (push_resize v t) q h xs i b =
      let (j, k) = Growth.push_resize-Inv w r q h xs v t i b in (j, xs, k, nothing_sent xs)
  push_turn_done w r (push_relock v t) q h xs i b =
      (h, xs, Pushes.push_relock-Inv w r q h xs v t i, nothing_sent xs)
  push_turn_done w r (push_cas v t u) q h xs i b =
      let same : (r.push_slide == t) ≡ true = ground (arith, i.pushing) in
      (
        h,
        xs,
        Pushes.push_cas-Inv w r q h xs v t u i,
        rw same (ap (λ l. l ++ (v ∷ [])) (append-nil xs)),
      )
  push_turn_done true r (push_store v t) q h xs i b = (
    h,
    xs ++ (v ∷ []),
    Pushes.push_store-Inv true r q h xs v t i (Pushes.push_store-empty true r q h xs v t i),
    rw (Pushes.push_store-empty true r q h xs v t i) refl,
  )
  push_turn_done false r (push_store v t) q h xs i b = (h, xs, i, append-nil (xs ++ (v ∷ [])))
  push_turn_done w r push_count q h xs i b =
      (h, xs, Pushes.push_count-Inv w r q h xs i, nothing_sent xs)
  push_turn_done w r pushed q h xs i b = (h, xs, i, nothing_sent xs)
  push_turn_done w r pop_enter q h xs i b = elim (i.pushing) [ ]
  push_turn_done w r (pop_test s t) q h xs i b = elim (i.pushing) [ ]
  push_turn_done w r (pop_cas s t) q h xs i b = elim (i.pushing) [ ]
  push_turn_done w r (pop_wait t) q h xs i b = elim (i.pushing) [ ]
  push_turn_done w r (pop_count v) q h xs i b = elim (i.pushing) [ ]
  push_turn_done w r (popped v) q h xs i b = elim (i.pushing) [ ]
  push_turn_done w r pop_none q h xs i b = elim (i.pushing) [ ]
