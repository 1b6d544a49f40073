-- ===== src/Ringque/Solo.antt =====
-- A thread that runs alone: `push` appends, `pop` takes the oldest element, each in a fixed number
-- of accesses.
use Prim.Native.Nat.add
use mathlib.Core.Bool.{true}
use native.Mathlib.Decide.{ℕ_discrete}
use fossilizid.Base.{
  ℕ, zero, suc, ◌+◌, ◌-◌, ◌^◌, ◌≤◌, ◌<◌, ◌≡◌, ◌≢◌, refl, ap, ◌∙◌, List, [], ◌∷◌, ◌++◌, none, arith,
  length,
}
use fossilizid.Ringque.{
  Ring, Pc, resize, step, solo, push_enter, push_test, pushed, pop_enter, popped, pop_none,
}
use fossilizid.Ringque.Slots.{
  Represents, stored, removed, doubled, stored-Represents, removed-Represents, resize_full,
  doubled-Represents, Represents-full, Represents-push, Represents-room, head-lt, unlocked,
}

module _ {A : Type 0} where
  -- The accesses from the test on, with the lock held and a slot free behind the next one.
  push_test-solo :
      (r : Ring A) (v : A)
      → r.push_slide < r.que_max
      → r.que_max < 2 ^ 32
      → r.que r.push_slide ≡ none
      → r.push_slide + 1 ≢ r.pop_slide
      → solo 4 r (push_test v r.push_slide)
        ≡ (record (stored r v) { readers = r.readers - 1 }, pushed)
  unfolding solo step
  push_test-solo r v l b e ne = ground arith

  -- A thread that holds the lock alone counts itself in and out.
  counted_out :
      (r : Ring A) (p : Pc A)
      → ◌≡◌ {A = Ring A × Pc A} (record r { readers = r.readers + 1 - 1 }, p) (r, p)
  counted_out r p = ap {B = Ring A × Pc A} (λ n. (record r { readers = n }, p)) (omega arith)

  -- With a free slot behind the next one, `push` takes five accesses.
  push_alone_room :
      (r : Ring A) (xs : List A) (v : A)
      → Represents r xs
      → r.push_slide + 1 ≢ r.pop_slide
      → solo 5 r (push_enter v) ≡ (stored r v, pushed)
  unfolding solo step
  push_alone_room r xs v i ne =
      let p = Represents-push r xs i in
      push_test-solo (record r { readers = r.readers + 1 }) v p.0 i.fits p.1 ne
      ∙ counted_out (stored r v) pushed

  -- The accesses up to the second test, where the ring is full.
  push_alone_grow :
      (r : Ring A) (v : A)
      → r.readers ≡ 0
      → r.push_slide + 1 ≡ r.pop_slide
      → r.pop_slide < 2 ^ 32
      → solo 4 r (push_enter v) ≡ (record (resize r) { readers = 1 }, push_test v r.push_slide)
  unfolding solo step resize
  push_alone_grow r v f e b = ground arith

  solo-add :
      (m n : ℕ) (r : Ring A) (p : Pc A) → solo (m + n) r p ≡ solo n (solo m r p).0 (solo m r p).1
  unfolding solo
  solo-add zero n r p = rw (add.zero n)
  solo-add (suc m) n r p = rw (add.suc m n) (solo-add m n (step true r p).0 (step true r p).1)

  -- What a call has done when it stands at `p`: the ring holds `ys`, and no thread holds the lock.
  pub record Done (ys : List A) (p : Pc A) (out : Ring A × Pc A) : Type 0 where
    pub finished : out.1 ≡ p
    pub holds : Represents out.0 ys
    pub unlocked : (out.0).readers ≡ 0

  Done-of :
      (out : Ring A × Pc A) (s : Ring A) (p : Pc A) (ys : List A)
      → out ≡ (s, p)
      → Represents s ys
      → s.readers ≡ 0
      → Done ys p out
  Done-of out s p ys e i f = rw e (record { finished = refl; holds = i; unlocked = f })

  push_alone_full :
      (r : Ring A) (xs : List A) (v : A)
      → Represents r xs
      → r.readers ≡ 0
      → r.que_max < 2 ^ 31
      → r.push_slide + 1 ≡ r.pop_slide
      → Done (xs ++ (v ∷ [])) pushed (solo 8 r (push_enter v))
  push_alone_full r xs v i f b e =
      Done-of (solo 8 r (push_enter v)) (record (stored d v) { readers = 0 }) pushed
        (xs ++ (v ∷ []))
        (solo-add 4 4 r (push_enter v)
          ∙ ap (λ o. solo 4 o.0 o.1)
              (push_alone_grow r v f e (omega (arith, i.pop_le, i.fits))
                ∙ ap {B = Ring A × Pc A} (λ t. (record t { readers = 1 }, push_test v r.push_slide))
                    (resize_full r e i.pop_le b))
          ∙ push_test-solo (record d { readers = 1 }) v p.0 grown.fits p.1
              (omega (arith, i.pop_pos, i.pop_le)))
        (unlocked (stored d v) 0 (stored-Represents d xs v grown (omega (arith, l, i.room)))) refl
    where
      d : Ring A
      d = doubled r

      l : length xs + 1 ≡ r.que_max
      l = (Represents-full r xs i).0 e

      grown : Represents d xs
      grown = doubled-Represents r xs i l b

      p : (d.push_slide < d.que_max) × (d.que d.push_slide ≡ none)
      p = Represents-push d xs grown

  -- A `push` that runs alone on a ring of fewer than 2^31 slots finishes in at most eight accesses,
  -- the growth of a full ring included: the ring then holds the value behind the others, and the
  -- lock is free.
  pub push_alone :
      (r : Ring A) (xs : List A) (v : A)
      → Represents r xs
      → r.readers ≡ 0
      → r.que_max < 2 ^ 31
      → (n : ℕ) × (n ≤ 8) × Done (xs ++ (v ∷ [])) pushed (solo n r (push_enter v))
  push_alone r xs v i f b = elim (ℕ_discrete (r.push_slide + 1) r.pop_slide) [
    | no ne ↦ (
      5,
      omega arith,
      Done-of (solo 5 r (push_enter v)) (stored r v) pushed (xs ++ (v ∷ []))
          (push_alone_room r xs v i ne) (stored-Represents r xs v i (Represents-room r xs i ne)) f,
    )
    | yes e ↦ (8, omega arith, push_alone_full r xs v i f b e)
  ]

  -- A `pop` that runs alone on a ring with an oldest element finishes in five accesses and
  -- returns it; the ring then holds the others, and the lock is as it was.
  pop_alone_some :
      (r : Ring A) (x : A) (xs : List A)
      → Represents r (x ∷ xs)
      → (solo 5 r pop_enter ≡ (removed r, popped x)) × Represents (removed r) xs
  unfolding solo step
  pop_alone_some r x xs i = (
    ground (
      arith,
      i.slots 0 (omega (arith, i.room)),
      i.next,
      head-lt r.que_max r.pop_slide i.pop_pos i.pop_le,
    ),
    removed-Represents r x xs i,
  )

  -- A `pop` that runs alone on an empty ring finishes in two accesses, returns false and changes
  -- nothing.
  pub pop_alone_none : (r : Ring A) → Represents r [] → solo 2 r pop_enter ≡ (r, pop_none)
  unfolding solo step
  pop_alone_none r i = ground (arith, i.next, i.room)
