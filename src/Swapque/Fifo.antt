-- ===== src/Swapque/Fifo.antt =====
-- The two lists are one queue.
use mathlib.Core.Path.{subst}
use fossilizid.Base.{
  ℕ, suc, ◌+◌, ◌^◌, ◌<◌, ◌≡◌, ◌≢◌, sym, ap, ◌∙◌, none, some, List, [], ◌∷◌, ◌++◌, length,
  length-append, append_assoc, append-nil, arith, Ptr, null, update,
}
use fossilizid.Swapque.{Que, push, pop, pop_loop, popped, swapped}
use fossilizid.Msque.Chain.{IsEnd, Holds, Holds-alloc, Holds-link}

module _ {A : Type 0} where
  -- Linking behind a node without a successor leaves the other lists alone.
  Holds-keep :
      (next : Ptr → Ptr) (value : Ptr → A) (brk last : Ptr) (a end n : Ptr) (l : List A)
      → next end ≡ null
      → Holds next value brk last a l
      → Holds (update next end n) value brk last a l
  Holds-keep next value brk last a end n [] e h = h
  Holds-keep next value brk last a end n (v ∷ l) e h =
      rw (before a h.2)
        (h.0, h.1, h.2, h.3, h.4, Holds-keep next value brk last (next a) end n l e h.5)
    where
      before : (x : Ptr) → next x ≢ null → update next end n x ≡ next x
      before x ne = ground (arith, ap next)

  -- What the lists hold, the list to pop from first.
  pub record Lists (q : Que A) (f b : List A) : Type 0 where
    pub frond_end : IsEnd q.next q.brk q.frond.end
    pub back_end : IsEnd q.next q.brk q.back.end
    pub ends_apart : q.frond.end ≢ q.back.end
    pub in_frond : Holds q.next q.value q.brk q.frond.end q.frond.begin f
    pub in_back : Holds q.next q.value q.brk q.back.end q.back.begin b
    pub counted : q.size ≡ length f + length b
    pub bounded : q.size < 2 ^ 32

  -- The queue holds these elements, the oldest first.
  abbrev pub Represents : Que A → List A → Type 0
  Represents q l = (f : List A) × (b : List A) × Lists q f b × (l ≡ f ++ b)

  pub push-Lists :
      (v : A) (q : Que A) (f b : List A)
      → q.size + 1 < 2 ^ 32
      → Lists q f b
      → Lists (push v q) f (b ++ (v ∷ []))
  unfolding push
  push-Lists v q f b k i = record {
    frond_end = ground (arith, i.frond_end, i.back_end, i.ends_apart);
    back_end = ground (arith, i.back_end);
    ends_apart = ground (arith, i.frond_end);
    in_frond =
        Holds-keep next value (suc q.brk) q.frond.end q.frond.begin q.back.end q.brk f bottom.ends
          (Holds-alloc q.next q.brk q.frond.end q.value q.frond.begin f v i.in_frond);
    in_back =
        subst
          (λ x.
            Holds (update next q.back.end q.brk) value (suc q.brk) q.brk q.back.begin
              (b ++ (x ∷ [])))
          held
          (Holds-link next (suc q.brk) q.back.end value q.back.begin b q.brk bottom
            (ground (arith, i.back_end)) (omega arith)
            (Holds-alloc q.next q.brk q.back.end q.value q.back.begin b v i.in_back));
    counted = omega (arith, k, i.counted, length-append b (v ∷ []));
    bounded = omega arith;
  }
    where
      next : Ptr → Ptr
      next = update q.next q.brk null

      value : Ptr → A
      value = update q.value q.brk v

      bottom : IsEnd next (suc q.brk) q.back.end
      bottom = ground (arith, i.back_end)

      held : value q.brk ≡ v
      held = ground arith

  -- Below the bound of `_size`, push puts its element behind the others.
  pub push-Represents :
      (v : A) (q : Que A) (l : List A)
      → q.size + 1 < 2 ^ 32
      → Represents q l
      → Represents (push v q) (l ++ (v ∷ []))
  push-Represents v q l k (f, b, i, e) = (
    f,
    b ++ (v ∷ []),
    push-Lists v q f b k i,
    ap (λ m. m ++ (v ∷ [])) e ∙ append_assoc f b (v ∷ []),
  )

  pub pop_loop-Lists :
      (n : ℕ) (q : Que A) (x : A) (f b : List A)
      → Lists q (x ∷ f) b
      → (r : Que A) × (pop_loop (suc n) q ≡ some (some x, r)) × Lists r f b
  unfolding pop_loop
  pop_loop-Lists n q x f b i = (
    (popped q).1,
    ground (arith, i.in_frond, i.frond_end),
    record {
      frond_end = i.frond_end;
      back_end = i.back_end;
      ends_apart = i.ends_apart;
      in_frond = i.in_frond.5;
      in_back = i.in_back;
      counted = omega (arith, i.counted, i.bounded);
      bounded = omega arith;
    },
  )

  pub Lists-swapped : (q : Que A) (f b : List A) → Lists q f b → Lists (swapped q) b f
  Lists-swapped q f b i = record {
    frond_end = i.back_end;
    back_end = i.frond_end;
    ends_apart = λ e. i.ends_apart (sym e);
    in_frond = i.in_back;
    in_back = i.in_frond;
    counted = omega (arith, i.counted);
    bounded = i.bounded;
  }

  pub pop_swap :
      (n : ℕ) (q : Que A) (x : A) (b : List A)
      → Lists q [] (x ∷ b)
      → (pop_loop (suc n) q ≡ pop_loop n (swapped q)) × Lists (swapped q) (x ∷ b) []
  unfolding pop_loop
  pop_swap n q x b i = (ground (arith, i.in_frond, i.counted), Lists-swapped q [] (x ∷ b) i)

  -- pop returns the oldest element within two turns of its loop, and the queue then holds the
  -- others: the lists change places at most once.
  pub pop-Represents :
      (q : Que A) (x : A) (l : List A)
      → Represents q (x ∷ l)
      → (r : Que A) × (pop 2 q ≡ some (some x, r)) × Represents r l
  unfolding pop
  pop-Represents q x l ([], [], i, e) = absurd (ground (arith, e))
  pop-Represents q x l ([], y ∷ b, i, e) =
      let (s, w) = pop_swap 1 q y b i in
      let (r, p, h) = pop_loop-Lists 0 (swapped q) y b [] w in
      (r, ground (arith, s, p, e, i.counted), (b, [], h, ground (arith, e, append-nil b)))
  pop-Represents q x l (y ∷ f, b, i, e) =
      let (r, p, h) = pop_loop-Lists 1 q y f b i in
      (r, ground (arith, p, e, i.counted), (f, b, h, ground (arith, e)))

  -- pop reports an empty queue and leaves it as it is.
  pub pop-empty : (n : ℕ) (q : Que A) → Represents q [] → pop n q ≡ some (none, q)
  unfolding pop
  pop-empty n q ([], [], i, e) = ground (arith, i.counted)
  pop-empty n q ([], y ∷ b, i, e) = absurd (ground (arith, e))
  pop-empty n q (y ∷ f, b, i, e) = absurd (ground (arith, e))
