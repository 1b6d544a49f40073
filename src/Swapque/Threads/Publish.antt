-- ===== src/Swapque/Threads/Publish.antt =====
-- The exchange of the last node, and the link that it owes.
use mathlib.Core.Path.{subst}
use fossilizid.Base.{
  ℕ, suc, ◌<◌, ◌≡◌, ◌≢◌, inl, inr, refl, sym, ap, ◌∙◌, true, some, List, [], ◌∷◌, ◌++◌, length,
  get_elem?, Ptr, null, update, update-All, update-Apart, arith, Bool-cases, ◌==◌, length-append,
  get_elem?-append, get_elem?-append_last,
}
use fossilizid.Swapque.{Que, MicroQue}
use fossilizid.Swapque.Threads.{Pc, push_end, push_link}
use fossilizid.Swapque.Threads.Inv.{owned, real_node, Row, Off, Seen, Local, Private, Link, Inv}
use fossilizid.Swapque.Threads.Moves.{own_node, Private-update, Local-map}

module _ {A : Type 0} (q : List A) (v : A) where
  abbrev more : List A
  more = q ++ (v ∷ [])

  size : length more ≡ suc (length q)
  size = omega (arith, length-append q (v ∷ []))

  -- What holds of the places before and of the last holds of all.
  all_more :
      (P : ℕ → Type 0)
      → ((j : ℕ) → j < length q → P j)
      → P (length q)
      → (j : ℕ) → j < length more
      → P j
  all_more P f l j h = elim (Bool-cases (length q == j)) [
    | inl e ↦ subst P (ground (arith, e)) l
    | inr e ↦ f j (ground (arith, e, h, size))
  ]

-- A node behind the last one of a row.
Row-snoc :
    {A : Type 0} (next : Ptr → Ptr) (value : Ptr → A) (brk : ℕ) (l : MicroQue) (q : List A)
    (at : ℕ → Ptr) (n : Ptr)
    → Row next value brk l q at
    → n ≢ null
    → n < brk
    → next n ≡ null
    → Off at (length q) n
    → Row next value brk (record l { end = n }) (q ++ (value n ∷ [])) (update at (suc (length q)) n)
Row-snoc next value brk l q at n r real below alone off =
    let s = size q (value n) in
    record {
      first = ground (arith, r.first);
      newest = rw s (ground arith);
      real = λ j h. ground (arith, r.real j, real, h, s);
      below = λ j h. ground (arith, r.below j, below, h, s);
      apart = λ j k h g e. ground (arith, r.apart j k, off j, off k, h, g, e, s);
      values =
          all_more q (value n)
            (λ j.
              get_elem? (more q (value n)) j ≡ some (value (update at (suc (length q)) n (suc j))))
            (λ j h. ground (arith, r.values j h, get_elem?-append q (value n ∷ []) j h))
            (ground (arith, get_elem?-append_last q (value n)));
      open_end = ground (arith, s, alone);
    }

module _ {A : Type 0} (m : Que A) (pc : ℕ → Pc A) (f b : List A) (front back : ℕ → Ptr)
    (inv : Inv m pc f b front back) (i : ℕ) (n : Ptr) where
  module _ (before : pc i ≡ push_end n) where
    abbrev grown : Que A
    grown = record m { back = record (m.back) { end = n } }

    abbrev after : ℕ → Pc A
    after = update pc i (push_link n m.back.end)

    abbrev b' : List A
    b' = more b (m.value n)

    abbrev back' : ℕ → Ptr
    back' = update back (suc (length b)) n

    real : n ≢ null
    real = ground (arith, ap real_node (sym before) ∙ inv.given i)

    mine : Private m pc f b front back n
    mine = own_node m pc f b front back inv i i n (ap owned before) real

    Link-publish :
        (j : ℕ) → j < length b → Link m pc f b front back j → Link grown after f b' front back' j
    Link-publish j h (inl e) = inl (ground (arith, e))
    Link-publish j h (inr (e, k, g)) = inr (ground (arith, e), k, ground (arith, g, before, ap pc))

    Off-publish : (x : Ptr) → n ≢ x → Off back (length b) x → Off back' (length b') x
    Off-publish x ne o j h = ground (arith, o j, ne, h, size b (m.value n))

    Seen-publish :
        (x : Ptr)
        → Seen m.next m.brk m.frond.begin back (length b) x
        → Seen m.next m.brk m.frond.begin back' (length b') x × (m.next x ≡ m.next x)
    Seen-publish x s = (
      record {
        real = s.real;
        below = s.below;
        stands = elim (s.stands) [
          | inl e ↦ inl e
          | inr (e, o) ↦ inr (e, Off-publish x (λ z. e (sym (ap m.next z) ∙ mine.alone)) o)
        ];
      },
      refl,
    )

    pub publish : Inv grown after f b' front back'
    publish =
        let s = size b (m.value n) in
        record {
          frond = inv.frond;
          rear =
              Row-snoc m.next m.value m.brk m.back b back n inv.rear real mine.below mine.alone
                mine.off_back;
          across = λ j k h g. ground (arith, inv.across j k h, mine.off_front j h, g, s);
          linked = inv.linked;
          links =
              all_more b (m.value n) (Link grown after f b' front back')
                (λ j h. Link-publish j h (inv.links j h))
                (inr (ground (arith, inv.rear.open_end), i, ground (arith, inv.rear.newest)));
          private =
              Private-update m pc f b front back inv i (push_link n m.back.end) grown f b' front
                back'
                (λ k x ne e r q. record {
                  below = q.below;
                  alone = q.alone;
                  off_front = q.off_front;
                  off_back =
                      Off-publish x
                        (λ z. ne (
                          inv.unique i k (λ y. real (sym (ap owned before) ∙ y))
                            (ap owned before ∙ z ∙ e)))
                        q.off_back;
                })
                (λ r. absurd (r refl));
          unique =
              update-Apart owned pc i (push_link n m.back.end) inv.unique
                (λ j r ne. absurd (r refl));
          given =
              update-All (λ q. real_node q ≡ true) pc i (push_link n m.back.end) refl
                (λ k ne. inv.given k);
          linking =
              update-All
                (λ q.
                  (x y : Ptr)
                  → q ≡ push_link x y
                  → (j : ℕ) × (j < length b') × (back' j ≡ y) × (back' (suc j) ≡ x))
                pc i (push_link n m.back.end)
                (λ x y e. (
                  length b,
                  omega (arith, s),
                  ground (arith, inv.rear.newest, e),
                  ground (arith, e),
                ))
                (λ k ne x y e.
                  let (j, h, c, d) = inv.linking k x y e in
                  (j, omega (arith, s, h), ground (arith, c), ground (arith, d)));
          locals =
              update-All (λ q. Local m.next m.brk m.frond back' (length b') q) pc i
                (push_link n m.back.end) tt
                (λ k ne.
                  Local-map m.next m.next m.brk m.brk m.frond m.frond back back' (length b)
                    (length b') refl Seen-publish (pc k) (inv.locals k));
        }
