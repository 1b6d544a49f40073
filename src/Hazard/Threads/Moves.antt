-- ===== src/Hazard/Threads/Moves.antt =====
-- Steps that leave the hazard pointers and the recover lists each with one thread.
use fossilizid.Base.{
  ℕ, suc, ◌-◌, ◌≤◌, ◌<◌, ◌≡◌, ◌≢◌, ◌⊎◌, inl, inr, refl, sym, ap, ◌∙◌, List, [], ◌∷◌, ◌++◌, Ptr,
  update, count, arith, update-All, update-Apart,
}
use fossilizid.Hazard.{RecoverList}
use fossilizid.Hazard.Threads.{Pc, Thread, Memory, idle, acq_count, without, with_node, store}
use fossilizid.Hazard.Threads.Owns.{
  fresh, holding, works, works_of, Releases, count-without, Owns, Works, Owns-move,
}

abbrev busy_of : (ℕ → RecoverList) → ℕ → ℕ
busy_of lists k = (lists k).active

pub record Kept (active : Ptr → ℕ) (brk : ℕ) (lists : ℕ → RecoverList) (th : ℕ → Thread)
    : Type 0 where
  pub owns : Owns active brk th
  pub works : Works (busy_of lists) th
  pub releases : (k : ℕ) → Releases (th k) (th k).pc

abbrev pub Inv : Memory → (ℕ → Thread) → Type 0
Inv m th = Kept m.active m.brk m.re_list_set th

module _ (busy : ℕ → ℕ) (th : ℕ → Thread) (inv : Works busy th) (i : ℕ) (t : Thread) where
  Works-move :
      (busy' : ℕ → ℕ)
      → ((j : ℕ) → works_of t ≡ suc j → (busy' j ≡ 0) × ((works_of (th i) ≡ suc j) ⊎ (busy j ≢ 0)))
      → ((j : ℕ) → busy j ≡ 0 → works_of (th i) ≢ suc j → busy' j ≡ 0)
      → Works busy' (update th i t)
  Works-move busy' mine others = record {
    marked =
        update-All (λ u. (j : ℕ) → works_of u ≡ suc j → busy' j ≡ 0) th i t (λ j h. (mine j h).0)
          (λ k ne j h.
            others j (inv.marked k j h) (λ w. ne (inv.alone i k (ground (arith, w)) (w ∙ sym h))));
    alone = update-Apart works_of th i t inv.alone other;
  }
    where
      other : (k : ℕ) → works_of t ≢ 0 → i ≢ k → works_of t ≢ works_of (th k)
      other k r ne e =
          let j = works_of t - 1 in
          let w : works_of t ≡ suc j = omega (arith, r) in
          elim ((mine j w).1) [
            | inl g ↦ ne (inv.alone i k (ground (arith, g)) (g ∙ sym w ∙ e))
            | inr g ↦ g (inv.marked k j (sym e ∙ w))
          ]

  -- The list that thread `i` works on, if any, stays its own, and nothing is marked anew.
  Works-quiet : (works_of t ≡ 0) ⊎ (works_of t ≡ works_of (th i)) → Works busy (update th i t)
  Works-quiet h = Works-move busy (λ j e. ground (arith, h, e, inv.marked i j)) (λ j e w. e)

module _ (m : Memory) (th : ℕ → Thread) (inv : Inv m th) (i : ℕ) (o : Pc) (at : (th i).pc ≡ o) where
  abbrev held : List Ptr
  held = (th i).held

  holds : (x : Ptr) → count x (holding (th i)) ≡ count x (fresh o ++ held)
  holds x = ap (λ p. count x (fresh p ++ held)) at

  -- What the others hold is not touched, and the thread holds what it held.
  Owns-quiet :
      (t : Thread)
      → ((x : Ptr) → count x (holding t) ≡ count x (fresh o ++ held))
      → Owns m.active m.brk (update th i t)
  Owns-quiet t h =
      Owns-move m.active m.brk th inv.owns i t m.active m.brk
        (λ x. ground (arith, h x, holds x, inv.owns.used i x, inv.owns.once i x))
        (λ x e l w. (e, l))

  releases_on :
      (t : Thread) → Releases t t.pc → (k : ℕ) → Releases (update th i t k) (update th i t k).pc
  releases_on t h = update-All (λ u. Releases u u.pc) th i t h (λ k ne. inv.releases k)

  -- A step that changes neither who holds what nor a recover list.
  pub stays :
      (p : Pc) (h : List Ptr)
      → ((x : Ptr) → count x (fresh p ++ h) ≡ count x (fresh o ++ held))
      → (works p ≡ 0) ⊎ (works p ≡ works o)
      → Releases (record { pc = p; held = h }) p
      → Inv m (update th i (record { pc = p; held = h }))
  stays p h c w r = record {
    owns = Owns-quiet (record { pc = p; held = h }) c;
    works =
        Works-quiet (busy_of m.re_list_set) th inv.works i (record { pc = p; held = h })
          (ground (arith, w, ap works at));
    releases = releases_on (record { pc = p; held = h }) r;
  }

  -- A step on a recover list that the thread has made its own, or makes its own.
  pub stores :
      (p : Pc) (k : ℕ) (v : List Ptr)
      → fresh p ≡ []
      → fresh o ≡ []
      → (works o ≡ suc k) ⊎ ((m.re_list_set k).active ≢ 0) ⊎ (works p ≡ 0)
      → (works p ≡ 0) ⊎ (works p ≡ suc k)
      → Releases (record { pc = p; held = held }) p
      → Inv (store k v 0 m) (update th i (record { pc = p; held = held }))
  stores p k v f g w z r = record {
    owns =
        Owns-quiet (record { pc = p; held = held })
          (λ x. ap (λ l. count x (l ++ held)) (f ∙ sym g));
    works =
        Works-move (busy_of m.re_list_set) th inv.works i (record { pc = p; held = held })
          (busy_of (store k v 0 m).re_list_set)
          (λ j e. ground (arith, e, w, z, ap works at, inv.works.marked i j))
          (λ j e n. ground (arith, e));
    releases = releases_on (record { pc = p; held = held }) r;
  }

  -- A node is marked as in use whether or not somebody holds it.
  pub marks :
      (p : Pc) (x : Ptr)
      → fresh p ≡ []
      → fresh o ≡ []
      → works p ≡ 0
      → Releases (record { pc = p; held = held }) p
      → Inv
          (record m { active = update m.active x 0 })
          (update th i (record { pc = p; held = held }))
  marks p x f g w r = record {
    owns =
        Owns-move m.active m.brk th inv.owns i (record { pc = p; held = held })
          (update m.active x 0) m.brk
          (λ y.
            let c : count y (fresh p ++ held) ≡ count y held = ap (λ l. count y (l ++ held)) f in
            let d : count y (holding (th i)) ≡ count y held =
              holds y ∙ ap (λ l. count y (l ++ held)) g in
            ground (arith, c, d, inv.owns.used i y, inv.owns.once i y))
          (λ y e l w. ground (arith, e, l));
    works =
        Works-quiet (busy_of m.re_list_set) th inv.works i (record { pc = p; held = held }) (inl w);
    releases = releases_on (record { pc = p; held = held }) r;
  }

  -- A node that nobody has is marked as in use, and handed out.
  pub takes :
      (p : Pc) (x : Ptr) (next : Ptr → Ptr)
      → fresh p ≡ []
      → fresh o ≡ []
      → m.active x ≢ 0
      → x < m.brk
      → works p ≡ 0
      → Releases (record { pc = p; held = x ∷ held }) p
      → Inv
          (record m { active = update m.active x 0; next = next })
          (update th i (record { pc = p; held = x ∷ held }))
  takes p x next f g a b w r = record {
    owns =
        Owns-move m.active m.brk th inv.owns i (record { pc = p; held = x ∷ held })
          (update m.active x 0) m.brk
          (λ y.
            let c : count y (fresh p ++ x ∷ held) ≡ count y (x ∷ held) =
              ap (λ l. count y (l ++ x ∷ held)) f in
            let d : count y (holding (th i)) ≡ count y held =
              holds y ∙ ap (λ l. count y (l ++ held)) g in
            ground (arith, c, d, inv.owns.used i y, inv.owns.once i y, inv.owns.used i x, a, b))
          (λ y e l w. ground (arith, e, l));
    works =
        Works-quiet (busy_of m.re_list_set) th inv.works i (record { pc = p; held = x ∷ held })
          (inl w);
    releases = releases_on (record { pc = p; held = x ∷ held }) r;
  }

  -- A new node is marked as in use.
  pub allocs :
      (n : ℕ)
      → fresh o ≡ []
      → Inv (with_node m) (update th i (record { pc = acq_count n m.brk; held = held }))
  allocs n g = record {
    owns =
        Owns-move m.active m.brk th inv.owns i (record { pc = acq_count n m.brk; held = held })
          (update m.active m.brk 0) (suc m.brk)
          (λ y.
            let d : count y (holding (th i)) ≡ count y held =
              holds y ∙ ap (λ l. count y (l ++ held)) g in
            ground (arith, d, inv.owns.used i y, inv.owns.once i y))
          (λ y e l w. ground (arith, e, l));
    works =
        Works-quiet (busy_of m.re_list_set) th inv.works i
          (record { pc = acq_count n m.brk; held = held }) (inl refl);
    releases = releases_on (record { pc = acq_count n m.brk; held = held }) tt;
  }

  -- A node is handed back.
  pub gives :
      (x : Ptr)
      → fresh o ≡ []
      → 1 ≤ count x held
      → Inv
          (record m { active = update m.active x 1 })
          (update th i (record { pc = idle; held = without x held }))
  gives x g h = record {
    owns =
        Owns-move m.active m.brk th inv.owns i (record { pc = idle; held = without x held })
          (update m.active x 1) m.brk
          (λ y.
            ground
              (arith, count-without x y held, held_count y, inv.owns.used i y, inv.owns.once i y))
          (λ y e l w. ground (arith, e, l, w, h, held_count y));
    works =
        Works-quiet (busy_of m.re_list_set) th inv.works i
          (record { pc = idle; held = without x held }) (inl refl);
    releases = releases_on (record { pc = idle; held = without x held }) tt;
  }
    where
      held_count : (y : Ptr) → count y (holding (th i)) ≡ count y held
      held_count y = holds y ∙ ap (λ l. count y (l ++ held)) g

  -- A recover list is handed back.
  pub leaves :
      (k : ℕ) (v : List Ptr)
      → fresh o ≡ []
      → works o ≡ suc k
      → Inv (store k v 1 m) (update th i (record { pc = idle; held = held }))
  leaves k v g w = record {
    owns =
        Owns-quiet (record { pc = idle; held = held }) (λ x. ap (λ l. count x (l ++ held)) (sym g));
    works =
        Works-move (busy_of m.re_list_set) th inv.works i (record { pc = idle; held = held })
          (busy_of (store k v 1 m).re_list_set) (λ j e. ground (arith, e))
          (λ j e n. ground (arith, e, n, w, ap works at));
    releases = releases_on (record { pc = idle; held = held }) tt;
  }
