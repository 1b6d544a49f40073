-- ===== src/Hazard/Threads/Rows.antt =====
-- In every state that threads reach, the hazard pointers are in one list but for the links owed.
use mathlib.Core.Path.{subst}
use fossilizid.Base.{
  ℕ, suc, ◌-◌, ◌≤◌, ◌≡◌, ◌≢◌, ◌⊎◌, inl, inr, refl, ap, List, [], ◌∷◌, ◌++◌, length, Ptr, null,
  update, ◌==◌, ◌&&◌, leb, ltb, if◌then◌else◌, count, count-append, arith, Bool-cases,
}
use fossilizid.Hazard.Threads.{
  Pc, Thread, Memory, System, idle, acq_head, acq_try, acq_next, acq_alloc, acq_count, acq_push,
  acq_link, rel_clear, rel_active, ret_find, ret_size, ret_head, ret_scan, ret_next, ret_free,
  ret_push, ret_done, without, step, more, vector, Reach, Move, start, goes_on, acquires, releases,
  retires, protects, later,
}
use fossilizid.Hazard.Threads.Owns.{fresh, holding, count-without}
use fossilizid.Hazard.Threads.Moves.{Inv}
use fossilizid.Hazard.Threads.Below.{BelowIn, here}
use fossilizid.Hazard.Threads.Steps.{Safe, Reach-Safe}
use fossilizid.Hazard.Threads.Row.{On, Stands, RowIn, Grown}
use fossilizid.Hazard.Threads.Grow.{quiet, alloc, first, Stands-more, On-next, handed_more}
use fossilizid.Hazard.Threads.Linking.{pushes, links}

module _ (m : Memory) (th : ℕ → Thread) (inv : Inv m th) (b : BelowIn m th) (c : ℕ) (at : ℕ → Ptr)
    (r : RowIn m th c at) (i : ℕ) where
  abbrev held : List Ptr
  held = (th i).held

  -- What a thread knows of the list.
  knows : (p : Pc) → (th i).pc ≡ p → Stands m.next c at p
  knows p e = subst (Stands m.next c at) e (r.stands i)

  -- A thread with nothing to link goes on to a place where nothing is known.
  goes_to :
      (o p : Pc)
      → (th i).pc ≡ o
      → ((n : ℕ) (x old : Ptr) → o ≢ acq_link n x old)
      → Stands m.next c at p
      → Grown m c at m (update th i (record { pc = p; held = held }))
  goes_to o p e ne s = quiet m th c at r i o (record { pc = p; held = held }) e ne s (r.handed i)

  -- A new node is nobody else's.
  alone :
      (n : ℕ) (x : Ptr)
      → (th i).pc ≡ acq_push n x
      → (k q : ℕ) → i ≢ k
      → ((th k).pc ≡ acq_count q x) ⊎ ((th k).pc ≡ acq_push q x)
      → ⊥
  alone n x e k q ne h = ne (
      inv.owns.apart i k x (mine i (acq_push n x) e (ground arith)) (elim h [
        | inl g ↦ mine k (acq_count q x) g (ground arith)
        | inr g ↦ mine k (acq_push q x) g (ground arith)
      ]))
    where
      mine : (k : ℕ) (p : Pc) → (th k).pc ≡ p → 1 ≤ count x (fresh p) → 1 ≤ count x (holding (th k))
      mine k p g l =
          let w : count x (fresh (th k).pc) ≡ count x (fresh p) = ap (λ o. count x (fresh o)) g in
          omega (arith, l, w, count-append x (fresh (th k).pc) (th k).held)

  pub step-Grown :
      (p : Pc)
      → (th i).pc ≡ p
      → Grown m c at (step m p held).mem (update th i (step m p held).thread)
  unfolding step
  step-Grown idle e = goes_to idle idle e (λ n x old g. ground (arith, g)) tt
  step-Grown (acq_head n) e =
      goes_to (acq_head n) (more n m.head) e (λ q x old g. ground (arith, g))
        (Stands-more m th c at r i n m.head (first m th c at r i))
  step-Grown (acq_try n x) e = elim (Bool-cases (x == null)) [
    | inl z ↦ rw z (goes_to (acq_try n x) (acq_alloc n) e (λ q y old g. ground (arith, g)) tt)
    | inr z ↦
        let on : On c at x = elim (knows (acq_try n x) e) [
          | inl w ↦ absurd (ground (arith, w, z))
          | inr w ↦ w
        ] in
        rw z (elim (Bool-cases (m.active x == 1)) [
          | inl a ↦ rw a (
              quiet m th c at r i (acq_try n x) (record { pc = more (n - 1) x; held = x ∷ held }) e
                (λ q y old g. ground (arith, g)) (Stands-more m th c at r i (n - 1) x on)
                (handed_more m th c at r i x on))
          | inr a ↦
              rw a (goes_to (acq_try n x) (acq_next n x) e (λ q y old g. ground (arith, g)) on)
        ])
  ]
  step-Grown (acq_next n x) e =
      goes_to (acq_next n x) (acq_try n (m.next x)) e (λ q y old g. ground (arith, g))
        (On-next m th c at r i x (knows (acq_next n x) e))
  step-Grown (acq_alloc n) e = alloc m th c at r i n e
  step-Grown (acq_count n x) e =
      goes_to (acq_count n x) (acq_push n x) e (λ q y old g. ground (arith, g))
        (knows (acq_count n x) e)
  step-Grown (acq_push n x) e =
      pushes m th c at r i n x null e (here m th b i (acq_push n x) e) (alone n x e)
  step-Grown (acq_link n x old) e =
      let (j, l, g, o) = knows (acq_link n x old) e in
      links m th c at r i n x old (more (n - 1) x) e
        (elim (Bool-cases (n - 1 == 0)) [ inl z ↦ rw z tt | inr z ↦ rw z (inr (suc j, l, g)) ])
  step-Grown (rel_clear x) e =
      goes_to (rel_clear x) (rel_active x) e (λ q y old g. ground (arith, g)) tt
  step-Grown (rel_active x) e =
      quiet m th c at r i (rel_active x) (record { pc = idle; held = without x held }) e
        (λ q y old g. ground (arith, g)) tt
        (λ y h. r.handed i y (ground (arith, h, count-without x y held)))
  step-Grown (ret_find p k) e = elim (Bool-cases ((m.re_list_set k).active == 0)) [
    | inl z ↦ rw z (
        goes_to (ret_find p k) (ret_find p (if k == 7 then 0 else suc k)) e
          (λ q y old g. ground (arith, g)) tt)
    | inr z ↦ rw z (goes_to (ret_find p k) (ret_size p k) e (λ q y old g. ground (arith, g)) tt)
  ]
  step-Grown (ret_size p k) e =
      elim (Bool-cases (leb 32 (length (vector k m)) && ltb m.llen (length (vector k m)))) [
        | inl z ↦ rw z (goes_to (ret_size p k) (ret_head p k) e (λ q y old g. ground (arith, g)) tt)
        | inr z ↦ rw z (goes_to (ret_size p k) (ret_push p k) e (λ q y old g. ground (arith, g)) tt)
      ]
  step-Grown (ret_head p k) e =
      goes_to (ret_head p k) (ret_scan p k m.head []) e (λ q y old g. ground (arith, g)) tt
  step-Grown (ret_scan p k x hv) e = elim (Bool-cases (x == null)) [
    | inl z ↦
        rw z (goes_to (ret_scan p k x hv) (ret_free p k hv) e (λ q y old g. ground (arith, g)) tt)
    | inr z ↦
        let seen = if m.hazard x == null then hv else hv ++ (m.hazard x ∷ []) in
        rw z
          (goes_to (ret_scan p k x hv) (ret_next p k x seen) e (λ q y old g. ground (arith, g)) tt)
  ]
  step-Grown (ret_next p k x hv) e =
      goes_to (ret_next p k x hv) (ret_scan p k (m.next x) hv) e (λ q y old g. ground (arith, g)) tt
  step-Grown (ret_free p k hv) e =
      goes_to (ret_free p k hv) (ret_push p k) e (λ q y old g. ground (arith, g)) tt
  step-Grown (ret_push p k) e =
      goes_to (ret_push p k) (ret_done k) e (λ q y old g. ground (arith, g)) tt
  step-Grown (ret_done k) e = goes_to (ret_done k) idle e (λ q y old g. ground (arith, g)) tt

-- A move of the threads keeps the list, or makes it longer.
pub Move-Grown :
    {s s' : System} (c : ℕ) (at : ℕ → Ptr)
    → Safe s
    → RowIn s.mem s.threads c at
    → Move s s'
    → Grown s.mem c at s'.mem s'.threads
Move-Grown {s} c at h r (acquires i n e) =
    goes_to s.mem s.threads h.inv h.below c at r i idle (acq_head n) e
      (λ q y old g. ground (arith, g)) tt
Move-Grown {s} c at h r (releases i x e l) =
    goes_to s.mem s.threads h.inv h.below c at r i idle (rel_clear x) e
      (λ q y old g. ground (arith, g)) tt
Move-Grown {s} c at h r (retires i p e) =
    goes_to s.mem s.threads h.inv h.below c at r i idle (ret_find p 0) e
      (λ q y old g. ground (arith, g)) tt
Move-Grown {s} c at h r (protects i x p e l) =
    (c, at, r, record { more = omega arith; same = λ j g. refl; linked = λ j g z. z })
Move-Grown {s} c at h r (later i) =
    step-Grown s.mem s.threads h.inv h.below c at r i (s.threads i).pc refl

pub Reach-Row : {s : System} → Reach s → (c : ℕ) × (at : ℕ → Ptr) × RowIn s.mem s.threads c at
Reach-Row start = (
  0,
  λ _. 1,
  record {
    newest = refl;
    real = λ j l. ground arith;
    below = λ j l. omega arith;
    apart = λ j k l h g. omega (arith, l, h);
    oldest = refl;
    links = λ j l. absurd (omega (arith, l));
    stands = λ k. tt;
    handed = λ k y h. absurd (omega (arith, h));
  },
)
Reach-Row (goes_on {s = s} q v) =
    let (c, at, r) = Reach-Row q in
    let (c', at', r', l) = Move-Grown c at (Reach-Safe q) r v in (c', at', r')
