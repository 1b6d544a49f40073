-- ===== src/Hazard/Threads/Steps.antt =====
-- Every state that threads reach keeps the hazard pointers and the recover lists each with one
-- thread.
use mathlib.Core.Path.{subst}
use fossilizid.Base.{
  ℕ, suc, ◌-◌, ◌<◌, ◌≡◌, inl, inr, refl, ap, List, [], ◌∷◌, ◌++◌, length, Ptr, null, update, ◌==◌,
  ◌&&◌, leb, ltb, if◌then◌else◌, count, arith, Bool-cases,
}
use fossilizid.Hazard.{scan_all}
use fossilizid.Hazard.Threads.{
  Pc, Thread, Memory, System, idle, acq_head, acq_try, acq_next, acq_alloc, acq_count, acq_push,
  acq_link, rel_clear, rel_active, ret_find, ret_size, ret_head, ret_scan, ret_next, ret_free,
  ret_push, ret_done, step, more, vector, calls, Reach, Move, start, goes_on, acquires, releases,
  retires, protects, later,
}
use fossilizid.Hazard.Threads.Owns.{fresh, works, Releases}
use fossilizid.Hazard.Threads.Moves.{Inv, stays, stores, takes, allocs, gives, leaves, marks}
use fossilizid.Hazard.Threads.Below.{BelowIn, node_of, here, moves, bottom, step-Below}

-- The loop of `acquire` starts over with nothing in hand.
more_plain :
    (n : ℕ) (x : Ptr) (t : Thread)
    → (fresh (more n x) ≡ []) × (works (more n x) ≡ 0) × Releases t (more n x)
more_plain n x t = elim (Bool-cases (n == 0)) [
  | inl e ↦ rw e (refl, refl, tt)
  | inr e ↦ rw e (refl, refl, tt)
]

module _ (m : Memory) (th : ℕ → Thread) (inv : Inv m th) (b : BelowIn m th) (i : ℕ) where
  abbrev held : List Ptr
  held = (th i).held

  -- A thread releases what it holds.
  given : (p : Pc) → (th i).pc ≡ p → Releases (th i) p
  given p e = subst (Releases (th i)) e (inv.releases i)

  step-Inv : (p : Pc) → (th i).pc ≡ p → Inv (step m p held).mem (update th i (step m p held).thread)
  unfolding step
  step-Inv idle e = stays m th inv i idle e idle held (λ x. refl) (inl refl) tt
  step-Inv (acq_head n) e =
      let (f, w, r) = more_plain n m.head (record { pc = more n m.head; held = held }) in
      stays m th inv i (acq_head n) e (more n m.head) held (λ x. ap (λ l. count x (l ++ held)) f)
        (inl w) r
  step-Inv (acq_try n x) e =
      let t : Thread = record { pc = more (n - 1) x; held = x ∷ held } in
      let (f, w, r) = more_plain (n - 1) x t in
      let low : x < m.brk = here m th b i (acq_try n x) e in
      elim (Bool-cases (x == null)) [
        | inl z ↦
            rw z (stays m th inv i (acq_try n x) e (acq_alloc n) held (λ y. refl) (inl refl) tt)
        | inr z ↦ rw z (elim (Bool-cases (m.active x == 1)) [
          | inl a ↦ rw a (
              takes m th inv i (acq_try n x) e (more (n - 1) x) x m.next f refl (ground (arith, a))
                low w r)
          | inr a ↦ rw a (marks m th inv i (acq_try n x) e (acq_next n x) x refl refl refl tt)
        ])
      ]
  step-Inv (acq_next n x) e =
      stays m th inv i (acq_next n x) e (acq_try n (m.next x)) held (λ x. refl) (inl refl) tt
  step-Inv (acq_alloc n) e = allocs m th inv i (acq_alloc n) e n refl
  step-Inv (acq_count n x) e =
      stays m th inv i (acq_count n x) e (acq_push n x) held (λ y. refl) (inl refl) tt
  step-Inv (acq_push n x) e =
      stays m th inv i (acq_push n x) e (acq_link n x m.head) held (λ y. refl) (inl refl) tt
  step-Inv (acq_link n x old) e =
      let t : Thread = record { pc = more (n - 1) x; held = x ∷ held } in
      let (f, w, r) = more_plain (n - 1) x t in
      stays m th inv i (acq_link n x old) e (more (n - 1) x) (x ∷ held)
        (λ y. ap (λ l. count y (l ++ x ∷ held)) f) (inl w) r
  step-Inv (rel_clear x) e =
      stays m th inv i (rel_clear x) e (rel_active x) held (λ y. refl) (inl refl)
        (given (rel_clear x) e)
  step-Inv (rel_active x) e = gives m th inv i (rel_active x) e x refl (given (rel_active x) e)
  step-Inv (ret_find p k) e = elim (Bool-cases ((m.re_list_set k).active == 0)) [
    | inl z ↦ rw z (
        stores m th inv i (ret_find p k) e (ret_find p (if k == 7 then 0 else suc k)) k (vector k m)
          refl refl (inr (inr refl)) (inl refl) tt)
    | inr z ↦ rw z (
        stores m th inv i (ret_find p k) e (ret_size p k) k (vector k m) refl refl
          (inr (inl (ground (arith, z)))) (inr refl) tt)
  ]
  step-Inv (ret_size p k) e =
      elim (Bool-cases (leb 32 (length (vector k m)) && ltb m.llen (length (vector k m)))) [
        | inl z ↦
            rw z (stays m th inv i (ret_size p k) e (ret_head p k) held (λ y. refl) (inr refl) tt)
        | inr z ↦
            rw z (stays m th inv i (ret_size p k) e (ret_push p k) held (λ y. refl) (inr refl) tt)
      ]
  step-Inv (ret_head p k) e =
      stays m th inv i (ret_head p k) e (ret_scan p k m.head []) held (λ x. refl) (inr refl) tt
  step-Inv (ret_scan p k x hv) e = elim (Bool-cases (x == null)) [
    | inl z ↦
        rw z
          (stays m th inv i (ret_scan p k x hv) e (ret_free p k hv) held (λ y. refl) (inr refl) tt)
    | inr z ↦
        let seen = if m.hazard x == null then hv else hv ++ (m.hazard x ∷ []) in
        rw z (
          stays m th inv i (ret_scan p k x hv) e (ret_next p k x seen) held (λ y. refl) (inr refl)
            tt)
  ]
  step-Inv (ret_next p k x hv) e =
      stays m th inv i (ret_next p k x hv) e (ret_scan p k (m.next x) hv) held (λ x. refl)
        (inr refl) tt
  step-Inv (ret_free p k hv) e =
      stores m th inv i (ret_free p k hv) e (ret_push p k) k (scan_all hv (vector k m)).vector refl
        refl (inl refl) (inr refl) tt
  step-Inv (ret_push p k) e =
      stores m th inv i (ret_push p k) e (ret_done k) k (vector k m ++ (p ∷ [])) refl refl
        (inl refl) (inr refl) tt
  step-Inv (ret_done k) e = leaves m th inv i (ret_done k) e k (vector k m) refl refl

-- What holds in every state that threads reach.
pub record Safe (s : System) : Type 0 where
  pub inv : Inv s.mem s.threads
  pub below : BelowIn s.mem s.threads

module _ (s : System) (h : Safe s) (i : ℕ) where
  -- A thread begins a call.
  calls-Safe :
      (p : Pc)
      → (s.threads i).pc ≡ idle
      → fresh p ≡ []
      → works p ≡ 0
      → node_of p ≡ null
      → Releases (record { pc = p; held = (s.threads i).held }) p
      → Safe (calls i p s)
  calls-Safe p e f w n r = record {
    inv =
        stays s.mem s.threads h.inv i idle e p (s.threads i).held
          (λ x. ap (λ l. count x (l ++ (s.threads i).held)) f) (inl w) r;
    below =
        moves s.mem s.threads h.below i (record { pc = p; held = (s.threads i).held })
          (rw n (bottom s.mem s.threads h.below i));
  }

pub Move-Safe : {s s' : System} → Safe s → Move s s' → Safe s'
Move-Safe {s} h (acquires i n e) = calls-Safe s h i (acq_head n) e refl refl refl tt
Move-Safe {s} h (releases i x e l) = calls-Safe s h i (rel_clear x) e refl refl refl l
Move-Safe {s} h (retires i p e) = calls-Safe s h i (ret_find p 0) e refl refl refl tt
Move-Safe {s} h (protects i x p e l) = record {
  inv = h.inv;
  below = record { first = h.below.first; links = h.below.links; nodes = h.below.nodes };
}
Move-Safe {s} h (later i) = record {
  inv = step-Inv s.mem s.threads h.inv h.below i (s.threads i).pc refl;
  below = step-Below s.mem s.threads h.below i (s.threads i).pc (s.threads i).held refl;
}

pub Reach-Safe : {s : System} → Reach s → Safe s
Reach-Safe start = record {
  inv = record {
    owns = record {
      used = λ k x h. absurd (omega (arith, h));
      once = λ k x. omega arith;
      apart = λ j k x h g. absurd (omega (arith, h));
    };
    works = record {
      marked = λ k j e. absurd (ground (arith, e));
      alone = λ j k r e. absurd (r refl);
    };
    releases = λ k. tt;
  };
  below = record { first = omega arith; links = λ x. omega arith; nodes = λ k. omega arith };
}
Reach-Safe (goes_on r v) = Move-Safe (Reach-Safe r) v
