-- ===== src/HashMap/Threads/Locks.antt =====
-- How threads have the lock of the bucket beside one another.
use fossilizid.Base.{
  ℕ, ◌≡◌, ◌≢◌, ◌⊎◌, inl, inr, refl, sym, true, false, some, List, Eq, update, ◌==◌, arith,
  Bool-cases,
}
use fossilizid.HashMap.Threads.{
  Bucket, Pc, Mode, System, Reach, Event, set_enter, set_load, set_find, set_leave, ins_enter,
  ins_load, ins_make, ins_find, ins_write, ins_add, ins_count, ins_leave, sea_enter, sea_load,
  sea_find, sea_leave, era_enter, era_load, era_find, era_count, era_leave, free, shared, upgrade,
  exclusive, mode, waits, admits, step, begins, start, calls, gets, later,
}

-- Two locks that two threads have at the same time.
abbrev pub Beside : Mode → Mode → Type 0
Beside a b = (admits a b ≡ true) × (admits b a ≡ true)

Beside-free : (a : Mode) → Beside free a × Beside a free
unfolding admits
Beside-free free = ((refl, refl), (refl, refl))
Beside-free shared = ((refl, refl), (refl, refl))
Beside-free upgrade = ((refl, refl), (refl, refl))
Beside-free exclusive = ((refl, refl), (refl, refl))

-- Beside the exclusive lock there is no other.
pub Beside-exclusive : (a : Mode) → Beside exclusive a → a ≡ free
unfolding admits
Beside-exclusive free h = refl
Beside-exclusive shared h = absurd (ground (arith, h))
Beside-exclusive upgrade h = absurd (ground (arith, h))
Beside-exclusive exclusive h = absurd (ground (arith, h))

-- What is granted beside the locks of the others stands beside them.
admits-Beside : (a b : Mode) → a ≢ free → admits a b ≡ true → Beside a b
unfolding admits
admits-Beside free b ne h = absurd (ne refl)
admits-Beside shared free ne h = (refl, refl)
admits-Beside shared shared ne h = (refl, refl)
admits-Beside shared upgrade ne h = (refl, refl)
admits-Beside shared exclusive ne h = absurd (ground (arith, h))
admits-Beside upgrade free ne h = (refl, refl)
admits-Beside upgrade shared ne h = (refl, refl)
admits-Beside upgrade upgrade ne h = absurd (ground (arith, h))
admits-Beside upgrade exclusive ne h = absurd (ground (arith, h))
admits-Beside exclusive free ne h = (refl, refl)
admits-Beside exclusive shared ne h = absurd (ground (arith, h))
admits-Beside exclusive upgrade ne h = absurd (ground (arith, h))
admits-Beside exclusive exclusive ne h = absurd (ground (arith, h))

module _ {K V : Type 0} where
  -- Any two threads have locks that go together.
  abbrev pub Locks : (ℕ → Pc K V) → Type 0
  Locks pc = (i j : ℕ) → i ≢ j → Beside (mode (pc i)) (mode (pc j))

  Locks-update :
      (pc : ℕ → Pc K V) (i : ℕ) (p : Pc K V)
      → Locks pc
      → ((j : ℕ) → i ≢ j → Beside (mode p) (mode (pc j)) × Beside (mode (pc j)) (mode p))
      → Locks (update pc i p)
  Locks-update pc i p l h j k ne = elim (Bool-cases (i == j)) [
    | inl a ↦ elim (Bool-cases (i == k)) [
      | inl b ↦ absurd (ne (ground (arith, a, b)))
      | inr b ↦ rw a (rw b ((h k (ground (arith, b))).0))
    ]
    | inr a ↦ elim (Bool-cases (i == k)) [
      | inl b ↦ rw a (rw b ((h j (ground (arith, a))).1))
      | inr b ↦ rw a (rw b (l j k ne))
    ]
  ]

  begins-mode : (p : Pc K V) → begins p ≡ true → mode p ≡ free
  unfolding mode
  begins-mode (set_enter k v) h = refl
  begins-mode (ins_enter k v) h = refl
  begins-mode (sea_enter k) h = refl
  begins-mode (era_enter k) h = refl
  begins-mode p h = absurd (ground (arith, h))

  waits-mode : (p q : Pc K V) → waits p ≡ some q → mode q ≢ free
  unfolding waits mode
  waits-mode (set_enter k v) q h = ground (arith, h)
  waits-mode p q h = ground (arith, h)

module _ {K V : Type 0} ⦃e : Eq K⦄ where
  -- An access keeps the lock or gives it back.
  step-mode :
      (m : Bucket K V) (p : Pc K V) → (mode (step m p).1 ≡ mode p) ⊎ (mode (step m p).1 ≡ free)
  unfolding step mode
  step-mode m (set_load k v) = inl (ground arith)
  step-mode m (set_find k v) = inl (ground arith)
  step-mode m (ins_load k v) = inl (ground arith)
  step-mode m (ins_find true k v) = inl (ground arith)
  step-mode m (ins_find false k v) = inl (ground arith)
  step-mode m (sea_load k) = inl (ground arith)
  step-mode m (sea_find k) = inl (ground arith)
  step-mode m (era_load k) = inl (ground arith)
  step-mode m (era_find k) = inl (ground arith)
  step-mode m (set_leave b) = inr refl
  step-mode m (ins_make k v) = inr refl
  step-mode m (ins_add true k v) = inr refl
  step-mode m era_count = inr refl
  step-mode m era_leave = inr refl
  step-mode m ins_leave = inr refl
  step-mode m (sea_leave o) = inr refl
  step-mode m (ins_write true k n v) = inl refl
  step-mode m (ins_write false k n v) = inl refl
  step-mode m (ins_add false k v) = inl refl
  step-mode m (ins_count true) = inl refl
  step-mode m (ins_count false) = inl refl
  step-mode m p = inl refl

  -- In every state that threads reach, any two of them have locks that go together.
  pub Reach-Locks :
      {b : Bucket K V} {s : System K V} {es : List (Event K V)} → Reach b s es → Locks s.pc
  unfolding mode
  Reach-Locks start = λ i j ne. (Beside-free free).0
  Reach-Locks (calls {s = s} i p r h g) = Locks-update s.pc i p (Reach-Locks r) (λ j ne.
      let w : mode p ≡ free = begins-mode p g in
      rw w ((Beside-free (mode (s.pc j))).0, (Beside-free (mode (s.pc j))).1))
  Reach-Locks (gets {s = s} i p r h g) = Locks-update s.pc i p (Reach-Locks r) (λ j ne.
      let w = admits-Beside (mode p) (mode (s.pc j)) (waits-mode (s.pc i) p h) (g j ne) in
      (w, (w.1, w.0)))
  Reach-Locks (later {s = s} i r) =
      Locks-update s.pc i (step s.mem (s.pc i)).1 (Reach-Locks r) (λ j ne.
        elim (step-mode s.mem (s.pc i)) [
          | inl w ↦ rw w (Reach-Locks r i j ne, Reach-Locks r j i (λ x. ne (sym x)))
          | inr w ↦ rw w (Beside-free (mode (s.pc j)))
        ])
