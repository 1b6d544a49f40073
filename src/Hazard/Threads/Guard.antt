-- ===== src/Hazard/Threads/Guard.antt =====
-- A scan that starts while no thread owes a link.
use fossilizid.Base.{
  ℕ, zero, suc, ◌+◌, ◌≤◌, ◌<◌, ◌≡◌, ◌≢◌, ◌⊎◌, inl, inr, refl, sym, ap, ◌∙◌, Bool, true, false, List,
  [], ◌∷◌, ◌++◌, Ptr, null, ◌==◌, count, count-append, arith, Bool-cases,
}
use fossilizid.Hazard.Threads.{
  Pc, Memory, System, idle, acq_link, ret_head, ret_scan, ret_next, ret_free, step, turn, calls,
  acq_head, rel_clear, ret_find, Reach, Move, acquires, releases, retires, protects, later,
}

-- A thread is between the load of the head and the end of its scan.
abbrev pub scans : Pc → Bool
scans (ret_scan p l y hv) = true
scans (ret_next p l y hv) = true
scans (ret_free p l hv) = true
scans p = false

-- Thread `k` has the hazard pointer `x`, which points to `a`.
abbrev pub Guards : ℕ → Ptr → Ptr → System → Type 0
Guards k x a s = (s.mem.hazard x ≡ a) × (1 ≤ count x (s.threads k).held)

-- The states during a scan by thread `j` that starts while no thread owes a link, as long as the
-- hazard pointer `x` of thread `k` points to `a`.
pub data Guarded (j k : ℕ) (x a : Ptr) : System → Type 0 where
  loads :
      {s : System} (p l : ℕ)
      → Reach s
      → ((i n : ℕ) (y old : Ptr) → (s.threads i).pc ≢ acq_link n y old)
      → (s.threads j).pc ≡ ret_head p l
      → Guards k x a s
      → Guarded j k x a (turn j s)
  moves :
      {s s' : System}
      → Guarded j k x a s
      → scans (s.threads j).pc ≡ true
      → Move s s'
      → Guards k x a s'
      → Guarded j k x a s'

-- Number `d` of the list is still to be looked at, or its pointer was found.
abbrev pub Ahead : ℕ → (ℕ → Ptr) → ℕ → Ptr → Pc → Type 0
Ahead c at d a (ret_scan p l y hv) = (1 ≤ count a hv) ⊎ ((q : ℕ) × (d ≤ q) × (q ≤ c) × (at q ≡ y))
Ahead c at d a (ret_next p l y hv) = (1 ≤ count a hv) ⊎ ((q : ℕ) × (d < q) × (q ≤ c) × (at q ≡ y))
Ahead c at d a (ret_free p l hv) = 1 ≤ count a hv
Ahead c at d a p = Unit {0}

module _ (c : ℕ) (at : ℕ → Ptr) (d : ℕ) (a : Ptr) where
  pub Ahead-same :
      (at' : ℕ → Ptr) (p : Pc)
      → ((q : ℕ) → q ≤ c → at' q ≡ at q)
      → Ahead c at d a p
      → Ahead c at' d a p
  Ahead-same at' (ret_scan p l y hv) e (inl h) = inl h
  Ahead-same at' (ret_scan p l y hv) e (inr (q, h, g, w)) = inr (q, h, g, e q g ∙ w)
  Ahead-same at' (ret_next p l y hv) e (inl h) = inl h
  Ahead-same at' (ret_next p l y hv) e (inr (q, h, g, w)) = inr (q, h, g, e q g ∙ w)
  Ahead-same at' (ret_free p l hv) e h = h
  Ahead-same at' p e h = tt

  -- An access of the thread that scans
  pub step-Ahead :
      (m : Memory) (p : Pc) (h : List Ptr)
      → a ≢ null
      → m.hazard (at d) ≡ a
      → ((q : ℕ) → q ≤ c → at q ≢ null)
      → ((q : ℕ) → q < c → m.next (at (suc q)) ≡ at q)
      → scans p ≡ true
      → Ahead c at d a p
      → Ahead c at d a (step m p h).thread.pc
  unfolding step
  step-Ahead m (ret_scan p l y hv) h z e real next sc w = elim (Bool-cases (y == null)) [
    | inl n ↦
        rw n (elim w [ inl g ↦ g | inr (q, o, g, u) ↦ absurd (real q g (u ∙ ground (arith, n))) ])
    | inr n ↦ rw n (elim w [
      | inl g ↦ inl (ground (arith, g, more y hv))
      | inr (q, o, g, u) ↦ elim (Bool-cases (d == q)) [
        | inl v ↦
            let w : m.hazard y ≡ a = ap m.hazard (sym u ∙ ap at (ground (arith, v))) ∙ e in
            inl (ground (arith, w, z, more y hv))
        | inr v ↦ inr (q, ground (arith, o, v), g, u)
      ]
    ])
  ]
    where
      more :
          (y : Ptr) (hv : List Ptr)
          → count a (hv ++ (m.hazard y ∷ [])) ≡ count a hv + count a (m.hazard y ∷ [])
      more y hv = count-append a hv (m.hazard y ∷ [])
  step-Ahead m (ret_next p l y hv) h z e real next sc (inl w) = inl w
  step-Ahead m (ret_next p l y hv) h z e real next sc (inr (zero, w, g, u)) =
      absurd (omega (arith, w))
  step-Ahead m (ret_next p l y hv) h z e real next sc (inr (suc q, w, g, u)) =
      inr (q, omega (arith, w), omega (arith, g), sym (next q (omega (arith, g))) ∙ ap m.next u)
  step-Ahead m (ret_free p l hv) h z e real next sc w = tt
  step-Ahead m p h z e real next sc w = absurd (ground (arith, sc))

-- A thread that scans begins no call.
calls-scans :
    (s : System) (i j : ℕ) (p : Pc)
    → scans (s.threads j).pc ≡ true
    → (s.threads i).pc ≡ idle
    → ((calls i p s).threads j).pc ≡ (s.threads j).pc
calls-scans s i j p h e = elim (Bool-cases (i == j)) [
  | inl z ↦
      let w : (s.threads j).pc ≡ idle = ap (λ k. (s.threads k).pc) (sym (ground (arith, z))) ∙ e in
      let v : scans (s.threads j).pc ≡ false = ap scans w in absurd (ground (arith, v, h))
  | inr z ↦ rw z refl
]

-- A thread that scans stays where it is, but for its own accesses.
pub Move-scans :
    {s s' : System} (j : ℕ)
    → scans (s.threads j).pc ≡ true
    → Move s s'
    → ((s'.threads j).pc ≡ (s.threads j).pc)
      ⊎ ((s'.threads j).pc ≡ (step s.mem (s.threads j).pc (s.threads j).held).thread.pc)
Move-scans {s} j h (acquires i n e) = inl (calls-scans s i j (acq_head n) h e)
Move-scans {s} j h (releases i x e l) = inl (calls-scans s i j (rel_clear x) h e)
Move-scans {s} j h (retires i p e) = inl (calls-scans s i j (ret_find p 0) h e)
Move-scans {s} j h (protects i x p e l) = inl refl
Move-scans {s} j h (later i) = elim (Bool-cases (i == j)) [
  | inl z ↦
      let w : i ≡ j = ground (arith, z) in
      rw z (inr (ap (λ k. (step s.mem (s.threads k).pc (s.threads k).held).thread.pc) w))
  | inr z ↦ rw z (inl refl)
]
