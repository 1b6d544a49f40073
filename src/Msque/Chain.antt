-- ===== src/Msque/Chain.antt =====
-- Paths along `_next` to the last node, and the values that they pass.
pub mod Numbers
use fossilizid.Base.{
  ℕ, zero, suc, ◌<◌, ◌≡◌, ◌≢◌, refl, sym, ap, ◌∙◌, List, [], ◌∷◌, ◌++◌, arith, Ptr, null, update,
}
use fossilizid.Msque.{rest}

-- `a` is a node from which `k` links lead to `last`.
abbrev pub Leads : (Ptr → Ptr) → ℕ → Ptr → ℕ → Ptr → Type 0
Leads next brk last zero a = a ≡ last
Leads next brk last (suc k) a =
    (a ≢ null) × (a < brk) × (next a ≢ null) × Leads next brk last k (next a)

-- The nodes after `a` hold `q`, in order, and the last of them is `last`.
abbrev pub Holds : {A : Type 0} → (Ptr → Ptr) → (Ptr → A) → ℕ → Ptr → Ptr → List A → Type 0
Holds next value brk last a [] = a ≡ last
Holds next value brk last a (v ∷ vs) =
    (a ≢ null)
    × (a < brk)
    × (next a ≢ null)
    × (next a < brk)
    × (value (next a) ≡ v)
    × Holds next value brk last (next a) vs

-- The last node: it has no successor.
pub record IsEnd (next : Ptr → Ptr) (brk last : Ptr) : Type 0 where
  pub real : last ≢ null
  pub below : last < brk
  pub ends : next last ≡ null

module _ (next : Ptr → Ptr) (brk last : Ptr) where
  -- A node of a path that has no successor is the last one.
  pub Leads-last : (k : ℕ) (a : Ptr) → Leads next brk last k a → next a ≡ null → a ≡ last
  Leads-last zero a h e = h
  Leads-last (suc k) a h e = absurd (h.2 e)

  pub Leads-real : (k : ℕ) (a : Ptr) → last ≢ null → Leads next brk last k a → a ≢ null
  Leads-real zero a r h = omega arith
  Leads-real (suc k) a r h = h.0

  pub Leads-below : (k : ℕ) (a : Ptr) → last < brk → Leads next brk last k a → a < brk
  Leads-below zero a b h = omega arith
  Leads-below (suc k) a b h = h.1

  -- The successor of a node on a path is on a path.
  pub Leads-next :
      (k : ℕ) (a : Ptr)
      → next last ≡ null
      → Leads next brk last k a
      → next a ≢ null
      → (j : ℕ) × Leads next brk last j (next a)
  Leads-next zero a e h ne = absurd (ne (ap next h ∙ e))
  Leads-next (suc k) a e h ne = (k, h.3)

  -- A new node is no part of a path.
  pub Leads-alloc :
      (k : ℕ) (a : Ptr) → Leads next brk last k a → Leads (update next brk null) (suc brk) last k a
  Leads-alloc zero a h = h
  Leads-alloc (suc k) a h = ground (arith, Leads-alloc k (next a))

  -- A link at the end leaves a path to an earlier node alone.
  pub Leads-keep :
      (k : ℕ) (a end n : Ptr)
      → next end ≡ null
      → Leads next brk last k a
      → Leads (update next end n) brk last k a
  Leads-keep zero a end n e h = h
  Leads-keep (suc k) a end n e h =
      rw (before a h.2) (h.0, h.1, h.2, Leads-keep k (next a) end n e h.3)
    where
      before : (x : Ptr) → next x ≢ null → update next end n x ≡ next x
      before x ne = ground (arith, ap next)

  -- A path goes on over one more link.
  pub Leads-snoc :
      (k : ℕ) (a : Ptr)
      → last ≢ null
      → last < brk
      → next last ≢ null
      → Leads next brk last k a
      → Leads next brk (next last) (suc k) a
  Leads-snoc zero a r b ne h = rw h (r, b, ne, refl)
  Leads-snoc (suc k) a r b ne h = (h.0, h.1, h.2, Leads-snoc k (next a) r b ne h.3)

  -- Linking a node behind the last one lengthens each path by it.
  pub Leads-link :
      (k : ℕ) (a node : Ptr)
      → IsEnd next brk last
      → node ≢ null
      → Leads next brk last k a
      → Leads (update next last node) brk node (suc k) a
  Leads-link zero a node l n h = ground arith
  Leads-link (suc k) a node l n h = ground (arith, Leads-link k (next a) node l n)

  module _ {A : Type 0} (value : Ptr → A) where
    pub Holds-alloc :
        (a : Ptr) (q : List A) (v : A)
        → Holds next value brk last a q
        → Holds (update next brk null) (update value brk v) (suc brk) last a q
    Holds-alloc a [] v h = h
    Holds-alloc a (x ∷ q) v h = ground (arith, Holds-alloc (next a) q v)

    pub Holds-link :
        (a : Ptr) (q : List A) (node : Ptr)
        → IsEnd next brk last
        → node ≢ null
        → node < brk
        → Holds next value brk last a q
        → Holds (update next last node) value brk node a (q ++ (value node ∷ []))
    Holds-link a [] node l n b h = ground arith
    Holds-link a (x ∷ q) node l n b h = ground (arith, Holds-link (next a) q node l n b)

    -- The first node is on a path, and the queue is empty only there is no successor.
    pub Holds-Leads :
        (a : Ptr) (q : List A) → Holds next value brk last a q → (k : ℕ) × Leads next brk last k a
    Holds-Leads a [] h = (0, h)
    Holds-Leads a (x ∷ q) h = let (k, l) = Holds-Leads (next a) q h.5 in (suc k, (h.0, h.1, h.2, l))

    -- Behind the first link stands the queue without its first value.
    pub Holds-rest :
        (a : Ptr) (q : List A)
        → next last ≡ null
        → next a ≢ null
        → Holds next value brk last a q
        → Holds next value brk last (next a) (rest q) × (next a < brk)
    Holds-rest a [] e ne h = absurd (ne (ap next h ∙ e))
    Holds-rest a (x ∷ q) e ne h = (h.5, h.3)

    pub Holds-head :
        (a : Ptr) (q : List A)
        → next last ≡ null
        → next a ≢ null
        → Holds next value brk last a q
        → q ≡ value (next a) ∷ rest q
    Holds-head a [] e ne h = absurd (ne (ap next h ∙ e))
    Holds-head a (x ∷ q) e ne h = ap (λ v. v ∷ q) (sym h.4)

    -- Where the first node has no successor there is no value.
    pub Holds-nil : (a : Ptr) (q : List A) → next a ≡ null → Holds next value brk last a q → q ≡ []
    Holds-nil a [] e h = refl
    Holds-nil a (x ∷ q) e h = absurd (h.2 e)
