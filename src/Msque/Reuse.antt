-- ===== src/Msque/Reuse.antt =====
-- A pop that has loaded `_begin` and not yet stored it in its hazard pointer: nothing keeps the
-- node from being retired, freed and handed out again, and `pop` does not look again before it
-- reads `_next`.
use fossilizid.Base.{ℕ, ◌≡◌, ◌≢◌, refl, ap, ◌∙◌, sym, Bool, List, [], ◌∷◌, arith, Ptr, null}
use mathlib.Core.Path.{subst}
use fossilizid.Msque.{Mem, Pc, step, solo, pop_begin, pop_next, pop_empty, node_at}
use fossilizid.Msque.Chain.{Holds}
use fossilizid.Msque.Invariant.{Inv}
use fossilizid.Msque.Progress.{pop-solo_some}

module _ {A : Type 0} where
  no_loop :
      (next : Ptr → Ptr) (value : Ptr → A) (brk last a : Ptr) (q : List A)
      → Holds next value brk last a q
      → next last ≡ null
      → a ≢ null
      → next a ≢ a
  no_loop next value brk last a [] h e n l = n (sym l ∙ ap next h ∙ e)
  no_loop next value brk last a (v ∷ vs) h e n l =
      no_loop next value brk last a vs (subst (λ b. Holds next value brk last b vs) l h.5) e n l

  -- What the pool makes of the memory by handing `p` out again for the value `v`.
  abbrev pub reused : Ptr → A → Mem A → Mem A
  reused p v m = record m { heap = node_at m.heap p v }

  -- Once `other` is the memory after the other pop: `hp0` was retired, the list holds `q`, and when
  -- `hp0` is handed out again, a pop that has loaded it from `_begin` goes on to report an empty
  -- queue, though `_begin` is as it was and a node is linked behind it.
  abbrev pub Misses : Bool → Ptr → Ptr → A → List Ptr → List A → Mem A → Type 0
  Misses w last hp0 v retired q other =
      let r = reused hp0 v other in
      Holds other.next other.value other.brk last other.begin q
      × (other.retired ≡ hp0 ∷ retired)
      × ((step w r (pop_next hp0)).1 ≡ pop_empty)
      × (r.begin ≡ other.begin)
      × (r.next r.begin ≢ null)

  -- In any state of the invariant with two values or more: a pop has loaded `_begin`; another pop
  -- takes the first value, retires that node, and the list holds the other values; the pool hands
  -- the node out again for a push. Then the first pop, at its load of `_next`, goes on to report an
  -- empty queue, though `_begin` is where the other pop left it and a node is linked behind it.
  pub pop_reused :
      (w : Bool) (last : Ptr) (m : Mem A) (pc : ℕ → Pc A) (x y v : A) (ys : List A)
      → Inv last m pc (x ∷ y ∷ ys)
      → Misses w last m.begin v m.retired (y ∷ ys) (solo 7 m pop_begin).0
  unfolding step
  pop_reused w last m pc x y v ys i =
      let (e, h) = pop-solo_some last m pc x (y ∷ ys) i in
      let apart =
        no_loop m.next m.value m.brk last m.begin (x ∷ y ∷ ys) i.holds i.bottom.ends i.holds.0 in
      subst (Misses w last m.begin v m.retired (y ∷ ys)) (ap (λ o. o.0) (sym e))
        (h, refl, ground arith, refl, ground (arith, apart, h))
