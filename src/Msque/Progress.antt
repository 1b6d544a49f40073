-- ===== src/Msque/Progress.antt =====
-- A thread that runs alone finishes its `push` or `pop`, and what the call has then done.
use mathlib.Core.Path.{subst}
use fossilizid.Base.{
  ℕ, zero, suc, ◌+◌, ◌-◌, ◌*◌, ◌^◌, ◌≡◌, ◌≢◌, refl, List, [], ◌∷◌, ◌++◌, arith, Ptr, null,
}
use fossilizid.Msque.{
  Heap, Mem, Pc, push_node, push_end, pushed, pop_begin, pop_empty, popped, step, solo, u32,
  get_node, set_next,
}
use fossilizid.Msque.Chain.{Leads, IsEnd, Holds, Leads-alloc, Holds-alloc, Holds-link}
use fossilizid.Msque.Invariant.{Inv}

abbrev accesses : ℕ → ℕ
accesses zero = 6
accesses (suc k) = suc (suc (suc (accesses k)))

accesses_lem : (k : ℕ) → suc (accesses k) ≡ 3 * k + 7
accesses_lem zero = refl
accesses_lem (suc k) = omega (arith, accesses_lem k)

module _ {A : Type 0} where
  -- The list after `push` has linked node `n` behind `last`.
  abbrev appended : Mem A → Ptr → Ptr → Mem A
  appended m last n = record m { heap = set_next m.heap last n; end = n; size = u32 (m.size + 1) }

  push_end-solo :
      (k : ℕ) (m : Mem A) (last n : Ptr) (v : A)
      → m.next last ≡ null
      → Leads m.next m.brk last k m.end
      → solo (accesses k) m (push_end v n) ≡ (appended m last n, pushed)
  unfolding solo step
  push_end-solo zero m last n v e l = ground arith
  push_end-solo (suc k) m last n v e l =
      ground (arith, push_end-solo k (record m { end = m.next m.end }) last n v)

  -- What a call has done to a list that held `q`: it holds `q'`, `_end` is the last node, and
  -- `_size` has changed by `d`.
  pub record Done (m : Mem A) (q' : List A) (d : ℕ) (p : Pc A) (r : Mem A × Pc A) : Type 0 where
    pub finished : r.1 ≡ p
    pub holds : Holds (r.0).next (r.0).value (r.0).brk (r.0).end (r.0).begin q'
    pub counted : (r.0).size ≡ u32 (m.size + d)

  push_node-solo :
      (k last : ℕ) (m : Mem A) (pc : ℕ → Pc A) (q : List A) (v : A)
      → Inv last m pc q
      → Leads m.next m.brk last k m.end
      → Done m (q ++ (v ∷ [])) 1 pushed (solo (suc (accesses k)) m (push_node v))
  unfolding solo step
  push_node-solo k last m pc q v inv l =
      rw (push_end-solo k (record m { heap = h }) last m.brk v bottom.ends (grow k m.end l))
        (record { finished = refl; holds = holds; counted = refl })
    where
      h : Heap A
      h = get_node m.heap v

      grow : (j : ℕ) (a : Ptr) → Leads m.next m.brk last j a → Leads h.next h.brk last j a
      grow = Leads-alloc m.next m.brk last

      bottom : IsEnd h.next h.brk last
      bottom = ground (arith, inv.bottom)

      held : h.value m.brk ≡ v
      held = ground arith

      holds : Holds (set_next h last m.brk).next h.value h.brk m.brk m.begin (q ++ (v ∷ []))
      holds =
          subst
            (λ x. Holds (set_next h last m.brk).next h.value h.brk m.brk m.begin (q ++ (x ∷ [])))
            held
            (Holds-link h.next h.brk last h.value m.begin q m.brk bottom
              (ground (arith, inv.bottom)) (omega arith)
              (Holds-alloc m.next m.brk last m.value m.begin q v inv.holds))

  -- A `push` that runs alone from any state of the interleavings finishes in `3 * k + 7` accesses,
  -- for `k` the number of links that lead from `_end` to the last node: the value is then the last
  -- of the queue, `_end` is the last node, and `_size` has grown by one, modulo 2^32.
  pub push-solo :
      (last : Ptr) (m : Mem A) (pc : ℕ → Pc A) (q : List A) (v : A)
      → Inv last m pc q
      → (k : ℕ) × Leads m.next m.brk last k m.end
        × Done m (q ++ (v ∷ [])) 1 pushed (solo (3 * k + 7) m (push_node v))
  push-solo last m pc q v inv = (
    inv.tail.0,
    inv.tail.1,
    rw (← accesses_lem inv.tail.0) (push_node-solo inv.tail.0 last m pc q v inv inv.tail.1),
  )

  -- A `pop` that runs alone on a list with a first value finishes in seven accesses and returns it;
  -- the list then holds the other values, and `pop` has retired the node that `_begin` was.
  pub pop-solo_some :
      (last : Ptr) (m : Mem A) (pc : ℕ → Pc A) (v : A) (vs : List A)
      → Inv last m pc (v ∷ vs)
      → (solo 7 m pop_begin ≡ (
        record m {
          begin = m.next m.begin;
          size = u32 (m.size + (2 ^ 32 - 1));
          retired = m.begin ∷ m.retired;
        },
        popped v,
      ))
        × Holds m.next m.value m.brk last (m.next m.begin) vs
  unfolding solo step
  pop-solo_some last m pc v vs inv = (ground (arith, inv.holds), inv.holds.5)

  -- A `pop` that runs alone on an empty list finishes in two accesses, returns false and changes
  -- nothing.
  pub pop-solo_none :
      (last : Ptr) (m : Mem A) (pc : ℕ → Pc A)
      → Inv last m pc []
      → solo 2 m pop_begin ≡ (m, pop_empty)
  unfolding solo step
  pop-solo_none last m pc inv = ground (arith, inv.holds, inv.bottom)

  -- Where `_end` lags at `_begin` though a node is linked behind it, `pop` retires the node that
  -- `_end` points to, and leaves `_end` there.
  pub pop_retires_end :
      (m : Mem A)
      → m.end ≡ m.begin
      → m.next m.begin ≢ null
      → let r = (solo 7 m pop_begin).0 in
        (r.retired ≡ m.end ∷ m.retired) × (r.end ≡ m.end) × (r.begin ≡ m.next m.end)
  unfolding solo step
  pop_retires_end m e ne = ground arith
