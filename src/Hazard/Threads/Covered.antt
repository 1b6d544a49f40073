-- ===== src/Hazard/Threads/Covered.antt =====
-- What a scan that starts while no thread owes a link does not free.
use mathlib.Core.Path.{subst}
use fossilizid.Base.{
  ℕ, suc, ◌≤◌, ◌<◌, ◌≡◌, ◌≢◌, inl, inr, sym, ap, ◌∙◌, true, List, [], ◌∷◌, Ptr, null, count,
  contains, count-append, arith,
}
use fossilizid.Hazard.{scan_all}
use fossilizid.Hazard.Scan.{scan_all-count}
use fossilizid.Hazard.Threads.{
  System, acq_link, ret_head, ret_scan, ret_free, step, vector, turn, Reach, Move, goes_on, later,
}
use fossilizid.Hazard.Threads.Guard.{
  scans, Guards, Guarded, loads, moves, Ahead, Ahead-same, step-Ahead, Move-scans,
}
use fossilizid.Hazard.Threads.Steps.{Reach-Safe}
use fossilizid.Hazard.Threads.Row.{RowIn}
use fossilizid.Hazard.Threads.Rows.{Move-Grown, Reach-Row}

module _ (j k : ℕ) (x a : Ptr) (real : a ≢ null) where
  -- The nodes there were at the load of the head are linked, and the scan does not miss `x`.
  record Covered (s : System) : Type 0 where
    reach : Reach s
    c : ℕ
    at : ℕ → Ptr
    row : RowIn s.mem s.threads c at
    old : ℕ
    inside : old ≤ c
    linked : (q : ℕ) → q < old → s.mem.next (at (suc q)) ≡ at q
    d : ℕ
    early : d ≤ old
    node : at d ≡ x
    ahead : Ahead old at d a (s.threads j).pc
    points_to : s.mem.hazard x ≡ a

  Covered-Move :
      {s s' : System}
      → Covered s
      → scans (s.threads j).pc ≡ true
      → Move s s'
      → Guards k x a s'
      → Covered s'
  Covered-Move {s} {s'} g sc v gd =
      let (c', at', row', l) = Move-Grown g.c g.at (Reach-Safe g.reach) g.row v in
      let same : (q : ℕ) → q ≤ g.old → at' q ≡ g.at q =
        λ q h. l.same q (omega (arith, h, g.inside)) in
      let stepped : Ahead g.old g.at g.d a
          (step s.mem (s.threads j).pc (s.threads j).held).thread.pc =
        step-Ahead g.old g.at g.d a s.mem (s.threads j).pc (s.threads j).held real
          (ap s.mem.hazard g.node ∙ g.points_to) (λ q h. g.row.real q (omega (arith, h, g.inside)))
          g.linked sc g.ahead in
      let here : Ahead g.old g.at g.d a (s'.threads j).pc = elim (Move-scans j sc v) [
        | inl e ↦ subst (Ahead g.old g.at g.d a) (sym e) g.ahead
        | inr e ↦ subst (Ahead g.old g.at g.d a) (sym e) stepped
      ] in
      record {
        reach = goes_on g.reach v;
        c = c';
        at = at';
        row = row';
        old = g.old;
        inside = omega (arith, g.inside, l.more);
        linked = λ q h.
            ap s'.mem.next (same (suc q) (omega (arith, h)))
            ∙ l.linked q (omega (arith, h, g.inside)) (g.linked q h)
            ∙ sym (same q (omega (arith, h)));
        d = g.d;
        early = g.early;
        node = same g.d g.early ∙ g.node;
        ahead = Ahead-same g.old g.at g.d a at' (s'.threads j).pc same here;
        points_to = gd.0;
      }

  -- The head is loaded.
  Covered-loads :
      (s : System) (p l : ℕ)
      → Reach s
      → ((i n : ℕ) (y old : Ptr) → (s.threads i).pc ≢ acq_link n y old)
      → (s.threads j).pc ≡ ret_head p l
      → Guards k x a s
      → Covered (turn j s)
  unfolding step
  Covered-loads s p l r quiet e gd =
      let (c, at, row) = Reach-Row r in
      let (c', at', row', g) = Move-Grown c at (Reach-Safe r) row (later j) in
      let (d, early, node) = row.handed k x gd.1 in
      let h : List Ptr = (s.threads j).held in
      let own : (turn j s).threads j ≡ (step s.mem (s.threads j).pc h).thread = ground arith in
      let scan : ((turn j s).threads j).pc ≡ ret_scan p l s.mem.head [] =
        ap (λ t. t.pc) own ∙ ap (λ q. (step s.mem q h).thread.pc) e in
      let found : Ahead c at' d a (ret_scan p l s.mem.head []) =
        inr (c, early, omega arith, g.same c (omega arith) ∙ row.newest) in
      record {
        reach = goes_on r (later j);
        c = c';
        at = at';
        row = row';
        old = c;
        inside = g.more;
        linked = λ q h.
            ap (turn j s).mem.next (g.same (suc q) (omega (arith, h)))
            ∙ g.linked q h (elim (row.links q h) [
              | inl w ↦ w
              | inr (w, i, n, v) ↦ absurd (quiet i n (at (suc q)) (at q) v)
            ])
            ∙ sym (g.same q (omega (arith, h)));
        d = d;
        early = early;
        node = g.same d early ∙ node;
        ahead = subst (Ahead c at' d a) (sym scan) found;
        points_to = ap (λ q. (step s.mem q h).mem.hazard x) e ∙ gd.0;
      }

  Guarded-Covered : {s : System} → Guarded j k x a s → Covered s
  Guarded-Covered (loads {s = s} p l r quiet e gd) = Covered-loads s p l r quiet e gd
  Guarded-Covered (moves g sc v gd) = Covered-Move (Guarded-Covered g) sc v gd

count-contains : (a : Ptr) (l : List Ptr) → 1 ≤ count a l → contains l a ≡ true
count-contains a [] h = absurd (omega arith)
count-contains a (y ∷ l) h = ground (arith, count-contains a l)

-- A scan that starts while no thread owes a link frees no pointer but null that a thread's hazard
-- pointer points to all the while, however the accesses of the threads are interleaved.
pub Guarded-free :
    {s : System} (j k : ℕ) (x a : Ptr) (p l : ℕ) (hv : List Ptr)
    → a ≢ null
    → Guarded j k x a s
    → (s.threads j).pc ≡ ret_free p l hv
    → count a (turn j s).mem.freed ≡ count a s.mem.freed
unfolding step
Guarded-free {s} j k x a p l hv real g e =
    let w = Guarded-Covered j k x a real g in
    let h : List Ptr = (s.threads j).held in
    let found : 1 ≤ count a hv = subst (Ahead w.old w.at w.d a) e w.ahead in
    let kept = (scan_all-count hv (vector l s.mem) a).1 in
    let gone : count a (scan_all hv (vector l s.mem)).gone ≡ 0 =
      kept ∙ ground (arith, count-contains a hv found) in
    ap (λ q. count a (step s.mem q h).mem.freed) e
    ∙ count-append a s.mem.freed (scan_all hv (vector l s.mem)).gone
    ∙ ground (arith, gone)
