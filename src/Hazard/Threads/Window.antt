-- ===== src/Hazard/Threads/Window.antt =====
-- A scan between the two steps by which `acquire` puts a new node into the list.
use fossilizid.Base.{
  ℕ, zero, suc, ◌+◌, ◌<◌, ◌≡◌, ◌≢◌, refl, ap, ◌∙◌, [], ◌++◌, Ptr, null, update, ◌==◌, false, count,
  count-append, arith,
}
use fossilizid.Hazard.Scan.{scan_all-count}
use fossilizid.Hazard.{scan_all}
use fossilizid.Hazard.Threads.{
  System, Thread, Memory, Step, acq_alloc, ret_head, step, vector, with_node, store, turn, Reach,
}

-- So many accesses of thread `i`
abbrev pub turns : ℕ → ℕ → System → System
turns i zero s = s
turns i (suc n) s = turns i n (turn i s)

-- A thread that has the memory for itself
abbrev alone : ℕ → Memory → Thread → Step
alone zero m t = record { mem = m; thread = t }
alone (suc n) m t = alone n (step m t.pc t.held).mem (step m t.pc t.held).thread

turns-alone : (i n : ℕ) (s : System) → (turns i n s).mem ≡ (alone n s.mem (s.threads i)).mem
turns-alone i zero s = refl
turns-alone i (suc n) s =
    let t = (step s.mem (s.threads i).pc (s.threads i).held).thread in
    let e : update s.threads i t i ≡ t = ground arith in
    turns-alone i n (turn i s) ∙ ap (λ u. (alone n (turn i s).mem u).mem) e

turns-others : (i n k : ℕ) (s : System) → i ≢ k → (turns i n s).threads k ≡ s.threads k
turns-others i zero k s ne = refl
turns-others i (suc n) k s ne =
    let t = (step s.mem (s.threads i).pc (s.threads i).held).thread in
    let e : update s.threads i t k ≡ s.threads k = ground (arith, ne) in
    turns-others i n k (turn i s) ne ∙ e

alone-push :
    (n : ℕ) (m : Memory) (t : Thread)
    → t.pc ≡ acq_alloc n
    → (alone 3 m t).mem ≡ record (with_node m) { llen = m.llen + 1; head = m.brk }
unfolding step
alone-push n m t e = rw e refl

alone-retire :
    (p l x : ℕ) (m : Memory) (t : Thread)
    → t.pc ≡ ret_head p l
    → m.head ≡ x
    → x ≢ null
    → m.next x ≡ null
    → m.hazard x ≡ null
    → let s = scan_all [] (vector l m) in
      (alone 5 m t).mem ≡ record (store l s.vector 0 m) { freed = m.freed ++ s.gone }
unfolding step
alone-retire p l x m t e h r n z =
    let w : (x == null) ≡ false = ground (arith, r) in rw e (rw h (rw w (rw z (rw n refl))))

-- In a state that threads reach, one thread is about to make a new node and another to load the
-- head of the list for its scan. When the first comes to its exchange of the head, and then the
-- other makes its scan, this frees every pointer of its recover list as often as it stands there,
-- whatever hazard pointer points to it: the hazard pointers there were are as before, and none was
-- looked at.
pub scan-window :
    (s : System) (i j n p l : ℕ) (a x : Ptr)
    → Reach s
    → i ≢ j
    → (s.threads i).pc ≡ acq_alloc n
    → (s.threads j).pc ≡ ret_head p l
    → x < s.mem.brk
    → let m = (turns j 5 (turns i 3 s)).mem in
      (m.hazard x ≡ s.mem.hazard x)
      × (count a m.freed ≡ count a s.mem.freed + count a (vector l s.mem))
scan-window s i j n p l a x r ne e g h =
    let t = turns i 3 s in
    let pushed : t.mem ≡ record (with_node s.mem) { llen = s.mem.llen + 1; head = s.mem.brk } =
      turns-alone i 3 s ∙ alone-push n s.mem (s.threads i) e in
    let at : (t.threads j).pc ≡ ret_head p l = ap (λ u. u.pc) (turns-others i 3 j s ne) ∙ g in
    let scanned =
      alone-retire p l s.mem.brk
        (record (with_node s.mem) { llen = s.mem.llen + 1; head = s.mem.brk }) (t.threads j) at refl
        (omega (arith, h)) (ground arith) (ground arith) in
    let all = (scan_all-count [] (vector l s.mem) a).1 in
    let done = turns-alone j 5 t ∙ ap (λ m. (alone 5 m (t.threads j)).mem) pushed ∙ scanned in
    (
      ap (λ m. m.hazard x) done ∙ ground (arith, h),
      ap (λ m. count a m.freed) done
          ∙ count-append a s.mem.freed (scan_all [] (vector l s.mem)).gone
          ∙ ap (λ c. count a s.mem.freed + c) all,
    )
