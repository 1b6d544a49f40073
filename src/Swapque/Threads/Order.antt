-- ===== src/Swapque/Threads/Order.antt =====
-- Which queue threads that push and pop work on, whatever the order of their accesses.
use mathlib.Core.Path.{subst}
use fossilizid.Base.{ℕ, suc, ◌<◌, ◌≡◌, ◌≢◌, inl, inr, sym, List, length, Ptr, arith}
use fossilizid.Msque.Chain.{IsEnd, Holds}
use fossilizid.Msque.Chain.Numbers.{linked-Holds}
use fossilizid.Swapque.{Que, MicroQue}
use fossilizid.Swapque.Threads.{push_link, null_access, Event, System, Reach, Queues}
use fossilizid.Swapque.Threads.Inv.{Row, Local}
use fossilizid.Swapque.Threads.Steps.{Reach-Keeps}

module _ {A : Type 0} where
  -- A list of the queue holds these values, from its first node to its last.
  pub record Micro (m : Que A) (l : MicroQue) (q : List A) : Type 0 where
    pub last : IsEnd m.next m.brk l.end
    pub holds : Holds m.next m.value m.brk l.end l.begin q

  Row-Micro :
      (m : Que A) (l : MicroQue) (q : List A) (at : ℕ → Ptr)
      → Row m.next m.value m.brk l q at
      → ((j : ℕ) → j < length q → m.next (at j) ≡ at (suc j))
      → Micro m l q
  Row-Micro m l q at r links = record {
    last = record {
      real = rw (sym r.newest) (r.real (length q) (omega arith));
      below = rw (sym r.newest) (r.below (length q) (omega arith));
      ends = rw (sym r.newest) (r.open_end);
    };
    holds =
        subst (λ d. Holds m.next m.value m.brk d l.begin q) r.newest
          (subst (λ h. Holds m.next m.value m.brk (at (length q)) h q) r.first
            (linked-Holds m.next m.value m.brk q at (λ j h. (r.real j h, r.below j h)) links
              r.values));
  }

  -- However the accesses of the threads that push and pop are interleaved, at every moment: what
  -- was published, removed and exchanged is a history of two first-in-first-out lists that change
  -- places; the list to pop from holds, linked from its first node to its last, what this history
  -- leaves in it; and no thread has read through a null pointer.
  pub Reach-front :
      (junk : A) {s : System A} {es : List (Event A)} (k : ℕ)
      → Reach junk s es
      → (f : List A) × (b : List A) × Queues es f b
        × Micro s.mem s.mem.frond f
        × (s.pc k ≢ null_access)
  Reach-front junk {s} {es} k r =
      let (f, b, q, front, back, inv) = Reach-Keeps junk r in
      let m = s.mem in
      (
        f,
        b,
        q,
        Row-Micro m m.frond f front inv.frond inv.linked,
        λ e. subst (Local {A = A} m.next m.brk m.frond back (length b)) e (inv.locals k),
      )

  -- Whenever no thread stands between its exchange of `_end` and the link that it owes, both lists
  -- of the queue hold what the history of exchanges leaves in them, however the accesses of the
  -- threads that push and pop were interleaved.
  pub Reach-lists :
      (junk : A) {s : System A} {es : List (Event A)}
      → Reach junk s es
      → ((k : ℕ) (n old : Ptr) → s.pc k ≢ push_link n old)
      → (f : List A) × (b : List A) × Queues es f b
        × Micro s.mem s.mem.frond f
        × Micro s.mem s.mem.back b
  Reach-lists junk {s} {es} r quiet =
      let (f, b, q, front, back, inv) = Reach-Keeps junk r in
      let m = s.mem in
      (
        f,
        b,
        q,
        Row-Micro m m.frond f front inv.frond inv.linked,
        Row-Micro m m.back b back inv.rear (λ j h. elim (inv.links j h) [
          | inl e ↦ e
          | inr (e, k, g) ↦ absurd (quiet k (back (suc j)) (back j) g)
        ]),
      )
