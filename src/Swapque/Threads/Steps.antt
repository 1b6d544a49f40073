-- ===== src/Swapque/Threads/Steps.antt =====
-- What any access does to the lists, and what holds in every state that threads reach.
use mathlib.Core.Path.{subst}
use fossilizid.Base.{
  ℕ, suc, ◌+◌, ◌-◌, ◌%◌, ◌^◌, ◌<◌, ◌≡◌, ◌≢◌, inl, inr, refl, sym, ap, ◌∙◌, Bool, true, false, none,
  some, List, [], ◌∷◌, ◌++◌, length, Ptr, null, update, arith, Bool-cases, ◌==◌,
}
use fossilizid.Swapque.{Que, get_que}
use fossilizid.Swapque.Threads.{
  Pc, idle, push_node, push_lock, push_end, push_link, push_count, push_unlock, pushed, pop_size,
  pop_lock, pop_begin, pop_test, pop_again, pop_unlock, pop_swap, pop_next, pop_cas, pop_read,
  pop_retire, pop_count, pop_leave, popped, null_access, step, happens, Event, System, removes,
  Reach, Queues, start, pushes, pops, later, swaps, empty, publish, remove, exchange,
}
use fossilizid.Swapque.Threads.Inv.{owned, real_node, Row, Seen, Local, Inv}
use fossilizid.Swapque.Threads.Moves.{quiet, alloc}
use fossilizid.Swapque.Threads.Publish
use fossilizid.Swapque.Threads.Links.{set_next}
use fossilizid.Swapque.Threads.Take.{take, removes_first}
use fossilizid.Swapque.Threads.Take

module _ {A : Type 0} where
  -- The lists are what the history says, and the invariant holds.
  abbrev pub Keeps : Que A → (ℕ → Pc A) → List (Event A) → Type 0
  Keeps m pc es =
      (f : List A) × (b : List A) × Queues es f b
      × (front : ℕ → Ptr) × (back : ℕ → Ptr) × Inv m pc f b front back

  -- A forward link is owed.
  abbrev owes : Pc A → Bool
  owes (push_link n old) = true
  owes p = false

  -- The first value is removed by an exchange that succeeds.
  remove_first :
      (m : Que A) (pc : ℕ → Pc A) (es : List (Event A)) (f b : List A)
      → Queues es f b
      → (front back : ℕ → Ptr) → Inv m pc f b front back
      → (i : ℕ) (x y : Ptr) → pc i ≡ pop_cas x y
      → m.frond.begin ≡ x
      → Keeps
          (record m { frond = record (m.frond) { begin = y } })
          (update pc i (pop_read x y))
          (removes (m.value y) ∷ es)
  remove_first m pc es [] b q front back inv i x y e same =
      let (s, ne, l, r) =
        subst (Local {A = A} m.next m.brk m.frond back (length b)) e (inv.locals i) in
      absurd (ne (sym same ∙ sym inv.frond.first ∙ inv.frond.newest))
  remove_first m pc es (v ∷ f) b q front back inv i x y e same = (
    f,
    b,
    remove (m.value y)
        (subst (λ w. Queues es (w ∷ f) b) (removes_first m pc v f b front back i inv x y e same) q),
    (λ j. front (suc j)),
    back,
    take m pc v f b front back i inv x y e same,
  )

  module _ (m : Que A) (pc : ℕ → Pc A) (es : List (Event A)) (f b : List A) (q : Queues es f b)
      (front back : ℕ → Ptr) (inv : Inv m pc f b front back) (i : ℕ) where
    -- Thread `i` goes on from `o` to `p`, and the lists stay.
    stay :
        (z : ℕ) (r : List Ptr) (o p : Pc A)
        → pc i ≡ o
        → owes o ≡ false
        → owes p ≡ false
        → real_node p ≡ true
        → (owned p ≢ null → owned p ≡ owned o)
        → Local m.next m.brk m.frond back (length b) p
        → Keeps (record m { size = z; retired = r }) (update pc i p) es
    stay z r o p e a c g n h = (
      f,
      b,
      q,
      front,
      back,
      quiet m pc f b front back inv i p z r (λ x y k. ground (arith, ap owes (sym e ∙ k) ∙ refl, a))
          (λ x y k. ground (arith, ap owes k, c)) g (λ x. n x ∙ ap owned (sym e)) h,
    )

    -- The same where nothing but the counter changes.
    goes :
        (o p : Pc A)
        → pc i ≡ o
        → owes o ≡ false
        → owes p ≡ false
        → real_node p ≡ true
        → owned p ≡ null
        → Local m.next m.brk m.frond back (length b) p
        → Keeps m (update pc i p) es
    goes o p e a c g n h = stay m.size m.retired o p e a c g (λ x. absurd (x n)) h

    -- What a thread at `o` knows.
    knows : (o : Pc A) → pc i ≡ o → Local m.next m.brk m.frond back (length b) o
    knows o e = subst (Local {A = A} m.next m.brk m.frond back (length b)) e (inv.locals i)

    -- The first node, when it is loaded.
    begin-Seen : Seen m.next m.brk m.frond.begin back (length b) m.frond.begin
    begin-Seen = record {
      real = rw (sym inv.frond.first) (inv.frond.real 0 (omega arith));
      below = rw (sym inv.frond.first) (inv.frond.below 0 (omega arith));
      stands = inl refl;
    }

    -- A node that was seen and is not the last one has a successor.
    Seen-next :
        (x : Ptr)
        → Seen m.next m.brk m.frond.begin back (length b) x
        → x ≢ m.frond.end
        → m.next x ≢ null
    Seen-next x s ne = elim (s.stands) [
      | inl e ↦ elim (Bool-cases (length f == 0)) [
        | inl z ↦
            absurd (ne (e ∙ sym inv.frond.first ∙ ap front (ground (arith, z)) ∙ inv.frond.newest))
        | inr z ↦ λ w.
            inv.frond.real 1 (ground (arith, z))
              (sym (inv.linked 0 (ground (arith, z))) ∙ ap m.next (inv.frond.first ∙ sym e) ∙ w)
      ]
      | inr (e, o) ↦ e
    ]

    pub turn-Keeps :
        (p : Pc A) → pc i ≡ p → Keeps (step m p).0 (update pc i (step m p).1) (happens m p ++ es)
    unfolding step happens
    turn-Keeps idle e = goes idle idle e refl refl refl refl tt
    turn-Keeps (push_node v) e = (f, b, q, front, back, alloc m pc f b front back inv i v e)
    turn-Keeps (push_lock n) e =
        stay m.size m.retired (push_lock n) (push_end n) e refl refl
          (ap real_node (sym e) ∙ inv.given i) (λ r. refl) tt
    turn-Keeps (push_end n) e = (
      f,
      b ++ (m.value n ∷ []),
      publish (m.value n) q,
      front,
      update back (suc (length b)) n,
      Publish.publish m pc f b front back inv i n e,
    )
    turn-Keeps (push_link n old) e =
        (f, b, q, front, back, set_next m pc b front back i f inv n old e)
    turn-Keeps push_count e =
        stay ((m.size + 1) % 2 ^ 32) m.retired push_count push_unlock e refl refl refl
          (λ r. absurd (r refl)) tt
    turn-Keeps push_unlock e = goes push_unlock pushed e refl refl refl refl tt
    turn-Keeps pushed e = goes pushed idle e refl refl refl refl tt
    turn-Keeps pop_size e = elim (Bool-cases (m.size == 0)) [
      | inl z ↦ rw z (goes pop_size (popped none) e refl refl refl refl tt)
      | inr z ↦ rw z (goes pop_size pop_lock e refl refl refl refl tt)
    ]
    turn-Keeps pop_lock e = goes pop_lock pop_begin e refl refl refl refl tt
    turn-Keeps pop_begin e =
        goes pop_begin (pop_test m.frond.begin) e refl refl refl refl begin-Seen
    turn-Keeps (pop_test x) e = elim (Bool-cases (x == m.frond.end)) [
      | inl z ↦ rw z (goes (pop_test x) pop_again e refl refl refl refl tt)
      | inr z ↦ rw z (
          goes (pop_test x) (pop_next x) e refl refl refl refl
            (knows (pop_test x) e, ground (arith, z)))
    ]
    turn-Keeps pop_again e = elim (Bool-cases (m.size == 0)) [
      | inl z ↦ rw z (goes pop_again (pop_leave none) e refl refl refl refl tt)
      | inr z ↦ rw z (goes pop_again pop_unlock e refl refl refl refl tt)
    ]
    turn-Keeps pop_unlock e = goes pop_unlock pop_swap e refl refl refl refl tt
    turn-Keeps pop_swap e = goes pop_swap pop_lock e refl refl refl refl tt
    turn-Keeps (pop_next x) e =
        let (s, ne) = knows (pop_next x) e in
        let real : (x == null) ≡ false = ground (arith, s.real) in
        rw real (
          goes (pop_next x) (pop_cas x (m.next x)) e refl refl refl refl
            (s, ne, refl, Seen-next x s ne))
    turn-Keeps (pop_cas x y) e = elim (Bool-cases (m.frond.begin == x)) [
      | inl z ↦ rw z (remove_first m pc es f b q front back inv i x y e (ground (arith, z)))
      | inr z ↦ rw z (goes (pop_cas x y) (pop_test m.frond.begin) e refl refl refl refl begin-Seen)
    ]
    turn-Keeps (pop_read x y) e =
        let real : (y == null) ≡ false = ground (arith, knows (pop_read x y) e) in
        rw real (goes (pop_read x y) (pop_retire x (m.value y)) e refl refl refl refl tt)
    turn-Keeps (pop_retire x v) e =
        stay m.size (x ∷ m.retired) (pop_retire x v) (pop_count v) e refl refl refl
          (λ r. absurd (r refl)) tt
    turn-Keeps (pop_count v) e =
        stay ((m.size + (2 ^ 32 - 1)) % 2 ^ 32) m.retired (pop_count v) (pop_leave (some v)) e refl
          refl refl (λ r. absurd (r refl)) tt
    turn-Keeps (pop_leave o) e = goes (pop_leave o) (popped o) e refl refl refl refl tt
    turn-Keeps (popped o) e = goes (popped o) idle e refl refl refl refl tt
    turn-Keeps null_access e = absurd (knows null_access e)

module _ {A : Type 0} (junk : A) where
  -- The sentinels of the two lists.
  start_Row :
      (next : Ptr → Ptr) (x : Ptr)
      → x ≢ null
      → x < 3
      → next x ≡ null
      → Row next (λ _. junk) 3 (record { begin = x; end = x }) [] (λ _. x)
  start_Row next x r h e = record {
    first = refl;
    newest = refl;
    real = λ j l. r;
    below = λ j l. h;
    apart = λ j k l g z. omega (arith, l, g);
    values = λ j l. ground (arith, l);
    open_end = e;
  }

  start_Inv : Inv (get_que junk) (λ _. idle) [] [] (λ _. 1) (λ _. 2)
  unfolding get_que
  start_Inv = record {
    frond = start_Row (λ _. null) 1 (ground arith) (omega arith) refl;
    rear = start_Row (λ _. null) 2 (ground arith) (omega arith) refl;
    across = λ j k h g. ground arith;
    linked = λ j h. ground (arith, h);
    links = λ j h. absurd (ground (arith, h));
    private = λ k r. absurd (r refl);
    unique = λ j k r e. absurd (r refl);
    given = λ k. refl;
    linking = λ k n old e. ground (arith, e);
    locals = λ k. tt;
  }

  pub Reach-Keeps : {s : System A} {es : List (Event A)} → Reach junk s es → Keeps s.mem s.pc es
  Reach-Keeps start = ([], [], empty, (λ _. 1), (λ _. 2), start_Inv)
  Reach-Keeps (pushes {s = s} {es = es} i v r e) =
      let (f, b, q, front, back, inv) = Reach-Keeps r in
      goes s.mem s.pc es f b q front back inv i idle (push_node v) e refl refl refl refl tt
  Reach-Keeps (pops {s = s} {es = es} i r e) =
      let (f, b, q, front, back, inv) = Reach-Keeps r in
      goes s.mem s.pc es f b q front back inv i idle pop_size e refl refl refl refl tt
  Reach-Keeps (later {s = s} {es = es} i r) =
      let (f, b, q, front, back, inv) = Reach-Keeps r in
      turn-Keeps s.mem s.pc es f b q front back inv i (s.pc i) refl
  Reach-Keeps (swaps {s = s} {es = es} i r e n) =
      let (f, b, q, front, back, inv) = Reach-Keeps r in
      (b, f, exchange q, back, front, Take.exchange s.mem s.pc f b front back i inv n)
