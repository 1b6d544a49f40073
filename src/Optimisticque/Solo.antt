-- ===== src/Optimisticque/Solo.antt =====
-- What a call that runs alone does.
use mathlib.Core.Path.{subst}
use fossilizid.Base.{
  suc, ◌+◌, ◌-◌, ◌%◌, ◌^◌, ◌≡◌, ◌≢◌, refl, List, [], ◌∷◌, ◌++◌, arith, null, update,
}
use fossilizid.Optimisticque.{
  Nodes, Queue, push_node, pushed, pop_head, popped, null_access, step, solo, get_node,
}
use fossilizid.Msque.Chain.{IsEnd, Holds, Holds-alloc, Holds-link}

module _ {A : Type 0} where
  -- The forward links lead from the first node through the values of `q` to the last node.
  pub record Represents (m : Queue A) (q : List A) : Type 0 where
    pub tail : IsEnd m.next m.brk m.detail
    pub holds : Holds m.next m.value m.brk m.detail m.head q

  abbrev pushed_node : Queue A → A → Nodes A
  pushed_node m v = record {
    next = update (update m.next m.brk null) m.detail m.brk;
    prev = update (update m.prev m.brk null) m.brk m.detail;
    value = update m.value m.brk v;
    brk = suc m.brk;
  }

  push-result :
      (m : Queue A) (v : A)
      → solo 6 m (push_node v) ≡ (
        record m { nodes = pushed_node m v; detail = m.brk; size = (m.size + 1) % 2 ^ 32 },
        pushed,
      )
  unfolding solo step
  push-result m v = ground arith

  -- A push that runs alone finishes in six accesses: the value stands behind the others, and `size`
  -- has grown by one modulo 2^32.
  pub push_single :
      (m : Queue A) (q : List A) (v : A)
      → Represents m q
      → let r = solo 6 m (push_node v) in
        (r.1 ≡ pushed) × (r.0.size ≡ (m.size + 1) % 2 ^ 32) × Represents r.0 (q ++ (v ∷ []))
  push_single m q v i = rw (push-result m v) (refl, refl, record { tail = tail; holds = holds })
    where
      s : Nodes A
      s = get_node m.nodes v

      bottom : IsEnd s.next s.brk m.detail
      bottom = ground (arith, i.tail)

      tail : IsEnd (update s.next m.detail m.brk) s.brk m.brk
      tail = ground (arith, i.tail)

      held : s.value m.brk ≡ v
      held = ground arith

      holds : Holds (update s.next m.detail m.brk) s.value s.brk m.brk m.head (q ++ (v ∷ []))
      holds =
          subst
            (λ x. Holds (update s.next m.detail m.brk) s.value s.brk m.brk m.head (q ++ (x ∷ [])))
            held
            (Holds-link s.next s.brk m.detail s.value m.head q m.brk bottom (ground (arith, i.tail))
              (omega arith) (Holds-alloc m.next m.brk m.detail m.value m.head q v i.holds))

  pop-result :
      (m : Queue A) (v : A)
      → m.next m.head ≢ null
      → m.head ≢ m.detail
      → m.value (m.next m.head) ≡ v
      → solo 7 m pop_head ≡ (
        record m {
          head = m.next m.head;
          retired = m.head ∷ m.retired;
          size = (m.size + (2 ^ 32 - 1)) % 2 ^ 32;
        },
        popped v,
      )
  unfolding solo step
  pop-result m v n h e = ground (arith, n, h, e)

  -- A pop that runs alone on a queue with a first value finishes in seven accesses and returns it;
  -- the queue then holds the others, and the old first node is retired.
  pub pop_single :
      (m : Queue A) (q : List A) (v : A)
      → Represents m (v ∷ q)
      → let r = solo 7 m pop_head in
        (r.1 ≡ popped v) × (r.0.retired ≡ m.head ∷ m.retired) × Represents r.0 q
  pop_single m q v i =
      rw (pop-result m v i.holds.2 (ground (arith, i.tail, i.holds)) i.holds.4)
        (refl, refl, record { tail = i.tail; holds = i.holds.5 })

  -- Where a push has published the second node and not yet set the forward link of the first, a pop
  -- that runs alone sets that link, then makes null the head of the queue and reads through it.
  pub pop_unlinked :
      (m : Queue A)
      → m.head ≢ null
      → m.head ≢ m.detail
      → m.next m.head ≡ null
      → m.prev m.detail ≡ m.head
      → let r = solo 10 m pop_head in
        (r.1 ≡ null_access) × (r.0.head ≡ null) × (r.0.next m.head ≡ m.detail)
  unfolding solo step
  pop_unlinked m r n e p = ground (arith, r, n, e, p)
