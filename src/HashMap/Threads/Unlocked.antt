-- ===== src/HashMap/Threads/Unlocked.antt =====
-- The first insert into a bucket: it goes on without the lock when it has made the map.
use mathlib.Core.Path.{subst}
use fossilizid.Base.{
  ℕ, ◌≡◌, ◌≢◌, refl, sym, ap, ◌∙◌, true, false, some, List, [], ◌++◌, Eq, update, ◌==◌, arith,
  Bool-cases, inl, inr,
}
use fossilizid.HashMap.Threads.{
  Bucket, Pc, System, Reach, Event, idle, ins_make, ins_find, ins_add, sea_enter, sea_load,
  sea_find, shared, mode, waits, admits, step, happens, calls, gets, later, turn, at,
}
use fossilizid.HashMap.Threads.Locks.{Beside, Beside-exclusive, Reach-Locks}

module _ {K V : Type 0} ⦃e : Eq K⦄ where
  -- Where a thread stands after its access, and where the others do.
  turn-own :
      (s : System K V) (i : ℕ) (p : Pc K V)
      → s.pc i ≡ p
      → ((turn i s).pc i ≡ (step s.mem p).1) × ((turn i s).mem ≡ (step s.mem p).0)
  turn-own s i p h =
      let g : update s.pc i (step s.mem (s.pc i)).1 i ≡ (step s.mem (s.pc i)).1 = ground arith in
      (g ∙ ap (λ q. (step s.mem q).1) h, ap (λ q. (step s.mem q).0) h)

  other : (pc : ℕ → Pc K V) (i j : ℕ) (p : Pc K V) → i ≢ j → update pc i p j ≡ pc j
  other pc i j p ne = ground (arith, ne)

  own : (pc : ℕ → Pc K V) (i : ℕ) (p : Pc K V) → update pc i p i ≡ p
  own pc i p = ground arith

  -- A thread that makes no call begins a search, while no other has the exclusive lock.
  search-begins :
      {b : Bucket K V} (s : System K V) {es : List (Event K V)} (j : ℕ) (q : K)
      → Reach b s es
      → s.pc j ≡ idle
      → s.mem.hash_bucket ≡ some []
      → ((x : ℕ) → j ≢ x → admits shared (mode (s.pc x)) ≡ true)
      → (t : System K V) × Reach b t es
        × ((x : ℕ) → j ≢ x → t.pc x ≡ s.pc x)
        × (t.pc j ≡ sea_find q)
  unfolding step happens mode waits
  search-begins {b} s {es} j q r g made alone =
      let s1 = at j (sea_enter q) s in
      let r1 : Reach b s1 es = calls j (sea_enter q) r g refl in
      let s2 = at j (sea_load q) s1 in
      let r2 : Reach b s2 es =
        gets j (sea_load q) r1 (ap waits (own s.pc j (sea_enter q)))
          (λ x d. ap (λ p. admits shared (mode p)) (other s.pc j x (sea_enter q) d) ∙ alone x d) in
      let here : s2.pc j ≡ sea_load q = own s1.pc j (sea_load q) in
      let none_missed : happens s2.mem (s2.pc j) ≡ [] =
        ap (happens s2.mem) here ∙ ground (arith, made) in
      let a = turn-own s2 j (sea_load q) here in
      (
        turn j s2,
        subst (λ l. Reach b (turn j s2) (l ++ es)) none_missed (later j r2),
        λ x d.
            other s2.pc j x (step s2.mem (s2.pc j)).1 d
            ∙ other s1.pc j x (sea_load q) d
            ∙ other s.pc j x (sea_enter q) d,
        a.0 ∙ ground (arith, made),
      )

  -- A thread that has the exclusive lock to make the map gives it back and goes on.
  insert-goes_on :
      {b : Bucket K V} (s : System K V) {es : List (Event K V)} (i : ℕ) (k : K) (v : V)
      → Reach b s es
      → s.pc i ≡ ins_make k v
      → (t : System K V) × Reach b t es
        × (t.pc i ≡ ins_add false k v)
        × ((x : ℕ) → i ≢ x → t.pc x ≡ s.pc x)
        × (t.mem.hash_bucket ≡ some [])
  unfolding step happens
  insert-goes_on {b} s {es} i k v r h =
      let s1 = turn i s in
      let a1 = turn-own s i (ins_make k v) h in
      let r1 : Reach b s1 es =
        subst (λ l. Reach b s1 (l ++ es)) (ap (happens s.mem) h) (later i r) in
      let s2 = turn i s1 in
      let a2 = turn-own s1 i (ins_find false k v) a1.0 in
      (
        s2,
        subst (λ l. Reach b s2 (l ++ es)) (ap (happens s1.mem) a1.0) (later i r1),
        a2.0 ∙ ap (λ m. (step m (ins_find false k v)).1) a1.1,
        λ x d.
            other s1.pc i x (step s1.mem (s1.pc i)).1 d ∙ other s.pc i x (step s.mem (s.pc i)).1 d,
        ap (λ m. m.hash_bucket) (a2.1 ∙ a1.1),
      )

  -- From every reached state in which a thread is about to make the map of the bucket and another
  -- makes no call, these threads reach a state in which the first is about to insert into the map
  -- and the other to look a key up in it, at the same time.
  pub insert-unlocked :
      {b : Bucket K V} {s : System K V} {es : List (Event K V)} (i j : ℕ) (k q : K) (v : V)
      → Reach b s es
      → i ≢ j
      → s.pc i ≡ ins_make k v
      → s.pc j ≡ idle
      → (t : System K V) × Reach b t es × (t.pc i ≡ ins_add false k v) × (t.pc j ≡ sea_find q)
  unfolding mode admits
  insert-unlocked {b} {s} {es} i j k q v r ne h g =
      let (t, r1, here, same, made) = insert-goes_on s i k v r h in
      let (u, r2, kept, there) = search-begins t j q r1 (same j ne ∙ g) made (λ x d.
        elim (Bool-cases (i == x)) [
          | inl z ↦ ap (λ p. admits shared (mode p)) (ap t.pc (sym (ground (arith, z))) ∙ here)
          | inr z ↦
              let d' : i ≢ x = ground (arith, z) in
              ap (λ p. admits shared (mode p)) (same x d')
              ∙ ap (admits shared) (
                  Beside-exclusive (mode (s.pc x))
                    (subst (λ p. Beside (mode p) (mode (s.pc x))) h (Reach-Locks r i x d')))
        ]) in
      (u, r2, kept i (λ z. ne (sym z)) ∙ here, there)
