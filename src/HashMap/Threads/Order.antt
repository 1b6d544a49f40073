-- ===== src/HashMap/Threads/Order.antt =====
-- Threads on a bucket that has its map: one map at any time, which they work on in turn.
use mathlib.Core.Path.{subst}
use fossilizid.Base.{
  ℕ, ◌≡◌, ◌≢◌, inl, inr, refl, sym, ap, ◌∙◌, Bool, true, false, Option, some, List, ◌++◌, Eq, Ptr,
  update, arith, update-All,
}
use fossilizid.HashMap.Threads.{
  Bucket, Pc, System, Reach, Event, idle, set_find, ins_find, ins_add, sea_find, era_find, era_cut,
  free, exclusive, mode, step, entries, happens, start, calls, gets, later, turn,
}
use fossilizid.HashMap.Threads.Locks.{Beside, Beside-exclusive, Reach-Locks}
use fossilizid.HashMap.Threads.Known.{
  Known, free-Known, begins-Known, waits-Known, step-Known, step-entries,
}
use fossilizid.HashMap.Threads.Agrees.{Agrees, step-Agrees}
use fossilizid.HashMap.Threads.Content.{content, replay, Legal, Nodes}

module _ {K V : Type 0} where
  -- A thread is about to change the entries of the map.
  abbrev pub changes : Pc K V → Bool
  changes (ins_add own k v) = true
  changes (era_cut k) = true
  changes p = false

  -- A thread is about to look into the map, or to change it.
  abbrev pub touches : Pc K V → Bool
  touches (set_find k v) = true
  touches (ins_find own k v) = true
  touches (ins_add own k v) = true
  touches (sea_find k) = true
  touches (era_find k) = true
  touches (era_cut k) = true
  touches p = false

  changes-mode :
      ⦃e : Eq K⦄ (l : List (K × Ptr)) (p : Pc K V)
      → Known l p
      → changes p ≡ true
      → mode p ≡ exclusive
  unfolding mode
  changes-mode l (ins_add true k v) w h = refl
  changes-mode l (ins_add false k v) w h = absurd w
  changes-mode l (era_cut k) w h = refl
  changes-mode l p w h = absurd (ground (arith, h))

  free-touches :
      ⦃e : Eq K⦄ (l : List (K × Ptr)) (p : Pc K V) → Known l p → mode p ≡ free → touches p ≡ false
  unfolding mode
  free-touches l (ins_find false k v) w h = absurd w
  free-touches l (ins_add false k v) w h = absurd w
  free-touches l idle w h = refl
  free-touches l p w h = ground (arith, h)

module _ {K V : Type 0} ⦃e : Eq K⦄ where
  -- What holds in every state that threads reach from a bucket with a map.
  record Safe (f : K → Option V) (s : System K V) (es : List (Event K V)) : Type 0 where
    agrees : Agrees f s.mem es
    known : (k : ℕ) → Known (agrees.l) (s.pc k)

  module _ (f : K → Option V) (s : System K V) (es : List (Event K V)) (h : Safe f s es)
      (i : ℕ) where
    -- A thread gets to another place by itself.
    moves : (p : Pc K V) → Known h.agrees.l p → Safe f (record s { pc = update s.pc i p }) es
    moves p w = record {
      agrees = h.agrees;
      known = update-All (Known h.agrees.l) s.pc i p w (λ k ne. h.known k);
    }

    turns :
        ((j : ℕ) → i ≢ j → Beside (mode (s.pc i)) (mode (s.pc j)))
        → Safe f (turn i s) (happens s.mem (s.pc i) ++ es)
    turns beside =
        let a = h.agrees in
        let a' = step-Agrees f s.mem es a (s.pc i) (h.known i) in
        let own = step-Known s.mem a.l (s.pc i) a.made (h.known i) in
        record {
          agrees = a';
          known =
              update-All (Known a'.l) s.pc i (step s.mem (s.pc i)).1
                (subst (λ o. Known (entries o) (step s.mem (s.pc i)).1) a'.made own)
                (λ k ne. elim (step-entries s.mem a.l (s.pc i) a.made (h.known i)) [
                  | inl z ↦
                      let same : a.l ≡ a'.l = ap entries (sym z ∙ a'.made) in
                      subst (λ l. Known l (s.pc k)) same (h.known k)
                  | inr z ↦
                      free-Known a.l a'.l (s.pc k)
                        (Beside-exclusive (mode (s.pc k))
                          (subst (λ q. Beside q (mode (s.pc k))) z (beside k ne)))
                        (h.known k)
                ]);
        }

  module _ (b : Bucket K V) (l : List (K × Ptr)) (made : b.hash_bucket ≡ some l)
      (nodes : Nodes l b.brk) where
    Reach-Safe :
        {s : System K V} {es : List (Event K V)} → Reach b s es → Safe (content l b.value) s es
    Reach-Safe start = record {
      agrees = record { l = l; made = made; nodes = nodes; same = λ j. refl; legal = tt };
      known = λ k. tt;
    }
    Reach-Safe (calls {s = s} {es = es} i p r g w) =
        moves (content l b.value) s es (Reach-Safe r) i p (begins-Known (Reach-Safe r).agrees.l p w)
    Reach-Safe (gets {s = s} {es = es} i p r g w) =
        moves (content l b.value) s es (Reach-Safe r) i p
          (waits-Known (Reach-Safe r).agrees.l (s.pc i) p g ((Reach-Safe r).known i))
    Reach-Safe (later {s = s} {es = es} i r) =
        turns (content l b.value) s es (Reach-Safe r) i (Reach-Locks r i)

    -- However the accesses of threads that insert, set, search and erase in a bucket that has its
    -- map are interleaved: what takes effect is a history of one finite map, in which each search
    -- finds the value that the key has then, each set and erase that takes effect finds its key,
    -- and what finds nothing is for a key that is not there; and the bucket has at each key the
    -- value that this history leaves there.
    pub Reach-history :
        {s : System K V} {es : List (Event K V)}
        → Reach b s es
        → Legal (content l b.value) es
          × ((k : K)
              → content (entries s.mem.hash_bucket) s.mem.value k ≡ replay (content l b.value) es k)
    Reach-history {s} {es} r =
        let a = (Reach-Safe r).agrees in
        (a.legal, λ k. ap (λ o. content (entries o) s.mem.value k) a.made ∙ a.same k)

    -- While one thread is about to change the map, no other is about to look into it or to change
    -- it, however their accesses are interleaved, in a bucket that has its map.
    pub Reach-exclusive_change :
        {s : System K V} {es : List (Event K V)} (i j : ℕ)
        → Reach b s es
        → i ≢ j
        → changes (s.pc i) ≡ true
        → touches (s.pc j) ≡ false
    Reach-exclusive_change {s} {es} i j r ne h =
        let g = Reach-Safe r in
        let z : mode (s.pc i) ≡ exclusive = changes-mode g.agrees.l (s.pc i) (g.known i) h in
        free-touches g.agrees.l (s.pc j) (g.known j) (
          Beside-exclusive (mode (s.pc j))
            (subst (λ q. Beside q (mode (s.pc j))) z (Reach-Locks r i j ne)))
