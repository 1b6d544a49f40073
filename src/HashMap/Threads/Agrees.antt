-- ===== src/HashMap/Threads/Agrees.antt =====
-- What takes effect at an access is what it does to the map.
use mathlib.Core.Path.{subst}
use fossilizid.Base.{
  ℕ, ◌+◌, ◌-◌, ◌%◌, ◌^◌, ◌≡◌, inl, inr, refl, sym, ap, ◌∙◌, true, false, Option, none, some, List,
  [], ◌∷◌, ◌++◌, Eq, lookup, insert_new, remove, Ptr, update, if◌then◌else◌, arith, Option-cases,
}
use fossilizid.HashMap.History.{rebind}
use fossilizid.HashMap.Threads.{
  Bucket, Pc, Event, set_find, set_write, ins_make, ins_write, ins_add, ins_count, sea_load,
  sea_find, sea_read, era_load, era_find, era_cut, era_count, step, entries, happens, inserts, sets,
  finds, misses,
}
use fossilizid.HashMap.Threads.Known.{Known}
use fossilizid.HashMap.Threads.Content.{
  content, replay, Legal, Nodes, content-write, content-add, content-cut, Nodes-add, Nodes-cut,
}

module _ {K V : Type 0} ⦃e : Eq K⦄ where
  -- The bucket has a map, in which the keys have the values that the events make of `f`.
  pub record Agrees (f : K → Option V) (m : Bucket K V) (es : List (Event K V)) : Type 0 where
    pub l : List (K × Ptr)
    pub made : m.hash_bucket ≡ some l
    pub nodes : Nodes l m.brk
    pub same : (j : K) → content l m.value j ≡ replay f es j
    pub legal : Legal f es

  module _ (f : K → Option V) (m : Bucket K V) (es : List (Event K V)) (a : Agrees f m es) where
    -- The same map, and an event that changes nothing.
    plain :
        (es' : List (Event K V))
        → ((j : K) → replay f (es' ++ es) j ≡ replay f es j)
        → Legal f (es' ++ es)
        → (z : ℕ) → Agrees f (record m { size = z }) (es' ++ es)
    plain es' g h z = record {
      l = a.l;
      made = a.made;
      nodes = a.nodes;
      same = λ j. a.same j ∙ sym (g j);
      legal = h;
    }

    -- Nothing happens.
    nothing : (es' : List (Event K V)) → es' ≡ [] → Agrees f m (es' ++ es)
    nothing es' h = subst (λ q. Agrees f m (q ++ es)) (sym h) a

    missed : K → List (Event K V)
    missed k = elim (lookup k (entries m.hash_bucket)) [ none ↦ misses k ∷ [] | some n ↦ [] ]

    -- A search, a set or an erase that looks a key up.
    looks :
        (k : K)
        → Agrees f m
            ((elim (lookup k (entries m.hash_bucket)) [ none ↦ misses k ∷ [] | some n ↦ [] ]) ++ es)
    unfolding missed
    looks k = elim (Option-cases (lookup k a.l)) [
      | inl z ↦
          let g : missed k ≡ misses k ∷ [] = ground (arith, a.made, z) in
          subst (λ q. Agrees f m (q ++ es)) (sym g)
            (plain (misses k ∷ []) (λ j. refl) (sym (a.same k) ∙ ground (arith, z), a.legal) m.size)
      | inr (n, z) ↦ nothing (missed k) (ground (arith, a.made, z))
    ]

    -- A value is written to the node of a key.
    writes :
        (k : K) (n : Ptr) (v : V) (ev : Event K V)
        → lookup k a.l ≡ some n
        → ((j : K) → replay f (ev ∷ es) j ≡ rebind k (some v) (replay f es) j)
        → Legal f (ev ∷ es)
        → Agrees f (record m { value = update m.value n v }) (ev ∷ es)
    writes k n v ev h g w = record {
      l = a.l;
      made = a.made;
      nodes = a.nodes;
      same = λ j.
          content-write a.l m.value m.brk a.nodes k j n v h
          ∙ ap (λ o. if e.beq k j then some v else o) (a.same j)
          ∙ sym (g j);
      legal = w;
    }

    -- What is known of a key that is there.
    there : (k : K) (n : Ptr) → lookup k a.l ≡ some n → replay f es k ≡ some (m.value n)
    there k n h = sym (a.same k) ∙ ground (arith, h)

    pub step-Agrees : (p : Pc K V) → Known a.l p → Agrees f (step m p).0 (happens m p ++ es)
    unfolding step happens
    step-Agrees (set_find k v) w = looks k
    step-Agrees (set_write k n v) w =
        writes k n v (sets k v) w (λ j. refl) (λ z. ground (arith, there k n w, z), a.legal)
    step-Agrees (ins_make k v) w = absurd w
    step-Agrees (ins_write true k n v) w = writes k n v (inserts k v) w (λ j. refl) a.legal
    step-Agrees (ins_write false k n v) w = absurd w
    step-Agrees (ins_add true k v) w = record {
      l = insert_new k m.brk a.l;
      made = ap (λ o. some (insert_new k m.brk (entries o))) a.made;
      nodes = Nodes-add a.l m.brk a.nodes k w;
      same = λ j.
          content-add a.l m.value m.brk a.nodes k j v w
          ∙ ap (λ o. if e.beq k j then some v else o) (a.same j);
      legal = a.legal;
    }
    step-Agrees (ins_add false k v) w = absurd w
    step-Agrees (ins_count own) w = plain [] (λ j. refl) a.legal ((m.size + 1) % 2 ^ 32)
    step-Agrees (sea_load k) w = nothing (happens m (sea_load k)) (ground (arith, a.made))
    step-Agrees (sea_find k) w = looks k
    step-Agrees (sea_read k n) w =
        plain (finds k (m.value n) ∷ []) (λ j. refl) (there k n w, a.legal) m.size
    step-Agrees (era_load k) w = nothing (happens m (era_load k)) (ground (arith, a.made))
    step-Agrees (era_find k) w = looks k
    step-Agrees (era_cut k) w = record {
      l = remove k a.l;
      made = ap (λ o. some (remove k (entries o))) a.made;
      nodes = Nodes-cut a.l m.brk a.nodes k;
      same = λ j.
          content-cut a.l m.value m.brk a.nodes k j
          ∙ ap (λ o. if e.beq k j then none else o) (a.same j);
      legal = (λ z. w (ground (arith, a.same k ∙ z)), a.legal);
    }
    step-Agrees era_count w = plain [] (λ j. refl) a.legal ((m.size + (2 ^ 32 - 1)) % 2 ^ 32)
    step-Agrees p w = a
