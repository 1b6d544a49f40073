-- ===== src/HashMap/Threads/Content.antt =====
-- The values that a bucket has at its keys, against what took effect.
use fossilizid.Base.{
  ℕ, suc, ◌<◌, ◌≡◌, ◌≢◌, inl, inr, Option, none, some, List, [], ◌∷◌, Eq, lookup, insert_new,
  remove, lookup-insert_new, lookup-remove, Ptr, update, arith, Option-cases,
}
use fossilizid.HashMap.History.{rebind}
use fossilizid.HashMap.Threads.{Event, inserts, sets, erases, finds, misses}

module _ {K : Type 0} ⦃e : Eq K⦄ where
  -- Each key has a node of its own.
  pub record Nodes (l : List (K × Ptr)) (brk : ℕ) : Type 0 where
    pub below : (k : K) (n : Ptr) → lookup k l ≡ some n → n < brk
    pub apart : (k j : K) (n : Ptr) → lookup k l ≡ some n → lookup j l ≡ some n → k ≡ j

module _ {K V : Type 0} ⦃e : Eq K⦄ where
  abbrev pub content : List (K × Ptr) → (Ptr → V) → K → Option V
  content l value k = elim (lookup k l) [ none ↦ none | some n ↦ some (value n) ]

  -- The map that the events make of `f`.
  abbrev pub replay : (K → Option V) → List (Event K V) → K → Option V
  replay f [] = f
  replay f (inserts k v ∷ es) = rebind k (some v) (replay f es)
  replay f (sets k v ∷ es) = rebind k (some v) (replay f es)
  replay f (erases k ∷ es) = rebind k none (replay f es)
  replay f (finds k v ∷ es) = replay f es
  replay f (misses k ∷ es) = replay f es

  -- What is found, set or erased is there, with the value found, and what is missed is not.
  abbrev pub Legal : (K → Option V) → List (Event K V) → Type 0
  Legal f [] = Unit {0}
  Legal f (inserts k v ∷ es) = Legal f es
  Legal f (sets k v ∷ es) = (replay f es k ≢ none) × Legal f es
  Legal f (erases k ∷ es) = (replay f es k ≢ none) × Legal f es
  Legal f (finds k v ∷ es) = (replay f es k ≡ some v) × Legal f es
  Legal f (misses k ∷ es) = (replay f es k ≡ none) × Legal f es

  module _ (l : List (K × Ptr)) (value : Ptr → V) (brk : ℕ) (nodes : Nodes l brk) where
    pub content-write :
        (k j : K) (n : Ptr) (v : V)
        → lookup k l ≡ some n
        → content l (update value n v) j ≡ rebind k (some v) (content l value) j
    content-write k j n v h = ground (arith, h, nodes.apart k j n, e.beq_iff k j)

    pub content-add :
        (k j : K) (v : V)
        → lookup k l ≡ none
        → content (insert_new k brk l) (update value brk v) j
          ≡ rebind k (some v) (content l value) j
    content-add k j v h = elim (Option-cases (lookup j l)) [
      | inl z ↦ ground (arith, h, z, lookup-insert_new k j brk l, e.beq_iff k j)
      | inr (n, z) ↦
          ground (arith, h, z, lookup-insert_new k j brk l, e.beq_iff k j, nodes.below j n)
    ]

    pub content-cut : (k j : K) → content (remove k l) value j ≡ rebind k none (content l value) j
    content-cut k j = ground (arith, lookup-remove k j l)

module _ {K : Type 0} ⦃e : Eq K⦄ (l : List (K × Ptr)) (brk : ℕ) (nodes : Nodes l brk) where
  pub Nodes-add : (k : K) → lookup k l ≡ none → Nodes (insert_new k brk l) (suc brk)
  Nodes-add k h = record {
    below = λ j n g. ground (arith, h, g, lookup-insert_new k j brk l, nodes.below j n);
    apart = λ i j n g z. ground (
      arith,
      h,
      g,
      z,
      lookup-insert_new k i brk l,
      lookup-insert_new k j brk l,
      nodes.below i n,
      nodes.below j n,
      nodes.apart i j n,
      e.beq_iff k i,
      e.beq_iff k j,
    );
  }

  pub Nodes-cut : (k : K) → Nodes (remove k l) brk
  Nodes-cut k = record {
    below = λ j n g. ground (arith, g, lookup-remove k j l, nodes.below j n);
    apart = λ i j n g z.
        ground (arith, g, z, lookup-remove k i l, lookup-remove k j l, nodes.apart i j n);
  }
