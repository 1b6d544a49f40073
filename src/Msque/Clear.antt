-- ===== src/Msque/Clear.antt =====
-- container/msque.h: `clear` and the destructor, each run by itself.
use mathlib.Core.Option
use fossilizid.Base.{
  ℕ, zero, suc, ◌+◌, ◌≡◌, ◌<◌, refl, ap, Option, none, some, List, [], ◌∷◌, length, arith, Ptr,
  null, ◌==◌, if◌then◌else◌,
}
use fossilizid.Msque.{Mem, idle, get_node}
use fossilizid.Msque.Chain.{Holds}
use fossilizid.Msque.Refine.{Represents}

-- The loop of `put_list` from a node on, with what was retired; no result is out of fuel.
abbrev pub retire_all : ℕ → (Ptr → Ptr) → Ptr → List Ptr → Option (List Ptr)
retire_all zero next a r = none
retire_all (suc n) next a r =
    let later = retire_all n next (next a) (a ∷ r) in if next a == null then some (a ∷ r) else later

module _ {A : Type 0} where
  -- The loop goes through every node of a list and ends at the last.
  pub retire_all-Holds :
      (n : ℕ) (next : Ptr → Ptr) (value : Ptr → A) (brk last a : Ptr) (q : List A) (r : List Ptr)
      → next last ≡ null
      → Holds next value brk last a q
      → length q < n
      → (r' : List Ptr) × (retire_all n next a r ≡ some r')
        × (length r' ≡ suc (length q) + length r)
  retire_all-Holds zero next value brk last a q r e h k = absurd (omega arith)
  retire_all-Holds (suc n) next value brk last a [] r e h k =
      (a ∷ r, ground (arith, e, h), omega arith)
  retire_all-Holds (suc n) next value brk last a (v ∷ q) r e h k =
      let (r', f, l) =
        retire_all-Holds n next value brk last (next a) q (a ∷ r) e h.5 (omega arith) in
      (r', ground (arith, f, h), omega (arith, l))

  -- A new list, and what was retired.
  abbrev pub renewed : A → Mem A → List Ptr → Mem A
  renewed junk m r = record {
    heap = get_node m.heap junk;
    begin = m.brk;
    end = m.brk;
    size = 0;
    retired = r;
  }

  -- `clear`
  clear : A → ℕ → Mem A → Option (Mem A)
  clear junk n m = Option.map (renewed junk m) (retire_all n m.next m.begin m.retired)

  -- The destructor, for what it retires.
  unfoldable pub destroy : ℕ → Mem A → Option (List Ptr)
  destroy n m = retire_all n m.next m.begin m.retired

  -- While no thread has a call open, clear of a list with n values ends within n + 1 turns of its
  -- loop: it retires n + 1 nodes and leaves a well-formed list that is empty.
  clear-empties :
      (junk : A) (m : Mem A) (q : List A)
      → Represents (record { mem = m; pc = λ _. idle }) q
      → (m' : Mem A) × (clear junk (suc (length q)) m ≡ some m')
        × Represents (record { mem = m'; pc = λ _. idle }) []
        × (length m'.retired ≡ suc (length q) + length m.retired)
        × (m'.size ≡ 0)
  unfolding clear
  clear-empties junk m q (last, inv) =
      let (r, e, l) =
        retire_all-Holds (suc (length q)) m.next m.value m.brk last m.begin q m.retired
          inv.bottom.ends inv.holds (omega arith) in
      (
        renewed junk m r,
        ap (Option.map (renewed junk m)) e,
        (
          m.brk,
          record {
            bottom = ground (arith, inv.bottom);
            holds = refl;
            tail = (0, refl);
            locals = λ i. tt;
            old = λ i. tt;
            unique = λ i j n. absurd (n refl);
          },
        ),
        l,
        refl,
      )
