-- ===== src/Msque/Invariant/Moves.antt =====
use fossilizid.Base.{
  ℕ, suc, ◌<◌, ◌≡◌, ◌≢◌, refl, sym, ◌∙◌, List, [], ◌∷◌, ◌++◌, arith, Ptr, null, update, update-All,
  update-Apart,
}
use fossilizid.Msque.{
  Heap, Mem, Pc, push_end, push_next, push_help, push_check, push_link, push_swing, pop_next,
  pop_check, pop_cas, pop_read, get_node, set_next,
}
use fossilizid.Msque.Chain.{
  Leads-alloc, Leads-keep, Leads-link, Leads-snoc, Leads-below, Holds, Holds-alloc, Holds-link,
  IsEnd,
}
use fossilizid.Msque.Invariant.Defs.{Linked, Own, Seen, Local, Old, owned, Inv}

module _ {A : Type 0} (h : Heap A) (last : Ptr) (b : IsEnd h.next h.brk last) where
  -- An unlinked node was handed out.
  owned-lt : (p : Pc A) → Local h last p → owned p ≢ null → owned p < h.brk
  owned-lt (push_end x n) l r = l.below
  owned-lt (push_next x n hp) l r = (l.0).below
  owned-lt (push_help x n hp nx) l r = (l.0).below
  owned-lt (push_check x n hp) l r = (l.0).below
  owned-lt (push_link x n hp) l r = (l.0).below
  owned-lt p l r = absurd (omega arith)

  module _ (v : A) where
    abbrev grown : Heap A
    grown = get_node h v

    Linked-alloc : (a : Ptr) → Linked h last a → Linked grown last a
    Linked-alloc a l = (l.0, Leads-alloc h.next h.brk last l.0 a l.1)

    Own-alloc : (x : A) (n : Ptr) → Own h last x n → Own grown last x n
    Own-alloc x n o = ground arith

    Seen-alloc : (a c : Ptr) → Seen h last a c → Seen grown last a c
    Seen-alloc a c s = record {
      linked = Linked-alloc a s.linked;
      real = s.real;
      succ = ground (arith, Leads-below h.next h.brk last s.linked.0 a b.below s.linked.1);
    }

    Local-alloc : (p : Pc A) → Local h last p → Local grown last p
    Local-alloc (push_end x n) l = Own-alloc x n l
    Local-alloc (push_next x n hp) l = (Own-alloc x n l.0, Linked-alloc hp l.1)
    Local-alloc (push_help x n hp nx) l =
        (Own-alloc x n l.0, Linked-alloc hp l.1, Linked-alloc nx l.2)
    Local-alloc (push_check x n hp) l = (Own-alloc x n l.0, Linked-alloc hp l.1)
    Local-alloc (push_link x n hp) l = (Own-alloc x n l.0, Linked-alloc hp l.1)
    Local-alloc (push_swing n hp) l = Linked-alloc n l
    Local-alloc (pop_next a) l = Linked-alloc a l
    Local-alloc (pop_check a c) l = Seen-alloc a c l
    Local-alloc (pop_cas a c) l = Seen-alloc a c l
    Local-alloc (pop_read a c) l = omega arith
    Local-alloc p l = tt

    Old-alloc : (t : Ptr) (p : Pc A) → Old h t p → Old grown t p
    Old-alloc t (pop_next a) l = (l.0, Leads-alloc h.next h.brk t l.0 a l.1)
    Old-alloc t p l = tt

  module _ (n : Ptr) (r : n ≢ null) where
    abbrev joined : Heap A
    joined = set_next h last n

    Linked-link : (a : Ptr) → Linked h last a → Linked joined n a
    Linked-link a l = (suc l.0, Leads-link h.next h.brk last l.0 a n b r l.1)

    Own-link : (x : A) (o : Ptr) → Own h last x o → n ≢ o → Own joined n x o
    Own-link x o w ne = ground arith

    Seen-link : (a c : Ptr) → Seen h last a c → Seen joined n a c
    Seen-link a c s = record { linked = Linked-link a s.linked; real = s.real; succ = ground arith }

    Local-link : (p : Pc A) → Local h last p → n ≢ owned p → Local joined n p
    Local-link (push_end x o) l ne = Own-link x o l ne
    Local-link (push_next x o hp) l ne = (Own-link x o l.0 ne, Linked-link hp l.1)
    Local-link (push_help x o hp nx) l ne =
        (Own-link x o l.0 ne, Linked-link hp l.1, Linked-link nx l.2)
    Local-link (push_check x o hp) l ne = (Own-link x o l.0 ne, Linked-link hp l.1)
    Local-link (push_link x o hp) l ne = (Own-link x o l.0 ne, Linked-link hp l.1)
    Local-link (push_swing o hp) l ne = Linked-link o l
    Local-link (pop_next a) l ne = Linked-link a l
    Local-link (pop_check a c) l ne = Seen-link a c l
    Local-link (pop_cas a c) l ne = Seen-link a c l
    Local-link (pop_read a c) l ne = l
    Local-link p l ne = tt

    Old-link : (t : Ptr) (p : Pc A) → Old h t p → Old joined t p
    Old-link t (pop_next a) l = (l.0, Leads-keep h.next h.brk t l.0 a last n b.ends l.1)
    Old-link t p l = tt

pub Old-advance :
    {A : Type 0} (h : Heap A) (b : Ptr)
    → b ≢ null
    → b < h.brk
    → h.next b ≢ null
    → (p : Pc A) → Old h b p
    → Old h (h.next b) p
Old-advance h b r l ne (pop_next a) o = (suc o.0, Leads-snoc h.next h.brk b o.0 a r l ne o.1)
Old-advance h b r l ne p o = tt

module _ {A : Type 0} (last : Ptr) (m : Mem A) (pc : ℕ → Pc A) (q : List A) (inv : Inv last m pc q)
    (i : ℕ) where
  -- Only `_begin`, `_end`, `_size` or the retired nodes change.
  pub Inv-quiet :
      (b' e' z : ℕ) (r : List Ptr) (p' : Pc A) (q' : List A)
      → Holds m.next m.value m.brk last b' q'
      → Linked m.heap last e'
      → Local m.heap last p'
      → (owned p' ≢ null → owned p' ≡ owned (pc i))
      → Old m.heap b' p'
      → ((p : Pc A) → Old m.heap m.begin p → Old m.heap b' p)
      → Inv last (record m { begin = b'; end = e'; size = z; retired = r }) (update pc i p') q'
  Inv-quiet b' e' z r p' q' h l w o a later = record {
    bottom = inv.bottom;
    holds = h;
    tail = l;
    locals = update-All (Local m.heap last) pc i p' w (λ j _. inv.locals j);
    old = update-All (Old m.heap b') pc i p' a (λ j _. later (pc j) (inv.old j));
    unique =
        update-Apart owned pc i p' inv.unique
          (λ j r ne e. ne (inv.unique i j (λ z. r (o r ∙ z)) (sym (o r) ∙ e)));
  }

  pub Inv-alloc :
      (v : A) → Inv last (record m { heap = get_node m.heap v }) (update pc i (push_end v m.brk)) q
  Inv-alloc v = record {
    bottom = ground (arith, inv.bottom);
    holds = Holds-alloc m.next m.brk last m.value m.begin q v inv.holds;
    tail = Linked-alloc m.heap last inv.bottom v m.end inv.tail;
    locals =
        update-All (Local (get_node m.heap v) last) pc i (push_end v m.brk)
          (ground (arith, inv.bottom))
          (λ j _. Local-alloc m.heap last inv.bottom v (pc j) (inv.locals j));
    old =
        update-All (Old (get_node m.heap v) m.begin) pc i (push_end v m.brk) tt
          (λ j _. Old-alloc m.heap last inv.bottom v m.begin (pc j) (inv.old j));
    unique =
        update-Apart owned pc i (push_end v m.brk) inv.unique
          (λ j r ne e. omega (arith, owned-lt m.heap last inv.bottom (pc j) (inv.locals j)));
  }

  pub Inv-link :
      (v : A) (n : Ptr)
      → Own m.heap last v n
      → owned (pc i) ≡ n
      → Inv n
          (record m { heap = set_next m.heap last n })
          (update pc i (push_swing n last))
          (q ++ (v ∷ []))
  Inv-link v n own mine = record {
    bottom = ground (arith, inv.bottom);
    holds =
        rw (← own.holds) (
          Holds-link m.next m.brk last m.value m.begin q n inv.bottom own.real own.below inv.holds);
    tail = Linked-link m.heap last inv.bottom n own.real m.end inv.tail;
    locals =
        update-All (Local (set_next m.heap last n) n) pc i (push_swing n last) (0, refl)
          (λ j ne.
            Local-link m.heap last inv.bottom n own.real (pc j) (inv.locals j)
              (λ e. ne (inv.unique i j (λ z. own.real (sym mine ∙ z)) (mine ∙ e))));
    old =
        update-All (Old (set_next m.heap last n) m.begin) pc i (push_swing n last) tt
          (λ j _. Old-link m.heap last inv.bottom n own.real m.begin (pc j) (inv.old j));
    unique = update-Apart owned pc i (push_swing n last) inv.unique (λ j r ne e. r refl);
  }
