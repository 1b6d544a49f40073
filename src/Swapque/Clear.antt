-- ===== src/Swapque/Clear.antt =====
-- container/swapque.h: `clear` and the destructor, each run by itself.
use mathlib.Core.Option
use fossilizid.Base.{
  ℕ, suc, ◌+◌, ◌≡◌, refl, ap, ◌∙◌, length-append, Option, none, some, List, [], length, arith, Ptr,
  null, update,
}
use fossilizid.Msque.Clear.{retire_all, retire_all-Holds}
use fossilizid.Swapque.{Que}
use fossilizid.Swapque.Fifo.{Represents}

module _ {A : Type 0} where
  -- The two loops of `put_que`, for what they retire.
  pub put_que : ℕ → Que A → Option (List Ptr)
  put_que n q = elim (retire_all n q.next q.frond.begin q.retired) [
    | none ↦ none
    | some r ↦ retire_all n q.next q.back.begin r
  ]

  -- A new queue, made by `get_que`, and what was retired.
  abbrev pub renewed : A → Que A → List Ptr → Que A
  renewed junk q r = record {
    next = update (update q.next q.brk null) (suc q.brk) null;
    value = update (update q.value q.brk junk) (suc q.brk) junk;
    brk = suc (suc q.brk);
    frond = record { begin = q.brk; end = q.brk };
    back = record { begin = suc q.brk; end = suc q.brk };
    size = 0;
    retired = r;
  }

  -- `clear`
  pub clear : A → ℕ → Que A → Option (Que A)
  clear junk n q = Option.map (renewed junk q) (put_que n q)

  -- clear of a queue with n elements leaves an empty queue and retires n + 2 nodes, by loops of at
  -- most n + 1 turns.
  pub clear_que-empties :
      (junk : A) (q : Que A) (l : List A)
      → Represents q l
      → (r : Que A) × (clear junk (suc (length l)) q ≡ some r)
        × Represents r []
        × (length r.retired ≡ 2 + length l + length q.retired)
  unfolding clear put_que
  clear_que-empties junk q l (f, b, i, e) =
      let n = suc (length l) in
      let bound = ap length e ∙ length-append f b in
      let (r, g, k) =
        retire_all-Holds n q.next q.value q.brk q.frond.end q.frond.begin f q.retired
          i.frond_end.ends i.in_frond (omega (arith, bound)) in
      let (r', g', k') =
        retire_all-Holds n q.next q.value q.brk q.back.end q.back.begin b r i.back_end.ends
          i.in_back (omega (arith, bound)) in
      (
        renewed junk q r',
        ap
              (λ o.
                Option.map (renewed junk q)
                  (elim o [ none ↦ none | some x ↦ retire_all n q.next q.back.begin x ]))
              g
            ∙ ap (Option.map (renewed junk q)) g',
        (
          [],
          [],
          record {
            frond_end = record {
              real = omega (arith, i.frond_end.below);
              below = omega arith;
              ends = ground arith;
            };
            back_end = record { real = omega arith; below = omega arith; ends = ground arith };
            ends_apart = omega arith;
            in_frond = refl;
            in_back = refl;
            counted = refl;
            bounded = omega arith;
          },
          refl,
        ),
        omega (arith, k, k', bound),
      )
