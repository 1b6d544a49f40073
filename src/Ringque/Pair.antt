-- ===== src/Ringque/Pair.antt =====
-- One thread that pushes and one that pops, in any order of their accesses.
pub mod Inv
pub mod Moves
pub mod Pushes
pub mod Growth
pub mod Turns
pub mod Held
pub mod Order
mod Tests
use fossilizid.Base.{
  ℕ, suc, ◌+◌, ◌^◌, ◌<◌, ◌≡◌, Bool, Option, none, some, List, [], ◌∷◌, ◌++◌, ◌==◌, if◌then◌else◌,
}
use fossilizid.Ringque.{
  Ring, Pc, create, step, push_enter, push_cas, pushed, pop_enter, pop_wait, popped, pop_none,
}

module _ {A : Type 0} where
  -- What the push publishes by its exchange of `_push_slide`, and the pop takes from its slot.
  pub sent_by : Ring A → Pc A → List A
  sent_by r (push_cas v slide newslide) = if r.push_slide == slide then v ∷ [] else []
  sent_by r p = []

  pub taken_by : Ring A → Pc A → List A
  taken_by r (pop_wait t) = elim (r.que t) [ none ↦ [] | some v ↦ v ∷ [] ]
  taken_by r p = []

-- The ring with both threads; `ins` are the values published, `outs` those taken, in order.
pub record Duo (A : Type 0) : Type 0 where
  pub ring : Ring A
  pub pusher : Pc A
  pub popper : Pc A
  pub ins : List A
  pub outs : List A

module _ {A : Type 0} where
  abbrev pub new_pair : ℕ → Duo A
  new_pair n = record { ring = create n; pusher = pushed; popper = pop_none; ins = []; outs = [] }

  abbrev pub push_turn : Bool → Duo A → Duo A
  push_turn w s = record s {
    ring = (step w s.ring s.pusher).0;
    pusher = (step w s.ring s.pusher).1;
    ins = s.ins ++ sent_by s.ring s.pusher;
  }

  abbrev pub pop_turn : Bool → Duo A → Duo A
  pop_turn w s = record s {
    ring = (step w s.ring s.popper).0;
    popper = (step w s.ring s.popper).1;
    outs = s.outs ++ taken_by s.ring s.popper;
  }

  -- What they reach from a new ring, while it has less than 2^31 slots.
  pub data Reach (n : ℕ) : Duo A → Type 0 where
    start : Reach n (new_pair n)
    pushes :
        {s : Duo A} (v : A)
        → Reach n s
        → s.pusher ≡ pushed
        → Reach n (record s { pusher = push_enter v })
    pops : {s : Duo A} → Reach n s → s.popper ≡ pop_none → Reach n (record s { popper = pop_enter })
    pops_again :
        {s : Duo A} (v : A)
        → Reach n s
        → s.popper ≡ popped v
        → Reach n (record s { popper = pop_enter })
    push_later :
        {s : Duo A} (w : Bool) → Reach n s → s.ring.que_max < 2 ^ 31 → Reach n (push_turn w s)
    pop_later :
        {s : Duo A} (w : Bool) → Reach n s → s.ring.que_max < 2 ^ 31 → Reach n (pop_turn w s)
