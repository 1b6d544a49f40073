-- ===== src/Optimisticque/Tests.antt =====
-- Runs of the queue, and the theorems at concrete states.
use fossilizid.Base.{some, ℕ, ◌≡◌, refl, [], ◌∷◌, arith, update, null}
use fossilizid.Optimisticque.{
  Queue, push_node, push_link, pop_head, null_access, step, solo, get_list,
}
use fossilizid.Optimisticque.Clear.{put_list, put_list-last}
use fossilizid.Optimisticque.Solo.{Represents, pop_unlinked}

-- One value, in the node 2.
abbrev one_value : Queue ℕ
one_value = record {
  nodes = record {
    next = update (λ _. 0) 1 2;
    prev = update (λ _. 0) 2 1;
    value = update (λ _. 0) 2 5;
    brk = 3;
  };
  head = 1;
  detail = 2;
  size = 1;
  retired = [];
}

one_value-Represents : Represents one_value (5 ∷ [])
one_value-Represents = record {
  tail = record { real = omega arith; below = omega arith; ends = refl };
  holds = (omega arith, omega arith, omega arith, omega arith, refl, refl);
}

-- A push that has run for four accesses: its node is published and not linked.
abbrev unlinked : Queue ℕ
unlinked = record {
  nodes = record {
    next = λ _. 0;
    prev = update (λ _. 0) 2 1;
    value = update (λ _. 0) 2 5;
    brk = 3;
  };
  head = 1;
  detail = 2;
  size = 0;
  retired = [];
}

stops_unlinked :
    let r = solo {A = ℕ} 4 (get_list 0) (push_node 5) in
    (r.1 ≡ push_link 2 1)
    × (r.0.next 1 ≡ null)
    × (r.0.prev 2 ≡ 1)
    × (r.0.detail ≡ 2)
    × (r.0.head ≡ 1)
unfolding solo step get_list
stops_unlinked = (refl, refl, refl, refl, refl)

pop_unlinked_example :
    let r = solo 10 unlinked pop_head in (r.1 ≡ null_access) × (r.0.head ≡ null) × (r.0.next 1 ≡ 2)
pop_unlinked_example = pop_unlinked unlinked (omega arith) (omega arith) refl refl

frees_last : put_list 1 one_value ≡ some (2 ∷ [])
frees_last = put_list-last 0 one_value (5 ∷ []) one_value-Represents
