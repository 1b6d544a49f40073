-- ===== src/Optimisticque/Clear.antt =====
-- container/optimisticque.h: the destructor, run by itself. It frees nodes by `put_node` at once.
use fossilizid.Base.{ℕ, suc, ◌≡◌, Option, some, List, [], ◌∷◌, arith, Ptr}
use fossilizid.Msque.Clear.{retire_all}
use fossilizid.Optimisticque.{Queue}
use fossilizid.Optimisticque.Solo.{Represents}

module _ {A : Type 0} where
  -- `put_list`, for the nodes that it frees: its loop starts at `detail`.
  pub put_list : ℕ → Queue A → Option (List Ptr)
  put_list n m = retire_all n m.next m.detail []

  -- Whatever the queue holds, put_list frees the last node and no other.
  pub put_list-last :
      (n : ℕ) (m : Queue A) (q : List A)
      → Represents m q
      → put_list (suc n) m ≡ some (m.detail ∷ [])
  unfolding put_list
  put_list-last n m q i = ground (arith, i.tail)
