-- ===== src/HashMap/Threads/Tests.antt =====
-- Three threads on a bucket with one entry, and two on a bucket without a map.
use fossilizid.Base.{ℕ, ◌≡◌, refl, true, false, none, some, List, [], ◌∷◌, Eq, ◌==◌, ==_iff, arith}
use fossilizid.HashMap.Threads.{
  Bucket, System, Reach, Event, idle, ins_enter, ins_load, ins_make, ins_add, sea_enter, sea_load,
  sea_find, inserts, finds, mode, waits, admits, step, happens, entries, start, calls, gets, later,
  turn, at,
}
use fossilizid.HashMap.Threads.Content.{content, replay, Legal, Nodes}
use fossilizid.HashMap.Threads.Order.{changes, touches, Reach-history, Reach-exclusive_change}
use fossilizid.HashMap.Threads.Unlocked.{insert-unlocked}

instance abbrev ℕ-Eq : Eq ℕ
ℕ-Eq = record { beq = ◌==◌; beq_iff = ==_iff }

abbrev one : List (ℕ × ℕ)
one = (1, 1) ∷ []

abbrev bucket : Bucket ℕ ℕ
bucket = record { hash_bucket = some one; value = λ _. 10; brk = 2; size = 1 }

one_nodes : Nodes one 2
one_nodes = record { below = λ k n h. ground (arith, h); apart = λ k j n h g. ground (arith, h, g) }

abbrev begun : System ℕ ℕ
begun = record { mem = bucket; pc = λ _. idle }

abbrev two : ℕ → System ℕ ℕ → System ℕ ℕ
two i s = turn i (turn i s)

-- Thread 0 has found key 1 and not read its value yet.
abbrev searching : System ℕ ℕ
searching = two 0 (at 0 (sea_load 1) (at 0 (sea_enter 1) begun))

-- Thread 1 has not found key 2, and waits until thread 0 is done.
abbrev waiting : System ℕ ℕ
waiting = two 1 (at 1 (ins_load 2 9) (at 1 (ins_enter 2 9) searching))

abbrev adding : System ℕ ℕ
adding = at 1 (ins_add true 2 9) (two 0 waiting)

searching-Reach : Reach bucket searching []
unfolding step happens mode waits admits
searching-Reach = later 0 (
    later 0
      (gets 0 (sea_load 1) (calls 0 (sea_enter 1) start refl refl) refl (λ j ne. ground arith)))

waiting-Reach : Reach bucket waiting []
unfolding step happens mode waits admits
waiting-Reach = later 1 (
    later 1 (
      gets 1 (ins_load 2 9) (calls 1 (ins_enter 2 9) searching-Reach refl refl) refl
        (λ j ne. ground arith)))

-- Thread 0 still has its shared lock.
waiting_blocked : admits (mode {K = ℕ} {V = ℕ} (ins_add true 2 9)) (mode (waiting.pc 0)) ≡ false
unfolding step mode admits
waiting_blocked = refl

adding-Reach : Reach bucket adding (finds 1 10 ∷ [])
unfolding step happens mode waits admits
adding-Reach =
    gets 1 (ins_add true 2 9) (later 0 (later 0 waiting-Reach)) refl (λ j ne. ground arith)

adding_changes : changes (adding.pc 1) ≡ true
unfolding step
adding_changes = refl

Reach-exclusive_change_example : touches (adding.pc 0) ≡ false
Reach-exclusive_change_example =
    Reach-exclusive_change bucket one refl one_nodes 1 0 adding-Reach (λ e. ground (arith, e))
      adding_changes

-- Thread 0 searches for the new key.
abbrev searched : System ℕ ℕ
searched = turn 0 (two 0 (at 0 (sea_load 2) (at 0 (sea_enter 2) (turn 0 (two 1 adding)))))

abbrev history : List (Event ℕ ℕ)
history = finds 2 9 ∷ inserts 2 9 ∷ finds 1 10 ∷ []

searched-Reach : Reach bucket searched history
unfolding step happens mode waits admits
searched-Reach = later 0 (
    later 0 (
      later 0 (
        gets 0 (sea_load 2)
          (calls 0 (sea_enter 2) (later 0 (later 1 (later 1 adding-Reach))) refl refl) refl
          (λ j ne. ground arith))))

Reach-history_example :
    Legal (content one bucket.value) history
    × ((k : ℕ)
        → content (entries searched.mem.hash_bucket) searched.mem.value k
          ≡ replay (content one bucket.value) history k)
Reach-history_example = Reach-history bucket one refl one_nodes searched-Reach

-- A bucket without a map, and a thread about to make it.
abbrev fresh : Bucket ℕ ℕ
fresh = record { hash_bucket = none; value = λ _. 0; brk = 1; size = 0 }

abbrev making : System ℕ ℕ
making =
    at 4 (ins_make 5 6)
      (turn 4 (at 4 (ins_load 5 6) (at 4 (ins_enter 5 6) (record { mem = fresh; pc = λ _. idle }))))

making-Reach : Reach fresh making []
unfolding step happens mode waits admits
making-Reach =
    gets 4 (ins_make 5 6)
      (later 4 (
        gets 4 (ins_load 5 6) (calls 4 (ins_enter 5 6) start refl refl) refl
          (λ j ne. ground arith)))
      refl (λ j ne. ground arith)

making_idle : making.pc 7 ≡ idle
unfolding step
making_idle = refl

insert-unlocked_example :
    (t : System ℕ ℕ) × Reach fresh t [] × (t.pc 4 ≡ ins_add false 5 6) × (t.pc 7 ≡ sea_find 3)
insert-unlocked_example =
    insert-unlocked 4 7 5 3 6 making-Reach (λ e. ground (arith, e)) refl making_idle
