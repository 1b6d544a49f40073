-- ===== src/Ringque.antt =====
-- container/ringque.h: the ring queue that doubles when it is full, one shared access of a thread
-- at a time.
mod Slots
pub mod Solo
pub mod Race
pub mod Overrun
pub mod Pair
pub mod Clear
mod Tests
use fossilizid.Base.{
  ℕ, zero, suc, ◌+◌, ◌-◌, ◌*◌, ◌%◌, ◌^◌, Bool, true, ◌&&◌, Option, none, some, update, ◌==◌, leb,
  ltb, if◌then◌else◌,
}

-- `_que` holds pointers: `none` is the null pointer, `some v` one to an element. The lock is the
-- number of threads that hold it shared.
pub record Ring (A : Type 0) : Type 0 where
  pub que : ℕ → Option A
  pub push_slide : ℕ
  pub pop_slide : ℕ
  pub size : ℕ
  pub que_max : ℕ
  pub readers : ℕ

-- Where a thread stands, with the locals that are live there.
pub data Pc (A : Type 0) : Type 0 where
  push_enter : A → Pc A
  push_test : A → ℕ → Pc A
  push_resize : A → ℕ → Pc A
  push_relock : A → ℕ → Pc A
  push_cas : A → ℕ → ℕ → Pc A
  push_store : A → ℕ → Pc A
  push_count : Pc A
  pushed : Pc A
  pop_enter : Pc A
  pop_test : ℕ → ℕ → Pc A
  pop_cas : ℕ → ℕ → Pc A
  pop_wait : ℕ → Pc A
  pop_count : A → Pc A
  popped : A → Pc A
  pop_none : Pc A

abbrev pub u32 : ℕ → ℕ
u32 n = n % 2 ^ 32

abbrev pub is_null {ℓ} : {A : Type ℓ} → Option A → Bool
is_null none = true
is_null (some _) = Bool.false

module _ {A : Type 0} where
  -- `get_que`: null pointers only
  abbrev pub get_que : ℕ → Option A
  get_que i = none

  -- The constructor, for a template argument `detailsize`.
  pub create : ℕ → Ring A
  create detailsize = record {
    que = get_que;
    push_slide = 0;
    pop_slide = detailsize;
    size = 0;
    que_max = detailsize;
    readers = 0;
  }

  -- The destructor gives the slots back with what stands in them: it destroys no element.
  pub destroy : Ring A → (ℕ → Option A) × ℕ
  destroy r = (r.que, r.que_max)

  pub empty : Ring A → Bool
  empty r = r.size == 0

  -- The slots after `resize`, where the elements go round the end of the old ones: those up to
  -- `pushslide` stay, those from `popslide` on move to the end of the new ones.
  abbrev pub moved : Ring A → ℕ → Option A
  moved r i =
      if leb (r.pop_slide + u32 (r.que_max * 2) - r.que_max) i && ltb i (u32 (r.que_max * 2))
      then r.que (i + r.que_max - u32 (r.que_max * 2))
      else (if ltb i r.push_slide then r.que i else none)

  -- The slots after `resize`, where they do not.
  abbrev pub kept : Ring A → ℕ → Option A
  kept r i = if leb r.pop_slide i && ltb i r.push_slide then r.que i else none

  pub resize : Ring A → Ring A
  resize r =
      if leb r.push_slide r.pop_slide
      then record r {
        que = moved r;
        pop_slide = u32 (r.pop_slide + r.que_max);
        que_max = u32 (r.que_max * 2);
      }
      else record r { que = kept r; que_max = u32 (r.que_max * 2) }

  -- One access of `push` or `pop`. The flag is the choice of `compare_exchange_weak`.
  pub step : Bool → Ring A → Pc A → Ring A × Pc A
  unfolding resize
  step w r (push_enter v) = (record r { readers = r.readers + 1 }, push_test v r.push_slide)
  step w r (push_test v slide) =
      if u32 (slide + 1) == r.pop_slide
      then (record r { readers = r.readers - 1 }, push_resize v slide)
      else (r, push_cas v slide (if u32 (slide + 1) == r.que_max then 0 else u32 (slide + 1)))
  step w r (push_resize v slide) = (
    if r.readers == 0 && u32 (slide + 1) == r.pop_slide then resize r else r,
    push_relock v slide,
  )
  step w r (push_relock v slide) = (record r { readers = r.readers + 1 }, push_test v slide)
  step w r (push_cas v slide newslide) =
      if r.push_slide == slide
      then (record r { push_slide = newslide }, push_store v slide)
      else (r, push_test v r.push_slide)
  step w r (push_store v slide) =
      if w && is_null (r.que slide)
      then (record r { que = update r.que slide (some v) }, push_count)
      else (r, push_store v slide)
  step w r push_count = (record r { size = u32 (r.size + 1); readers = r.readers - 1 }, pushed)
  step w r pushed = (r, pushed)
  step w r pop_enter = (
    record r { readers = r.readers + 1 },
    pop_test r.pop_slide (if r.pop_slide == r.que_max then 0 else r.pop_slide),
  )
  step w r (pop_test slide slidetail) =
      if slidetail == r.push_slide
      then (record r { readers = r.readers - 1 }, pop_none)
      else (r, pop_cas slide slidetail)
  step w r (pop_cas slide slidetail) =
      if r.pop_slide == slide
      then (record r { pop_slide = u32 (slidetail + 1) }, pop_wait slidetail)
      else (r, pop_test r.pop_slide slidetail)
  step w r (pop_wait slidetail) = elim (r.que slidetail) [
    | none ↦ (r, pop_wait slidetail)
    | some v ↦ (record r { que = update r.que slidetail none }, pop_count v)
  ]
  step w r (pop_count v) =
      (record r { size = u32 (r.size + (2 ^ 32 - 1)); readers = r.readers - 1 }, popped v)
  step w r (popped v) = (r, popped v)
  step w r pop_none = (r, pop_none)

  -- A thread runs alone for a number of accesses.
  pub solo : ℕ → Ring A → Pc A → Ring A × Pc A
  solo zero r p = (r, p)
  solo (suc n) r p = let (r', p') = step true r p in solo n r' p'

-- What `clear` does with the old slots: it comes to its end with these slots destroyed, it destroys
-- the target of a null pointer, or it is still in the loop.
pub data Drained : Type 0 where
  done : ℕ → Drained
  null_destroyed : Drained
  looping : Drained

module _ {A : Type 0} where
  -- The loop of `clear`. `k` counts the slots destroyed so far.
  pub drain : ℕ → (ℕ → Option A) → ℕ → ℕ → ℕ → ℕ → Drained
  drain zero que max push pop k = looping
  drain (suc f) que max push pop k =
      let pop' = if pop == max then 0 else pop in
      elim (pop' == push) [
        | Bool.false ↦ done k
        | true ↦ elim (que pop') [
          | none ↦ null_destroyed
          | some v ↦ drain f que max push pop' (suc k)
        ]
      ]

  -- `clear`, with the old slots' part on fuel.
  pub clear : ℕ → Ring A → Ring A × Drained
  clear f r = (
    record r { que = get_que; push_slide = 0; pop_slide = r.que_max; size = 0 },
    drain f r.que r.que_max r.push_slide r.pop_slide 0,
  )
