-- ===== src/Ringque/Slots.antt =====
-- The elements of the ring in order, from the slot that `pop` takes next.
use fossilizid.Base.{
  ℕ, suc, ◌+◌, ◌-◌, ◌*◌, ◌^◌, ◌≤◌, ◌<◌, ◌≡◌, ◌≢◌, ◌↔◌, refl, ◌∙◌, List, [], ◌∷◌, ◌++◌, none, some,
  arith, update, length, get_elem?, get_elem?-append_ne, get_elem?-append_last, get_elem?-none,
  length-append, ltb, if◌then◌else◌, ◌==◌,
}
use native.Mathlib.Decide.{ℕ_discrete, dec_lt}
use fossilizid.Ringque.{Ring, resize, moved, create, u32}

-- The slot `k` places behind slot `h`, going round at `max`.
abbrev pub slot : ℕ → ℕ → ℕ → ℕ
slot max h k = if ltb (h + k) max then h + k else h + k - max

abbrev pub head : ℕ → ℕ → ℕ
head max pop = if pop == max then 0 else pop

pub slot_injective :
    (max h j k : ℕ) → h < max → j < max → k < max → slot max h j ≡ slot max h k → j ≡ k
slot_injective max h j k a b c e = ground arith

pub slot-suc :
    (max h k : ℕ) → h < max → suc k < max → slot max (head max (h + 1)) k ≡ slot max h (suc k)
slot-suc max h k a b = ground arith

pub slot_last : (max h k : ℕ) → h < max → suc k ≡ max → slot max (head max (h + 1)) k ≡ h
slot_last max h k a b = ground arith

pub head-lt : (max pop : ℕ) → 0 < pop → pop ≤ max → head max pop < max
head-lt max pop a b = ground arith

module _ {A : Type 0} where
  -- The ring holds `xs`, oldest first, and no other slot holds an element.
  pub record Represents (r : Ring A) (xs : List A) : Type 0 where
    pub fits : r.que_max < 2 ^ 32
    pub pop_pos : 0 < r.pop_slide
    pub pop_le : r.pop_slide ≤ r.que_max
    pub room : length xs < r.que_max
    pub next : r.push_slide ≡ slot r.que_max (head r.que_max r.pop_slide) (length xs)
    pub count : r.size ≡ length xs
    pub slots :
        (k : ℕ)
        → k < r.que_max
        → r.que (slot r.que_max (head r.que_max r.pop_slide) k) ≡ get_elem? xs k

  pub create-Represents : (n : ℕ) → 0 < n → n < 2 ^ 32 → Represents (create n) []
  unfolding create
  create-Represents n h b = record {
    fits = b;
    pop_pos = h;
    pop_le = ground arith;
    room = h;
    next = ground arith;
    count = refl;
    slots = λ k l. refl;
  }

  -- The ring after `push` has stored `v`, but for its lock.
  abbrev pub stored : Ring A → A → Ring A
  stored r v = record r {
    que = update r.que r.push_slide (some v);
    push_slide = if r.push_slide + 1 == r.que_max then 0 else r.push_slide + 1;
    size = u32 (r.size + 1);
  }

  pub stored-Represents :
      (r : Ring A) (xs : List A) (v : A)
      → Represents r xs
      → length xs + 1 < r.que_max
      → Represents (stored r v) (xs ++ (v ∷ []))
  stored-Represents r xs v i l = record {
    fits = i.fits;
    pop_pos = i.pop_pos;
    pop_le = i.pop_le;
    room = omega (arith, length-append xs (v ∷ []));
    next = ground (arith, length-append xs (v ∷ []), i.next, i.pop_le);
    count = ground (arith, length-append xs (v ∷ []));
    slots = λ k lt. elim (ℕ_discrete k n) [
      | yes e ↦ ground (arith, i.next, get_elem?-append_last xs v)
      | no ne ↦
          let q = slot_injective r.que_max h n k below i.room lt in
          ground (arith, i.next, q, get_elem?-append_ne xs v k ne, i.slots k lt)
    ];
  }
    where
      n : ℕ
      n = length xs

      h : ℕ
      h = head r.que_max r.pop_slide

      below : h < r.que_max
      below = head-lt r.que_max r.pop_slide i.pop_pos i.pop_le

  abbrev pub removed : Ring A → Ring A
  removed r = record r {
    que = update r.que (head r.que_max r.pop_slide) none;
    pop_slide = head r.que_max r.pop_slide + 1;
    size = u32 (r.size + (2 ^ 32 - 1));
  }

  pub removed-Represents :
      (r : Ring A) (x : A) (xs : List A) → Represents r (x ∷ xs) → Represents (removed r) xs
  removed-Represents r x xs i = record {
    fits = i.fits;
    pop_pos = omega arith;
    pop_le = ground (arith, i.pop_le, i.pop_pos);
    room = omega (arith, i.room);
    next = ground arith;
    count = ground arith;
    slots = λ k lt. elim (dec_lt (suc k) r.que_max) [
      | yes l ↦ rw (slot-suc r.que_max h k below l) (
          ground (
            arith,
            i.slots (suc k) l,
            i.slots 0 (omega arith),
            slot_injective r.que_max h 0 (suc k) below (omega arith) l,
          ))
      | no ge ↦
          rw (slot_last r.que_max h k below (omega arith))
            (ground (arith, get_elem?-none xs k (omega (arith, i.room))))
    ];
  }
    where
      h : ℕ
      h = head r.que_max r.pop_slide

      below : h < r.que_max
      below = head-lt r.que_max r.pop_slide i.pop_pos i.pop_le

  abbrev pub doubled : Ring A → Ring A
  doubled r = record r {
    que = moved r;
    pop_slide = r.pop_slide + r.que_max;
    que_max = r.que_max * 2;
  }

  -- A full ring: the slot behind the newest element is the one before the oldest.
  pub Represents-full :
      (r : Ring A) (xs : List A)
      → Represents r xs
      → (r.push_slide + 1 ≡ r.pop_slide) ↔ (length xs + 1 ≡ r.que_max)
  Represents-full r xs i =
      (λ e. ground (arith, i.next, i.room), λ e. ground (arith, i.next, i.room))

  pub Represents-room :
      (r : Ring A) (xs : List A)
      → Represents r xs
      → r.push_slide + 1 ≢ r.pop_slide
      → length xs + 1 < r.que_max
  Represents-room r xs i ne = ground (arith, i.next, i.room)

  pub resize_full :
      (r : Ring A)
      → r.push_slide + 1 ≡ r.pop_slide
      → r.pop_slide ≤ r.que_max
      → r.que_max < 2 ^ 31
      → resize r ≡ doubled r
  unfolding resize
  resize_full r e l b = ground arith

  pub doubled-Represents :
      (r : Ring A) (xs : List A)
      → Represents r xs
      → length xs + 1 ≡ r.que_max
      → r.que_max < 2 ^ 31
      → Represents (doubled r) xs
  doubled-Represents r xs i l b = record {
    fits = omega arith;
    pop_pos = omega arith;
    pop_le = omega arith;
    room = omega arith;
    next = ground (arith, i.next);
    count = i.count;
    slots = λ k lt. elim (dec_lt k (length xs)) [
      | yes old ↦ ground (arith, i.slots k (omega arith), i.next)
      | no new ↦ ground (arith, get_elem?-none xs k (omega arith), i.next)
    ];
  }

  -- The slot that `push` writes is in range and empty.
  pub Represents-push :
      (r : Ring A) (xs : List A)
      → Represents r xs
      → (r.push_slide < r.que_max) × (r.que r.push_slide ≡ none)
  Represents-push r xs i = (
    ground (arith, i.next, i.room, head-lt r.que_max r.pop_slide i.pop_pos i.pop_le),
    rw (i.next) (i.slots (length xs) i.room ∙ get_elem?-none xs (length xs) (omega arith)),
  )

  -- The lock is no part of what the ring holds.
  pub unlocked :
      (r : Ring A) (n : ℕ) {xs : List A}
      → Represents r xs
      → Represents (record r { readers = n }) xs
  unlocked r n i = record {
    fits = i.fits;
    pop_pos = i.pop_pos;
    pop_le = i.pop_le;
    room = i.room;
    next = i.next;
    count = i.count;
    slots = i.slots;
  }
