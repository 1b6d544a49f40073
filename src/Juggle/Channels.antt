-- ===== src/Juggle/Channels.antt =====
-- The set of channels.
use fossilizid.Base.{
  ℕ, suc, ◌≤◌, ◌≡◌, refl, true, false, List, [], ◌∷◌, ◌++◌, ◌==◌, if◌then◌else◌, contains,
  Bool-cases, inl, inr, ltb, arith,
}
use fossilizid.Juggle.{
  Service, insert_channel, erase_channel, insert_all, add_rpcsession, remove_rpcsession, admit,
}

-- A set from `b` on, in the order of the addresses.
abbrev pub Ascending : ℕ → List ℕ → Type 0
Ascending b [] = 0 ≤ b
Ascending b (c ∷ l) = (b ≤ c) × Ascending (suc c) l

Ascending-weaken : (a b : ℕ) (l : List ℕ) → a ≤ b → Ascending b l → Ascending a l
Ascending-weaken a b [] h q = omega arith
Ascending-weaken a b (c ∷ l) h q = (omega (arith, q.0), q.1)

pub insert_channel-Ascending :
    (ch b : ℕ) (l : List ℕ) → b ≤ ch → Ascending b l → Ascending b (insert_channel ch l)
unfolding insert_channel
insert_channel-Ascending ch b [] h q = (h, omega arith)
insert_channel-Ascending ch b (c ∷ l) h q = elim (Bool-cases (ltb ch c)) [
  | inl y ↦ rw (y) (h, (ground arith, q.1))
  | inr n ↦ elim (Bool-cases (c == ch)) [
    | inl y ↦ rw (n, y) q
    | inr m ↦ rw (n, m) (q.0, insert_channel-Ascending ch (suc c) l (ground arith) q.1)
  ]
]

erase_channel-Ascending : (ch b : ℕ) (l : List ℕ) → Ascending b l → Ascending b (erase_channel ch l)
unfolding erase_channel
erase_channel-Ascending ch b [] q = q
erase_channel-Ascending ch b (c ∷ l) q = elim (Bool-cases (c == ch)) [
  | inl y ↦ rw (y) (Ascending-weaken b (suc c) l (omega (arith, q.0)) q.1)
  | inr n ↦ rw (n) (q.0, erase_channel-Ascending ch (suc c) l q.1)
]

contains-insert_channel :
    (ch j : ℕ) (l : List ℕ)
    → contains (insert_channel ch l) j ≡ (if ch == j then true else contains l j)
unfolding insert_channel
contains-insert_channel ch j [] = ground arith
contains-insert_channel ch j (c ∷ l) = ground (arith, contains-insert_channel ch j l)

below : (j b : ℕ) (l : List ℕ) → suc j ≤ b → Ascending b l → contains l j ≡ false
below j b [] h q = refl
below j b (c ∷ l) h q = ground (arith, q.0, below j (suc c) l (omega (arith, q.0)) q.1)

contains-erase_channel :
    (ch j b : ℕ) (l : List ℕ)
    → Ascending b l
    → contains (erase_channel ch l) j ≡ (if ch == j then false else contains l j)
unfolding erase_channel
contains-erase_channel ch j b [] q = ground arith
contains-erase_channel ch j b (c ∷ l) q =
    ground (arith, contains-erase_channel ch j (suc c) l q.1, below c (suc c) l (omega arith) q.1)

insert_all-Ascending : (cs l : List ℕ) → Ascending 0 l → Ascending 0 (insert_all cs l)
insert_all-Ascending [] l q = q
insert_all-Ascending (c ∷ cs) l q =
    insert_all-Ascending cs (insert_channel c l) (insert_channel-Ascending c 0 l (omega arith) q)

contains-insert_all :
    (cs l : List ℕ) (j : ℕ)
    → contains (insert_all cs l) j ≡ (if contains cs j then true else contains l j)
contains-insert_all [] l j = refl
contains-insert_all (c ∷ cs) l j =
    ground (arith, contains-insert_all cs (insert_channel c l) j, contains-insert_channel c j l)

contains-append_last :
    (cs : List ℕ) (c j : ℕ) → contains (cs ++ (c ∷ [])) j ≡ (if c == j then true else contains cs j)
contains-append_last [] c j = ground arith
contains-append_last (d ∷ cs) c j = ground (arith, contains-append_last cs c j)

module _ {Name Handler Callback Ctx : Type 0} where
  -- A round takes over the channels on the list of new ones, and no other; the set stays in order,
  -- so that a channel stands in it once.
  admit-channels :
      (s : Service Name Handler Callback Ctx) (j : ℕ)
      → Ascending 0 s.set_channel
      → Ascending 0 (admit s).set_channel
        × (contains (admit s).set_channel j
            ≡ (if contains s.array_new_channel j then true else contains s.set_channel j))
  unfolding admit
  admit-channels s j h = (
    insert_all-Ascending s.array_new_channel s.set_channel h,
    contains-insert_all s.array_new_channel s.set_channel j,
  )

  -- A channel that is removed is out of the set, and the others are as before; but where it was
  -- added, and a round took it over before it was removed, the next round takes it over again.
  pub remove-admit :
      (s : Service Name Handler Callback Ctx) (ch j : ℕ)
      → Ascending 0 s.set_channel
      → (contains (remove_rpcsession ch s).set_channel j
          ≡ (if ch == j then false else contains s.set_channel j))
        × (contains (admit (remove_rpcsession ch (admit (add_rpcsession ch s)))).set_channel ch
            ≡ true)
  unfolding admit remove_rpcsession add_rpcsession
  remove-admit s ch j h = (
    contains-erase_channel ch j 0 s.set_channel h,
    ground (
      arith,
      contains-insert_all (s.array_new_channel ++ (ch ∷ []))
          (erase_channel ch (insert_all (s.array_new_channel ++ (ch ∷ [])) s.set_channel)) ch,
      contains-append_last s.array_new_channel ch ch,
    ),
  )
