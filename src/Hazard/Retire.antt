-- ===== src/Hazard/Retire.antt =====
-- `retire` and `release`.

use fossilizid.Base.{
  ℕ, ◌+◌, ◌≤◌, ◌≡◌, ◌≢◌, refl, Bool, true, false, Bool-cases, inl, inr, some, List, [], ◌∷◌, ◌++◌,
  arith, Ptr, null, ◌==◌, if◌then◌else◌, count, count-append, contains,
}
use fossilizid.Hazard.{
  Slot, RecoverList, Hazards, pending, scan_all, retire_into, retire_in, retire, hvector, release,
}
use fossilizid.Hazard.Scan.{scan_all-count}
use fossilizid.Hazard.Acquire.{total, in_use, guards}

-- A recover list that is not in use.
abbrev pub available : List RecoverList → Bool
available [] = false
available (l ∷ ls) = if l.active == 1 then true else available ls

retire_into-count :
    (p : Ptr) (hv : List Ptr) (llen : ℕ) (v : List Ptr) (a : Ptr)
    → let s = retire_into p hv llen v in
      (count a s.vector + count a s.gone ≡ count a v + count a (p ∷ []))
      × (contains hv a ≡ true → count a s.gone ≡ 0)
unfolding retire_into
retire_into-count p hv llen v a = (
  ground (
    arith,
    scan_all-count hv v a,
    count-append a (scan_all hv v).vector (p ∷ []),
    count-append a v (p ∷ []),
  ),
  λ h. ground (arith, scan_all-count hv v a),
)

-- What `retire_in` has done, on success.
record Retired (p : Ptr) (hv : List Ptr) (ls : List RecoverList) (r : List RecoverList × List Ptr)
    : Type 0 where
  kept : (a : Ptr) → count a (pending r.0) + count a r.1 ≡ count a (pending ls) + count a (p ∷ [])
  safe : (a : Ptr) → contains hv a ≡ true → count a r.1 ≡ 0

retire_in-Retired :
    (p : Ptr) (hv : List Ptr) (llen : ℕ) (ls : List RecoverList)
    → available ls ≡ true
    → (r : List RecoverList × List Ptr) × (retire_in p hv llen ls ≡ some r) × Retired p hv ls r
unfolding retire_in
retire_in-Retired p hv llen [] h = cc
retire_in-Retired p hv llen (l ∷ ls) h = elim (Bool-cases (l.active == 1)) [
  | inl e ↦ (
    (
      record { re_vector = (retire_into p hv llen l.re_vector).vector; active = 1 } ∷ ls,
      (retire_into p hv llen l.re_vector).gone,
    ),
    rw e refl,
    record {
      kept = λ a.
          let c = retire_into-count p hv llen l.re_vector a in
          omega (
            arith,
            count-append a (retire_into p hv llen l.re_vector).vector (pending ls),
            count-append a l.re_vector (pending ls),
            c.0,
          );
      safe = λ a g. (retire_into-count p hv llen l.re_vector a).1 g;
    },
  )
  | inr e ↦
      let (r, q, w) = retire_in-Retired p hv llen ls (rw e at h) in
      (
        (l ∷ r.0, r.1),
        rw (e, q) refl,
        record {
          kept = λ a. omega (
            arith,
            count-append a l.re_vector (pending r.0),
            count-append a l.re_vector (pending ls),
            w.kept a,
          );
          safe = w.safe;
        },
      )
]

-- A hazard pointer among those that hold something is one that holds it.
contains-hvector :
    (p : Ptr) (l : List Slot) → p ≢ null → 1 ≤ total (guards p) l → contains (hvector l) p ≡ true
unfolding hvector
contains-hvector p [] r h = absurd (omega arith)
contains-hvector p (s ∷ l) r h = ground (arith, contains-hvector p l r)

-- What a call of `retire` has done.
pub record Kept (p a : Ptr) (h h' : Hazards) : Type 0 where
  pub slots : h'.slots ≡ h.slots
  pub conserved :
      count a (pending h'.re_list_set) + count a h'.freed
      ≡ count a (pending h.re_list_set) + count a h.freed + count a (p ∷ [])

-- While some recover list is not in use, `retire` gets hold of one and returns. Then each
-- pointer stands among those that wait and those freed as often as before, `p` once more; and the
-- hazard pointers are as before.
pub retire_conserves :
    (p a : Ptr) (h : Hazards)
    → available h.re_list_set ≡ true
    → (h' : Hazards) × (retire p h ≡ some h') × Kept p a h h'
unfolding retire
retire_conserves p a h e =
    let (r, q, w) = retire_in-Retired p (hvector h.slots) h.llen h.re_list_set e in
    (
      record h { re_list_set = r.0; freed = h.freed ++ r.1 },
      rw q refl,
      record { slots = refl; conserved = omega (arith, w.kept a, count-append a h.freed r.1) },
    )

-- A call of `retire` frees no pointer that a hazard pointer holds, whichever pointer is retired.
pub retire_safe :
    (p a : Ptr) (h : Hazards)
    → available h.re_list_set ≡ true
    → a ≢ null
    → 1 ≤ total (guards a) h.slots
    → (h' : Hazards) × (retire p h ≡ some h') × (count a h'.freed ≡ count a h.freed)
unfolding retire
retire_safe p a h e r g =
    let (o, q, w) = retire_in-Retired p (hvector h.slots) h.llen h.re_list_set e in
    (
      record h { re_list_set = o.0; freed = h.freed ++ o.1 },
      rw q refl,
      omega (arith, w.safe a (contains-hvector a h.slots r g), count-append a h.freed o.1),
    )

-- The pointers in use, after `release`: all but the one given back.
pub release-in_use :
    (i a : ℕ) (l : List Slot)
    → total (in_use a) (release i l) ≡ (if i == a then 0 else total (in_use a) l)
unfolding release
release-in_use i a [] = ground arith
release-in_use i a (s ∷ l) = ground (arith, release-in_use i a l)
