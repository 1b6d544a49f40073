-- ===== src/Msque/Invariant/Steps.antt =====
-- Each access keeps the invariant, with the queue changed as `abstract_step` says.
use mathlib.Core.Bool.{Bool, true, false, ◌&&◌}
use fossilizid.Base.{
  ℕ, ◌+◌, ◌-◌, ◌^◌, ◌<◌, ◌≡◌, ◌≢◌, refl, sym, ap, ◌∙◌, List, [], ◌∷◌, ◌++◌, arith, Ptr, null,
  update, ◌==◌, if◌then◌else◌,
}
use fossilizid.Msque.{
  Mem, Pc, idle, push_node, push_end, push_next, push_help, push_check, push_link, push_swing,
  push_count, pushed, pop_begin, pop_next, pop_check, pop_cas, pop_read, pop_retire, pop_count,
  popped, pop_empty, step, abstract_step, u32, set_next, rest,
}
use fossilizid.Msque.Chain.{
  Leads-last, Leads-next, Leads-real, Leads-below, Holds-rest, Holds-Leads,
}
use fossilizid.Msque.Invariant.Defs.{Linked, Own, Seen, Local, Old, owned, Inv}
use fossilizid.Msque.Invariant.Moves.{Old-advance, Inv-quiet, Inv-alloc, Inv-link}

module _ {A : Type 0} (last : Ptr) (m : Mem A) (pc : ℕ → Pc A) (q : List A) (inv : Inv last m pc q)
    (i : ℕ) where
  abbrev pub Kept : Mem A × Pc A → List A → Type 0
  Kept r q' = (l : Ptr) × Inv l r.0 (update pc i r.1) q'

  -- The list stays as it is.
  pub stays :
      (p' : Pc A)
      → Local m.heap last p'
      → (owned p' ≢ null → owned p' ≡ owned (pc i))
      → Old m.heap m.begin p'
      → Kept (m, p') q
  stays p' l o d = (
    last,
    Inv-quiet last m pc q inv i m.begin m.end m.size m.retired p' q inv.holds inv.tail l o d
        (λ _ x. x),
  )

  -- `_size` or the retired nodes change.
  recounts :
      (z : ℕ) (r : List Ptr) (p' : Pc A)
      → Local m.heap last p'
      → (owned p' ≢ null → owned p' ≡ owned (pc i))
      → Old m.heap m.begin p'
      → Kept (record m { size = z; retired = r }, p') q
  recounts z r p' l o d =
      (last, Inv-quiet last m pc q inv i m.begin m.end z r p' q inv.holds inv.tail l o d (λ _ x. x))

  -- `_end` may move to a linked node.
  moves_end :
      (t : Bool) (e' : Ptr) (p' : Pc A)
      → Linked m.heap last e'
      → Local m.heap last p'
      → (owned p' ≢ null → owned p' ≡ owned (pc i))
      → Old m.heap m.begin p'
      → Kept ((if t then record m { end = e' } else m), p') q
  moves_end true e' p' k l o d = (
    last,
    Inv-quiet last m pc q inv i m.begin e' m.size m.retired p' q inv.holds k l o d (λ _ x. x),
  )
  moves_end false e' p' k l o d = stays p' l o d

  branches :
      (t : Bool) (r r' : Mem A × Pc A) (q' q'' : List A)
      → (t ≡ true → Kept r q')
      → (t ≡ false → Kept r' q'')
      → Kept (if t then r else r') (if t then q' else q'')
  branches true r r' q' q'' h k = h refl
  branches false r r' q' q'' h k = k refl

  chooses :
      (t : Bool) (p p' : Pc A)
      → (t ≡ true → Kept (m, p) q)
      → (t ≡ false → Kept (m, p') q)
      → Kept (m, if t then p else p') q
  chooses true p p' h k = h refl
  chooses false p p' h k = k refl

  -- The thread owns no node.
  abbrev free : {p : Ptr} → null ≢ null → null ≡ p
  free r = absurd (r refl)

  wins :
      (hp0 hp1 : Ptr)
      → Seen m.heap last hp0 hp1
      → m.begin ≡ hp0
      → Kept (record m { begin = hp1 }, pop_read hp0 hp1) (rest q)
  wins hp0 hp1 s e =
      let ne : m.next m.begin ≢ null = λ z. s.real (sym s.succ ∙ ap m.next (sym e) ∙ z) in
      let at : m.next m.begin ≡ hp1 = ap m.next e ∙ s.succ in
      let k = Holds-Leads m.next m.brk last m.value m.begin q inv.holds in
      let real : m.begin ≢ null = Leads-real m.next m.brk last k.0 m.begin inv.bottom.real k.1 in
      let below : m.begin < m.brk =
        Leads-below m.next m.brk last k.0 m.begin inv.bottom.below k.1 in
      let h = Holds-rest m.next m.brk last m.value m.begin q inv.bottom.ends ne inv.holds in
      (
        last,
        Inv-quiet last m pc q inv i hp1 m.end m.size m.retired (pop_read hp0 hp1) (rest q)
            (rw (← at) h.0) inv.tail (s.real, rw (← at) h.1) free tt
            (rw (← at) (Old-advance m.heap m.begin real below ne)),
      )

  links :
      (v : A) (n hp : Ptr)
      → Own m.heap last v n
      → Linked m.heap last hp
      → n ≡ owned (pc i)
      → m.next hp ≡ null
      → Kept (record m { heap = set_next m.heap hp n }, push_swing n hp) (q ++ (v ∷ []))
  links v n hp o l mine e =
      rw (Leads-last m.next m.brk last l.0 hp l.1 e)
        (n, Inv-link last m pc q inv i v n o (sym mine))

  successor : (a : Ptr) → Linked m.heap last a → m.next a ≢ null → Linked m.heap last (m.next a)
  successor a l ne = Leads-next m.next m.brk last l.0 a inv.bottom.ends l.1 ne

  access-Inv :
      (w : Bool) (p : Pc A)
      → pc i ≡ p
      → Local m.heap last p
      → Kept (step w m p) (abstract_step w m p q)
  unfolding step abstract_step
  access-Inv w idle e l = stays idle tt free tt
  access-Inv w (push_node v) e l = (last, Inv-alloc last m pc q inv i v)
  access-Inv w (push_end v n) e l =
      stays (push_next v n m.end) (l, inv.tail) (λ _. sym (ap owned e)) tt
  access-Inv w (push_next v n hp) e l =
      chooses (m.next hp == null) (push_check v n hp) (push_help v n hp (m.next hp))
        (λ _. stays (push_check v n hp) l (λ _. sym (ap owned e)) tt)
        (λ z.
          stays (push_help v n hp (m.next hp)) (l.0, l.1, successor hp l.1 (ground arith))
            (λ _. sym (ap owned e)) tt)
  access-Inv w (push_help v n hp nx) e l =
      moves_end (w && m.end == hp) nx (push_end v n) l.2 l.0 (λ _. sym (ap owned e)) tt
  access-Inv w (push_check v n hp) e l =
      chooses (m.end == hp) (push_link v n hp) (push_end v n)
        (λ _. stays (push_link v n hp) l (λ _. sym (ap owned e)) tt)
        (λ _. stays (push_end v n) l.0 (λ _. sym (ap owned e)) tt)
  access-Inv w (push_link v n hp) e l =
      branches (w && m.next hp == null) (record m { heap = set_next m.heap hp n }, push_swing n hp)
        (m, push_end v n) (q ++ (v ∷ [])) q
        (λ z. links v n hp l.0 l.1 (sym (ap owned e)) (ground arith))
        (λ _. stays (push_end v n) l.0 (λ _. sym (ap owned e)) tt)
  access-Inv w (push_swing n hp) e l = moves_end (w && m.end == hp) n push_count l tt free tt
  access-Inv w push_count e l = recounts (u32 (m.size + 1)) m.retired pushed tt free tt
  access-Inv w pushed e l = stays idle tt free tt
  access-Inv w pop_begin e l =
      stays (pop_next m.begin) (Holds-Leads m.next m.brk last m.value m.begin q inv.holds) free
        (0, refl)
  access-Inv w (pop_next a) e l =
      chooses (m.next a == null) pop_empty (pop_check a (m.next a))
        (λ _. stays pop_empty tt free tt)
        (λ z.
          stays (pop_check a (m.next a)) (record { linked = l; real = ground arith; succ = refl })
            free tt)
  access-Inv w (pop_check a c) e l =
      chooses (m.begin == a) (pop_cas a c) pop_begin (λ _. stays (pop_cas a c) l free tt)
        (λ _. stays pop_begin tt free tt)
  access-Inv w (pop_cas a c) e l =
      branches (m.begin == a) (record m { begin = c }, pop_read a c) (m, pop_begin) (rest q) q
        (λ z. wins a c l (ground arith)) (λ _. stays pop_begin tt free tt)
  access-Inv w (pop_read a c) e l = stays (pop_retire a (m.value c)) tt free tt
  access-Inv w (pop_retire a v) e l = recounts m.size (a ∷ m.retired) (pop_count v) tt free tt
  access-Inv w (pop_count v) e l =
      recounts (u32 (m.size + (2 ^ 32 - 1))) m.retired (popped v) tt free tt
  access-Inv w (popped v) e l = stays idle tt free tt
  access-Inv w pop_empty e l = stays idle tt free tt

  -- Any access of thread `i` keeps the invariant.
  pub step-Inv : (w : Bool) → Kept (step w m (pc i)) (abstract_step w m (pc i) q)
  step-Inv w = access-Inv w (pc i) refl (inv.locals i)
