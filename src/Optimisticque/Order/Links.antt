-- ===== src/Optimisticque/Order/Links.antt =====
-- The links that a push sets, and the exchange between them.
use mathlib.Core.Path.{subst}
use fossilizid.Base.{
  ℕ, suc, ◌<◌, ◌≡◌, ◌≢◌, inl, inr, refl, sym, ap, ◌∙◌, true, some, List, [], ◌∷◌, ◌++◌, length,
  get_elem?, Ptr, null, update, update-All, update-Apart, arith, Bool-cases, ◌==◌, length-append,
  get_elem?-append, get_elem?-append_last,
}
use fossilizid.Optimisticque.{Queue, Pc, push_prev, push_cas, push_link}
use fossilizid.Optimisticque.Order.Inv.{owned, pushes, Private, Link, Inv}
use fossilizid.Optimisticque.Order.Moves.{cas_node, Private-update, Link-quiet}

module _ {A : Type 0} (m : Queue A) (pc : ℕ → Pc A) (log : List A) (at : ℕ → Ptr)
    (inv : Inv m pc log at) (i : ℕ) (n hp : Ptr) where
  -- The store to `_new->prev`
  module _ (before : pc i ≡ push_prev n hp) where
    abbrev backed : Queue A
    backed = record m { nodes = record (m.nodes) { prev = update m.prev n hp } }

    abbrev after : ℕ → Pc A
    after = update pc i (push_cas n hp)

    real : n ≢ null
    real = ground (arith, ap pushes (sym before) ∙ inv.pushing i)

    own : owned (pc i) ≡ n
    own = ap owned before

    mine : Private m pc log at n
    mine = subst (λ x. Private m pc log at x) own (inv.private i (λ z. real (sym own ∙ z)))

    pub set_prev : Inv backed after log at
    set_prev = record {
      first = inv.first;
      newest = inv.newest;
      real = inv.real;
      below = inv.below;
      apart = inv.apart;
      backs = λ j h. ground (arith, inv.backs j h, mine.apart (suc j));
      values = inv.values;
      links = λ j h.
          Link-quiet m pc log at inv i (push_cas n hp) (λ x y e. ground (arith, before, e)) j
            (inv.links j h);
      open_end = inv.open_end;
      private =
          Private-update m pc log at inv i (push_cas n hp) backed
            (λ x r q. record { below = q.below; alone = q.alone; apart = q.apart })
            (λ r. record { below = mine.below; alone = mine.alone; apart = mine.apart });
      prevs =
          update-All (λ q. (x y : Ptr) → q ≡ push_cas x y → backed.prev x ≡ y) pc i (push_cas n hp)
            (λ x y e. ground (arith, e))
            (λ k ne x y e.
              let c = (cas_node m pc log at inv i k x y e).0 in
              let o : owned (pc k) ≡ x = ap owned e in
              ground (arith, inv.prevs k x y e, inv.unique k i, own, o, c, ne));
      linking =
          update-All
            (λ q.
              (x y : Ptr)
              → q ≡ push_link x y
              → (j : ℕ) × (j < length log) × (at j ≡ y) × (at (suc j) ≡ x))
            pc i (push_cas n hp) (λ x y e. ground (arith, e)) (λ k ne. inv.linking k);
      pushing =
          update-All (λ q. pushes q ≡ true) pc i (push_cas n hp) (ground (arith, real))
            (λ k ne. inv.pushing k);
      unique =
          update-Apart owned pc i (push_cas n hp) inv.unique
            (λ j r ne e. ne (inv.unique i j (λ z. real (sym own ∙ z)) (own ∙ e)));
    }

  -- The exchange of `detail`
  module _ (before : pc i ≡ push_cas n hp) (same : m.detail ≡ hp) where
    abbrev grown : Queue A
    grown = record m { detail = n }

    abbrev linking : ℕ → Pc A
    linking = update pc i (push_link n hp)

    abbrev more : List A
    more = log ++ (m.value n ∷ [])

    abbrev at' : ℕ → Ptr
    at' = update at (suc (length log)) n

    node : (n ≢ null) × Private m pc log at n
    node = cas_node m pc log at inv i i n hp before

    Link-publish : (j : ℕ) → j < length log → Link m pc log at j → Link grown linking more at' j
    Link-publish j h (inl e) = inl (ground (arith, e))
    Link-publish j h (inr (e, k, g)) = inr (ground (arith, e), k, ground (arith, g, before, ap pc))

    -- What holds of the numbers before and of the last holds of all.
    all_more :
        (P : ℕ → Type 0)
        → ((j : ℕ) → j < length log → P j)
        → P (length log)
        → (j : ℕ) → j < length more
        → P j
    all_more P f l j h = elim (Bool-cases (length log == j)) [
      | inl e ↦ subst P (ground (arith, e)) l
      | inr e ↦ f j (ground (arith, e, h, length-append log (m.value n ∷ [])))
    ]

    Private-publish : (x : Ptr) → n ≢ x → Private m pc log at x → Private grown linking more at' x
    Private-publish x ne q = record {
      below = q.below;
      alone = q.alone;
      apart = λ j h. ground (arith, q.apart j, ne, h, length-append log (m.value n ∷ []));
    }

    pub publish : Inv grown linking more at'
    publish =
        let size : length more ≡ suc (length log) =
          omega (arith, length-append log (m.value n ∷ [])) in
        let p = node.1 in
        record {
          first = ground (arith, inv.first);
          newest = rw size (ground arith);
          real = λ j h. ground (arith, inv.real j, node.0, h, size);
          below = λ j h. ground (arith, inv.below j, p.below, h, size);
          apart = λ j k h g e. ground (arith, inv.apart j k, p.apart j, p.apart k, h, g, e, size);
          backs =
              all_more (λ j. m.prev (at' (suc j)) ≡ at' j) (λ j h. ground (arith, inv.backs j h))
                (ground (arith, inv.prevs i n hp before, same, inv.newest));
          values =
              all_more (λ j. get_elem? more j ≡ some (m.value (at' (suc j))))
                (λ j h. ground (arith, inv.values j h, get_elem?-append log (m.value n ∷ []) j h))
                (ground (arith, get_elem?-append_last log (m.value n)));
          links =
              all_more (Link grown linking more at') (λ j h. Link-publish j h (inv.links j h))
                (inr (ground (arith, inv.open_end), i, ground (arith, same, inv.newest)));
          open_end = ground (arith, size, p.alone);
          private =
              update-All (λ q. owned q ≢ null → Private grown linking more at' (owned q)) pc i
                (push_link n hp) (λ r. absurd (r refl))
                (λ k ne r.
                  Private-publish (owned (pc k))
                    (λ e. ne (
                      inv.unique i k (λ z. node.0 (sym (ap owned before) ∙ z))
                        (ap owned before ∙ e)))
                    (inv.private k r));
          prevs =
              update-All (λ q. (x y : Ptr) → q ≡ push_cas x y → m.prev x ≡ y) pc i (push_link n hp)
                (λ x y e. ground (arith, e)) (λ k ne. inv.prevs k);
          linking =
              update-All
                (λ q.
                  (x y : Ptr)
                  → q ≡ push_link x y
                  → (j : ℕ) × (j < length more) × (at' j ≡ y) × (at' (suc j) ≡ x))
                pc i (push_link n hp)
                (λ x y e. (
                  length log,
                  omega (arith, size),
                  ground (arith, same, inv.newest, e),
                  ground (arith, e),
                ))
                (λ k ne x y e.
                  let (j, h, b, c) = inv.linking k x y e in
                  (j, omega (arith, size, h), ground (arith, b), ground (arith, c)));
          pushing =
              update-All (λ q. pushes q ≡ true) pc i (push_link n hp) refl (λ k ne. inv.pushing k);
          unique = update-Apart owned pc i (push_link n hp) inv.unique (λ j r ne. absurd (r refl));
        }
