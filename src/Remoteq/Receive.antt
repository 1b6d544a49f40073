-- ===== src/Remoteq/Receive.antt =====
-- What the loop reads, and what the parser is given.
use fossilizid.Base.{
  ℕ, zero, suc, ◌+◌, ◌-◌, ◌*◌, ◌^◌, ◌≤◌, ◌<◌, ◌≡◌, refl, sym, ap, ◌∙◌, Bool, true, some, List, [],
  ◌∷◌, ◌++◌, length, length-append, append-nil, append_assoc, arith,
}
use native.Mathlib.Decide.{dec_lt}
use fossilizid.Remoteq.{Channel, Received, bytes, error, breaks, Loop, receive, parse, drop}

module _ {A : Type 0} where
  abbrev pub take : ℕ → List A → List A
  take zero l = []
  take (suc n) [] = []
  take (suc n) (x ∷ l) = x ∷ take n l

  -- A socket with these bytes to read, that stays open: `recv` reads as many as there is room for.
  abbrev pub open_socket : ℕ → List A → Received A × List A
  open_socket room [] = (error true, [])
  open_socket room (x ∷ l) = (bytes (take room (x ∷ l)), drop room (x ∷ l))

  pub take-drop : (n : ℕ) (l : List A) → take n l ++ drop n l ≡ l
  take-drop zero l = refl
  take-drop (suc n) [] = refl
  take-drop (suc n) (x ∷ l) = ap (x ∷◌) (take-drop n l)

  length-take : (n : ℕ) (l : List A) → n ≤ length l → length (take n l) ≡ n
  length-take zero l h = refl
  length-take (suc n) [] h = absurd (omega arith)
  length-take (suc n) (x ∷ l) h = ap suc (length-take n l (omega arith))

  take_all : (n : ℕ) (l : List A) → length l ≤ n → (take n l ≡ l) × (drop n l ≡ [])
  take_all zero [] h = (refl, refl)
  take_all zero (x ∷ l) h = absurd (omega arith)
  take_all (suc n) [] h = (refl, refl)
  take_all (suc n) (x ∷ l) h = ground (arith, take_all n l (omega arith))

  pub length-drop : (n : ℕ) (l : List A) → length (drop n l) ≡ length l - n
  length-drop zero l = omega arith
  length-drop (suc n) [] = omega arith
  length-drop (suc n) (x ∷ l) = omega (arith, length-drop n l)

  -- What the loop comes to: `l` is read behind what the buffer held, and there is room left.
  abbrev pub ReadsAll : Channel A → List A → Loop A (List A) → Type 0
  ReadsAll c l r =
      (b : ℕ) × (r ≡ breaks (record c { buf = c.buf ++ l; buflen = b }) [])
      × (length (c.buf ++ l) < b)

  turn_full :
      (n : ℕ) (c : Channel A) (x : A) (l : List A) (r : ℕ)
      → c.buflen - length c.buf ≡ suc r
      → r ≤ length l
      → c.buflen < 2 ^ 30
      → receive open_socket (suc n) c (x ∷ l)
        ≡ receive open_socket n
            (record c { buf = c.buf ++ (x ∷ take r l); buflen = c.buflen * 2 })
            (drop r l)
  unfolding receive
  turn_full n c x l r e h b =
      ground
        (arith, e, b, ap (λ m. take m (x ∷ l)) e, ap (λ m. drop m (x ∷ l)) e, length-take r l h)

  turn_short :
      (n : ℕ) (c : Channel A) (x : A) (l : List A) (r : ℕ)
      → c.buflen - length c.buf ≡ suc r
      → length l < r
      → receive open_socket (suc n) c (x ∷ l) ≡ breaks (record c { buf = c.buf ++ (x ∷ l) }) []
  unfolding receive
  turn_short n c x l r e h = ground (
    arith,
    e,
    h,
    ap (λ m. take m (x ∷ l)) e,
    ap (λ m. drop m (x ∷ l)) e,
    take_all r l (omega arith),
  )

  -- From a buffer with room, where there are fewer than 2^30 bytes, the loop ends within one turn
  -- for each byte that waits and one more: it has read all of them, in order, behind what the
  -- buffer held, has room left, and pushed no event.
  pub receive-ReadsAll :
      (n : ℕ) (c : Channel A) (l : List A)
      → length c.buf < c.buflen
      → length l < n
      → length c.buf + length l < 2 ^ 30
      → ReadsAll c l (receive open_socket n c l)
  unfolding receive
  receive-ReadsAll zero c l h k m = absurd (omega arith)
  receive-ReadsAll (suc n) c [] h k m =
      (c.buflen, ground (arith, append-nil c.buf), ground (arith, append-nil c.buf, h))
  receive-ReadsAll (suc n) c (x ∷ l) h k m =
      let r = c.buflen - length c.buf - 1 in
      let e : c.buflen - length c.buf ≡ suc r = omega arith in
      elim (dec_lt (length l) r) [
        | yes y ↦ (c.buflen, turn_short n c x l r e y, omega (arith, length-append c.buf (x ∷ l)))
        | no y ↦
            let d = record c { buf = c.buf ++ (x ∷ take r l); buflen = c.buflen * 2 } in
            let le : r ≤ length l = omega arith in
            let both : d.buf ++ drop r l ≡ c.buf ++ (x ∷ l) =
              append_assoc c.buf (x ∷ take r l) (drop r l)
              ∙ ap (λ m. c.buf ++ (x ∷ m)) (take-drop r l) in
            let (b, f, g) =
              receive-ReadsAll n d (drop r l)
                (omega (arith, length-append c.buf (x ∷ take r l), length-take r l le))
                (omega (arith, length-drop r l))
                (omega (
                  arith,
                  length-append c.buf (x ∷ take r l),
                  length-take r l le,
                  length-drop r l,
                )) in
            (
              b,
              turn_full n c x l r e le (omega (arith, m))
                  ∙ f
                  ∙ ap (λ m. breaks (record c { buf = m; buflen = b }) []) both,
              rw (sym both) g,
            )
      ]

  -- Where bytes are left to parse, the length that `fn` is given exceeds the number of bytes that
  -- there are from `rindex` on by `rindex`.
  pub parse_overread :
      (posted : Bool) (c : Channel A) (taken : ℕ)
      → c.rindex < length c.buf
      → let given = drop c.rindex c.buf in
        ((parse {Cmd = List A × ℕ} (λ b m. some ((b, m), taken)) posted c).1
          ≡ some (given, length given + c.rindex))
  unfolding parse
  parse_overread posted c taken h = ground (arith, length-drop c.rindex c.buf, h)
