-- ===== src/Remoteq/Commands/Pops.antt =====
-- What a `pop` makes of the bytes that have arrived.
use fossilizid.Base.{
  ℕ, suc, ◌+◌, ◌^◌, ◌≤◌, ◌<◌, ◌≡◌, inl, inr, refl, sym, ap, ◌∙◌, Bool, true, false, Option, none,
  some, List, [], ◌∷◌, ◌++◌, length, length-append, append-nil, append_assoc, arith,
}
use fossilizid.Remoteq.{Channel, breaks, receive, parse, drop}
use fossilizid.Remoteq.Receive.{open_socket, take, take-drop, length-drop, receive-ReadsAll}
use fossilizid.Remoteq.Commands.{pop, arrived, Holds}
use fossilizid.Remoteq.Commands.Parse.{
  filled, filled-drop, filled-length, drop-drop, drop-length, parse_last, parse_more,
}

module _ {A : Type 0} where
  pub nothing_in : (l : List A) → length l ≡ 0 → l ≡ []
  nothing_in [] e = refl
  nothing_in (x ∷ l) e = absurd (omega arith)

  -- The bytes that `pop` has before it when the first `n` on the way have arrived.
  abbrev pub before : Channel A → ℕ → List A → List A
  before c n wire = drop c.rindex c.buf ++ take n wire

  pub Holds-before :
      (c : Channel A) (n : ℕ) (wire bs : List A)
      → Holds c wire bs
      → Holds c (take n wire) (before c n wire)
  Holds-before c n wire bs i = record { room = i.room; place = i.place; all = refl }

  pub before-all :
      (c : Channel A) (n : ℕ) (wire bs : List A)
      → Holds c wire bs
      → before c n wire ++ drop n wire ≡ bs
  before-all c n wire bs i =
      append_assoc (drop c.rindex c.buf) (take n wire) (drop n wire)
      ∙ ap (λ l. drop c.rindex c.buf ++ l) (take-drop n wire)
      ∙ i.all

  pub few_arrived :
      (c : Channel A) (n k : ℕ) (wire : List A)
      → length c.buf + length wire + k < 2 ^ 30
      → length c.buf + length (take n wire) < 2 ^ 30
  few_arrived c n k wire s =
      omega (arith, s, ap length (take-drop n wire), length-append (take n wire) (drop n wire))

  pub before-arrived :
      (c : Channel A) (n : ℕ) (wire bs : List A)
      → Holds c wire bs
      → arrived (length (drop c.rindex c.buf)) n (length bs) ≡ length (before c n wire)
  before-arrived c n wire bs i = ground (
    arith,
    length-append (drop c.rindex c.buf) wire,
    length-append (drop c.rindex c.buf) (take n wire),
    length-append (take n wire) (drop n wire),
    ap length (take-drop n wire),
    length-drop n wire,
    ap length (i.all),
  )

  pub Holds-rest : (c : Channel A) (u q bs : List A) → Holds c [] q → q ++ u ≡ bs → Holds c u bs
  Holds-rest c u q bs i e = record {
    room = i.room;
    place = i.place;
    all = ap (λ l. l ++ u) (sym (append-nil (drop c.rindex c.buf)) ∙ i.all) ∙ e;
  }

  pub Holds-unread :
      (c : Channel A) (q : List A) → Holds c [] q → length (drop c.rindex c.buf) ≡ length q
  Holds-unread c q i = ap length (sym (append-nil (drop c.rindex c.buf)) ∙ i.all)

  -- Where nothing is parsed, all that has arrived is in the buffer.
  Holds-filled :
      (c : Channel A) (t p : List A) (b : ℕ)
      → Holds c t p
      → length (c.buf ++ t) < b
      → Holds (filled c t b) [] p
  Holds-filled c t p b i l = record {
    room = l;
    place = ground (arith, i.place, filled-length c t p i, length-append c.buf t);
    all = append-nil (drop c.rindex (c.buf ++ t)) ∙ filled-drop c t p i;
  }

module _ {A Cmd : Type 0} (fn : List A → ℕ → Option (Cmd × ℕ)) where
  pop_breaks :
      (n : ℕ) (c c' : Channel A) (wire : List A)
      → receive open_socket (suc (length (take n wire))) c (take n wire) ≡ breaks c' []
      → pop fn n c wire
        ≡ some ((parse fn true c').0, (parse fn true c').1, (parse fn true c').2, drop n wire)
  unfolding pop
  pop_breaks n c c' wire e = ground (arith, e)

  -- What `pop` comes to: its result, what it makes, and what of the bytes that have arrived is then
  -- before the channel.
  abbrev pub Pops : ℕ → Channel A → List A → Bool → Option Cmd → List A → Type 0
  Pops n c wire b o q =
      (d : Channel A) × (pop fn n c wire ≡ some (b, o, d, drop n wire))
      × Holds d [] q
      × (length d.buf ≤ length c.buf + length (take n wire))

  Pops-of :
      (n m : ℕ) (c : Channel A) (wire : List A) (b : Bool) (o : Option Cmd) (d : Channel A)
      (q : List A)
      → receive open_socket (suc (length (take n wire))) c (take n wire)
        ≡ breaks (filled c (take n wire) m) []
      → parse fn true (filled c (take n wire) m) ≡ (b, o, d)
      → Holds d [] q
      → length d.buf ≤ length c.buf + length (take n wire)
      → Pops n c wire b o q
  Pops-of n m c wire b o d q e f i l = (
    d,
    pop_breaks n c (filled c (take n wire) m) wire e
        ∙ ap (λ r. some (r.0, r.1, r.2, drop n wire)) f,
    i,
    l,
  )

  -- Where nothing can be parsed, nothing is made, and all that has arrived is kept.
  pub pop_nothing :
      (n : ℕ) (c : Channel A) (wire p : List A)
      → Holds c (take n wire) p
      → length c.buf + length (take n wire) < 2 ^ 30
      → ((b : ℕ)
          → parse fn true (filled c (take n wire) b) ≡ (false, none, filled c (take n wire) b))
      → Pops n c wire false none p
  pop_nothing n c wire p i s f =
      let t = take n wire in
      let (m, e, l) = receive-ReadsAll (suc (length t)) c t i.room (omega arith) s in
      Pops-of n m c wire false none (filled c t m) p e (f m) (Holds-filled c t p m i l)
        (omega (arith, length-append c.buf t))

module _ {A Cmd : Type 0} (encode : Cmd → List A) (fn : List A → ℕ → Option (Cmd × ℕ))
    (some_bytes : (d : Cmd) → 0 < length (encode d))
    (reads : (d : Cmd) (rest : List A) (m : ℕ)
      → length (encode d ++ rest) ≤ m
      → fn (encode d ++ rest) m ≡ some (d, length (encode d))) where
  -- The first command is there, and the bytes `q` behind it.
  pub pop_command :
      (n : ℕ) (c : Channel A) (wire : List A) (d : Cmd) (q : List A)
      → Holds c (take n wire) (encode d ++ q)
      → length c.buf + length (take n wire) < 2 ^ 30
      → Pops fn n c wire true (some d) q
  pop_command n c wire d [] i s =
      let t = take n wire in
      let (m, e, l) = receive-ReadsAll (suc (length t)) c t i.room (omega arith) s in
      Pops-of fn n m c wire true (some d) (record c { buf = []; rindex = 0; buflen = m }) [] e
        (parse_last encode fn some_bytes reads c t m d i)
        (record { room = omega (arith, l); place = inr (refl, refl); all = refl }) (omega arith)
  pop_command n c wire d (x ∷ q) i s =
      let t = take n wire in
      let (m, e, l) = receive-ReadsAll (suc (length t)) c t i.room (omega arith) s in
      Pops-of fn n m c wire true (some d)
        (record (filled c t m) { rindex = c.rindex + length (encode d) }) (x ∷ q) e
        (parse_more encode fn some_bytes reads c t m d (x ∷ q) i (omega arith))
        (record {
          room = l;
          place = inl (omega (arith, filled-length c t _ i, length-append (encode d) (x ∷ q)));
          all =
              append-nil (drop (c.rindex + length (encode d)) (c.buf ++ t))
              ∙ drop-drop c.rindex (length (encode d)) (c.buf ++ t)
              ∙ ap (drop (length (encode d))) (filled-drop c t _ i)
              ∙ drop-length (encode d) (x ∷ q);
        })
        (omega (arith, length-append c.buf t))
