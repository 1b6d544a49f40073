-- ===== src/Remoteq/Commands/Parse.antt =====
-- What `pop` parses of the bytes that it has read.
use Prim.Native.Nat.add
use fossilizid.Base.{
  ℕ, zero, suc, ◌+◌, ◌≤◌, ◌<◌, ◌≡◌, refl, sym, ap, ◌∙◌, true, false, Option, none, some, List, [],
  ◌∷◌, ◌++◌, length, length-append, arith,
}
use fossilizid.Remoteq.{Channel, parse, drop}
use fossilizid.Remoteq.Receive.{length-drop}
use fossilizid.Remoteq.Commands.{Holds}

module _ {A : Type 0} where
  drop-append : (n : ℕ) (l m : List A) → n ≤ length l → drop n (l ++ m) ≡ drop n l ++ m
  drop-append zero l m h = refl
  drop-append (suc n) [] m h = absurd (omega arith)
  drop-append (suc n) (x ∷ l) m h = drop-append n l m (omega arith)

  drop_nil : (k : ℕ) → drop {A = A} k [] ≡ []
  drop_nil zero = refl
  drop_nil (suc k) = refl

  pub drop-drop : (n k : ℕ) (l : List A) → drop (n + k) l ≡ drop k (drop n l)
  drop-drop zero k l = rw (add.zero k) refl
  drop-drop (suc n) k [] = rw (add.suc n k) (sym (drop_nil k))
  drop-drop (suc n) k (x ∷ l) = rw (add.suc n k) (drop-drop n k l)

  pub drop-length : (l m : List A) → drop (length l) (l ++ m) ≡ m
  drop-length [] m = refl
  drop-length (x ∷ l) m = drop-length l m

  -- Of two ways to part a list, the longer front begins with the shorter one.
  pub split :
      (p u e r : List A)
      → p ++ u ≡ e ++ r
      → length e ≤ length p
      → (q : List A) × (p ≡ e ++ q) × (q ++ u ≡ r)
  split p u [] r h l = (p, refl, h)
  split [] u (y ∷ e) r h l = absurd (omega arith)
  split (x ∷ p) u (y ∷ e) r h l =
      let (q, f, g) = split p u e r (ap (drop 1) h) (omega arith) in
      let same : x ≡ y = ground (arith, h) in (q, ground (arith, f, same), g)

  -- A buffer with all that was on the way behind what it held.
  abbrev pub filled : Channel A → List A → ℕ → Channel A
  filled c wire b = record c { buf = c.buf ++ wire; buflen = b }

  pub filled-drop :
      (c : Channel A) (wire bs : List A) → Holds c wire bs → drop c.rindex (c.buf ++ wire) ≡ bs
  filled-drop c wire bs i = drop-append c.rindex c.buf wire (ground (arith, i.place)) ∙ i.all

  pub filled-length :
      (c : Channel A) (wire bs : List A)
      → Holds c wire bs
      → length (c.buf ++ wire) ≡ c.rindex + length bs
  filled-length c wire bs i = omega (
    arith,
    length-append c.buf wire,
    ap length (filled-drop c wire bs i),
    length-drop c.rindex (c.buf ++ wire),
    rindex_le,
  )
    where
      rindex_le : c.rindex ≤ length c.buf
      rindex_le = ground (arith, i.place)

module _ {A Cmd : Type 0} (fn : List A → ℕ → Option (Cmd × ℕ)) where
  -- Nothing to parse
  pub parse-none :
      (c : Channel A) (wire : List A) (b : ℕ)
      → Holds c wire []
      → parse fn true (filled c wire b) ≡ (false, none, filled c wire b)
  unfolding parse
  parse-none c wire b i = ground (arith, filled-length c wire [] i)

module _ {A Cmd : Type 0} (encode : Cmd → List A) (fn : List A → ℕ → Option (Cmd × ℕ))
    (waits : (d : Cmd) (p z : List A) (m : ℕ)
      → p ++ z ≡ encode d
      → 0 < length p
      → 0 < length z
      → length p ≤ m
      → fn p m ≡ none) where
  -- A command of which some bytes are there, or none
  pub parse_part :
      (c : Channel A) (wire p z : List A) (b : ℕ) (d : Cmd)
      → Holds c wire p
      → p ++ z ≡ encode d
      → 0 < length z
      → parse fn true (filled c wire b) ≡ (false, none, filled c wire b)
  unfolding parse
  parse_part c wire [] z b d i e g = parse-none fn c wire b i
  parse_part c wire (x ∷ p) z b d i e g =
      let none_read : fn (drop c.rindex (c.buf ++ wire)) (length (c.buf ++ wire)) ≡ none =
        rw (filled-drop c wire (x ∷ p) i) (
          waits d (x ∷ p) z (length (c.buf ++ wire)) e (omega arith) g
            (omega (arith, filled-length c wire (x ∷ p) i))) in
      ground (arith, none_read, filled-length c wire (x ∷ p) i)

module _ {A Cmd : Type 0} (encode : Cmd → List A) (fn : List A → ℕ → Option (Cmd × ℕ))
    (some_bytes : (d : Cmd) → 0 < length (encode d))
    (reads : (d : Cmd) (rest : List A) (m : ℕ)
      → length (encode d ++ rest) ≤ m
      → fn (encode d ++ rest) m ≡ some (d, length (encode d))) where
  read :
      (c : Channel A) (wire : List A) (d : Cmd) (rest : List A)
      → Holds c wire (encode d ++ rest)
      → fn (drop c.rindex (c.buf ++ wire)) (length (c.buf ++ wire)) ≡ some (d, length (encode d))
  read c wire d rest i = rw (filled-drop c wire (encode d ++ rest) i) (
      reads d rest (length (c.buf ++ wire))
        (omega (arith, filled-length c wire (encode d ++ rest) i)))

  -- The last command
  pub parse_last :
      (c : Channel A) (wire : List A) (b : ℕ) (d : Cmd)
      → Holds c wire (encode d ++ [])
      → parse fn true (filled c wire b)
        ≡ (true, some d, record c { buf = []; rindex = 0; buflen = b })
  unfolding parse
  parse_last c wire b d i = ground (
    arith,
    read c wire d [] i,
    filled-length c wire _ i,
    length-append (encode d) [],
    some_bytes d,
  )

  -- A command with others behind it
  pub parse_more :
      (c : Channel A) (wire : List A) (b : ℕ) (d : Cmd) (rest : List A)
      → Holds c wire (encode d ++ rest)
      → 0 < length rest
      → parse fn true (filled c wire b)
        ≡ (true, some d, record (filled c wire b) { rindex = c.rindex + length (encode d) })
  unfolding parse
  parse_more c wire b d rest i g = ground (
    arith,
    read c wire d rest i,
    filled-length c wire _ i,
    length-append (encode d) rest,
    some_bytes d,
    g,
  )
