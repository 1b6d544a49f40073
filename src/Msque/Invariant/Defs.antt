-- ===== src/Msque/Invariant/Defs.antt =====
use fossilizid.Base.{ℕ, ◌<◌, ◌≡◌, ◌≢◌, List, Ptr, null, Apart}
use fossilizid.Msque.{
  Heap, Mem, Pc, push_end, push_next, push_help, push_check, push_link, push_swing, pop_next,
  pop_check, pop_cas, pop_read,
}
use fossilizid.Msque.Chain.{Leads, Holds, IsEnd}

module _ {A : Type 0} where
  abbrev pub Linked : Heap A → Ptr → Ptr → Type 0
  Linked h last a = (k : ℕ) × Leads h.next h.brk last k a

  -- A node that its thread has not linked yet.
  pub record Own (h : Heap A) (last : Ptr) (v : A) (n : Ptr) : Type 0 where
    pub real : n ≢ null
    pub below : n < h.brk
    pub alone : h.next n ≡ null
    pub apart : n ≢ last
    pub holds : h.value n ≡ v

  -- A node and the successor that its thread read.
  pub record Seen (h : Heap A) (last : Ptr) (hp0 hp1 : Ptr) : Type 0 where
    pub linked : Linked h last hp0
    pub real : hp1 ≢ null
    pub succ : h.next hp0 ≡ hp1

  abbrev pub Local : Heap A → Ptr → Pc A → Type 0
  Local h last (push_end v n) = Own h last v n
  Local h last (push_next v n hp) = Own h last v n × Linked h last hp
  Local h last (push_help v n hp nx) = Own h last v n × Linked h last hp × Linked h last nx
  Local h last (push_check v n hp) = Own h last v n × Linked h last hp
  Local h last (push_link v n hp) = Own h last v n × Linked h last hp
  Local h last (push_swing n hp) = Linked h last n
  Local h last (pop_next hp0) = Linked h last hp0
  Local h last (pop_check hp0 hp1) = Seen h last hp0 hp1
  Local h last (pop_cas hp0 hp1) = Seen h last hp0 hp1
  Local h last (pop_read hp0 hp1) = (hp1 ≢ null) × (hp1 < h.brk)
  Local h last p = Unit {0}

  -- The node that a `pop` read from `_begin` leads to the present one.
  abbrev pub Old : Heap A → Ptr → Pc A → Type 0
  Old h b (pop_next a) = (k : ℕ) × Leads h.next h.brk b k a
  Old h b p = Unit {0}

  -- The node that a thread has not linked yet, or null.
  abbrev pub owned : Pc A → Ptr
  owned (push_end v n) = n
  owned (push_next v n hp) = n
  owned (push_help v n hp nx) = n
  owned (push_check v n hp) = n
  owned (push_link v n hp) = n
  owned p = null

  -- The list from `_begin` holds `q`; `last` is its last node.
  pub record Inv (last : Ptr) (m : Mem A) (pc : ℕ → Pc A) (q : List A) : Type 0 where
    pub bottom : IsEnd m.next m.brk last
    pub holds : Holds m.next m.value m.brk last m.begin q
    pub tail : Linked m.heap last m.end
    pub locals : (i : ℕ) → Local m.heap last (pc i)
    pub old : (i : ℕ) → Old m.heap m.begin (pc i)
    pub unique : Apart owned pc
