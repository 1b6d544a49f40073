-- ===== src/Juggle/Caller.antt =====
-- juggle/service/caller.cpp: calls of a method on the other side, with the service and the
-- semaphores that they use. A callback is the address of the semaphore that it posts to.
use fossilizid.Base.{
  ℕ, ◌-◌, ◌^◌, ◌≡◌, ◌≢◌, refl, sym, ap, ◌∙◌, Bool, true, false, Option, none, some, List, [], ◌∷◌,
  arith, Eq, lookup, Ptr, update,
}
use fossilizid.Juggle.{
  Service, Command, Call, call_method, call_back, register_rpc_callback, wake_up_context, dispatch,
  wake,
}
use fossilizid.Juggle.Dispatch.{dispatch-found, lookup-register}
use fossilizid.Juggle.Sync.{
  Semaphore, new_semaphore, post, wait_begin, wait_end, wait_end-post, wait_begin-empty,
}

-- The service with the semaphores by address; `sent` has what was pushed to channels, the newest
-- first.
pub record Peer (Name Handler Payload : Type 0) : Type 0 where
  pub service : Service Name Handler Ptr Ptr
  pub semaphores : Ptr → Semaphore (Command Name Payload) Ptr
  pub sent : List (ℕ × Command Name Payload)

-- The timeout -1 as `uint64_t`
abbrev pub forever : ℕ
forever = 2 ^ 64 - 1

module _ {Name Handler Payload : Type 0} ⦃e : Eq Name⦄ (call_text : Name) where
  -- `call_module_method_async` on the channel `ch`, with the number that `UUID` returns.
  pub call_async :
      ℕ → Name → Name → Payload → Ptr → Peer Name Handler Payload → Peer Name Handler Payload
  call_async ch method suuid value callback p = record p {
    service = register_rpc_callback suuid callback p.service;
    sent =
        (ch, record { rpcevent = call_text; method = method; suuid = suuid; payload = value })
        ∷ p.sent;
  }

  -- `call_module_method_sync` up to the call of `scheduler` in `wait`, with whether it is made: `a`
  -- is the address of the new semaphore, `ct` the current context.
  pub call_sync :
      ℕ
      → Name
      → Name
      → Payload
      → Ptr
      → Ptr
      → Peer Name Handler Payload
      → Bool × Peer Name Handler Payload
  call_sync ch method suuid value a ct p =
      let called = call_async ch method suuid value a (record p {
        semaphores = update p.semaphores a (new_semaphore (p.semaphores a).timeout);
      }) in
      let waiting = wait_begin forever ct (called.semaphores a) in
      (waiting.0, record called { semaphores = update called.semaphores a waiting.1 })

module _ {Name Handler Payload : Type 0} where
  -- What a callback does: `post`.
  pub reply : Ptr → Command Name Payload → Peer Name Handler Payload → Peer Name Handler Payload
  reply a cmd p =
      let posted = post cmd (p.semaphores a) in
      record p {
        semaphores = update p.semaphores a posted.1;
        service = elim (posted.0) [ none ↦ p.service | some ct ↦ wake_up_context ct p.service ];
      }

  -- The callbacks among the calls of a round.
  pub replies_of :
      List (Call Handler Ptr Name Payload) → Peer Name Handler Payload → Peer Name Handler Payload
  replies_of [] p = p
  replies_of (call_method h ch cmd ∷ cs) p = replies_of cs p
  replies_of (call_back a cmd ∷ cs) p = replies_of cs (reply a cmd p)

update_self : {A : Type 0} (f : ℕ → A) (a : ℕ) (v : A) → update f a v a ≡ v
update_self f a v = ground arith

-- The semaphore of a call that waits.
abbrev waiting : {Obj : Type 0} → Ptr → Semaphore Obj Ptr
waiting ct = (wait_begin forever ct (new_semaphore 0)).1

module _ {Name Handler : Type 0} where
  wake-woken :
      (ct : Ptr) (o : Option Ptr) (s : Service Name Handler Ptr Ptr)
      → o ≡ some ct
      → wake (elim o [ none ↦ s | some c ↦ wake_up_context c s ]) ≡ (some ct, s)
  unfolding wake wake_up_context
  wake-woken ct none s h = cc
  wake-woken ct (some c) s h = ground (arith, h)

module _ {Name Handler Payload : Type 0} ⦃e : Eq Name⦄ where
  call_sync-waits :
      (call_text : Name) (ch : ℕ) (method suuid : Name) (value : Payload) (a ct : Ptr)
      (p : Peer Name Handler Payload)
      → let called = call_sync call_text ch method suuid value a ct p in
        (called.0 ≡ true)
        × (called.1.semaphores a ≡ waiting ct)
        × (called.1.service ≡ register_rpc_callback suuid a p.service)
  unfolding call_sync call_async
  call_sync-waits call_text ch method suuid value a ct p =
      let fresh : Semaphore (Command Name Payload) Ptr = new_semaphore (p.semaphores a).timeout in
      let e0 = update_self p.semaphores a fresh in
      (
        ap (λ x. (wait_begin forever ct x).0) e0
            ∙ (wait_end-post forever ct
                (record { rpcevent = call_text; method = method; suuid = suuid; payload = value })
                fresh refl).0,
        update_self (update p.semaphores a fresh) a
              (wait_begin forever ct (update p.semaphores a fresh a)).1
            ∙ ap (λ x. (wait_begin forever ct x).1) e0
            ∙ wait_begin-empty forever ct fresh refl
            ∙ sym (wait_begin-empty {Obj = Command Name Payload} forever ct (new_semaphore 0) refl),
        refl,
      )

  reply-wakes :
      (a ct : Ptr) (cmd : Command Name Payload) (p : Peer Name Handler Payload)
      → p.semaphores a ≡ waiting ct
      → let after = reply a cmd p in
        (wake after.service ≡ (some ct, p.service))
        × (wait_end (after.semaphores a)
            ≡ some (cmd, record { signal = []; timeout = forever; wait_ct = some ct }))
  unfolding reply
  reply-wakes a ct cmd p h =
      let fresh : Semaphore (Command Name Payload) Ptr = new_semaphore 0 in
      let l = wait_end-post forever ct cmd fresh refl in
      let sem = p.semaphores a in
      (
        wake-woken ct (post cmd sem).0 p.service (ap (λ x. (post cmd x).0) h ∙ l.1),
        ap wait_end (update_self p.semaphores a (post cmd sem).1 ∙ ap (λ x. (post cmd x).1) h)
            ∙ l.2,
      )

module _ {Name Handler Payload : Type 0} where
  -- None of these calls is the callback of the semaphore `a`.
  abbrev pub Spares : Ptr → List (Call Handler Ptr Name Payload) → Type 0
  Spares a [] = Unit {0}
  Spares a (call_method h ch cmd ∷ cs) = Spares a cs
  Spares a (call_back b cmd ∷ cs) = (b ≢ a) × Spares a cs

  replies_of-Spares :
      (a : Ptr) (cs : List (Call Handler Ptr Name Payload)) (p : Peer Name Handler Payload)
      → Spares a cs
      → ((replies_of cs p).semaphores a ≡ p.semaphores a)
        × ((replies_of cs p).service.method_callback_map ≡ p.service.method_callback_map)
  unfolding replies_of reply wake_up_context
  replies_of-Spares a [] p h = (refl, refl)
  replies_of-Spares a (call_method f ch cmd ∷ cs) p h = replies_of-Spares a cs p h
  replies_of-Spares a (call_back b cmd ∷ cs) p h =
      let (s, m) = replies_of-Spares a cs (reply b cmd p) h.1 in
      (s ∙ ground (arith, h.0), m ∙ ground arith)

module _ {Name Handler Payload : Type 0} ⦃e : Eq Name⦄ (call_text reply_text : Name) where
  -- A call waits, and whatever callbacks of other semaphores run meanwhile, its semaphore stays as
  -- it is. When a reply with its number is then dispatched, from any channel and with any value,
  -- the context that called is woken ahead of all that were woken before, so that it is the one
  -- switched to if nothing else is woken before the switch; and the call then returns that reply.
  -- So it is where the number is new and the reply is no call by its text.
  pub call_sync-returns :
      (ch from : ℕ) (method suuid : Name) (value : Payload) (a ct : Ptr)
      (p : Peer Name Handler Payload) (earlier : List (Call Handler Ptr Name Payload))
      (cmd : Command Name Payload)
      → lookup suuid p.service.method_callback_map ≡ none
      → Spares a earlier
      → e.beq cmd.rpcevent call_text ≡ false
      → e.beq cmd.rpcevent reply_text ≡ true
      → e.beq suuid cmd.suuid ≡ true
      → let called = call_sync call_text ch method suuid value a ct p in
        let later = replies_of earlier called.1 in
        let after =
          replies_of (dispatch call_text reply_text later.service from (some cmd)) later in
        (called.0 ≡ true)
        × (later.semaphores a ≡ called.1.semaphores a)
        × (wake after.service ≡ (some ct, later.service))
        × (wait_end (after.semaphores a)
            ≡ some (cmd, record { signal = []; timeout = forever; wait_ct = some ct }))
  unfolding replies_of
  call_sync-returns ch from method suuid value a ct p earlier cmd new spares x y z =
      let (b, s, v) = call_sync-waits call_text ch method suuid value a ct p in
      let called = (call_sync call_text ch method suuid value a ct p).1 in
      let (kept, map) = replies_of-Spares a earlier called spares in
      let later = replies_of earlier called in
      let found : lookup cmd.suuid later.service.method_callback_map ≡ some a =
        ap (lookup cmd.suuid) (map ∙ ap (λ t. t.method_callback_map) v)
        ∙ lookup-register p.service suuid cmd.suuid a new z in
      let (w, r) = reply-wakes a ct cmd later (kept ∙ s) in
      rw (dispatch-found call_text reply_text later.service a from cmd x y found) (b, kept, w, r)
