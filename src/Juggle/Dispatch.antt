-- ===== src/Juggle/Dispatch.antt =====
-- What a round calls.
use fossilizid.Base.{
  or_else, lookup-insert_new, ℕ, ◌≡◌, true, false, Option, none, some, List, [], ◌∷◌, Eq, lookup,
  if◌then◌else◌, arith,
}
use fossilizid.Juggle.{
  Service, Command, Call, call_method, call_back, register_module_method, register_rpc_callback,
  dispatch,
}

module _ {Name Handler Callback Ctx : Type 0} ⦃e : Eq Name⦄ where
  pub lookup-register :
      (s : Service Name Handler Callback Ctx) (n m : Name) (c : Callback)
      → lookup n s.method_callback_map ≡ none
      → e.beq n m ≡ true
      → lookup m (register_rpc_callback n c s).method_callback_map ≡ some c
  unfolding register_rpc_callback
  lookup-register s n m c new same =
      ground (arith, new, same, e.beq_iff n m, lookup-insert_new n m c s.method_callback_map)

module _ {Name Handler Callback Payload : Type 0} where
  -- The calls of a handler, if there is one.
  abbrev pub calls :
      ℕ → Command Name Payload → Option Handler → List (Call Handler Callback Name Payload)
  calls ch cmd none = []
  calls ch cmd (some h) = call_method h ch cmd ∷ []

module _ {Name Handler Callback Ctx Payload : Type 0} ⦃e : Eq Name⦄
    (call_text reply_text : Name) where
  -- A call of a method goes to the handler that was registered first under its name, once and with
  -- the channel it came from; where none is registered, nothing is called.
  pub dispatch-register :
      (s : Service Name Handler Callback Ctx) (n : Name) (h : Handler) (ch : ℕ)
      (cmd : Command Name Payload)
      → e.beq cmd.rpcevent call_text ≡ true
      → dispatch call_text reply_text (register_module_method n h s) ch (some cmd)
        ≡ calls ch cmd (
            if e.beq n cmd.method
            then or_else (lookup cmd.method s.method_map) (some h)
            else lookup cmd.method s.method_map)
  unfolding dispatch register_module_method
  dispatch-register s n h ch cmd y =
      ground (arith, y, lookup-insert_new n cmd.method h s.method_map)

  -- A reply goes to the callback that is registered under its number, once.
  pub dispatch-found :
      (s : Service Name Handler Callback Ctx) (c : Callback) (ch : ℕ) (cmd : Command Name Payload)
      → e.beq cmd.rpcevent call_text ≡ false
      → e.beq cmd.rpcevent reply_text ≡ true
      → lookup cmd.suuid s.method_callback_map ≡ some c
      → dispatch call_text reply_text s ch (some cmd) ≡ call_back c cmd ∷ []
  unfolding dispatch
  dispatch-found s c ch cmd y z f = ground (arith, y, z, f)
