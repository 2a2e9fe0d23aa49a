-- ===== src/Backends/Local/Handlers.antt =====
-- Calls that the aggregator sends to the handlers of a local tool source.
use toolexec.Base.{
  String, Bool, ◌≡◌, refl, ◌∙◌, true, false, Option, some, arith, eq_refl, eq_iff, is_empty,
  if◌then◌else◌,
}
use toolexec.Base.Dict.{lookup, lookup-insert, lookup-delete}
use toolexec.Value.{Fields}
use toolexec.Errors.{sentinel, backend_disabled, tool_not_in_backend}
use toolexec.Effects.{ok, err, Context, ◌>>=◌}
use toolexec.Run.Types.{LocalHandler}
use toolexec.Backends.{Registry, register, execute, format_tool_id}
use toolexec.Backends.Routing.{register-lookup}
use toolexec.Backends.Local.{
  ToolDef, LocalBackend, set_enabled, register_handler, unregister_handler, as_source,
}
use toolexec.Backends.Local

-- the definition under the name, with its handler
named_handler :
    {W : Type 0} (tool : String) (def : ToolDef W)
    → (if is_empty def.name then record def { name = tool } else def).handler ≡ def.handler
named_handler tool def = ground arith

module _ {W : Type 0} (b : LocalBackend W) (tool : String) (ctx : Context W) (args : Fields)
    (w : W) where
  found :
      (def : ToolDef W) (handler : LocalHandler W)
      → b.enabled ≡ true
      → def.handler ≡ some handler
      → Local.execute (register_handler tool def b) ctx tool args w ≡ handler ctx args w
  unfolding Local.execute register_handler
  found def handler on h = rw (on, lookup-insert, eq_refl) (rw (named_handler tool def, h) refl)

  missing :
      b.enabled ≡ true
      → Local.execute (unregister_handler tool b) ctx tool args w
        ≡ (err (sentinel tool_not_in_backend), w)
  unfolding Local.execute unregister_handler ◌>>=◌
  missing on = rw (on, lookup-delete, eq_refl) refl

taken : {A : Type 0} (c : Bool) (x y z : A) → c ≡ true → x ≡ z → (if c then x else y) ≡ z
taken c x y z h e = rw h e

-- The aggregator asks whether the source is enabled, and calls it.
routed :
    {W : Type 0} (parse : String → Option (String × String)) (r r' : Registry W)
    (name tool : String) (load : W → LocalBackend W) (ctx : Context W) (args : Fields) (x : W)
    → register r (some (as_source name load)) ≡ ok r'
    → parse (format_tool_id name tool) ≡ some (name, tool)
    → execute parse r' ctx (format_tool_id name tool) args x ≡ (
        if (load x).enabled
        then Local.execute (load x) ctx tool args x
        else (err (sentinel backend_disabled), x))
unfolding execute as_source ◌>>=◌
routed parse r r' name tool load ctx args x reg p =
    let (there, named) = register-lookup r r' (as_source name load) name reg in
    let registered : lookup r'.backends name ≡ some (as_source name load) =
      rw (eq_refl name) at there in
    let nonempty : is_empty name ≡ false = ground (arith, eq_iff name "") in
    rw (p, nonempty, registered) refl

-- A local tool source that is registered under its name is called by the aggregator: with the id of
-- its name and a tool, where ids parse as they are made, the handler that was registered last under
-- the tool runs while the source is enabled; after it has been unregistered the call fails with
-- ErrToolNotFound, and while the source is disabled with ErrBackendDisabled, and neither does
-- anything else.
pub execute-handler :
    {W : Type 0} (parse : String → Option (String × String)) (r r' : Registry W)
    (name tool : String) (load : W → LocalBackend W) (b : LocalBackend W) (def : ToolDef W)
    (handler : LocalHandler W) (ctx : Context W) (args : Fields) (u v w : W)
    → register r (some (as_source name load)) ≡ ok r'
    → parse (format_tool_id name tool) ≡ some (name, tool)
    → b.enabled ≡ true
    → def.handler ≡ some handler
    → load u ≡ register_handler tool def b
    → load v ≡ unregister_handler tool b
    → load w ≡ set_enabled false b
    → (execute parse r' ctx (format_tool_id name tool) args u ≡ handler ctx args u)
      × (execute parse r' ctx (format_tool_id name tool) args v
          ≡ (err (sentinel tool_not_in_backend), v))
      × (execute parse r' ctx (format_tool_id name tool) args w
          ≡ (err (sentinel backend_disabled), w))
unfolding register_handler unregister_handler set_enabled
execute-handler parse r r' name tool load b def handler ctx args u v w reg p on h lu lv lw = (
  routed parse r r' name tool load ctx args u reg p
      ∙ rw lu (taken b.enabled _ _ _ on (found b tool ctx args u def handler on h)),
  routed parse r r' name tool load ctx args v reg p
      ∙ rw lv (taken b.enabled _ _ _ on (missing b tool ctx args v on)),
  routed parse r r' name tool load ctx args w reg p ∙ rw lw refl,
)
