-- ===== src/Backends/Local.antt =====
-- backend/local/local.go: a tool source whose tools are handlers of the process. The sections under
-- the mutex are functions of the state. `details` holds what model.NormalizeTags of toolfoundation
-- makes of the tags of a definition.
pub mod Handlers
pub mod Keys
pub mod Entries
pub mod Listed
use toolexec.Base.{
  String, Bool, true, not, Option, none, some, List, [], ◌∷◌, is_empty, if◌then◌else◌,
}
use toolexec.Base.Dict.{Dict, lookup, insert, delete}
use toolexec.Model.{Tool}
use toolexec.Value.{Value, Fields}
use toolexec.Errors.{Err, sentinel, backend_disabled, tool_not_in_backend}
use toolexec.Effects.{Exec, Context, pure, fail}
use toolexec.Run.Types.{LocalHandler}
use toolexec.Backends.{ToolSource}

-- ToolDef; `details` are the fields that a listed tool only passes on. A nil handler is `none`.
pub record ToolDef (W : Type 0) : Type 0 where
  pub name : String
  pub details : Value
  pub handler : Option (LocalHandler W)

pub record LocalBackend (W : Type 0) : Type 0 where
  pub name : String
  pub enabled : Bool
  pub handlers : Dict (ToolDef W)

module _ {W : Type 0} where
  unfoldable pub new_local : String → LocalBackend W
  new_local name = record { name = name; enabled = true; handlers = [] }

  unfoldable pub set_enabled : Bool → LocalBackend W → LocalBackend W
  set_enabled enabled b = record b { enabled = enabled }

  unfoldable pub register_handler : String → ToolDef W → LocalBackend W → LocalBackend W
  register_handler name def b =
      let named = if is_empty def.name then record def { name = name } else def in
      record b { handlers = insert b.handlers name named }

  unfoldable pub unregister_handler : String → LocalBackend W → LocalBackend W
  unregister_handler name b = record b { handlers = delete b.handlers name }

  pub tools_of : String → Dict (ToolDef W) → List Tool
  tools_of namespace [] = []
  tools_of namespace ((k, def) ∷ rest) =
      record { name = def.name; namespace = namespace; details = def.details }
      ∷ tools_of namespace rest

  -- ListTools, in the order of the association list
  unfoldable pub list_tools : LocalBackend W → List Tool
  unfolding tools_of
  list_tools b = tools_of b.name b.handlers

  pub call_handler : Option (LocalHandler W) → Context W → Fields → Exec W Value
  call_handler none ctx args = fail (sentinel tool_not_in_backend)
  call_handler (some handler) ctx args = handler ctx args

  call_found : Option (ToolDef W) → Context W → Fields → Exec W Value
  unfolding call_handler
  call_found none ctx args = fail (sentinel tool_not_in_backend)
  call_found (some def) ctx args = call_handler def.handler ctx args

  unfoldable pub execute : LocalBackend W → Context W → String → Fields → Exec W Value
  unfolding call_found
  execute b ctx tool args =
      if not b.enabled
      then fail (sentinel backend_disabled)
      else call_found (lookup b.handlers tool) ctx args

  -- The source as the registry sees it, where its state stands in the world.
  unfoldable pub as_source : String → (W → LocalBackend W) → ToolSource W
  as_source name load = record {
    kind = "local";
    name = name;
    enabled = λ w. (load w).enabled;
    list_tools = λ ctx w. pure (list_tools (load w)) w;
    execute = λ ctx tool args w. execute (load w) ctx tool args w;
    start = λ ctx. pure tt;
    stop = pure tt;
  }
