-- ===== src/Tests/Sources.antt =====
-- The theorems on the registry of tool sources.
use toolexec.Base.{
  ℕ, zero, suc, String, ◌≡◌, refl, true, false, Option, none, some, [], inl, All, ◌⊎◌, ◌∷◌, str_eq,
  if◌then◌else◌,
}
use toolexec.Base.Dict.{lookup, insert, delete}
use toolexec.Value.{null, obj}
use toolexec.Model.{Tool}
use toolexec.Errors.{sentinel, backend_disabled, tool_not_in_backend}
use toolexec.Effects.{ok, err, pure, ◌>>=◌}
use toolexec.Effects.Ensures.{Ensures-pure}
use toolexec.Backends.{ToolSource, Registry, new_registry, register, execute, format_tool_id}
use toolexec.Backends.Local.{
  ToolDef, LocalBackend, new_local, set_enabled, register_handler, unregister_handler, as_source,
  list_tools,
}
use toolexec.Backends.Routing.{IsNamed, registry-IsNamed}
use toolexec.Backends.Listing.{list_all_tools, list_enabled, list_each, in_namespace}
use toolexec.Backends.Listed.{IsExecuted, list_all_tools-IsExecuted}
use toolexec.Backends.Local.Listed.{Reach, starts, steps, registers, answer, list_tools-execute}
use toolexec.Backends.Local
use mathlib.Core.List.{Memᴰ}
use toolexec.Backends.Local.Handlers.{execute-handler}
use toolexec.Tests.Fixture.{live, args, handler}

abbrev tool : Tool
tool = record { name = "echo"; namespace = ""; details = null }

abbrev source : ToolSource ℕ
source = record {
  kind = "local";
  name = "here";
  enabled = λ w. true;
  list_tools = λ ctx w. (ok (tool ∷ []), w);
  execute = λ ctx tool fields w. (ok (obj fields), suc w);
  start = λ ctx w. (ok tt, w);
  stop = λ w. (ok tt, w);
}

abbrev one_source : Registry ℕ
one_source = record { backends = ("here", source) ∷ []; factories = [] }

-- It knows the id of one tool.
abbrev parse : String → Option (String × String)
parse id = if str_eq id "here:echo" then some ("here", "echo") else none

registered : register new_registry (some source) ≡ ok one_source
unfolding register lookup insert delete
registered = refl

abbrev echo_def : ToolDef ℕ
echo_def = record { name = ""; details = null; handler = some (handler "echo") }

-- The world says whether "echo" is registered, unregistered, or its backend disabled.
abbrev load : ℕ → LocalBackend ℕ
load zero = register_handler "echo" echo_def (new_local "here")
load (suc zero) = unregister_handler "echo" (new_local "here")
load _ = set_enabled false (new_local "here")

abbrev local_source : Registry ℕ
local_source = record { backends = ("here", as_source "here" load) ∷ []; factories = [] }

local_registered : register new_registry (some (as_source "here" load)) ≡ ok local_source
unfolding register lookup insert delete as_source
local_registered = refl

execute-handler_example :
    (execute parse local_source live (format_tool_id "here" "echo") args 0
      ≡ handler "echo" live args 0)
    × (execute parse local_source live (format_tool_id "here" "echo") args 1
        ≡ (err (sentinel tool_not_in_backend), 1))
    × (execute parse local_source live (format_tool_id "here" "echo") args 2
        ≡ (err (sentinel backend_disabled), 2))
unfolding format_tool_id new_local
execute-handler_example =
    execute-handler parse new_registry local_source "here" "echo" load (new_local "here") echo_def
      (handler "echo") live args 0 1 2 local_registered refl refl refl refl refl refl

one_source-IsNamed : IsNamed one_source
unfolding lookup
one_source-IsNamed =
    (registry-IsNamed new_registry one_source (some source) "here" 0
      (record { at = λ k b e. absurd cc }) registered).0

abbrev listed_tool : Tool
listed_tool = record { name = "echo"; namespace = "here"; details = null }

list_all_tools-IsExecuted_example :
    IsExecuted one_source live parse (λ b. b.enabled 0 ≡ true) live args listed_tool × Unit {0}
unfolding list_all_tools list_enabled list_each in_namespace lookup pure ◌>>=◌ format_tool_id
list_all_tools-IsExecuted_example =
    list_all_tools-IsExecuted one_source live parse (source ∷ []) live args 0 (listed_tool ∷ [])
      one_source-IsNamed ((refl, Ensures-pure _ (tool ∷ []) (inl refl, tt)), tt) refl (refl, tt)

abbrev local_backend : LocalBackend ℕ
unfolding register_handler new_local
local_backend = register_handler "echo" echo_def (new_local "here")

local_backend_reached : Reach "here" local_backend
unfolding local_backend register_handler new_local
local_backend_reached =
    steps (new_local "here") local_backend starts
      (registers "echo" echo_def (new_local "here") (inl refl))

list_tools-execute_example :
    All (λ (t : Tool). t.namespace ≡ "here") (list_tools local_backend)
    × (((def : ToolDef ℕ) × (lookup local_backend.handlers "echo" ≡ some def)
          × Memᴰ
              (record { name = "echo"; namespace = "here"; details = def.details })
              (list_tools local_backend)
          × (Local.execute local_backend live "echo" args 0
              ≡ answer local_backend def.handler live args 0))
        ⊎ ((lookup local_backend.handlers "echo" ≡ none)
            × (¬ ((t : Tool) × Memᴰ t (list_tools local_backend) × (t.name ≡ "echo")))
            × (Local.execute local_backend live "echo" args 0
                ≡ answer local_backend none live args 0)))
list_tools-execute_example =
    list_tools-execute "here" local_backend live args 0 "echo" local_backend_reached
