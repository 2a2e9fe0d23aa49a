-- ===== src/Tests/Fixture.antt =====
-- A small world for the tests: it counts the calls of local tools.
use toolexec.Base.{ℕ, suc, String, str_eq, true, Option, none, some, List, [], ◌∷◌, if◌then◌else◌}
use toolexec.Model.{local, ToolBackend, Tool}
use toolexec.Value.{Value, null, str, obj, Fields, end, field}
use toolexec.Errors.{message, sentinel, index_not_found}
use toolexec.Effects.{ok, err, Exec, Context}
use toolexec.Run.Types.{LocalHandler, LocalRegistry, no_backend, RunResult, ChainStep}
use toolexec.Run.Config.{Index, Validator, BackendSelector, Config, DefaultRunner}

abbrev pub live : Context ℕ
live w = (none, w)

abbrev pub tool_named : String → Tool
tool_named name = record { name = name; namespace = ""; details = null }

abbrev pub local_backend : String → ToolBackend
local_backend name = record no_backend { kind = local; local_name = some name }

-- "echo" counts the call and returns its arguments; any other handler fails after counting it.
abbrev pub handler : String → LocalHandler ℕ
handler name ctx args w =
    if str_eq name "echo" then (ok (obj args), suc w) else (err (message "boom"), suc w)

abbrev pub registry : LocalRegistry ℕ
registry = record { get = λ name. some (some (handler name)) }

abbrev pub accept_all : Validator ℕ
accept_all = record {
  validate_input = λ tool args w. (ok tt, w);
  validate_output = λ tool value w. (ok tt, w);
}

abbrev pub first : BackendSelector
first [] = no_backend
first (b ∷ bs) = b

-- The index knows "echo" and "broken".
abbrev pub get_tool : String → Exec ℕ (Tool × ToolBackend)
get_tool id w =
    if str_eq id "echo"
    then (ok (tool_named "echo", local_backend "echo"), w)
    else if str_eq id "broken"
    then (ok (tool_named "broken", local_backend "broken"), w)
    else (err (sentinel index_not_found), w)

abbrev pub index : Index ℕ
index = record {
  get_tool = get_tool;
  get_all_backends = λ id w. (ok [], w);
  search = λ query limit w. (ok [], w);
  list_namespaces = λ w. (ok [], w);
}

abbrev pub config : Config ℕ
config = record {
  index = some index;
  tool_resolver = none;
  backends_resolver = none;
  backend_selector = none;
  validator = none;
  validate_input = true;
  validate_output = true;
  mcp = none;
  provider = none;
  local = some registry;
}

abbrev pub runner : DefaultRunner ℕ
runner = record { config = config; validator = accept_all; backend_selector = first }

abbrev pub no_json : String → Option Value
no_json s = none

abbrev pub args : Fields
args = field "x" (str "1") end

abbrev pub step : String → ChainStep
step id = record { tool_id = id; args = args; use_previous = true }

-- the third step is not reached
abbrev pub steps : List ChainStep
steps = step "echo" ∷ step "broken" ∷ step "echo" ∷ []

abbrev pub echo_result : RunResult
echo_result = record {
  tool = tool_named "echo";
  backend = local_backend "echo";
  structured = obj args;
  mcp_result = none;
}
