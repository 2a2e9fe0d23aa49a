-- ===== src/Run/Config.antt =====
-- run/config.go, and NewRunner of run/default_runner.go. Index, Store, BackendSelector and
-- SchemaValidator are interfaces of other repositories; a nil one is `none`.
use mathlib.Core.Option.{get_or}
use mathlib.Core.List.{foldl}
use toolexec.Base.{ℤ, String, Bool, true, Option, none, List}
use toolexec.Model.{ToolBackend, Tool, Summary, ToolDoc, ToolExample}
use toolexec.Value.{Value, Fields}
use toolexec.Effects.{Exec}
use toolexec.Run.Types.{McpExecutor, ProviderExecutor, LocalRegistry}

-- index.Index, as far as the code calls it.
pub record Index (W : Type 0) : Type 0 where
  pub get_tool : String → Exec W (Tool × ToolBackend)
  pub get_all_backends : String → Exec W (List ToolBackend)
  pub search : String → ℤ → Exec W (List Summary)
  pub list_namespaces : Exec W (List String)

-- tooldoc.Store
pub record Store (W : Type 0) : Type 0 where
  pub describe_tool : String → String → Exec W ToolDoc
  pub list_examples : String → ℤ → Exec W (List ToolExample)

-- model.SchemaValidator
pub record Validator (W : Type 0) : Type 0 where
  pub validate_input : Tool → Fields → Exec W (Unit {0})
  pub validate_output : Tool → Value → Exec W (Unit {0})

abbrev pub BackendSelector : Type 0
BackendSelector = List ToolBackend → ToolBackend

pub record Config (W : Type 0) : Type 0 where
  pub index : Option (Index W)
  pub tool_resolver : Option (String → Exec W (Option Tool))
  pub backends_resolver : Option (String → Exec W (List ToolBackend))
  pub backend_selector : Option BackendSelector
  pub validator : Option (Validator W)
  pub validate_input : Bool
  pub validate_output : Bool
  pub mcp : Option (McpExecutor W)
  pub provider : Option (ProviderExecutor W)
  pub local : Option (LocalRegistry W)

-- The configuration of a DefaultRunner: the validator and the selector are set.
pub record DefaultRunner (W : Type 0) : Type 0 where
  pub config : Config W
  pub validator : Validator W
  pub backend_selector : BackendSelector

abbrev pub ConfigOption : Type 0 → Type 0
ConfigOption W = Config W → Config W

module _ {W : Type 0} where
  unfoldable pub with_index : Option (Index W) → ConfigOption W
  with_index idx c = record c { index = idx }

  unfoldable pub with_validator : Option (Validator W) → ConfigOption W
  with_validator v c = record c { validator = v }

  unfoldable pub with_mcp_executor : Option (McpExecutor W) → ConfigOption W
  with_mcp_executor exec c = record c { mcp = exec }

  unfoldable pub with_provider_executor : Option (ProviderExecutor W) → ConfigOption W
  with_provider_executor exec c = record c { provider = exec }

  unfoldable pub with_local_registry : Option (LocalRegistry W) → ConfigOption W
  with_local_registry reg c = record c { local = reg }

  unfoldable pub with_validation : Bool → Bool → ConfigOption W
  with_validation input output c = record c { validate_input = input; validate_output = output }

  unfoldable pub with_backend_selector : Option BackendSelector → ConfigOption W
  with_backend_selector selector c = record c { backend_selector = selector }

  unfoldable pub with_tool_resolver : Option (String → Exec W (Option Tool)) → ConfigOption W
  with_tool_resolver resolver c = record c { tool_resolver = resolver }

  unfoldable pub with_backends_resolver :
      Option (String → Exec W (List ToolBackend)) → ConfigOption W
  with_backends_resolver resolver c = record c { backends_resolver = resolver }

-- The defaults of the two other repositories are arguments: model.NewDefaultValidator() and
-- index.DefaultBackendSelector.
module _ {W : Type 0} (default_validator : Validator W) (default_selector : BackendSelector) where
  unfoldable pub apply_defaults : Config W → DefaultRunner W
  apply_defaults c = record {
    config = c;
    validator = get_or c.validator default_validator;
    backend_selector = get_or c.backend_selector default_selector;
  }

  unfoldable pub new_runner : List (ConfigOption W) → DefaultRunner W
  unfolding apply_defaults
  new_runner opts = apply_defaults (
      foldl (λ c opt. opt c)
        (record {
          index = none;
          tool_resolver = none;
          backends_resolver = none;
          backend_selector = none;
          validator = none;
          validate_input = true;
          validate_output = true;
          mcp = none;
          provider = none;
          local = none;
        })
        opts)
