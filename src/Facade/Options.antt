-- ===== src/Facade/Options.antt =====
-- exec/options.go, exec/result.go and New of exec/exec.go. The runner that New makes is always a
-- DefaultRunner, so that the field has this type.
use toolexec.Base.{
  ℕ, zero, ◌*◌, ◌^◌, ℤ, pos, String, Bool, Option, none, some, [], ◌∷◌, is_empty, is_some, not,
  ◌&&◌, if◌then◌else◌,
}
use toolexec.Base.Dict.{Dict, lookup}
use toolexec.Value.{Value, Fields}
use toolexec.Errors.{Err, sentinel, index_required, docs_required}
use toolexec.Effects.{Result, ok, err}
use toolexec.Run.Types.{McpExecutor, ProviderExecutor, LocalHandler, LocalRegistry}
use toolexec.Run.Config.{
  Index, Store, Validator, BackendSelector, DefaultRunner, with_index, with_local_registry,
  with_mcp_executor, with_provider_executor, with_validation, new_runner,
}
use toolexec.Runtime.Types.{SecurityProfile, profile_dev}

abbrev default_max_tool_calls : ℤ
default_max_tool_calls = pos 100

abbrev default_language : String
default_language = "go"

abbrev default_timeout : ℤ
default_timeout = pos (30 * 10 ^ 9)

pub record Options (W : Type 0) : Type 0 where
  pub index : Option (Index W)
  pub docs : Option (Store W)
  -- a nil handler is `none`
  pub local_handlers : Dict (Option (LocalHandler W))
  pub mcp_executor : Option (McpExecutor W)
  pub provider_executor : Option (ProviderExecutor W)
  pub security_profile : SecurityProfile
  pub enable_code_execution : Bool
  pub max_tool_calls : ℤ
  pub default_language : String
  pub default_timeout : ℤ
  pub validate_input : Bool
  pub validate_output : Bool

-- Step
pub record ExecStep : Type 0 where
  pub tool_id : String
  pub args : Fields
  pub use_previous : Bool
  pub stop_on_error : Option Bool

-- Result
pub record ExecResult : Type 0 where
  pub value : Value
  pub tool_id : String
  pub duration : ℕ
  pub error : Option Err

-- StepResult
pub record ExecStepResult : Type 0 where
  pub step_index : ℕ
  pub tool_id : String
  pub args : Fields
  pub value : Value
  pub duration : ℕ
  pub error : Option Err
  pub skipped : Bool

-- OK of StepResult
abbrev pub step_ok : ExecStepResult → Bool
step_ok s = not (is_some s.error) && not s.skipped

-- Exec
pub record Facade (W : Type 0) : Type 0 where
  pub index : Index W
  pub docs : Store W
  pub runner : DefaultRunner W
  pub opts : Options W

abbrev zero_or : ℤ → ℤ → ℤ
zero_or default (pos zero) = default
zero_or default n = n

module _ {W : Type 0} where
  unfoldable pub apply_defaults : Options W → Options W
  apply_defaults o = record o {
    security_profile = if is_empty o.security_profile then profile_dev else o.security_profile;
    max_tool_calls = zero_or default_max_tool_calls o.max_tool_calls;
    default_language = if is_empty o.default_language then default_language else o.default_language;
    default_timeout = zero_or default_timeout o.default_timeout;
  }

  -- mapLocalRegistry
  unfoldable pub new_map_local_registry : Dict (Option (LocalHandler W)) → LocalRegistry W
  new_map_local_registry handlers = record { get = lookup handlers }

  -- the registry is nil where there are no handlers
  unfoldable pub local_registry : Dict (Option (LocalHandler W)) → Option (LocalRegistry W)
  unfolding new_map_local_registry
  local_registry [] = none
  local_registry (h ∷ hs) = some (new_map_local_registry (h ∷ hs))

  module _ (default_validator : Validator W) (default_selector : BackendSelector)
      (o : Options W) where
    -- what New returns, once the index and the store are there
    unfoldable pub facade_of : Index W → Store W → Facade W
    unfolding apply_defaults local_registry with_index with_local_registry with_mcp_executor
        with_provider_executor with_validation new_runner
    facade_of idx docs = record {
      index = idx;
      docs = docs;
      runner = new_runner default_validator default_selector (
          with_index (some idx)
          ∷ with_local_registry (local_registry o.local_handlers)
          ∷ with_mcp_executor o.mcp_executor
          ∷ with_provider_executor o.provider_executor
          ∷ with_validation o.validate_input o.validate_output
          ∷ []);
      opts = apply_defaults o;
    }

    -- the checks of `validate`, then New
    unfoldable pub with_required : Option (Index W) → Option (Store W) → Result (Facade W)
    unfolding facade_of
    with_required none docs = err (sentinel index_required)
    with_required (some idx) none = err (sentinel docs_required)
    with_required (some idx) (some docs) = ok (facade_of idx docs)

    unfoldable pub new : Result (Facade W)
    unfolding with_required
    new = with_required o.index o.docs
