-- ===== src/Run/Runner.antt =====
-- run/default_runner.go: Run and RunWithProgress; and the interface of run/runner.go.
pub mod Preparation
pub mod Failures
pub mod Validation
use toolexec.Base.{String, not, Option, none, some, List, is_empty}
use toolexec.Model.{ToolBackend}
use toolexec.Value.{Value, Fields}
use toolexec.Errors.{
  Err, sentinel, wrapped, tool_error, invalid_tool_id, validation, execution, output_validation,
}
use toolexec.Effects.{
  Result, ok, err, Exec, pure, map_err, guard, when, ◌>>=◌, ◌>>◌, Context, check,
}
use toolexec.Run.Types.{ProgressEvent, ChainStep, RunResult, no_result, ChainOutcome}
use toolexec.Run.Config.{DefaultRunner}
use toolexec.Run.Resolve.{Resolved, resolve_tool, select_backend}
use toolexec.Run.Dispatch.{dispatch}
use toolexec.Run.Normalize.{normalize}

-- The interface Runner, without streams. A failed call returns a result beside the error.
pub record Runner (W : Type 0) : Type 0 where
  pub run : Context W → String → Fields → W → (RunResult × Option Err) × W
  pub run_chain : Context W → List ChainStep → W → ChainOutcome × W

-- ProgressCallback, which may be nil.
abbrev pub ProgressCallback : Type 0 → Type 0
ProgressCallback W = Option (ProgressEvent → W → W)

module _ {W : Type 0} where
  unfoldable pub emit : ProgressCallback W → ProgressEvent → W → W
  emit none event w = w
  emit (some on_progress) event w = on_progress event w

  -- The steps 1 to 3, which Run and RunStream share: the id, the tool, the backend, the input.
  unfoldable pub prepare :
      DefaultRunner W → Context W → String → Fields → Exec W (Resolved × ToolBackend)
  prepare r ctx id args = do
    check ctx
    guard (not (is_empty id)) (tool_error id none "validate_tool_id" (sentinel invalid_tool_id))
    resolved ← map_err (tool_error id none "resolve") (resolve_tool r ctx id)
    backend ← map_err (tool_error id none "select_backend") (select_backend r resolved.backends)
    when r.config.validate_input (
        map_err (λ e. tool_error id (some backend) "validate_input" (wrapped validation e))
          (r.validator.validate_input resolved.tool args))
    pure (resolved, backend)

module _ {W : Type 0} (unmarshal : String → Option Value) (r : DefaultRunner W)
    (ctx : Context W) where
  -- The steps 4 to 6.
  unfoldable pub perform : String → Fields → Resolved × ToolBackend → Exec W RunResult
  perform id args (resolved, backend) = do
    dr ←
        map_err (λ e. tool_error id (some backend) "execute" (wrapped execution e))
          (dispatch ctx r resolved.tool backend args)
    let result = normalize unmarshal resolved.tool backend dr
    when r.config.validate_output (
        map_err (λ e. tool_error id (some backend) "validate_output" (wrapped output_validation e))
          (r.validator.validate_output resolved.tool result.structured))
    pure result

  unfoldable pub run : String → Fields → Exec W RunResult
  run id args = prepare r ctx id args >>= perform id args

  completion : Result RunResult → ProgressEvent
  completion (ok result) = record { progress = 1; total = 1; message = "completed" }
  completion (err e) = record { progress = 1; total = 1; message = "error" }

  unfoldable pub run_with_progress : String → Fields → ProgressCallback W → Exec W RunResult
  unfolding completion
  run_with_progress id args on_progress w =
      let w1 = emit on_progress (record { progress = 0; total = 1; message = "started" }) w in
      let (result, w2) = run id args w1 in (result, emit on_progress (completion result) w2)
