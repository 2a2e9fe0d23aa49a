-- ===== src/Code/Tools.antt =====
-- toolsImpl of code/tools.go, and ToolCallRecord of code/types.go. One snippet calls it, a call at a
-- time. `text` of println is what fmt.Fprintln writes.
use Prim.Native.String.{◌++◌ as text_append}
use toolexec.Base.{
  ℕ, ◌+◌, ◌-◌, ◌/◌, ℤ, over, String, Option, none, some, List, [], ◌∷◌, ◌++◌, length, take,
  if◌then◌else◌,
}
use toolexec.Model.{BackendKind, unset, ToolBackend, Summary, ToolDoc, ToolExample}
use toolexec.Value.{Value, null, Fields, put}
use toolexec.Errors.{Err, message, wrapped, as_backend, limit_exceeded}
use toolexec.Effects.{Exec, Context, check, ◌>>◌}
use toolexec.Run.Types.{ChainStep, RunResult, no_result, StepResult, ChainOutcome}
use toolexec.Run.Config.{Index, Store}
use toolexec.Run.Runner.{Runner}
use toolexec.Gateway.Direct.{executed_steps}
use toolexec.Code.Copies.{deep_copy_args}

-- `error` is the error whose text is recorded.
pub record CallRecord : Type 0 where
  pub tool_id : String
  pub args : Fields
  pub structured : Value
  pub backend_kind : BackendKind
  pub error : Option Err
  pub error_op : String
  pub duration_ms : ℕ

pub record ToolsConfig (W : Type 0) : Type 0 where
  pub index : Index W
  pub docs : Store W
  pub runner : Runner W
  pub max_tool_calls : ℤ
  pub max_chain_steps : ℤ

pub record ToolsState : Type 0 where
  pub tool_calls : List CallRecord
  pub stdout : String
  pub call_count : ℕ

-- the state of newTools
abbrev pub new_tools : ToolsState
new_tools = record { tool_calls = []; stdout = ""; call_count = 0 }

unfoldable pub println : String → ToolsState → ToolsState
println text t = record t { stdout = text_append t.stdout text }

abbrev backend_kind_of : Option ToolBackend → BackendKind
backend_kind_of none = unset
backend_kind_of (some b) = b.kind

-- the backend's kind, or that of the result's backend
abbrev step_kind : StepResult → BackendKind
step_kind sr = elim sr.backend.kind [ unset ↦ sr.result.backend.kind | k ↦ k ]

abbrev next_previous : Value → StepResult → Value
next_previous previous sr = elim sr.err [ none ↦ sr.result.structured | some e ↦ previous ]

module _ (copy_opaque : Value → Value) where
  unfoldable pub tool_record : String → Fields → ℕ → RunResult × Option Err → CallRecord
  tool_record id args duration (result, none) = record {
    tool_id = id;
    args = deep_copy_args copy_opaque args;
    structured = result.structured;
    backend_kind = result.backend.kind;
    error = none;
    error_op = "";
    duration_ms = duration;
  }
  tool_record id args duration (result, some e) = record {
    tool_id = id;
    args = deep_copy_args copy_opaque args;
    structured = null;
    backend_kind = backend_kind_of (as_backend e);
    error = some e;
    error_op = "run";
    duration_ms = duration;
  }

  -- the arguments of a step, with the previous result put in
  unfoldable pub effective_args : ChainStep → Value → Fields
  effective_args step previous =
      deep_copy_args copy_opaque
        (if step.use_previous then put step.args "previous" previous else step.args)

  step_record : ℕ → ChainStep → Value → StepResult → CallRecord
  unfolding effective_args
  step_record duration step previous sr = record {
    tool_id = step.tool_id;
    args = effective_args step previous;
    structured = elim sr.err [ none ↦ sr.result.structured | some e ↦ null ];
    backend_kind = step_kind sr;
    error = sr.err;
    error_op = elim sr.err [ none ↦ "" | some e ↦ "chain" ];
    duration_ms = duration;
  }

  -- the loop over the executed steps
  unfoldable pub record_steps : ℕ → Value → List ChainStep → List StepResult → List CallRecord
  unfolding step_record
  record_steps duration previous [] results = []
  record_steps duration previous (step ∷ steps) [] =
      record {
        tool_id = step.tool_id;
        args = effective_args step previous;
        structured = null;
        backend_kind = unset;
        error = none;
        error_op = "";
        duration_ms = duration;
      }
      ∷ record_steps duration previous steps []
  record_steps duration previous (step ∷ steps) (sr ∷ results) =
      step_record duration step previous sr
      ∷ record_steps duration (next_previous previous sr) steps results

  -- RunChain after the runner has returned
  unfoldable pub settle_chain : List ChainStep → ChainOutcome → ℕ → ToolsState → ToolsState
  settle_chain steps out duration t =
      let executed = executed_steps (length steps) out in
      record t {
        tool_calls =
            t.tool_calls ++ record_steps (duration / executed) null (take executed steps) out.steps;
        call_count = t.call_count + executed;
      }

  module _ {W : Type 0} (now : W → ℕ) (cfg : ToolsConfig W) (ctx : Context W) where
    unfoldable pub search_tools : String → ℤ → Exec W (List Summary)
    search_tools query limit = do check ctx; cfg.index.search query limit

    unfoldable pub list_namespaces : Exec W (List String)
    list_namespaces = do check ctx; cfg.index.list_namespaces

    unfoldable pub describe_tool : String → String → Exec W ToolDoc
    describe_tool id level = do check ctx; cfg.docs.describe_tool id level

    unfoldable pub list_tool_examples : String → ℤ → Exec W (List ToolExample)
    list_tool_examples id max_examples = do check ctx; cfg.docs.list_examples id max_examples

    limit_error : String → Err
    limit_error what = wrapped limit_exceeded (message what)

    -- RunTool: the limit is `callCount >= max`, which is `callCount + 1 > max`.
    unfoldable pub run_tool :
        String → Fields → ToolsState → W → (RunResult × Option Err) × ToolsState × W
    unfolding limit_error tool_record
    run_tool id args t w =
        if over cfg.max_tool_calls (t.call_count + 1)
        then ((no_result, some (limit_error "max tool calls exceeded")), t, w)
        else (let (out, w1) = cfg.runner.run ctx id args w in
            (
              out,
              record t {
                tool_calls =
                    t.tool_calls ++ tool_record id args ((now w1 - now w) / 1000000) out ∷ [];
                call_count = t.call_count + 1;
              },
              w1,
            ))

    unfoldable pub run_chain : List ChainStep → ToolsState → W → ChainOutcome × ToolsState × W
    unfolding limit_error settle_chain
    run_chain steps t w =
        if over cfg.max_chain_steps (length steps)
        then (
          record {
            result = no_result;
            steps = [];
            err = some (limit_error "max chain steps exceeded");
          },
          t,
          w,
        )
        else if over cfg.max_tool_calls (t.call_count + length steps)
        then (
          record {
            result = no_result;
            steps = [];
            err = some (limit_error "max tool calls exceeded");
          },
          t,
          w,
        )
        else (let (out, w1) = cfg.runner.run_chain ctx steps w in
            (out, settle_chain steps out ((now w1 - now w) / 1000000) t, w1))
