-- ===== src/Facade.antt =====
-- exec/exec.go: the facade over the runner. Reading past the end of a slice is a panic, here none.
pub mod Options
pub mod Chains
pub mod Tools
use mathlib.Core.Option
use toolexec.Base.{
  ℕ, suc, ◌-◌, ℤ, String, Bool, false, Option, none, some, List, [], ◌∷◌, map, last_or,
}
use toolexec.Model.{Summary, ToolDoc}
use toolexec.Value.{Value, null, Fields}
use toolexec.Errors.{Err}
use toolexec.Effects.{Result, ok, err, Exec, Context}
use toolexec.Run.Types.{ChainStep, StepResult, RunResult, ChainOutcome}
use toolexec.Run.Runner
use toolexec.Run.Chain
use toolexec.Facade.Options.{ExecStep, ExecResult, ExecStepResult, Facade}

-- What RunChain returns: `(Result, []StepResult, error)`.
pub record ExecOutcome : Type 0 where
  pub result : ExecResult
  pub steps : List ExecStepResult
  pub err : Option Err

abbrev pub chain_step_of : ExecStep → ChainStep
chain_step_of s = record { tool_id = s.tool_id; args = s.args; use_previous = s.use_previous }

abbrev pub step_result_of : ℕ → ChainStep → StepResult → ExecStepResult
step_result_of i step rs = record {
  step_index = i;
  tool_id = rs.tool_id;
  args = step.args;
  value = rs.result.structured;
  duration = 0;
  error = rs.err;
  skipped = false;
}

-- the loop over the runner's step results, which reads `chainSteps[i]`
unfoldable pub convert_steps : ℕ → List ChainStep → List StepResult → Option (List ExecStepResult)
convert_steps i steps [] = some []
convert_steps i [] (r ∷ rs) = none
convert_steps i (s ∷ ss) (r ∷ rs) =
    Option.map (λ out. step_result_of i s r ∷ out) (convert_steps (suc i) ss rs)

-- the id of the last step
abbrev pub final_tool_id : List ExecStep → String
final_tool_id [] = ""
final_tool_id (s ∷ ss) = (last_or s ss).tool_id

final_result : List ExecStep → ℕ → ChainOutcome → ExecResult
final_result steps duration out = elim out.err [
  | none ↦ record {
    value = out.result.structured;
    tool_id = final_tool_id steps;
    duration = duration;
    error = none;
  }
  | some e ↦ record { value = null; tool_id = ""; duration = duration; error = some e }
]

module _ {W : Type 0} (unmarshal : String → Option Value) (now : W → ℕ) (e : Facade W)
    (ctx : Context W) where
  tool_result : String → ℕ → Result RunResult → ExecResult × Option Err
  tool_result id duration (ok r) =
      (record { value = r.structured; tool_id = id; duration = duration; error = none }, none)
  tool_result id duration (err x) =
      (record { value = null; tool_id = id; duration = duration; error = some x }, some x)

  unfoldable pub run_tool : String → Fields → W → (ExecResult × Option Err) × W
  unfolding tool_result
  run_tool id args w =
      let (result, w1) = Runner.run unmarshal e.runner ctx id args w in
      (tool_result id (now w1 - now w) result, w1)

  unfoldable pub run_chain : List ExecStep → W → Option ExecOutcome × W
  unfolding convert_steps final_result
  run_chain steps w =
      let chain_steps = map chain_step_of steps in
      let (out, w1) = Chain.run_chain unmarshal e.runner ctx chain_steps w in
      (
        Option.map
            (λ results. record {
              result = final_result steps (now w1 - now w) out;
              steps = results;
              err = out.err;
            })
            (convert_steps 0 chain_steps out.steps),
        w1,
      )

  -- The two lookups ignore the context.
  unfoldable pub search_tools : String → ℤ → Exec W (List Summary)
  search_tools query limit = e.index.search query limit

  unfoldable pub get_tool_doc : String → String → Exec W ToolDoc
  get_tool_doc id level = e.docs.describe_tool id level
