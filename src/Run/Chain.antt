-- ===== src/Run/Chain.antt =====
-- run/default_runner.go: RunChain, RunChainWithProgress and buildChainArgs; and DefaultRunner as an
-- implementation of the interface Runner.
pub mod Refinement
pub mod Reports
use toolexec.Base.{
  ℕ, ◌+◌, String, Bool, Option, none, some, List, [], ◌∷◌, ◌++◌, length, last_or, if◌then◌else◌,
}
use mathlib.Core.Option.{get_or}
use toolexec.Model.{ToolBackend}
use toolexec.Value.{Value, null, Fields, put}
use toolexec.Errors.{Err, as_backend}
use toolexec.Effects.{Result, ok, err, Context}
use toolexec.Run.Types.{
  ProgressEvent, ChainStep, StepResult, RunResult, no_backend, no_result, ChainOutcome,
}
use toolexec.Run.Config.{DefaultRunner}
use toolexec.Run.Runner.{Runner, ProgressCallback, emit, run}

-- A copy of the step's arguments, with the previous result put in.
unfoldable pub build_chain_args : ChainStep → Value → Fields
build_chain_args step previous =
    if step.use_previous then put step.args "previous" previous else step.args

-- `(RunResult, error)`: a failed run comes with the zero result.
abbrev pub result_of : Result RunResult → RunResult
result_of (ok result) = result
result_of (err e) = no_result

abbrev pub error_of : Result RunResult → Option Err
error_of (ok result) = none
error_of (err e) = some e

abbrev backend_of : Result RunResult → ToolBackend
backend_of (ok result) = result.backend
backend_of (err e) = get_or (as_backend e) no_backend

unfoldable pub step_result : ChainStep → Result RunResult → StepResult
step_result step r = record {
  tool_id = step.tool_id;
  backend = backend_of r;
  result = result_of r;
  err = error_of r;
}

-- `results[len(results)-1].Result`
unfoldable pub last_result : List StepResult → RunResult
last_result results =
    let none_yet : StepResult = record {
      tool_id = "";
      backend = no_backend;
      result = no_result;
      err = none;
    } in
    (last_or none_yet results).result

-- The variables of the loop.
pub record ChainState : Type 0 where
  pub index : ℕ
  pub previous : Value
  pub results : List StepResult

-- An iteration returns from the function, or goes on.
pub data Next : Type 0 where
  stop : ChainOutcome → Next
  go : ChainState → Next

module _ {W : Type 0} (unmarshal : String → Option Value) (r : DefaultRunner W)
    (ctx : Context W) where
  abbrev message_of : Result RunResult → String
  message_of (ok result) = "step_completed"
  message_of (err e) = "step_error"

  -- the end of an iteration, after the callback
  advance : ChainState → List StepResult → Result RunResult → Next
  advance s results (ok result) =
      go (record { index = s.index + 1; previous = result.structured; results = results })
  advance s results (err e) = stop (record { result = no_result; steps = results; err = some e })

  execute_step : ℕ → ProgressCallback W → ChainState → ChainStep → W → Next × W
  unfolding advance
  execute_step total on_progress s step w =
      let (result, w1) = run unmarshal r ctx step.tool_id (build_chain_args step s.previous) w in
      let results = s.results ++ step_result step result ∷ [] in
      let event : ProgressEvent = record {
        progress = s.index + 1;
        total = total;
        message = message_of result;
      } in
      (advance s results result, emit on_progress event w1)

  unless_ended : Option Err → ℕ → ProgressCallback W → ChainState → ChainStep → W → Next × W
  unless_ended (some e) total on_progress s step w =
      (stop (record { result = no_result; steps = s.results; err = some e }), w)
  unless_ended none total on_progress s step w = execute_step total on_progress s step w

  -- one iteration
  unfoldable pub chain_step : ℕ → ProgressCallback W → ChainState → ChainStep → W → Next × W
  unfolding unless_ended execute_step
  chain_step total on_progress s step w =
      let (e, w1) = ctx w in unless_ended e total on_progress s step w1

  unfoldable pub chain_loop :
      ℕ → ProgressCallback W → ChainState → List ChainStep → W → ChainOutcome × W
  unfolding last_result
  chain_loop total on_progress s [] w =
      (record { result = last_result s.results; steps = s.results; err = none }, w)
  chain_loop total on_progress s (step ∷ rest) w =
      let (next, w1) = chain_step total on_progress s step w in
      elim next [ stop outcome ↦ (outcome, w1) | go s' ↦ chain_loop total on_progress s' rest w1 ]

  unfoldable pub run_chain_with_progress :
      List ChainStep → ProgressCallback W → W → ChainOutcome × W
  run_chain_with_progress [] on_progress w =
      (record { result = no_result; steps = []; err = none }, w)
  run_chain_with_progress (step ∷ rest) on_progress w =
      let total = length (step ∷ rest) in
      let started : ProgressEvent = record { progress = 0; total = total; message = "started" } in
      chain_loop total on_progress (record { index = 0; previous = null; results = [] })
        (step ∷ rest) (emit on_progress started w)

  unfoldable pub run_chain : List ChainStep → W → ChainOutcome × W
  run_chain steps w = run_chain_with_progress steps none w

-- A DefaultRunner seen through the interface.
unfoldable pub as_runner : {W : Type 0} → (String → Option Value) → DefaultRunner W → Runner W
as_runner unmarshal r = record {
  run = λ ctx id args w.
      let (result, w1) = run unmarshal r ctx id args w in ((result_of result, error_of result), w1);
  run_chain = λ ctx steps w. run_chain unmarshal r ctx steps w;
}
