-- ===== src/Facade/Chains.antt =====
-- What RunChain of the facade reports.
use toolexec.Base.{
  ℕ, zero, suc, ◌-◌, ◌≤◌, String, ◌≡◌, refl, ap, ◌∙◌, true, Option, none, some, List, [], ◌∷◌, map,
  arith, length, take, length-map, All,
}
use toolexec.Value.{Value, null, Fields}
use toolexec.Errors.{Err}
use toolexec.Effects.{Context}
use toolexec.Run.Types.{ChainStep, StepResult, ChainOutcome}
use toolexec.Run.Chain
use toolexec.Run.Chain.Reports.{Succeeded, result_ids, step_ids, run_chain-IsReport}
use toolexec.Facade.Options.{ExecStep, ExecStepResult, step_ok, Facade}
use toolexec.Facade.{
  ExecOutcome, chain_step_of, step_result_of, convert_steps, final_tool_id, final_result, run_chain,
}

abbrev pub count_from : ℕ → ℕ → List ℕ
count_from i zero = []
count_from i (suc n) = i ∷ count_from (suc i) n

abbrev pub step_args : List ExecStep → List Fields
step_args = map (λ (s : ExecStep). s.args)

-- The steps that the runner is given are those of the caller, one for one.
pub record IsGiven (steps : List ExecStep) (given : List ChainStep) : Type 0 where
  pub ids : map (λ (s : ChainStep). s.tool_id) given ≡ map (λ (s : ExecStep). s.tool_id) steps
  pub args : map (λ (s : ChainStep). s.args) given ≡ step_args steps
  pub previous :
      map (λ (s : ChainStep). s.use_previous) given ≡ map (λ (s : ExecStep). s.use_previous) steps

-- The step results of the facade are those of the runner, one for one: numbered from 0, with the ids
-- and the arguments of an initial part of the steps, and with the value and the error that the runner
-- has for each. The error of the chain is the runner's, in the result too; without one the value is
-- the runner's, every step is there and succeeded, and the result carries the last step's id.
pub record IsExecReport (steps : List ExecStep) (runs : ChainOutcome) (out : ExecOutcome)
    : Type 0 where
  pub indices :
      map (λ (s : ExecStepResult). s.step_index) out.steps ≡ count_from 0 (length out.steps)
  pub ids :
      map (λ (s : ExecStepResult). s.tool_id) out.steps
      ≡ take (length out.steps) (map (λ (s : ExecStep). s.tool_id) steps)
  pub args :
      map (λ (s : ExecStepResult). s.args) out.steps ≡ take (length out.steps) (step_args steps)
  pub values :
      map (λ (s : ExecStepResult). s.value) out.steps
      ≡ map (λ (r : StepResult). r.result.structured) runs.steps
  pub errors :
      map (λ (s : ExecStepResult). s.error) out.steps ≡ map (λ (r : StepResult). r.err) runs.steps
  pub err : out.err ≡ runs.err
  pub error : out.result.error ≡ runs.err
  pub value : out.result.value ≡ elim runs.err [ none ↦ runs.result.structured | some e ↦ null ]
  pub complete :
      out.err ≡ none
      → (length out.steps ≡ length steps)
        × All (λ (s : ExecStepResult). step_ok s ≡ true) out.steps
        × (out.result.tool_id ≡ final_tool_id steps)

record Converted (i : ℕ) (steps : List ChainStep) (results : List StepResult) : Type 0 where
  out : List ExecStepResult
  converted : convert_steps i steps results ≡ some out
  size : length out ≡ length results
  indices : map (λ (s : ExecStepResult). s.step_index) out ≡ count_from i (length out)
  ids : map (λ (s : ExecStepResult). s.tool_id) out ≡ result_ids results
  args :
      map (λ (s : ExecStepResult). s.args) out
      ≡ take (length out) (map (λ (s : ChainStep). s.args) steps)
  values :
      map (λ (s : ExecStepResult). s.value) out
      ≡ map (λ (r : StepResult). r.result.structured) results
  errors : map (λ (s : ExecStepResult). s.error) out ≡ map (λ (r : StepResult). r.err) results
  succeeded : All Succeeded results → All (λ (s : ExecStepResult). step_ok s ≡ true) out

-- There is no panic where there are not more results than steps.
convert :
    (i : ℕ) (steps : List ChainStep) (results : List StepResult)
    → length results ≤ length steps
    → Converted i steps results
unfolding convert_steps
convert i steps [] h = record {
  out = [];
  converted = refl;
  size = refl;
  indices = refl;
  ids = refl;
  args = refl;
  values = refl;
  errors = refl;
  succeeded = λ _. tt;
}
convert i [] (r ∷ rs) h = absurd (omega arith)
convert i (s ∷ ss) (r ∷ rs) h =
    let c = convert (suc i) ss rs (omega arith) in
    record {
      out = step_result_of i s r ∷ c.out;
      converted = rw c.converted refl;
      size = ap suc c.size;
      indices = ap (λ l. i ∷ l) c.indices;
      ids = ap (λ l. r.tool_id ∷ l) c.ids;
      args = ap (λ l. s.args ∷ l) c.args;
      values = ap (λ l. r.result.structured ∷ l) c.values;
      errors = ap (λ l. r.err ∷ l) c.errors;
      succeeded = λ a. (rw a.0 refl, c.succeeded a.1);
    }

ids-chain_step_of :
    (steps : List ExecStep)
    → step_ids (map chain_step_of steps) ≡ map (λ (s : ExecStep). s.tool_id) steps
ids-chain_step_of [] = refl
ids-chain_step_of (s ∷ ss) = ap (λ l. s.tool_id ∷ l) (ids-chain_step_of ss)

map-IsGiven : (steps : List ExecStep) → IsGiven steps (map chain_step_of steps)
map-IsGiven [] = record { ids = refl; args = refl; previous = refl }
map-IsGiven (s ∷ ss) =
    let rest = map-IsGiven ss in
    record {
      ids = ap (λ l. s.tool_id ∷ l) rest.ids;
      args = ap (λ l. s.args ∷ l) rest.args;
      previous = ap (λ l. s.use_previous ∷ l) rest.previous;
    }

final-value :
    (steps : List ExecStep) (d : ℕ) (out : ChainOutcome) (e : Option Err)
    → out.err ≡ e
    → (final_result steps d out).value
      ≡ elim out.err [ none ↦ out.result.structured | some e ↦ null ]
unfolding final_result
final-value steps d out none h = rw h refl
final-value steps d out (some e) h = rw h refl

ids_taken :
    (steps : List ExecStep) (out : List ExecStepResult) (results : List StepResult)
    → length out ≡ length results
    → take (length results) (step_ids (map chain_step_of steps))
      ≡ take (length out) (map (λ (s : ExecStep). s.tool_id) steps)
ids_taken steps out results h = rw (h, ids-chain_step_of steps) refl

final-error :
    (steps : List ExecStep) (d : ℕ) (out : ChainOutcome) (e : Option Err)
    → out.err ≡ e
    → (final_result steps d out).error ≡ out.err
unfolding final_result
final-error steps d out none h = rw h refl
final-error steps d out (some e) h = rw h refl

final-tool_id :
    (steps : List ExecStep) (d : ℕ) (out : ChainOutcome)
    → out.err ≡ none
    → (final_result steps d out).tool_id ≡ final_tool_id steps
unfolding final_result
final-tool_id steps d out h = rw h refl

module _ {W : Type 0} (unmarshal : String → Option Value) (now : W → ℕ) (e : Facade W)
    (ctx : Context W) where
  -- RunChain of the facade returns: it never reads past its steps. The runner gets the caller's
  -- steps, with their ids, their arguments and which of them use the previous result. Each step
  -- result of the runner is reported in its place, with its value and its error: the numbers count
  -- from 0, the ids and the arguments are those of the steps as the caller gave them. The error is
  -- the runner's, and it is also the result's; without an error the result's value is the runner's,
  -- every step is reported, every report is OK, and the result has the last step's id.
  pub run_chain-IsExecReport :
      (steps : List ExecStep) (w : W)
      → (given : List ChainStep) × IsGiven steps given
        × (out : ExecOutcome) × (run_chain unmarshal now e ctx steps w
            ≡ (some out, (Chain.run_chain unmarshal e.runner ctx given w).1))
        × IsExecReport steps (Chain.run_chain unmarshal e.runner ctx given w).0 out
  unfolding run_chain
  run_chain-IsExecReport steps w =
      let chain_steps = map chain_step_of steps in
      let (runs, w1) = Chain.run_chain unmarshal e.runner ctx chain_steps w in
      let report = run_chain-IsReport unmarshal e.runner ctx chain_steps w in
      let c = convert 0 chain_steps runs.steps report.within in
      (
        chain_steps,
        map-IsGiven steps,
        record { result = final_result steps (now w1 - now w) runs; steps = c.out; err = runs.err },
        rw c.converted refl,
        record {
          indices = c.indices;
          ids = c.ids ∙ (report.ids ∙ ids_taken steps c.out runs.steps c.size);
          args = c.args ∙ ap (take (length c.out)) (map-IsGiven steps).args;
          values = c.values;
          errors = c.errors;
          err = refl;
          error = final-error steps _ runs runs.err refl;
          value = final-value steps _ runs runs.err refl;
          complete = λ none_left.
              let (all, ok) = report.complete none_left in
              (
                c.size ∙ (all ∙ length-map chain_step_of steps),
                c.succeeded ok,
                final-tool_id steps _ runs none_left,
              );
        },
      )
