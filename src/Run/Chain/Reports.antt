-- ===== src/Run/Chain/Reports.antt =====
-- What the step results and the progress events of a chain tell the caller.
use toolexec.Base.{
  suc, ◌+◌, ◌≤◌, String, ◌≡◌, refl, ap, Option, none, some, List, [], ◌∷◌, map, arith, length, take,
  All,
}
use toolexec.Value.{Value, Fields, null}
use toolexec.Errors.{Err}
use toolexec.Effects.{Context}
use toolexec.Effects.Keeps.{Keeps, ContextKeeps}
use toolexec.Run.Types.{ProgressEvent, ChainStep, StepResult, ChainOutcome}
use toolexec.Run.Config.{DefaultRunner}
use toolexec.Run.Runner.{ProgressCallback, emit, run}
use toolexec.Run.Chain.{
  ChainState, Next, stop, go, build_chain_args, step_result, execute_step, unless_ended, chain_step,
  chain_loop, run_chain, run_chain_with_progress,
}
use toolexec.Run.Chain.Refinement.{Runs, done, interrupted, failed, stepped, run_chain-Runs}

abbrev pub Succeeded : StepResult → Type 0
Succeeded s = s.err ≡ none

abbrev pub result_ids : List StepResult → List String
result_ids = map (λ (s : StepResult). s.tool_id)

abbrev pub step_ids : List ChainStep → List String
step_ids = map (λ (s : ChainStep). s.tool_id)

module _ {W : Type 0} (unmarshal : String → Option Value) (r : DefaultRunner W)
    (ctx : Context W) where
  pub record IsReport (steps : List ChainStep) (results : List StepResult) (e : Option Err)
      : Type 0 where
    pub ids : result_ids results ≡ take (length results) (step_ids steps)
    pub within : length results ≤ length steps
    pub complete : e ≡ none → (length results ≡ length steps) × All Succeeded results

  Runs-IsReport :
      {previous : Value} {steps : List ChainStep} {w w' : W} {results : List StepResult}
      {e : Option Err}
      → Runs unmarshal r ctx previous steps w results e w'
      → IsReport steps results e
  unfolding step_result
  Runs-IsReport done = record { ids = refl; within = omega arith; complete = λ _. (refl, tt) }
  Runs-IsReport (interrupted h) = record { ids = refl; within = omega arith; complete = λ h. cc }
  Runs-IsReport (failed args h i x) = record {
    ids = refl;
    within = omega arith;
    complete = λ h. cc;
  }
  Runs-IsReport (stepped {step = step} args h i x rest) =
      let p = Runs-IsReport rest in
      record {
        ids = ap (λ ids. step.tool_id ∷ ids) p.ids;
        within = omega (arith, p.within);
        complete = λ h. (ap suc (p.complete h).0, (refl, (p.complete h).1));
      }

  -- The step results of a chain belong to an initial part of its steps, in order; there are never
  -- more of them than steps; and without an error there is one for each step, and all succeeded.
  pub run_chain-IsReport :
      (steps : List ChainStep) (w : W)
      → IsReport steps
          (run_chain unmarshal r ctx steps w).0.steps
          (run_chain unmarshal r ctx steps w).0.err
  run_chain-IsReport steps w = Runs-IsReport (run_chain-Runs unmarshal r ctx steps w).0

  module _ {P : W → Type 0} (steps : List ChainStep) (on_progress : ProgressCallback W)
      (asks : ContextKeeps P ctx)
      (runs : (id : String) (args : Fields) → Keeps P (run unmarshal r ctx id args))
      (reports : (event : ProgressEvent) (w : W)
        → event.progress ≤ event.total
        → event.total ≡ length steps
        → P w
        → P (emit on_progress event w)) where
    execute_step-Keeps :
        (s : ChainState) (step : ChainStep) (w : W)
        → s.index + 1 ≤ length steps
        → P w
        → P (execute_step unmarshal r ctx (length steps) on_progress s step w).1
    unfolding execute_step
    execute_step-Keeps s step w h p =
        reports _ _ h refl ((runs step.tool_id (build_chain_args step s.previous)).at w p)

    unless_ended-Keeps :
        (e : Option Err) (s : ChainState) (step : ChainStep) (w : W)
        → s.index + 1 ≤ length steps
        → P w
        → P (unless_ended unmarshal r ctx e (length steps) on_progress s step w).1
    unfolding unless_ended
    unless_ended-Keeps (some e) s step w h p = p
    unless_ended-Keeps none s step w h p = execute_step-Keeps s step w h p

    chain_step-Keeps :
        (s : ChainState) (step : ChainStep) (w : W)
        → s.index + 1 ≤ length steps
        → P w
        → P (chain_step unmarshal r ctx (length steps) on_progress s step w).1
    unfolding chain_step
    chain_step-Keeps s step w h p = unless_ended-Keeps (ctx w).0 s step _ h (asks.at w p)

    chain_step-index :
        (s s' : ChainState) (step : ChainStep) (w : W)
        → (chain_step unmarshal r ctx (length steps) on_progress s step w).0 ≡ go s'
        → s'.index ≡ s.index + 1
    unfolding chain_step
    chain_step-index s s' step w h = ground arith

    next-Keeps :
        (n : Next) (rest : List ChainStep) (w : W)
        → P w
        → ((s' : ChainState)
            → n ≡ go s'
            → P (chain_loop unmarshal r ctx (length steps) on_progress s' rest w).1)
        → let out : ChainOutcome × W = elim n [
          | stop outcome ↦ (outcome, w)
          | go s' ↦ chain_loop unmarshal r ctx (length steps) on_progress s' rest w
        ] in
          P out.1
    next-Keeps (stop outcome) rest w p k = p
    next-Keeps (go s') rest w p k = k s' refl

    loop-Keeps :
        (s : ChainState) (todo : List ChainStep) (w : W)
        → s.index + length todo ≤ length steps
        → P w
        → P (chain_loop unmarshal r ctx (length steps) on_progress s todo w).1
    unfolding chain_loop
    loop-Keeps s [] w h p = p
    loop-Keeps s (step ∷ rest) w h p =
        next-Keeps (chain_step unmarshal r ctx (length steps) on_progress s step w).0 rest _
          (chain_step-Keeps s step w (omega arith) p)
          λ s' e.
            loop-Keeps s' rest _ (omega (arith, chain_step-index s s' step w e))
              (chain_step-Keeps s step w (omega arith) p)

  -- Every progress event of a chain reports at most the whole, and the whole is the number of its
  -- steps: what such events, the tools and the context leave alone, the chain leaves alone.
  pub run_chain_with_progress-Keeps :
      {P : W → Type 0} (steps : List ChainStep) (on_progress : ProgressCallback W) (w : W)
      → ContextKeeps P ctx
      → ((id : String) (args : Fields) → Keeps P (run unmarshal r ctx id args))
      → ((event : ProgressEvent) (w : W)
          → event.progress ≤ event.total
          → event.total ≡ length steps
          → P w
          → P (emit on_progress event w))
      → P w
      → P (run_chain_with_progress unmarshal r ctx steps on_progress w).1
  unfolding run_chain_with_progress
  run_chain_with_progress-Keeps [] on_progress w asks runs reports p = p
  run_chain_with_progress-Keeps (step ∷ rest) on_progress w asks runs reports p =
      loop-Keeps (step ∷ rest) on_progress asks runs reports
        (record { index = 0; previous = null; results = [] }) (step ∷ rest) _ (omega arith)
        (reports _ w (omega arith) refl p)
