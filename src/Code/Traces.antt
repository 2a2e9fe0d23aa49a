-- ===== src/Code/Traces.antt =====
-- What the trace of a chain tells of the arguments that the runner was given.
use mathlib.Core.Option
use toolexec.Base.{
  ℕ, ◌+◌, ◌-◌, ◌/◌, ◌≤◌, String, ◌≡◌, refl, sym, ap, ◌∙◌, Option, none, some, List, [], ◌∷◌, ◌++◌,
  arith, length, take, false, over,
}
use toolexec.Value.{Value, null, Fields, end, field, get}
use toolexec.Errors.{Err}
use toolexec.Effects.{Context}
use toolexec.Run.Types.{ChainStep, StepResult, ChainOutcome}
use toolexec.Run.Config.{DefaultRunner}
use toolexec.Run.Chain
use toolexec.Run.Chain.{build_chain_args, step_result, as_runner}
use toolexec.Run.Chain.Refinement.{
  Injected, build_chain_args-Injected, Runs, done, interrupted, failed, stepped, run_chain-Runs,
}
use toolexec.Run.Chain.Reports.{run_chain-IsReport}
use toolexec.Gateway.Direct.{executed_steps}
use toolexec.Code.Copies.{deep_copy_value, deep_copy_args}
use toolexec.Code.Tools.{
  CallRecord, ToolsConfig, ToolsState, effective_args, record_steps, settle_chain, run_chain,
}

module _ (copy_opaque : Value → Value) where
  get-deep_copy_args :
      (m : Fields) (k : String)
      → get (deep_copy_args copy_opaque m) k ≡ Option.map (deep_copy_value copy_opaque) (get m k)
  unfolding get deep_copy_args
  get-deep_copy_args end k = refl
  get-deep_copy_args (field j v m) k = ground (arith, get-deep_copy_args m k)

  -- `copy` has the keys of `args`, with copies of its values.
  abbrev pub Copies : Fields → Fields → Type 0
  Copies args copy =
      (k : String) → get copy k ≡ Option.map (deep_copy_value copy_opaque) (get args k)

  effective_args-Copies :
      (step : ChainStep) (previous : Value) (args : Fields)
      → Injected step previous args
      → Copies args (effective_args copy_opaque step previous)
  unfolding effective_args build_chain_args
  effective_args-Copies step previous args i k =
      get-deep_copy_args (build_chain_args step previous) k
      ∙ ap (Option.map (deep_copy_value copy_opaque))
          (build_chain_args-Injected step previous k ∙ sym (i k))

  module _ {W : Type 0} (unmarshal : String → Option Value) (r : DefaultRunner W)
      (ctx : Context W) where
    -- The records `cs` tell what happened when the steps ran: for each call of the runner its
    -- arguments, copied, and its structured result or its error.
    pub Traced :
        {previous : Value} {steps : List ChainStep} {w w' : W} {results : List StepResult}
        {e : Option Err}
        → Runs unmarshal r ctx previous steps w results e w'
        → List CallRecord
        → Type 0
    Traced done cs = cs ≡ []
    Traced (interrupted h) cs = cs ≡ []
    Traced (failed {e = e} args h i x) cs =
        (c : CallRecord) × (cs ≡ c ∷ []) × Copies args c.args × (c.error ≡ some e)
    Traced (stepped {result = result} args h i x rest) cs =
        (c : CallRecord) × (cs' : List CallRecord) × (cs ≡ c ∷ cs')
        × Copies args c.args
        × (c.structured ≡ result.structured)
        × (c.error ≡ none)
        × Traced rest cs'

    record_steps-Traced :
        {previous : Value} {steps : List ChainStep} {w w' : W} {results : List StepResult}
        {e : Option Err} (d : ℕ) (runs : Runs unmarshal r ctx previous steps w results e w')
        → Traced runs (record_steps copy_opaque d previous (take (length results) steps) results)
    unfolding Traced record_steps step_result
    record_steps-Traced d done = refl
    record_steps-Traced d (interrupted h) = refl
    record_steps-Traced d (failed {previous = previous} {step = step} args h i x) =
        (_, refl, effective_args-Copies step previous args i, refl)
    record_steps-Traced d (stepped {previous = previous} {step = step} args h i x rest) = (
      _,
      _,
      refl,
      effective_args-Copies step previous args i,
      refl,
      refl,
      record_steps-Traced d rest,
    )

executed_steps-all :
    (n : ℕ) (out : ChainOutcome)
    → length out.steps ≤ n
    → (out.err ≡ none → length out.steps ≡ n)
    → executed_steps n out ≡ length out.steps
unfolding executed_steps
executed_steps-all n out h k = ground arith

module _ (copy_opaque : Value → Value) {W : Type 0} (now : W → ℕ)
    (unmarshal : String → Option Value) (r : DefaultRunner W) (ctx : Context W)
    (cfg : ToolsConfig W) where
  abbrev pub on_runner : ToolsConfig W
  on_runner = record cfg { runner = as_runner unmarshal r }

  -- A chain that a snippet may run, on a DefaultRunner, is recorded as it happened: one record for
  -- each step that the runner was called for, in order, with copies of the very arguments that the
  -- step was given, the previous result put in, and with its structured result or its error.
  pub run_chain-Traced :
      (steps : List ChainStep) (t : ToolsState) (w : W)
      → over cfg.max_chain_steps (length steps) ≡ false
      → over cfg.max_tool_calls (t.call_count + length steps) ≡ false
      → (cs : List CallRecord) × ((run_chain copy_opaque now on_runner ctx steps t w).1.tool_calls
          ≡ t.tool_calls ++ cs)
        × Traced copy_opaque unmarshal r ctx (run_chain-Runs unmarshal r ctx steps w).0 cs
  unfolding run_chain settle_chain as_runner
  run_chain-Traced steps t w short fits =
      let (out, w1) = Chain.run_chain unmarshal r ctx steps w in
      let duration = (now w1 - now w) / 1000000 / length out.steps in
      let report = run_chain-IsReport unmarshal r ctx steps w in
      let all = executed_steps-all (length steps) out report.within (λ h. (report.complete h).0) in
      let runs = (run_chain-Runs unmarshal r ctx steps w).0 in
      (
        record_steps copy_opaque duration null (take (length out.steps) steps) out.steps,
        rw (short, fits, all) refl,
        record_steps-Traced copy_opaque unmarshal r ctx duration runs,
      )
