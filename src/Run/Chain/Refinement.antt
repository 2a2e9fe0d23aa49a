-- ===== src/Run/Chain/Refinement.antt =====
-- A chain against its specification: the steps run one after the other, each with the structured
-- result of the one before, until a step fails or the context ends.
use toolexec.Base.{
  ℕ, ◌+◌, String, ◌≡◌, refl, sym, ◌&&◌, Option, none, some, List, [], ◌∷◌, ◌++◌, append_assoc,
  append-nil, ◌∙◌, arith, str_eq, length, if◌then◌else◌,
}
use toolexec.Value.{Value, null, Fields, get, get-put}
use toolexec.Errors.{Err}
use toolexec.Effects.{Result, ok, err, Context}
use toolexec.Run.Types.{ChainStep, StepResult, RunResult, no_result, ChainOutcome}
use toolexec.Run.Config.{DefaultRunner}
use toolexec.Run.Runner.{run, emit}
use toolexec.Run.Chain.{
  build_chain_args, step_result, ChainState, chain_step, chain_loop, last_result, run_chain,
  run_chain_with_progress,
}

-- The arguments of a step: its own, with the key "previous" overwritten where it asks for that.
abbrev pub Injected : ChainStep → Value → Fields → Type 0
Injected step previous args =
    (k : String)
    → get args k
      ≡ (if step.use_previous && str_eq "previous" k then some previous else get step.args k)

pub build_chain_args-Injected :
    (step : ChainStep) (previous : Value) → Injected step previous (build_chain_args step previous)
unfolding build_chain_args
build_chain_args-Injected step previous k = ground (arith, get-put step.args "previous" k previous)

-- What the chain returns beside its step results: the last result, or nothing after an error.
abbrev pub final_result : List StepResult → Option Err → RunResult
final_result results none = last_result results
final_result results (some e) = no_result

module _ {W : Type 0} (unmarshal : String → Option Value) (r : DefaultRunner W)
    (ctx : Context W) where
  -- `Runs previous steps w results e w'`: from the world `w` the steps run to `w'`, with these
  -- results and this error.
  pub data Runs : Value → List ChainStep → W → List StepResult → Option Err → W → Type 0 where
    done : {previous : Value} {w : W} → Runs previous [] w [] none w
    interrupted :
        {previous : Value} {step : ChainStep} {rest : List ChainStep} {w w' : W} {e : Err}
        → ctx w ≡ (some e, w')
        → Runs previous (step ∷ rest) w [] (some e) w'
    failed :
        {previous : Value} {step : ChainStep} {rest : List ChainStep} {w w₁ w' : W} {e : Err}
        (args : Fields)
        → ctx w ≡ (none, w₁)
        → Injected step previous args
        → run unmarshal r ctx step.tool_id args w₁ ≡ (err e, w')
        → Runs previous (step ∷ rest) w (step_result step (err e) ∷ []) (some e) w'
    stepped :
        {previous : Value} {step : ChainStep} {rest : List ChainStep} {w w₁ w₂ w' : W}
        {result : RunResult} {results : List StepResult} {e : Option Err} (args : Fields)
        → ctx w ≡ (none, w₁)
        → Injected step previous args
        → run unmarshal r ctx step.tool_id args w₁ ≡ (ok result, w₂)
        → Runs result.structured rest w₂ results e w'
        → Runs previous (step ∷ rest) w (step_result step (ok result) ∷ results) e w'

  record Meets (s : ChainState) (steps : List ChainStep) (w : W) (out : ChainOutcome × W)
      : Type 0 where
    new : List StepResult
    appended : out.0.steps ≡ s.results ++ new
    runs : Runs s.previous steps w new out.0.err out.1
    result : out.0.result ≡ final_result out.0.steps out.0.err

  after_step : ChainState → ChainStep → RunResult → ChainState
  after_step s step result = record {
    index = s.index + 1;
    previous = result.structured;
    results = s.results ++ step_result step (ok result) ∷ [];
  }

  module _ (total : ℕ) (s : ChainState) (step : ChainStep) (rest : List ChainStep) {w w₁ : W} where
    loop_ended :
        {e : Err}
        → ctx w ≡ (some e, w₁)
        → chain_loop unmarshal r ctx total none s (step ∷ rest) w
          ≡ (record { result = no_result; steps = s.results; err = some e }, w₁)
    unfolding chain_loop chain_step
    loop_ended hc = ground arith

    loop_failed :
        {w₂ : W} {e : Err}
        → ctx w ≡ (none, w₁)
        → run unmarshal r ctx step.tool_id (build_chain_args step s.previous) w₁ ≡ (err e, w₂)
        → chain_loop unmarshal r ctx total none s (step ∷ rest) w ≡ (
          record {
            result = no_result;
            steps = s.results ++ step_result step (err e) ∷ [];
            err = some e;
          },
          w₂,
        )
    unfolding chain_loop chain_step emit
    loop_failed hc hx = ground arith

    loop_stepped :
        {w₂ : W} {result : RunResult}
        → ctx w ≡ (none, w₁)
        → run unmarshal r ctx step.tool_id (build_chain_args step s.previous) w₁ ≡ (ok result, w₂)
        → chain_loop unmarshal r ctx total none s (step ∷ rest) w
          ≡ chain_loop unmarshal r ctx total none (after_step s step result) rest w₂
    unfolding chain_loop chain_step emit after_step
    loop_stepped hc hx = ground arith

  loop-cons :
      (total : ℕ) (s : ChainState) (step : ChainStep) (rest : List ChainStep) (w w₁ w₂ : W)
      (c : Option Err) (x : Result RunResult)
      → ctx w ≡ (c, w₁)
      → run unmarshal r ctx step.tool_id (build_chain_args step s.previous) w₁ ≡ (x, w₂)
      → ((s' : ChainState) → Meets s' rest w₂ (chain_loop unmarshal r ctx total none s' rest w₂))
      → Meets s (step ∷ rest) w (chain_loop unmarshal r ctx total none s (step ∷ rest) w)
  unfolding after_step
  loop-cons total s step rest w w₁ w₂ (some e) x hc hx ih =
      rw (loop_ended total s step rest hc)
        (record { new = []; appended = sym (append-nil _); runs = interrupted hc; result = refl })
  loop-cons total s step rest w w₁ w₂ none (err e) hc hx ih =
      rw (loop_failed total s step rest hc hx) (record {
        new = step_result step (err e) ∷ [];
        appended = refl;
        runs =
            failed (build_chain_args step s.previous) hc (build_chain_args-Injected step s.previous)
              hx;
        result = refl;
      })
  loop-cons total s step rest w w₁ w₂ none (ok result) hc hx ih =
      let m = ih (after_step s step result) in
      rw (loop_stepped total s step rest hc hx) (record {
        new = step_result step (ok result) ∷ m.new;
        appended = m.appended ∙ append_assoc s.results _ m.new;
        runs =
            stepped (build_chain_args step s.previous) hc
              (build_chain_args-Injected step s.previous) hx m.runs;
        result = m.result;
      })

  loop-Meets :
      (total : ℕ) (s : ChainState) (steps : List ChainStep) (w : W)
      → Meets s steps w (chain_loop unmarshal r ctx total none s steps w)
  unfolding chain_loop
  loop-Meets total s [] w = record {
    new = [];
    appended = sym (append-nil _);
    runs = done;
    result = refl;
  }
  loop-Meets total s (step ∷ rest) w =
      loop-cons total s step rest w (ctx w).1 _ (ctx w).0 _ refl refl
        (λ s'. loop-Meets total s' rest _)

  -- RunChain implements the specification: its step results and its error are those of running the
  -- steps in order, each with its arguments and, where it asks for that, the structured result of
  -- the step before under "previous", up to the first step that fails or finds the context ended;
  -- and it returns the last step's result, or the zero result beside an error.
  pub run_chain-Runs :
      (steps : List ChainStep) (w : W)
      → let (out, w') = run_chain unmarshal r ctx steps w in
        Runs null steps w out.steps out.err w' × (out.result ≡ final_result out.steps out.err)
  unfolding run_chain run_chain_with_progress emit last_result
  run_chain-Runs [] w = (done, refl)
  run_chain-Runs (step ∷ rest) w =
      let m =
        loop-Meets (length (step ∷ rest)) (record { index = 0; previous = null; results = [] })
          (step ∷ rest) w in
      (rw m.appended m.runs, m.result)
