-- ===== src/Gateway/Direct.antt =====
-- runtime/gateway/direct/direct.go. The state is what the mutex guards; the pieces of a call that
-- run under it are functions of their own, since other calls may come between them. Subtraction
-- on ℕ stops at 0, which is the clamp `if g.callCount < 0 { g.callCount = 0 }`.
pub mod Accounting
pub mod Concurrency
use mathlib.Core.Option
use toolexec.Base.{
  ℕ, zero, suc, ◌+◌, ◌-◌, ◌/◌, ℤ, over, String, Bool, ◌&&◌, Option, none, some, List, [], ◌∷◌, ◌++◌,
  length, take, leb, if◌then◌else◌,
}
use toolexec.Model.{BackendKind, unset, Summary, ToolDoc, ToolExample}
use toolexec.Value.{Fields}
use toolexec.Errors.{Err, message, wrapped, tool_call_limit_exceeded, chain_step_limit_exceeded}
use toolexec.Effects.{Exec, Context, check, ◌>>=◌, ◌>>◌}
use toolexec.Run.Types.{ChainStep, RunResult, no_result, StepResult, ChainOutcome}
use toolexec.Run.Config.{Index, Store}
use toolexec.Run.Runner.{Runner}
use toolexec.Runtime.Types.{ToolCallRecord, ToolGateway}

-- Config, and the fields of Gateway that do not change.
pub record Config (W : Type 0) : Type 0 where
  pub index : Index W
  pub docs : Store W
  pub runner : Runner W
  pub max_tool_calls : ℤ
  pub max_chain_steps : ℤ

pub record State : Type 0 where
  pub call_count : ℕ
  pub tool_calls : List ToolCallRecord

-- The state of New, and of Reset.
abbrev pub fresh : State
fresh = record { call_count = 0; tool_calls = [] }

unfoldable pub reset : State → State
reset g = fresh

unfoldable pub get_tool_calls : State → List ToolCallRecord
get_tool_calls g = g.tool_calls

-- The first section under the mutex: count `n` calls, unless they pass the limit. For one call
-- the source tests `callCount >= max`, which is `callCount + 1 > max`.
unfoldable pub reserve : ℤ → ℕ → State → Option State
reserve max n g =
    if over max (g.call_count + n) then none else some (record g { call_count = g.call_count + n })

-- give back what a chain counted and did not execute
unfoldable pub release : ℕ → State → State
release n g = record g { call_count = g.call_count - n }

unfoldable pub add_records : List ToolCallRecord → State → State
add_records records g = record g { tool_calls = g.tool_calls ++ records }

abbrev error_op : String → Option Err → String
error_op op none = ""
error_op op (some e) = op

-- How many steps of a chain count as executed: its step results, or all its steps where a runner
-- reports neither results nor an error; never more than the chain has.
unfoldable pub executed_steps : ℕ → ChainOutcome → ℕ
executed_steps reserved out = elim out.steps [
  | [] ↦ elim out.err [ none ↦ reserved | some e ↦ 0 ]
  | s ∷ ss ↦ if leb reserved (length (s ∷ ss)) then reserved else length (s ∷ ss)
]

-- the records of the executed steps; a step beyond the step results has no error and no kind
unfoldable pub chain_records : ℕ → List ChainStep → List StepResult → List ToolCallRecord
chain_records duration [] results = []
chain_records duration (step ∷ steps) [] =
    record { tool_id = step.tool_id; backend_kind = unset; duration = duration; error_op = "" }
    ∷ chain_records duration steps []
chain_records duration (step ∷ steps) (s ∷ results) =
    record {
      tool_id = step.tool_id;
      backend_kind = s.backend.kind;
      duration = duration;
      error_op = error_op "chain" s.err;
    }
    ∷ chain_records duration steps results

-- the pieces of RunChain after the runner has returned
unfoldable pub settle_chain : List ChainStep → ChainOutcome → ℕ → State → State
settle_chain steps out duration g =
    let executed = executed_steps (length steps) out in
    let g1 = release (length steps - executed) g in
    add_records (chain_records (duration / executed) (take executed steps) out.steps) g1

module _ {W : Type 0} (cfg : Config W) (ctx : Context W) where
  -- The four lookups ask the context first.
  unfoldable pub search_tools : String → ℤ → Exec W (List Summary)
  search_tools query limit = do check ctx; cfg.index.search query limit

  unfoldable pub list_namespaces : Exec W (List String)
  list_namespaces = do check ctx; cfg.index.list_namespaces

  unfoldable pub describe_tool : String → String → Exec W ToolDoc
  describe_tool id level = do check ctx; cfg.docs.describe_tool id level

  unfoldable pub list_tool_examples : String → ℤ → Exec W (List ToolExample)
  list_tool_examples id max_examples = do check ctx; cfg.docs.list_examples id max_examples

  module _ (now : W → ℕ) where
    tool_record : String → ℕ → RunResult × Option Err → ToolCallRecord
    tool_record id duration (result, e) = record {
      tool_id = id;
      backend_kind = result.backend.kind;
      duration = duration;
      error_op = error_op "run" e;
    }

    call_tool : String → Fields → Option State → State → W → (RunResult × Option Err) × State × W
    unfolding tool_record
    call_tool id args none g w =
        ((no_result, some (wrapped tool_call_limit_exceeded (message "max calls exceeded"))), g, w)
    call_tool id args (some g') g w =
        let (out, w1) = cfg.runner.run ctx id args w in
        (out, add_records (tool_record id (now w1 - now w) out ∷ []) g', w1)

    tool_unless_ended :
        String → Fields → Option Err → State → W → (RunResult × Option Err) × State × W
    unfolding call_tool
    tool_unless_ended id args (some e) g w = ((no_result, some e), g, w)
    tool_unless_ended id args none g w = call_tool id args (reserve cfg.max_tool_calls 1 g) g w

    -- RunTool, when no other call comes between its pieces
    unfoldable pub run_tool : String → Fields → State → W → (RunResult × Option Err) × State × W
    unfolding tool_unless_ended
    run_tool id args g w = let (e, w1) = ctx w in tool_unless_ended id args e g w1

    refuse : Err → State → W → ChainOutcome × State × W
    refuse e g w = (record { result = no_result; steps = []; err = some e }, g, w)

    call_chain : List ChainStep → Option State → State → W → ChainOutcome × State × W
    unfolding refuse
    call_chain steps none g w =
        refuse (wrapped tool_call_limit_exceeded (message "would exceed max calls")) g w
    call_chain steps (some g') g w =
        let (out, w1) = cfg.runner.run_chain ctx steps w in
        (out, settle_chain steps out (now w1 - now w) g', w1)

    chain_unless_ended : List ChainStep → Option Err → State → W → ChainOutcome × State × W
    unfolding call_chain
    chain_unless_ended steps (some e) g w = refuse e g w
    chain_unless_ended [] none g w = (record { result = no_result; steps = []; err = none }, g, w)
    chain_unless_ended (step ∷ rest) none g w =
        if over cfg.max_chain_steps (length (step ∷ rest))
        then refuse (wrapped chain_step_limit_exceeded (message "max steps exceeded")) g w
        else call_chain (step ∷ rest) (reserve cfg.max_tool_calls (length (step ∷ rest)) g) g w

    -- RunChain, when no other call comes between its pieces
    unfoldable pub run_chain : List ChainStep → State → W → ChainOutcome × State × W
    unfolding chain_unless_ended
    run_chain steps g w = let (e, w1) = ctx w in chain_unless_ended steps e g w1

module _ {W : Type 0} (cfg : Config W) (now : W → ℕ) (load : W → State)
    (store : State → W → W) where
  stored : {A : Type 0} → A × State × W → A × W
  stored (out, g, w) = (out, store g w)

  -- The gateway as the runtime sees it, where its state stands in the world, and no other call
  -- comes between the pieces of one.
  unfoldable pub as_gateway : ToolGateway W
  unfolding stored
  as_gateway = record {
    search_tools = search_tools cfg;
    list_namespaces = list_namespaces cfg;
    describe_tool = describe_tool cfg;
    list_tool_examples = list_tool_examples cfg;
    run_tool = λ ctx id args w. stored (run_tool cfg ctx now id args (load w) w);
    run_chain = λ ctx steps w. stored (run_chain cfg ctx now steps (load w) w);
    get_tool_calls = some (λ w. get_tool_calls (load w));
  }
