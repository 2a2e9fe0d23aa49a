-- ===== src/Code/RuntimeEngine.antt =====
-- runtime/toolcodeengine: an engine of the code package that hands its snippets to a runtime, and
-- the tools of a snippet as the gateway of the runtime's request. Contexts are not nil.
pub mod Outcome
pub mod Isolation
use toolexec.Base.{
  ◌||◌, ◌/◌, ℕ, ℤ, pos, String, ◌≡◌, refl, Bool, true, false, Option, none, some, List, [], map,
  arith, is_empty, if◌then◌else◌, inl, inr, Bool-cases,
}
use toolexec.Model.{Summary, ToolDoc, ToolExample}
use toolexec.Value.{null, Fields, end}
use toolexec.Errors.{
  Err, sentinel, wrapped, errors_is, runtime_unavailable, timeout, resource_limit,
  sandbox_violation, limit_exceeded, code_execution, deadline_exceeded,
}
use toolexec.Effects.{Result, ok, err, Exec, Context, check, ◌>>◌, ◌>>=◌}
use toolexec.Run.Types.{ChainStep, RunResult, no_result, ChainOutcome}
use toolexec.Runtime.Types.{
  SecurityProfile, profile_standard, Limits, ToolCallRecord, ToolGateway, ExecuteRequest,
  ExecuteResult as RuntimeResult, no_execution,
}
use toolexec.Code.Tools.{CallRecord}
use toolexec.Code.Executor.{ExecuteParams, ExecuteResult, wrap_timeout}

-- The interface Tools of code/tools.go, without Println, which a gateway does not call.
pub record Tools (W : Type 0) : Type 0 where
  pub search_tools : Context W → String → ℤ → Exec W (List Summary)
  pub list_namespaces : Context W → Exec W (List String)
  pub describe_tool : Context W → String → String → Exec W ToolDoc
  pub list_tool_examples : Context W → String → ℤ → Exec W (List ToolExample)
  pub run_tool : Context W → String → Fields → W → (RunResult × Option Err) × W
  pub run_chain : Context W → List ChainStep → W → ChainOutcome × W

-- The interface Runtime, as far as the engine calls it.
abbrev pub RuntimeExecute : Type 0 → Type 0
RuntimeExecute W = Context W → ExecuteRequest W → W → (RuntimeResult × Option Err) × W

module _ {W : Type 0} where
  refuse_tool : Option Err → (W → (RunResult × Option Err) × W) → W → (RunResult × Option Err) × W
  refuse_tool (some e) call w = ((no_result, some e), w)
  refuse_tool none call w = call w

  refuse_chain : Option Err → (W → ChainOutcome × W) → W → ChainOutcome × W
  refuse_chain (some e) call w = (record { result = no_result; steps = []; err = some e }, w)
  refuse_chain none call w = call w

  -- Every call asks the context first. The gateway has no GetToolCalls.
  unfoldable pub wrap_tools : Tools W → ToolGateway W
  unfolding refuse_tool refuse_chain
  wrap_tools tools = record {
    search_tools = λ ctx query limit. check ctx >> tools.search_tools ctx query limit;
    list_namespaces = λ ctx. check ctx >> tools.list_namespaces ctx;
    describe_tool = λ ctx id level. check ctx >> tools.describe_tool ctx id level;
    list_tool_examples = λ ctx id n. check ctx >> tools.list_tool_examples ctx id n;
    run_tool =
        λ ctx id args w. let (e, w1) = ctx w in refuse_tool e (tools.run_tool ctx id args) w1;
    run_chain = λ ctx steps w. let (e, w1) = ctx w in refuse_chain e (tools.run_chain ctx steps) w1;
    get_tool_calls = none;
  }

pub record RuntimeEngine (W : Type 0) : Type 0 where
  pub runtime : Option (RuntimeExecute W)
  pub profile : SecurityProfile

module _ {W : Type 0} where
  engine_of : Option (RuntimeExecute W) → SecurityProfile → Result (RuntimeEngine W)
  engine_of none profile = err (sentinel runtime_unavailable)
  engine_of (some r) profile = ok (record {
    runtime = some r;
    profile = if is_empty profile then profile_standard else profile;
  })

  unfoldable pub new_engine : RuntimeEngine W → Result (RuntimeEngine W)
  unfolding engine_of
  new_engine cfg = engine_of cfg.runtime cfg.profile

-- a record of the runtime; its arguments, its result and the text of its error are not kept
unfoldable pub map_record : ToolCallRecord → CallRecord
map_record tc = record {
  tool_id = tc.tool_id;
  args = end;
  structured = null;
  backend_kind = tc.backend_kind;
  error = none;
  error_op = tc.error_op;
  duration_ms = tc.duration / 1000000;
}

unfoldable pub map_result : RuntimeResult → ExecuteResult
map_result r = record {
  value = r.value;
  stdout = r.stdout;
  stderr = r.stderr;
  tool_calls = map map_record r.tool_calls;
  duration_ms = r.duration / 1000000;
}

unfoldable pub map_error : Option Err → Option Err
map_error none = none
map_error (some e) =
    if errors_is e timeout
    then some (wrapped limit_exceeded e)
    else if errors_is e resource_limit
    then some (wrapped limit_exceeded e)
    else if errors_is e sandbox_violation
    then some (wrapped code_execution e)
    else some e

module _ {W : Type 0} where
  unfoldable pub request_of : SecurityProfile → ExecuteParams → Tools W → ExecuteRequest W
  request_of profile params tools = record {
    language = params.language;
    code = params.code;
    timeout = params.timeout;
    limits = record {
      max_tool_calls = params.max_tool_calls;
      max_chain_steps = pos 0;
      cpu_quota_millis = pos 0;
      memory_bytes = pos 0;
      pids_max = pos 0;
      disk_bytes = pos 0;
    };
    profile = profile;
    gateway = some (wrap_tools tools);
    metadata = end;
  }

  map_outcome : (RuntimeResult × Option Err) × W → (ExecuteResult × Option Err) × W
  map_outcome ((r, e), w) = ((map_result r, map_error e), w)

  run_on :
      Option (RuntimeExecute W)
      → Context W
      → ExecuteRequest W
      → W
      → (ExecuteResult × Option Err) × W
  unfolding map_outcome
  run_on none ctx req w = ((map_result no_execution, some (sentinel runtime_unavailable)), w)
  run_on (some execute) ctx req w = map_outcome (execute ctx req w)

  unfoldable pub execute :
      RuntimeEngine W → Context W → ExecuteParams → Tools W → W → (ExecuteResult × Option Err) × W
  unfolding run_on
  execute e ctx params tools w = run_on e.runtime ctx (request_of e.profile params tools) w
