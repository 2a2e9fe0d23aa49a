-- ===== src/Gateway/Proxy/Methods.antt =====
-- The six calls of the gateway of runtime/gateway/proxy/proxy.go, and the gateway as a ToolGateway.
use toolexec.Base.{ℤ, String, not, Option, none, some, List, [], ◌∷◌}
use toolexec.Model.{Summary, ToolDoc, ToolExample}
use toolexec.Value.{Fields, end}
use toolexec.Errors.{Err, sentinel, connection_closed}
use toolexec.Effects.{Result, ok, err, Exec, Context, pure, guard, ◌>>=◌, ◌>>◌}
use toolexec.Run.Types.{ChainStep, RunResult, no_result, StepResult, ChainOutcome}
use toolexec.Runtime.Types.{ToolGateway}
use toolexec.Gateway.Proxy.{
  Process, request, msg_search_tools, msg_list_namespaces, msg_describe_tool,
  msg_list_tool_examples, msg_run_tool, msg_run_chain,
}
use toolexec.Gateway.Proxy.Payloads.{
  decode_summaries, decode_namespaces, decode_doc, decode_examples, decode_step_results,
  read_result, search_payload, describe_payload, examples_payload, run_payload, chain_payload,
}

module _ {W : Type 0} (p : Process W) where
  -- `if g.closed.Load() { return ErrConnectionClosed }`
  unfoldable pub refuse_closed : Exec W (Unit {0})
  refuse_closed w = guard (not (p.load w).closed) (sentinel connection_closed) w

  unfoldable pub search_tools : Context W → String → ℤ → Exec W (List Summary)
  search_tools ctx query limit = do
    refuse_closed
    resp ← request p ctx msg_search_tools (search_payload query limit)
    pure (decode_summaries resp.payload)

  unfoldable pub list_namespaces : Context W → Exec W (List String)
  list_namespaces ctx = do
    refuse_closed
    resp ← request p ctx msg_list_namespaces end
    pure (decode_namespaces resp.payload)

  unfoldable pub describe_tool : Context W → String → String → Exec W ToolDoc
  describe_tool ctx id level = do
    refuse_closed
    resp ← request p ctx msg_describe_tool (describe_payload id level)
    pure (decode_doc resp.payload)

  unfoldable pub list_tool_examples : Context W → String → ℤ → Exec W (List ToolExample)
  list_tool_examples ctx id max_examples = do
    refuse_closed
    resp ← request p ctx msg_list_tool_examples (examples_payload id max_examples)
    pure (decode_examples resp.payload)

  unfoldable pub run_tool : Context W → String → Fields → Exec W RunResult
  run_tool ctx id args = do
    refuse_closed
    resp ← request p ctx msg_run_tool (run_payload id args)
    pure (read_result resp.payload)

  -- no step is no request
  chain_of : Context W → List ChainStep → Exec W (RunResult × List StepResult)
  chain_of ctx [] = pure (no_result, [])
  chain_of ctx (s ∷ ss) = do
    resp ← request p ctx msg_run_chain (chain_payload (s ∷ ss))
    pure (read_result resp.payload, decode_step_results resp.payload)

  unfoldable pub run_chain : Context W → List ChainStep → Exec W (RunResult × List StepResult)
  unfolding chain_of
  run_chain ctx steps = do refuse_closed; chain_of ctx steps

  tool_outcome : Result RunResult → RunResult × Option Err
  tool_outcome (ok r) = (r, none)
  tool_outcome (err e) = (no_result, some e)

  chain_outcome : Result (RunResult × List StepResult) → ChainOutcome
  chain_outcome (ok (r, steps)) = record { result = r; steps = steps; err = none }
  chain_outcome (err e) = record { result = no_result; steps = []; err = some e }

  -- It records no calls.
  unfoldable pub as_gateway : ToolGateway W
  unfolding tool_outcome chain_outcome
  as_gateway = record {
    search_tools = search_tools;
    list_namespaces = list_namespaces;
    describe_tool = describe_tool;
    list_tool_examples = list_tool_examples;
    run_tool = λ ctx id args w. let (r, w1) = run_tool ctx id args w in (tool_outcome r, w1);
    run_chain = λ ctx steps w. let (r, w1) = run_chain ctx steps w in (chain_outcome r, w1);
    get_tool_calls = none;
  }
