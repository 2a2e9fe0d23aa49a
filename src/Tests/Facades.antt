-- ===== src/Tests/Facades.antt =====
-- The theorems on the facade, with the handlers of the fixture.
use toolexec.Base.{ℕ, ◌≡◌, pos, true, false, none, some, [], ◌∷◌, List}
use toolexec.Effects.{ok}
use toolexec.Facade.Options.{Options, Facade, ExecStep, facade_of}
use toolexec.Run.Types.{ChainStep}
use toolexec.Run.Chain
use toolexec.Facade.Chains.{IsGiven, IsExecReport, run_chain-IsExecReport}
use toolexec.Facade.{ExecOutcome, run_chain}
use toolexec.Run.Config.{Store}
use toolexec.Tests.Fixture.{live, index, accept_all, first, handler, no_json, args}

abbrev docs : Store ℕ
docs = record {
  describe_tool = λ id level w. (ok (record { summary = id; notes = level }), w);
  list_examples = λ id limit w. (ok [], w);
}

abbrev options : Options ℕ
options = record {
  index = some index;
  docs = some docs;
  local_handlers = ("echo", some (handler "echo")) ∷ ("broken", some (handler "broken")) ∷ [];
  mcp_executor = none;
  provider_executor = none;
  security_profile = "";
  enable_code_execution = false;
  max_tool_calls = pos 0;
  default_language = "";
  default_timeout = pos 0;
  validate_input = false;
  validate_output = false;
}

abbrev facade : Facade ℕ
facade = facade_of accept_all first options index docs

abbrev exec_step : ExecStep
exec_step = record { tool_id = "echo"; args = args; use_previous = true; stop_on_error = none }

abbrev exec_steps : List ExecStep
exec_steps = exec_step ∷ record exec_step { tool_id = "broken" } ∷ exec_step ∷ []

run_chain-IsExecReport_example :
    (given : List ChainStep) × IsGiven exec_steps given
    × (out : ExecOutcome) × (run_chain no_json (λ w. w) facade live exec_steps 0
        ≡ (some out, (Chain.run_chain no_json facade.runner live given 0).1))
    × IsExecReport exec_steps (Chain.run_chain no_json facade.runner live given 0).0 out
run_chain-IsExecReport_example = run_chain-IsExecReport no_json (λ w. w) facade live exec_steps 0
