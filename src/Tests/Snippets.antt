-- ===== src/Tests/Snippets.antt =====
-- The theorems on snippets of code, with an engine that makes calls until it is refused.
use toolexec.Base.{ℕ, zero, suc, pos, over, ◌≡◌, refl, false, none, [], length}
use toolexec.Value.{Value, null}
use toolexec.Effects.{ok}
use toolexec.Run.Chain.{as_runner}
use toolexec.Code.Executor.{
  ExecuteParams, ExecuteResult, Script, finish, calls, chains, prints, Config, execute_code,
}
use toolexec.Code.Limits.{execute_code-limited}
use toolexec.Code.Tools.{ToolsConfig, CallRecord, new_tools, run_chain}
use toolexec.Code.Traces.{Traced, on_runner, run_chain-Traced}
use toolexec.Run.Chain.Refinement.{run_chain-Runs}
use toolexec.Base.{List, ◌++◌}
use toolexec.Tests.Fixture.{live, index, runner, no_json, args, steps}

-- what JSON makes of a value of another type
abbrev kept : Value → Value
kept v = v

abbrev empty_result : ExecuteResult
empty_result = record { value = null; stdout = ""; stderr = ""; tool_calls = []; duration_ms = 0 }

abbrev script : ℕ → Script ℕ
script zero = chains live steps (λ out. finish empty_result out.err)
script (suc n) = calls live "echo" args (λ out. prints "called" (script n))

abbrev config : Config ℕ
config = record {
  index = index;
  docs = record {
    describe_tool = λ id level w. (ok (record { summary = id; notes = level }), w);
    list_examples = λ id limit w. (ok [], w);
  };
  run = as_runner no_json runner;
  engine = λ ctx params. script 4;
  default_timeout = pos 0;
  default_language = "go";
  max_tool_calls = pos 3;
  max_chain_steps = pos 0;
  logger = none;
}

abbrev params : ExecuteParams
params = record { language = ""; code = "x"; timeout = pos 0; max_tool_calls = pos 2 }

execute_code-limited_example :
    let (result, _) = (execute_code kept (λ w. w) (λ t ctx. ctx) config live params 0).0 in
    (over (pos 3) (length result.tool_calls) ≡ false)
    × (over (pos 2) (length result.tool_calls) ≡ false)
execute_code-limited_example =
    execute_code-limited kept (λ w. w) (λ t ctx. ctx) config live params 0 refl

abbrev unlimited : ToolsConfig ℕ
unlimited = record {
  index = index;
  docs = config.docs;
  runner = config.run;
  max_tool_calls = pos 0;
  max_chain_steps = pos 0;
}

-- Two calls of the three steps happen.
run_chain-Traced_example :
    (cs : List CallRecord) × ((run_chain kept
        (λ w. w)
        (on_runner kept (λ w. w) no_json runner live unlimited)
        live
        steps
        new_tools
        0).1.tool_calls
      ≡ [] ++ cs)
    × Traced kept no_json runner live (run_chain-Runs no_json runner live steps 0).0 cs
run_chain-Traced_example =
    run_chain-Traced kept (λ w. w) no_json runner live unlimited steps new_tools 0 refl refl
