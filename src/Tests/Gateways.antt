-- ===== src/Tests/Gateways.antt =====
-- The theorems on the direct gateway, with limits of two calls and two steps.
use toolexec.Base.{ℕ, refl, pos, List, [], ◌∷◌}
use toolexec.Effects.{ok}
use toolexec.Model.{unset}
use toolexec.Run.Types.{ChainStep}
use toolexec.Run.Chain.{as_runner}
use toolexec.Runtime.Types.{ToolCallRecord}
use toolexec.Gateway.Direct.{Config, fresh, reset, reserve, add_records, run_tool, run_chain}
use toolexec.Gateway.Direct.Accounting.{IsAccounted, calls-IsAccounted}
use toolexec.Gateway.Direct.Concurrency.{
  System, tool, chain, pending, Reach, start, next, reset_all, begin_tool, begin_chain, end_tool,
  IsConsistent, Reach-IsConsistent,
}
use toolexec.Tests.Fixture.{live, index, runner, no_json, args, step, steps}

abbrev gateway : Config ℕ
gateway = record {
  index = index;
  docs = record {
    describe_tool = λ id level w. (ok (record { summary = id; notes = level }), w);
    list_examples = λ id limit w. (ok [], w);
  };
  runner = as_runner no_json runner;
  max_tool_calls = pos 3;
  max_chain_steps = pos 3;
}

abbrev now : ℕ → ℕ
now w = w

calls-IsAccounted_example :
    IsAccounted (pos 3) (run_tool gateway live now "echo" args fresh 0).1
    × IsAccounted (pos 3) (run_chain gateway live now steps fresh 0).1
calls-IsAccounted_example =
    calls-IsAccounted gateway live now "echo" args steps fresh 0
      (record { recorded = refl; limited = refl })

abbrev one_call : ToolCallRecord
one_call = record { tool_id = "echo"; backend_kind = unset; duration = 0; error_op = "" }

-- A chain of two is in flight at a Reset, and then a call begins and ends: with a limit of two, three
-- calls are recorded or in flight.
abbrev two_steps : List ChainStep
two_steps = step "echo" ∷ step "echo" ∷ []

abbrev begun : System
begun = record { state = record { call_count = 2; tool_calls = [] }; tasks = chain two_steps ∷ [] }

abbrev with_tool : System
with_tool = record {
  state = record { call_count = 1; tool_calls = [] };
  tasks = tool ∷ chain two_steps ∷ [];
}

abbrev tool_recorded : System
tool_recorded = record {
  state = record { call_count = 1; tool_calls = one_call ∷ [] };
  tasks = chain two_steps ∷ [];
}

reached : Reach (pos 2) 2 tool_recorded
unfolding reserve add_records reset pending
reached =
    next
      (next (reset_all {s = begun} (next start (begin_chain _ two_steps begun.state refl)))
        (begin_tool _ with_tool.state refl))
      (end_tool with_tool [] (chain two_steps ∷ []) one_call refl)

Reach-IsConsistent_example : IsConsistent (pos 2) 2 tool_recorded
Reach-IsConsistent_example = Reach-IsConsistent {max = pos 2} {n = 2} {s = tool_recorded} reached
