-- ===== src/Tests/Contracts.antt =====
-- The contract tests for a WebAssembly backend with a client, with a gateway that knows no tool.
use toolexec.Base.{ℕ, ℤ, ◌≡◌, pos, none, some, [], false}
use toolexec.Errors.{sentinel, index_not_found}
use toolexec.Effects.{ok, err, Context}
use toolexec.Run.Chain.{as_runner}
use toolexec.Runtime.Kinds.{backend_wasm}
use toolexec.Runtime.Contract.{GatewayContract, BackendContract, run_backend_contract_tests}
use toolexec.Runtime.Contract.Backends.{wasm, run_backend_contract_tests-nil}
use toolexec.Gateway.Direct.{Config, State, fresh, as_gateway}
use toolexec.Sandbox.Wasm.{WasmBackend, as_backend}
use toolexec.Tests.Fixture.{live, index, runner, no_json}

abbrev now : ℕ → ℕ
now w = w

abbrev with_timeout : ℤ → Context ℕ → Context ℕ
with_timeout t ctx = ctx

abbrev gateway : Config ℕ
gateway = record {
  index = index;
  docs = record {
    describe_tool = λ id level w. (err (sentinel index_not_found), w);
    list_examples = λ id limit w. (ok [], w);
  };
  runner = as_runner no_json runner;
  max_tool_calls = pos 3;
  max_chain_steps = pos 3;
}

abbrev keep : State → ℕ → ℕ
keep g w = w

abbrev gateway_contract : GatewayContract ℕ
gateway_contract = record { new_gateway = λ w. (as_gateway gateway now (λ w. fresh) keep, w) }

abbrev backend : WasmBackend ℕ
backend = record {
  runtime = "wazero";
  max_memory_pages = pos 256;
  enable_wasi = false;
  allowed_host_functions = [];
  client = some (λ ctx spec w. (ok (record { stdout = ""; stderr = ""; duration = 0 }), w));
  health_checker = none;
  logger = none;
}

abbrev backend_contract : BackendContract ℕ
backend_contract = record {
  new_backend = λ w. (as_backend backend no_json now with_timeout, w);
  new_gateway = gateway_contract.new_gateway;
  expected_kind = backend_wasm;
  skip_execution_tests = false;
}

run_backend_contract_tests-nil_example : (run_backend_contract_tests live backend_contract 0).0 ≡ []
run_backend_contract_tests-nil_example =
    run_backend_contract_tests-nil no_json now with_timeout live backend_contract
      (λ w. wasm backend) 0
