-- ===== src/Runtime/Contract.antt =====
-- The contract tests of runtime/contract.go. A test is run for the failures that it reports: Errorf
-- goes on, Fatalf and Skipf end the subtest. `background` is context.Background(), `cancelled` the
-- context that has been cancelled, and `detail_summary` tooldoc.DetailSummary.
pub mod Laws
pub mod Backends
use toolexec.Base.{
  ℕ, ℤ, pos, String, Bool, Option, none, some, List, [], ◌∷◌, ◌++◌, length, ltb, is_empty, is_some,
  str_eq, not, if◌then◌else◌,
}
use toolexec.Value.{Fields, end}
use toolexec.Errors.{Err}
use toolexec.Effects.{Result, ok, err, Context}
use toolexec.Model.{Summary, ToolDoc}
use toolexec.Run.Types.{ChainOutcome}
use toolexec.Runtime.Types.{Limits, ToolGateway, ExecuteRequest, ExecuteResult, Backend}

-- what a test changes, and the failures that it reports
abbrev pub Test : Type 0 → Type 0
Test W = W → List String × W

unfoldable pub run_tests : {W : Type 0} → List (Test W) → Test W
run_tests [] w = ([], w)
run_tests (t ∷ ts) w =
    let (failures, w1) = t w in let (more, w2) = run_tests ts w1 in (failures ++ more, w2)

-- t.Errorf, if the condition holds
unfoldable pub fails_if : Bool → String → List String
fails_if b message = if b then message ∷ [] else []

abbrev pub unlimited : Limits
unlimited = record {
  max_tool_calls = pos 0;
  max_chain_steps = pos 0;
  cpu_quota_millis = pos 0;
  memory_bytes = pos 0;
  pids_max = pos 0;
  disk_bytes = pos 0;
}

-- GatewayContract
pub record GatewayContract (W : Type 0) : Type 0 where
  pub new_gateway : W → ToolGateway W × W

-- BackendContract
pub record BackendContract (W : Type 0) : Type 0 where
  pub new_backend : W → Backend W × W
  pub new_gateway : W → ToolGateway W × W
  pub expected_kind : String
  pub skip_execution_tests : Bool

module _ {W : Type 0} (background cancelled : Context W) (detail_summary : String)
    (contract : GatewayContract W) where
  too_many : Result (List Summary) → List String
  unfolding fails_if
  too_many (err e) = "SearchTools() error" ∷ []
  too_many (ok results) =
      fails_if (ltb 5 (length results)) "SearchTools() returned too many results"

  fails_on_error : {A : Type 0} → String → Result A → List String
  fails_on_error message (err e) = message ∷ []
  fails_on_error message (ok a) = []

  fails_on_success : {A : Type 0} → String → Result A → List String
  fails_on_success message (err e) = []
  fails_on_success message (ok a) = message ∷ []

  search_limited : Test W
  unfolding too_many
  search_limited w =
      let (g, w1) = contract.new_gateway w in
      let (r, w2) = g.search_tools background "" (pos 5) w1 in (too_many r, w2)

  search_empty : Test W
  unfolding fails_on_error
  search_empty w =
      let (g, w1) = contract.new_gateway w in
      let (r, w2) = g.search_tools background "" (pos 10) w1 in
      (fails_on_error "SearchTools() with empty query error" r, w2)

  -- no failure, whatever is returned
  search_cancelled : Test W
  search_cancelled w =
      let (g, w1) = contract.new_gateway w in
      let (r, w2) = g.search_tools cancelled "test" (pos 10) w1 in ([], w2)

  namespaces_listed : Test W
  unfolding fails_on_error
  namespaces_listed w =
      let (g, w1) = contract.new_gateway w in
      let (r, w2) = g.list_namespaces background w1 in
      (fails_on_error "ListNamespaces() error" r, w2)

  missing_described : Test W
  unfolding fails_on_success
  missing_described w =
      let (g, w1) = contract.new_gateway w in
      let (r, w2) = g.describe_tool background "nonexistent:tool" detail_summary w1 in
      (fails_on_success "DescribeTool() for non-existent tool should return error" r, w2)

  tool_cancelled : Test W
  tool_cancelled w =
      let (g, w1) = contract.new_gateway w in
      let (r, w2) = g.run_tool cancelled "test:tool" end w1 in ([], w2)

  chain_failures : ChainOutcome → List String
  unfolding fails_if
  chain_failures out =
      fails_if (is_some out.err) "RunChain() error"
      ++ fails_if (ltb 0 (length out.steps)) "RunChain() returned results"

  -- for empty steps and for nil ones, which are the same list
  chain_empty : Test W
  unfolding chain_failures
  chain_empty w =
      let (g, w1) = contract.new_gateway w in
      let (out, w2) = g.run_chain background [] w1 in (chain_failures out, w2)

  gateway_contract_tests : List (Test W)
  unfolding search_limited search_empty search_cancelled namespaces_listed missing_described
      tool_cancelled chain_empty
  gateway_contract_tests =
      search_limited ∷ search_empty ∷ search_cancelled ∷ namespaces_listed ∷ missing_described
      ∷ tool_cancelled ∷ chain_empty ∷ chain_empty ∷ []

  unfoldable pub run_gateway_contract_tests : Test W
  unfolding run_tests gateway_contract_tests
  run_gateway_contract_tests = run_tests gateway_contract_tests

module _ {W : Type 0} (background : Context W) (contract : BackendContract W) where
  kind_named : Test W
  unfolding fails_if
  kind_named w =
      let (b, w1) = contract.new_backend w in
      (fails_if (is_empty b.kind) "Kind() should not return empty string", w1)

  kind_expected : Test W
  unfolding fails_if
  kind_expected w =
      let (b, w1) = contract.new_backend w in
      (fails_if (not (str_eq b.kind contract.expected_kind)) "Kind() is not the expected one", w1)

  unfoldable pub request : String → Option (ToolGateway W) → ExecuteRequest W
  request code gateway = record {
    language = "";
    code = code;
    timeout = pos 0;
    limits = unlimited;
    profile = "";
    gateway = gateway;
    metadata = end;
  }

  refusal_failures : String → ExecuteResult × Option Err → List String
  unfolding fails_if
  refusal_failures message (r, e) = fails_if (not (is_some e)) message

  gateway_required : Test W
  unfolding request refusal_failures
  gateway_required w =
      let (b, w1) = contract.new_backend w in
      let (out, w2) = b.execute background (request "print('hello')" none) w1 in
      (refusal_failures "Execute() without gateway should return error" out, w2)

  -- the gateway is made after the backend
  code_required : Test W
  unfolding request refusal_failures
  code_required w =
      let (b, w1) = contract.new_backend w in
      let (g, w2) = contract.new_gateway w1 in
      let (out, w3) = b.execute background (request "" (some g)) w2 in
      (refusal_failures "Execute() without code should return error" out, w3)

  -- an error skips the test
  kind_failures : ExecuteResult × Option Err → List String
  unfolding fails_if
  kind_failures (r, some e) = []
  kind_failures (r, none) =
      fails_if (not (str_eq r.backend.kind contract.expected_kind))
        "Execute() result has another kind"

  kind_reported : Test W
  unfolding request kind_failures
  kind_reported w =
      let (b, w1) = contract.new_backend w in
      let (g, w2) = contract.new_gateway w1 in
      let (out, w3) = b.execute background (request "__out = \"hello\"" (some g)) w2 in
      (kind_failures out, w3)

  backend_contract_tests : List (Test W)
  unfolding kind_named kind_expected gateway_required code_required kind_reported
  backend_contract_tests =
      kind_named
      ∷ kind_expected
      ∷ gateway_required
      ∷ code_required
      ∷ (if contract.skip_execution_tests then [] else kind_reported ∷ [])

  unfoldable pub run_backend_contract_tests : Test W
  unfolding run_tests backend_contract_tests
  run_backend_contract_tests = run_tests backend_contract_tests
