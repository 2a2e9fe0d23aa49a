-- ===== src/Tests/Runtimes.antt =====
-- The theorems on requests and on the routing between backends.
use toolexec.Base.{
  ℕ, suc, ◌≡◌, refl, ◌≢◌, String, Bool, true, false, str_eq, if◌then◌else◌, pos, Option, none, some,
  [], ◌∷◌, arith,
}
use toolexec.Base.Dict.{contains, lookup}
use toolexec.Effects.{ok}
use toolexec.Value.{end}
use toolexec.Run.Types.{no_result}
use toolexec.Runtime.Types.{
  Limits, ToolGateway, ExecuteRequest, ExecuteResult, no_execution, Backend, profile_hardened,
}
use toolexec.Runtime.Limits.{validate_request}
use toolexec.Runtime.Kinds.{backend_unsafe_host, backend_docker, readiness_prod}
use toolexec.Runtime.Router.{DefaultRuntime, effective_profile, new_runtime, execute}
use toolexec.Runtime.Router.Policy.{execute_denied-Keeps}
use toolexec.Runtime.Router.Reports.{IsReported, execute-IsReported}
use toolexec.Runtime.Contract.Laws.{Conforms}
use toolexec.Errors.{Err}
use mathlib.Core.Path.{subst}
use toolexec.Tests.Fixture.{live}

abbrev no_limits : Limits
no_limits = record {
  max_tool_calls = pos 0;
  max_chain_steps = pos 0;
  cpu_quota_millis = pos 0;
  memory_bytes = pos 0;
  pids_max = pos 0;
  disk_bytes = pos 0;
}

abbrev pub gateway : ToolGateway ℕ
gateway = record {
  search_tools = λ ctx query limit w. (ok [], w);
  list_namespaces = λ ctx w. (ok [], w);
  describe_tool = λ ctx id level w. (ok (record { summary = ""; notes = "" }), w);
  list_tool_examples = λ ctx id limit w. (ok [], w);
  run_tool = λ ctx id args w. ((no_result, none), suc w);
  run_chain = λ ctx steps w. (record { result = no_result; steps = []; err = none }, w);
  get_tool_calls = none;
}

-- A request that names no profile.
abbrev pub request : ExecuteRequest ℕ
request = record {
  language = "go";
  code = "x";
  timeout = pos 0;
  limits = no_limits;
  profile = "";
  gateway = some gateway;
  metadata = end;
}

abbrev backend_of_kind : String → Backend ℕ
backend_of_kind kind = record { kind = kind; execute = λ ctx req w. ((no_execution, none), suc w) }

-- The unsafe backend is the one of the default profile, which is denied it.
abbrev runtime : DefaultRuntime ℕ
runtime = record {
  backends = (profile_hardened, backend_of_kind backend_unsafe_host) ∷ [];
  deny_unsafe_profiles = profile_hardened ∷ [];
  default_profile = profile_hardened;
  logger = none;
}

only_unsafe :
    (profile : String) (b : Backend ℕ)
    → lookup runtime.backends profile ≡ some b
    → b.kind ≡ backend_unsafe_host
unfolding lookup
only_unsafe profile b e = ground arith

execute_denied-Keeps_example : (execute runtime live request 0).1 ≡ 0
unfolding contains effective_profile lookup
execute_denied-Keeps_example =
    execute_denied-Keeps (λ w. w ≡ 0) runtime live request
      (record { at = λ write msg w e p. absurd cc }) 0 (record { at = λ w h. h }) refl
      (λ profile b e safe w h. absurd (safe (only_unsafe profile b e))) refl

abbrev docker_result : ExecuteResult
docker_result = record no_execution {
  backend = record { kind = backend_docker; readiness = readiness_prod; details = end };
}

-- what a backend that refuses an invalid request and runs any other does
careful_execute : Option Err → ℕ → (ExecuteResult × Option Err) × ℕ
careful_execute none w = ((docker_result, none), suc w)
careful_execute (some e) w = ((no_execution, some e), w)

abbrev careful : Backend ℕ
careful = record {
  kind = backend_docker;
  execute = λ ctx req w. careful_execute (validate_request req) w;
}

careful-refuses : (o : Option Err) (w : ℕ) → o ≢ none → (careful_execute o w).0.1 ≢ none
unfolding careful_execute
careful-refuses none w h e = h refl
careful-refuses (some x) w h e = cc

careful-reports :
    (o : Option Err) (w : ℕ)
    → (careful_execute o w).0.1 ≡ none
    → (careful_execute o w).0.0.backend.kind ≡ backend_docker
unfolding careful_execute
careful-reports none w h = refl
careful-reports (some x) w h = absurd cc

careful-Conforms : Conforms careful
careful-Conforms = record {
  named = refl;
  refuses = λ ctx req w invalid. careful-refuses (validate_request req) w invalid;
  reports = λ ctx req w h. careful-reports (validate_request req) w h;
}

abbrev configured : DefaultRuntime ℕ
unfolding new_runtime
configured = new_runtime (record {
  backends = (profile_hardened, careful) ∷ [];
  deny_unsafe_profiles = profile_hardened ∷ [];
  default_profile = profile_hardened;
  logger = none;
})

one_found : {A : Type 0} (c : Bool) (x y : A) → (if c then some x else none) ≡ some y → x ≡ y
one_found true x y h = cc
one_found false x y h = absurd cc

only_careful :
    (profile : String) (b : Backend ℕ) → lookup configured.backends profile ≡ some b → Conforms b
unfolding lookup configured
only_careful profile b e =
    subst Conforms (one_found (str_eq profile_hardened profile) careful b e) careful-Conforms

execute-IsReported_example : IsReported configured live request docker_result
unfolding execute lookup effective_profile contains careful_execute validate_request configured
execute-IsReported_example =
    execute-IsReported configured live request only_careful 0 docker_result refl
