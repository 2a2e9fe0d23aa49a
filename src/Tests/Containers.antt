-- ===== src/Tests/Containers.antt =====
-- The theorems on the specifications of containers and on the Docker backend.
use toolexec.Base.{
  true, ℕ, suc, ◌^◌, ◌<◌, ℤ, ◌≡◌, refl, pos, none, some, if◌then◌else◌, str_eq, ◌∷◌, [],
}
use toolexec.Effects.{ok, Context}
use toolexec.Effects.Keeps.{Keeps}
use toolexec.Runtime.Types.{profile_standard, profile_hardened, ExecuteRequest}
use toolexec.Docker.Spec.{ContainerSpec}
use toolexec.Docker.Validation.{
  validate_security, validate_resources, validate_mounts, validate_spec, IsSandboxed,
}
use toolexec.Docker.Builder.{build}
use toolexec.Docker.Options.{spec_of, build_spec, positive_or_zero, positive_times_1000}
use toolexec.Docker.Execution.{ContainerRunner, DockerBackend, as_backend, execute}
use toolexec.Docker.Execution.Safety.{ServicesKeep, execute_isolated-Keeps}
use toolexec.Docker.Isolation.{IsIsolated, build_spec-limits}
use toolexec.Docker.Routed.{execute_docker-Keeps}
use toolexec.Base.Dict.{lookup}
use toolexec.Runtime.Router.{DefaultRuntime, effective_profile}
use toolexec.Runtime.Router
use toolexec.Tests.Fixture.{live, no_json}
use toolexec.Code.Executor.{ExecuteParams}
use toolexec.Code.RuntimeEngine.{Tools, RuntimeEngine, new_engine}
use toolexec.Code.RuntimeEngine
use toolexec.Code.RuntimeEngine.Isolation.{engine_profile, execute_snippet-Keeps}
use toolexec.Tests.Runtimes.{request, gateway}

-- A request for 2 ^ 64 / 1000 milliseconds of CPU time, and a little more.
abbrev greedy : ExecuteRequest ℕ
greedy = record request {
  limits = record request.limits {
    memory_bytes = pos 64;
    cpu_quota_millis = pos 18446744073709552;
  };
}

abbrev greedy_spec : ContainerSpec
unfolding spec_of positive_times_1000
greedy_spec = spec_of "seccomp.json" "image" greedy profile_hardened

greedy_spec-built : build_spec "seccomp.json" "image" greedy profile_hardened ≡ ok greedy_spec
unfolding greedy_spec build_spec build validate_spec validate_security validate_resources
    positive_or_zero positive_times_1000 validate_mounts
greedy_spec-built = refl

-- It gets 384 microseconds.
build_spec-limits_example :
    (greedy_spec.resources.memory_bytes ≡ pos 64)
    × (greedy_spec.resources.pids_limit ≡ pos 0)
    × (greedy_spec.resources.cpu_quota ≡ pos 384)
    × (384 < 2 ^ 63)
build_spec-limits_example =
    build_spec-limits "seccomp.json" "image" greedy profile_hardened greedy_spec 64 0
      18446744073709552 greedy_spec-built refl refl refl

-- A client that counts the runs with a network.
abbrev counting_client : ContainerRunner ℕ
counting_client = record {
  run = λ ctx spec w. (
    ok (record { exit_code = pos 0; stdout = ""; stderr = ""; duration = 0 }),
    if str_eq spec.security.network_mode "none" then w else suc w,
  );
}

abbrev docker : DockerBackend ℕ
docker = record {
  image_name = "image";
  seccomp_path = "";
  client = some counting_client;
  image_resolver = none;
  health_checker = none;
  logger = none;
}

abbrev with_timeout : ℤ → Context ℕ → Context ℕ
with_timeout t ctx = ctx

abbrev now : ℕ → ℕ
now w = w

isolated_runs :
    (client : ContainerRunner ℕ) (ctx : Context ℕ) (spec : ContainerSpec)
    → docker.client ≡ some client
    → IsIsolated "" profile_standard spec
    → Keeps (λ (w : ℕ). w ≡ 0) (client.run ctx spec)
isolated_runs client ctx spec e i =
    let same : client ≡ counting_client = cc in rw same (record { at = λ w h. rw i.network h })

docker_services : ServicesKeep (λ w. w ≡ 0) docker
docker_services = record {
  logger = λ write msg w e p. absurd cc;
  health = λ ping ctx e. absurd cc;
  resolver = λ resolve ctx e. absurd cc;
}

execute_isolated-Keeps_example : (execute no_json now with_timeout docker live request 0).1 ≡ 0
execute_isolated-Keeps_example =
    execute_isolated-Keeps (λ w. w ≡ 0) no_json now with_timeout docker live request 0
      (record { at = λ w h. h }) isolated_runs docker_services refl

-- The default profile is the hardened one, and the request names none.
abbrev routed : DefaultRuntime ℕ
routed = record {
  backends = (profile_hardened, as_backend no_json now with_timeout docker) ∷ [];
  deny_unsafe_profiles = profile_hardened ∷ [];
  default_profile = profile_hardened;
  logger = none;
}

execute_docker-Keeps_example : (Router.execute routed live request 0).1 ≡ 0
unfolding lookup effective_profile
execute_docker-Keeps_example =
    execute_docker-Keeps (λ w. w ≡ 0) no_json now with_timeout docker routed live request 0 refl
      (record { at = λ write msg w e p. absurd cc }) (record { at = λ w h. h })
      (record { at = λ w h. h }) isolated_runs docker_services refl

-- The standard profile is routed to Docker; a snippet's tools do nothing.
abbrev standard_runtime : DefaultRuntime ℕ
standard_runtime = record routed {
  backends = (profile_standard, as_backend no_json now with_timeout docker) ∷ [];
}

abbrev tools : Tools ℕ
tools = record {
  search_tools = gateway.search_tools;
  list_namespaces = gateway.list_namespaces;
  describe_tool = gateway.describe_tool;
  list_tool_examples = gateway.list_tool_examples;
  run_tool = gateway.run_tool;
  run_chain = gateway.run_chain;
}

abbrev params : ExecuteParams
params = record { language = "go"; code = "x"; timeout = pos 0; max_tool_calls = pos 0 }

abbrev engine : RuntimeEngine ℕ
engine = record { runtime = some (Router.execute standard_runtime); profile = profile_standard }

engine-made :
    new_engine (record { runtime = some (Router.execute standard_runtime); profile = "" })
    ≡ ok engine
unfolding new_engine
engine-made = refl

-- A client runs a spec that is off the network and the counter stays.
offline_runs_quietly :
    (client : ContainerRunner ℕ) (ctx : Context ℕ) (spec : ContainerSpec)
    → docker.client ≡ some client
    → IsSandboxed spec
    → spec.security.network_mode ≡ "none"
    → spec.security.read_only_rootfs ≡ true
    → Keeps (λ (w : ℕ). w ≡ 0) (client.run ctx spec)
offline_runs_quietly client ctx spec e s network root =
    let same : client ≡ counting_client = cc in rw same (record { at = λ w h. rw network h })

execute_snippet-Keeps_example : (RuntimeEngine.execute engine live params tools 0).1 ≡ 0
unfolding lookup engine_profile
execute_snippet-Keeps_example =
    execute_snippet-Keeps (λ w. w ≡ 0) no_json now with_timeout docker standard_runtime "" engine
      live params tools 0 engine-made refl refl offline_runs_quietly
      (record { at = λ write msg w e p. absurd cc }) (record { at = λ w h. h })
      (record { at = λ w h. h }) docker_services refl
