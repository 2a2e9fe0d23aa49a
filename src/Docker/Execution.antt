-- ===== src/Docker/Execution.antt =====
-- Execute of runtime/backend/docker/docker.go, and New. The client, the image resolver and the
-- health checker are interfaces that other code implements; context.WithTimeout is a parameter.
pub mod Safety
pub mod Conformance
use toolexec.Base.{
  ℕ, zero, suc, ◌-◌, ◌*◌, ◌^◌, ℤ, pos, negsuc, String, Bool, true, false, Option, none, some, List,
  [], ◌∷◌, is_empty, if◌then◌else◌, is_some,
}
use toolexec.Value.{Value, Fields, field, end, str}
use toolexec.Errors.{Err, sentinel, wrapped, client_not_configured, daemon_unavailable}
use toolexec.Effects.{
  Result, ok, err, Exec, pure, fail, map_err, guard, check, Context, ◌>>=◌, ◌>>◌,
}
use toolexec.Runtime.Kinds.{backend_docker, readiness_prod}
use toolexec.Runtime.Types.{
  SecurityProfile, profile_standard, ExecuteRequest, ExecuteResult, no_execution, BackendInfo,
  nothing_enforced, Backend,
}
use toolexec.Runtime.Limits.{validate_request}
use toolexec.Docker.Spec.{ContainerSpec, ContainerResult}
use toolexec.Docker.Options.{build_spec}
use toolexec.Docker.Output.{extract_out_value}

-- ContainerRunner
pub record ContainerRunner (W : Type 0) : Type 0 where
  pub run : Context W → ContainerSpec → Exec W ContainerResult

pub record DockerBackend (W : Type 0) : Type 0 where
  pub image_name : String
  pub seccomp_path : String
  pub client : Option (ContainerRunner W)
  pub image_resolver : Option (Context W → String → Exec W String)
  pub health_checker : Option (Context W → Exec W (Unit {0}))
  pub logger : Option (String → W → W)

-- The backend that is made from a configuration, which has the same fields.
unfoldable pub new_backend : {W : Type 0} → DockerBackend W → DockerBackend W
new_backend cfg = record cfg {
  image_name = if is_empty cfg.image_name then "toolruntime-sandbox:latest" else cfg.image_name;
}

-- `limit > 0`
abbrev is_positive : ℤ → Bool
is_positive (pos (suc n)) = true
is_positive _ = false

module _ {W : Type 0} (unmarshal : String → Option Value) (now : W → ℕ)
    (with_timeout : ℤ → Context W → Context W) (b : DockerBackend W) where
  unfoldable pub backend_info : SecurityProfile → BackendInfo
  backend_info profile = record {
    kind = backend_docker;
    readiness = readiness_prod;
    details = field "image" (str b.image_name) (field "profile" (str profile) end);
  }

  -- 30 seconds where the request has no timeout
  abbrev pub effective_timeout : ℤ → ℤ
  effective_timeout (pos zero) = pos (30 * 10 ^ 9)
  effective_timeout t = t

  abbrev pub effective_profile : SecurityProfile → SecurityProfile
  effective_profile p = if is_empty p then profile_standard else p

  refuse : Option Err → Exec W (Unit {0})
  refuse none = pure tt
  refuse (some e) = fail e

  health_check : Option (Context W → Exec W (Unit {0})) → Context W → Exec W (Unit {0})
  health_check none ctx = pure tt
  health_check (some ping) ctx = map_err (wrapped daemon_unavailable) (ping ctx)

  resolve_image : Option (Context W → String → Exec W String) → Context W → Exec W String
  resolve_image none ctx = pure b.image_name
  resolve_image (some resolve) ctx = resolve ctx b.image_name

  lift : Result ContainerSpec → Exec W ContainerSpec
  lift (ok spec) = pure spec
  lift (err e) = fail e

  -- time.Now()
  read_clock : Exec W ℕ
  read_clock w = (ok (now w), w)

  -- Everything before the client is called: the time when it began, and the spec.
  unfoldable pub prepare_spec : Context W → ExecuteRequest W → Exec W (ℕ × ContainerSpec)
  unfolding refuse read_clock health_check resolve_image lift
  prepare_spec ctx req = do
    refuse (validate_request req)
    guard (is_some b.client) (sentinel client_not_configured)
    check ctx
    start ← read_clock
    health_check b.health_checker ctx
    image ← resolve_image b.image_resolver ctx
    spec ← lift (build_spec b.seccomp_path image req (effective_profile req.profile))
    pure (start, spec)

  log : Option (String → W → W) → W → W
  log none w = w
  log (some write) w = write "executing in Docker container" w

  convert : ExecuteRequest W → ℕ → Result ContainerResult → ExecuteResult × Option Err
  convert req elapsed (ok c) = (
    record {
      value = extract_out_value unmarshal c.stdout;
      stdout = c.stdout;
      stderr = c.stderr;
      tool_calls = [];
      duration = c.duration;
      backend = backend_info (effective_profile req.profile);
      limits_enforced = record {
        timeout = true;
        tool_calls = true;
        chain_steps = true;
        memory = is_positive req.limits.memory_bytes;
        cpu = is_positive req.limits.cpu_quota_millis;
        pids = is_positive req.limits.pids_max;
        disk = false;
      };
    },
    none,
  )
  convert req elapsed (err e) = (
    record no_execution {
      duration = elapsed;
      backend = backend_info (effective_profile req.profile);
    },
    some e,
  )

  -- The client is nil only where `prepare_spec` has failed.
  run_client :
      Option (ContainerRunner W)
      → Context W
      → ExecuteRequest W
      → ContainerSpec
      → ℕ
      → W
      → (ExecuteResult × Option Err) × W
  unfolding log convert
  run_client none ctx req spec start w = ((no_execution, some (sentinel client_not_configured)), w)
  run_client (some client) ctx req spec start w =
      let (result, w1) = client.run ctx spec (log b.logger w) in
      (convert req (now w1 - start) result, w1)

  run_prepared :
      Context W
      → ExecuteRequest W
      → Result (ℕ × ContainerSpec)
      → W
      → (ExecuteResult × Option Err) × W
  unfolding run_client
  run_prepared ctx req (ok (start, spec)) w = run_client b.client ctx req spec start w
  run_prepared ctx req (err e) w = ((no_execution, some e), w)

  unfoldable pub execute : Context W → ExecuteRequest W → W → (ExecuteResult × Option Err) × W
  unfolding run_prepared
  execute ctx req w =
      let timed = with_timeout (effective_timeout req.timeout) ctx in
      let (spec, w1) = prepare_spec timed req w in run_prepared timed req spec w1

  unfoldable pub as_backend : Backend W
  as_backend = record { kind = backend_docker; execute = execute }
