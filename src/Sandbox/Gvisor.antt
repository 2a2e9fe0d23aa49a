-- ===== src/Sandbox/Gvisor.antt =====
-- runtime/backend/gvisor.
use toolexec.Base.{
  ℕ, ℤ, ◌*◌, ◌^◌, String, false, Option, none, some, List, [], ◌∷◌, is_empty, if◌then◌else◌,
}
use toolexec.Base.Dict.{Dict}
use toolexec.Value.{Value, str, field, end}
use toolexec.Errors.{Err, message, gvisor_not_configured, gvisor_unavailable, gvisor_violation}
use toolexec.Effects.{Result, Context}
use toolexec.Runtime.Kinds.{backend_gvisor, readiness_beta}
use toolexec.Runtime.Types.{
  SecurityProfile, Limits, ExecuteRequest, ExecuteResult, BackendInfo, Backend,
}
use toolexec.Docker.Spec.{ResourceSpec, SecuritySpec}
use toolexec.Docker.Options.{positive_times_1000}
use toolexec.Sandbox.{Sandbox, Client, HealthChecker, ImageResolver, Logger}
use toolexec.Sandbox.Limits.{or_else, resources_of, isolation_of, enforced_limits, checked}
use toolexec.Docker.Output
use toolexec.Sandbox
use toolexec.Sandbox.Limits

pub record SandboxSpec : Type 0 where
  pub image : String
  pub command : List String
  pub working_dir : String
  pub env : List String
  pub resources : ResourceSpec
  pub security : SecuritySpec
  pub platform : String
  pub runsc_path : String
  pub root_dir : String
  pub timeout : ℤ
  pub labels : Dict String

pub record GvisorBackend (W : Type 0) : Type 0 where
  pub runsc_path : String
  pub root_dir : String
  pub platform : String
  pub network_mode : String
  pub image : String
  pub client : Option (Client W SandboxSpec)
  pub resolver : Option (ImageResolver W)
  pub health : Option (HealthChecker W)
  pub logger : Option (Logger W)

-- The backend that is made from a configuration, which has the same fields.
unfoldable pub new_backend : {W : Type 0} → GvisorBackend W → GvisorBackend W
new_backend cfg = record cfg {
  runsc_path = if is_empty cfg.runsc_path then "runsc" else cfg.runsc_path;
  image = if is_empty cfg.image then "toolruntime-sandbox:latest" else cfg.image;
  root_dir = if is_empty cfg.root_dir then "/var/run/gvisor" else cfg.root_dir;
  platform = if is_empty cfg.platform then "systrap" else cfg.platform;
  network_mode = if is_empty cfg.network_mode then "none" else cfg.network_mode;
}

unfoldable pub validate_security : SecuritySpec → Option Err
validate_security = Limits.validate_security gvisor_violation

unfoldable pub validate_resources : ResourceSpec → Option Err
validate_resources = Limits.validate_resources

unfoldable pub validate_spec : SandboxSpec → Option Err
unfolding validate_security validate_resources
validate_spec s =
    if is_empty s.image
    then some (message "image is required")
    else or_else "security" (validate_security s.security)
        (or_else "resources" (validate_resources s.resources) none)

-- extractOutValue, which is spelled out in each of the packages
unfoldable pub extract_out_value : (String → Option Value) → String → Value
extract_out_value = Output.extract_out_value

module _ {W : Type 0} (b : GvisorBackend W) where
  unfoldable pub sandbox_options : SecurityProfile → Limits → SecuritySpec × ResourceSpec
  unfolding resources_of positive_times_1000 isolation_of
  sandbox_options profile limits =
      let (network, read_only) = isolation_of b.network_mode profile in
      (
        record {
          user = "nobody:nogroup";
          read_only_rootfs = read_only;
          network_mode = network;
          seccomp_profile = "";
          privileged = false;
        },
        resources_of positive_times_1000 limits,
      )

  unfoldable pub spec_of : String → ExecuteRequest W → SecurityProfile → SandboxSpec
  unfolding sandbox_options
  spec_of image req profile =
      let (security, resources) = sandbox_options profile req.limits in
      record {
        image = image;
        platform = b.platform;
        runsc_path = b.runsc_path;
        root_dir = b.root_dir;
        command = [];
        working_dir = "";
        env = [];
        resources = resources;
        security = security;
        timeout = req.timeout;
        labels = ("runtime.profile", profile) ∷ ("runtime.backend", backend_gvisor) ∷ [];
      }

  unfoldable pub build_spec : String → ExecuteRequest W → SecurityProfile → Result SandboxSpec
  unfolding spec_of checked
  build_spec image req profile = let s = spec_of image req profile in checked s (validate_spec s)

  unfoldable pub backend_info : SecurityProfile → BackendInfo
  backend_info profile = record {
    kind = backend_gvisor;
    readiness = readiness_beta;
    details =
        field "platform" (str b.platform)
          (field "networkMode" (str b.network_mode) (field "profile" (str profile) end));
  }

  unfoldable pub as_sandbox : Sandbox W SandboxSpec
  unfolding build_spec backend_info enforced_limits extract_out_value
  as_sandbox = record {
    asks_first = false;
    asks_timed = false;
    default_timeout = 30 * 10 ^ 9;
    not_configured = gvisor_not_configured;
    unavailable = gvisor_unavailable;
    client = b.client;
    health = b.health;
    image = b.image;
    resolver = b.resolver;
    logger = b.logger;
    log_message = "executing in gvisor";
    build = build_spec;
    extract = extract_out_value;
    info = backend_info;
    enforced = λ req spec. enforced_limits req.limits;
  }

  module _ (unmarshal : String → Option Value) (now : W → ℕ)
      (with_timeout : ℤ → Context W → Context W) where
    unfoldable pub execute : Context W → ExecuteRequest W → W → (ExecuteResult × Option Err) × W
    unfolding as_sandbox Sandbox.execute
    execute = Sandbox.execute unmarshal now with_timeout as_sandbox

    unfoldable pub as_backend : Backend W
    as_backend = record { kind = backend_gvisor; execute = execute }
