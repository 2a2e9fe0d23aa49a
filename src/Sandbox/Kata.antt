-- ===== src/Sandbox/Kata.antt =====
-- runtime/backend/kata.
use toolexec.Base.{
  ◌&&◌, ℕ, ℤ, ◌*◌, ◌^◌, String, true, false, Option, none, some, List, [], ◌∷◌, is_empty,
  if◌then◌else◌,
}
use toolexec.Base.Dict.{Dict}
use toolexec.Value.{Value, str, field, end}
use toolexec.Errors.{Err, message, kata_not_configured, kata_unavailable, kata_violation}
use toolexec.Effects.{Result, Context}
use toolexec.Runtime.Kinds.{backend_kata, readiness_beta}
use toolexec.Runtime.Types.{
  SecurityProfile, Limits, ExecuteRequest, ExecuteResult, BackendInfo, Backend,
}
use toolexec.Docker.Spec.{ResourceSpec, SecuritySpec}
use toolexec.Docker.Options.{positive_times_1000}
use toolexec.Sandbox.{Sandbox, Client, HealthChecker, ImageResolver, Logger}
use toolexec.Sandbox.Limits.{or_else, resources_of, isolation_of, enforced_limits, checked}
use toolexec.Docker.Output
use toolexec.Sandbox
use toolexec.Sandbox.Limits

pub record SandboxSpec : Type 0 where
  pub image : String
  pub runtime : String
  pub hypervisor : String
  pub kernel_path : String
  pub image_path : String
  pub command : List String
  pub working_dir : String
  pub env : List String
  pub resources : ResourceSpec
  pub security : SecuritySpec
  pub timeout : ℤ
  pub labels : Dict String

pub record KataBackend (W : Type 0) : Type 0 where
  pub runtime_path : String
  pub hypervisor : String
  pub kernel_path : String
  pub image_path : String
  pub image : String
  pub client : Option (Client W SandboxSpec)
  pub resolver : Option (ImageResolver W)
  pub health : Option (HealthChecker W)
  pub logger : Option (Logger W)

-- The backend that is made from a configuration, which has the same fields.
unfoldable pub new_backend : {W : Type 0} → KataBackend W → KataBackend W
new_backend cfg = record cfg {
  runtime_path = if is_empty cfg.runtime_path then "kata-runtime" else cfg.runtime_path;
  hypervisor = if is_empty cfg.hypervisor then "qemu" else cfg.hypervisor;
  image = if is_empty cfg.image then "toolruntime-sandbox:latest" else cfg.image;
}

unfoldable pub validate_security : SecuritySpec → Option Err
validate_security = Limits.validate_security kata_violation

unfoldable pub validate_resources : ResourceSpec → Option Err
validate_resources = Limits.validate_resources

unfoldable pub validate_spec : SandboxSpec → Option Err
unfolding validate_security validate_resources
validate_spec s =
    if is_empty s.image && is_empty s.image_path
    then some (message "image or imagePath is required")
    else or_else "security" (validate_security s.security)
        (or_else "resources" (validate_resources s.resources) none)

-- extractOutValue, which is spelled out in each of the packages
unfoldable pub extract_out_value : (String → Option Value) → String → Value
extract_out_value = Output.extract_out_value

module _ {W : Type 0} (b : KataBackend W) where
  unfoldable pub sandbox_options : SecurityProfile → Limits → SecuritySpec × ResourceSpec
  unfolding resources_of positive_times_1000 isolation_of
  sandbox_options profile limits =
      let (network, read_only) = isolation_of "bridge" profile in
      (
        record {
          user = "nobody:nogroup";
          read_only_rootfs = read_only;
          network_mode = network;
          seccomp_profile = "";
          privileged = false;
        },
        resources_of positive_times_1000 limits,
      )

  unfoldable pub spec_of : String → ExecuteRequest W → SecurityProfile → SandboxSpec
  unfolding sandbox_options
  spec_of image req profile =
      let (security, resources) = sandbox_options profile req.limits in
      record {
        image = image;
        runtime = b.runtime_path;
        hypervisor = b.hypervisor;
        kernel_path = b.kernel_path;
        image_path = b.image_path;
        command = [];
        working_dir = "";
        env = [];
        resources = resources;
        security = security;
        timeout = req.timeout;
        labels = ("runtime.profile", profile) ∷ ("runtime.backend", backend_kata) ∷ [];
      }

  unfoldable pub build_spec : String → ExecuteRequest W → SecurityProfile → Result SandboxSpec
  unfolding spec_of checked
  build_spec image req profile = let s = spec_of image req profile in checked s (validate_spec s)

  unfoldable pub backend_info : SecurityProfile → BackendInfo
  backend_info profile = record {
    kind = backend_kata;
    readiness = readiness_beta;
    details = field "hypervisor" (str b.hypervisor) (field "profile" (str profile) end);
  }

  unfoldable pub as_sandbox : Sandbox W SandboxSpec
  unfolding build_spec backend_info enforced_limits extract_out_value
  as_sandbox = record {
    asks_first = true;
    asks_timed = false;
    default_timeout = 30 * 10 ^ 9;
    not_configured = kata_not_configured;
    unavailable = kata_unavailable;
    client = b.client;
    health = b.health;
    image = b.image;
    resolver = b.resolver;
    logger = b.logger;
    log_message = "executing in kata";
    build = build_spec;
    extract = extract_out_value;
    info = backend_info;
    enforced = λ req spec. enforced_limits req.limits;
  }

  module _ (unmarshal : String → Option Value) (now : W → ℕ)
      (with_timeout : ℤ → Context W → Context W) where
    unfoldable pub execute : Context W → ExecuteRequest W → W → (ExecuteResult × Option Err) × W
    unfolding as_sandbox Sandbox.execute
    execute = Sandbox.execute unmarshal now with_timeout as_sandbox

    unfoldable pub as_backend : Backend W
    as_backend = record { kind = backend_kata; execute = execute }
