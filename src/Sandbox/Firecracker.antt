-- ===== src/Sandbox/Firecracker.antt =====
-- runtime/backend/firecracker. The spec is made from the configuration alone: neither the profile
-- nor the limits of a request reach it.
use toolexec.Base.{
  ℕ, ℤ, pos, ◌*◌, ◌^◌, String, true, false, not, Option, none, some, List, [], ◌∷◌, is_empty,
  if◌then◌else◌,
}
use toolexec.Base.Dict.{Dict}
use toolexec.Value.{Value, int, str, field, end}
use toolexec.Errors.{Err, message, firecracker_not_configured, firecracker_unavailable}
use toolexec.Effects.{Result, Context}
use toolexec.Runtime.Kinds.{backend_firecracker, readiness_beta}
use toolexec.Runtime.Types.{SecurityProfile, ExecuteRequest, ExecuteResult, BackendInfo, Backend}
use toolexec.Sandbox.{Sandbox, Client, HealthChecker, Logger}
use toolexec.Sandbox.Limits.{is_positive, enforced_limits, checked}
use toolexec.Docker.Output
use toolexec.Sandbox

pub record VmResourceSpec : Type 0 where
  pub vcpu_count : ℤ
  pub mem_size_mb : ℤ

pub record VmConfig : Type 0 where
  pub kernel_path : String
  pub rootfs_path : String
  pub socket_path : String

pub record MicroVmSpec : Type 0 where
  pub image : String
  pub command : List String
  pub working_dir : String
  pub env : List String
  pub resources : VmResourceSpec
  pub config : VmConfig
  pub timeout : ℤ
  pub labels : Dict String

pub record FirecrackerBackend (W : Type 0) : Type 0 where
  pub binary_path : String
  pub kernel_path : String
  pub rootfs_path : String
  pub socket_path : String
  pub vcpu_count : ℤ
  pub mem_size_mb : ℤ
  pub image : String
  pub client : Option (Client W MicroVmSpec)
  pub health : Option (HealthChecker W)
  pub logger : Option (Logger W)

-- The backend that is made from a configuration, which has the same fields.
unfoldable pub new_backend : {W : Type 0} → FirecrackerBackend W → FirecrackerBackend W
new_backend cfg = record cfg {
  binary_path = if is_empty cfg.binary_path then "firecracker" else cfg.binary_path;
  vcpu_count = if is_positive cfg.vcpu_count then cfg.vcpu_count else pos 1;
  mem_size_mb = if is_positive cfg.mem_size_mb then cfg.mem_size_mb else pos 128;
  image = if is_empty cfg.image then "toolruntime-sandbox:latest" else cfg.image;
}

unfoldable pub validate_spec : MicroVmSpec → Option Err
validate_spec s =
    if is_empty s.config.kernel_path
    then some (message "kernelPath is required")
    else if is_empty s.config.rootfs_path
    then some (message "rootfsPath is required")
    else if not (is_positive s.resources.vcpu_count)
    then some (message "vcpuCount must be positive")
    else if not (is_positive s.resources.mem_size_mb)
    then some (message "memSizeMB must be positive")
    else none

-- extractOutValue, which is spelled out in each of the packages
unfoldable pub extract_out_value : (String → Option Value) → String → Value
extract_out_value = Output.extract_out_value

module _ {W : Type 0} (b : FirecrackerBackend W) where
  unfoldable pub build_spec : ExecuteRequest W → Result MicroVmSpec
  unfolding checked
  build_spec req =
      let s : MicroVmSpec = record {
        image = b.image;
        command = [];
        working_dir = "";
        env = [];
        resources = record { vcpu_count = b.vcpu_count; mem_size_mb = b.mem_size_mb };
        config = record {
          kernel_path = b.kernel_path;
          rootfs_path = b.rootfs_path;
          socket_path = b.socket_path;
        };
        timeout = req.timeout;
        labels = ("runtime.backend", backend_firecracker) ∷ [];
      } in
      checked s (validate_spec s)

  unfoldable pub backend_info : SecurityProfile → BackendInfo
  backend_info profile = record {
    kind = backend_firecracker;
    readiness = readiness_beta;
    details =
        field "vcpuCount" (int b.vcpu_count)
          (field "memSizeMB" (int b.mem_size_mb) (field "profile" (str profile) end));
  }

  unfoldable pub as_sandbox : Sandbox W MicroVmSpec
  unfolding build_spec backend_info enforced_limits extract_out_value
  as_sandbox = record {
    asks_first = true;
    asks_timed = false;
    default_timeout = 30 * 10 ^ 9;
    not_configured = firecracker_not_configured;
    unavailable = firecracker_unavailable;
    client = b.client;
    health = b.health;
    image = b.image;
    resolver = none;
    logger = b.logger;
    log_message = "executing in firecracker";
    build = λ image req profile. build_spec req;
    extract = extract_out_value;
    info = backend_info;
    enforced = λ req spec. enforced_limits req.limits;
  }

  module _ (unmarshal : String → Option Value) (now : W → ℕ)
      (with_timeout : ℤ → Context W → Context W) where
    unfoldable pub execute : Context W → ExecuteRequest W → W → (ExecuteResult × Option Err) × W
    unfolding as_sandbox Sandbox.execute
    execute = Sandbox.execute unmarshal now with_timeout as_sandbox

    unfoldable pub as_backend : Backend W
    as_backend = record { kind = backend_firecracker; execute = execute }
