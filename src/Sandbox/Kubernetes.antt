-- ===== src/Sandbox/Kubernetes.antt =====
-- runtime/backend/kubernetes.
use toolexec.Base.{
  ℕ, ℤ, ◌*◌, ◌^◌, String, Bool, false, Option, none, some, List, [], ◌∷◌, is_empty, if◌then◌else◌,
}
use toolexec.Base.Dict.{Dict}
use toolexec.Value.{Value, str, field, end}
use toolexec.Errors.{
  Err, message, kubernetes_not_configured, cluster_unavailable, kubernetes_violation,
}
use toolexec.Effects.{Result, Context}
use toolexec.Runtime.Kinds.{backend_kubernetes, readiness_beta}
use toolexec.Runtime.Types.{
  SecurityProfile, Limits, ExecuteRequest, ExecuteResult, BackendInfo, Backend,
}
use toolexec.Docker.Spec.{ResourceSpec}
use toolexec.Docker.Options.{positive_or_zero}
use toolexec.Sandbox.{Sandbox, Client, HealthChecker, ImageResolver, Logger}
use toolexec.Sandbox.Limits.{
  or_else, validate_network, resources_of, isolation_of, enforced_limits, checked,
}
use toolexec.Docker.Output
use toolexec.Sandbox
use toolexec.Sandbox.Limits

pub record PodSecurity : Type 0 where
  pub user : String
  pub read_only_rootfs : Bool
  pub network_mode : String

pub record PodSpec : Type 0 where
  pub namespace : String
  pub image : String
  pub command : List String
  pub args : List String
  pub working_dir : String
  pub env : List String
  pub runtime_class_name : String
  pub service_account : String
  pub resources : ResourceSpec
  pub security : PodSecurity
  pub timeout : ℤ
  pub labels : Dict String

-- `client_health` is the client as a HealthChecker, if it is one.
pub record KubernetesBackend (W : Type 0) : Type 0 where
  pub namespace : String
  pub image : String
  pub runtime_class_name : String
  pub service_account : String
  pub client : Option (Client W PodSpec)
  pub client_health : Option (HealthChecker W)
  pub resolver : Option (ImageResolver W)
  pub health : Option (HealthChecker W)
  pub logger : Option (Logger W)

-- The backend that is made from a configuration, which has the same fields.
unfoldable pub new_backend : {W : Type 0} → KubernetesBackend W → KubernetesBackend W
new_backend cfg = record cfg {
  namespace = if is_empty cfg.namespace then "default" else cfg.namespace;
  image = if is_empty cfg.image then "toolruntime-sandbox:latest" else cfg.image;
}

unfoldable pub validate_security : PodSecurity → Option Err
unfolding validate_network
validate_security s = validate_network kubernetes_violation s.network_mode

unfoldable pub validate_resources : ResourceSpec → Option Err
validate_resources = Limits.validate_resources

unfoldable pub validate_spec : PodSpec → Option Err
unfolding validate_security validate_resources
validate_spec s =
    if is_empty s.image
    then some (message "image is required")
    else or_else "security" (validate_security s.security)
        (or_else "resources" (validate_resources s.resources) none)

-- extractOutValue, which is spelled out in each of the packages
unfoldable pub extract_out_value : (String → Option Value) → String → Value
extract_out_value = Output.extract_out_value

module _ {W : Type 0} (b : KubernetesBackend W) where
  unfoldable pub pod_options : SecurityProfile → Limits → PodSecurity × ResourceSpec
  unfolding resources_of isolation_of
  pod_options profile limits =
      let (network, read_only) = isolation_of "default" profile in
      (
        record { user = "65534"; read_only_rootfs = read_only; network_mode = network },
        resources_of positive_or_zero limits,
      )

  unfoldable pub spec_of : String → ExecuteRequest W → SecurityProfile → PodSpec
  unfolding pod_options
  spec_of image req profile =
      let (security, resources) = pod_options profile req.limits in
      record {
        namespace = b.namespace;
        image = image;
        runtime_class_name = b.runtime_class_name;
        service_account = b.service_account;
        command = [];
        args = [];
        working_dir = "";
        env = [];
        resources = resources;
        security = security;
        timeout = req.timeout;
        labels = ("runtime.profile", profile) ∷ ("runtime.backend", backend_kubernetes) ∷ [];
      }

  unfoldable pub build_spec : String → ExecuteRequest W → SecurityProfile → Result PodSpec
  unfolding spec_of checked
  build_spec image req profile = let s = spec_of image req profile in checked s (validate_spec s)

  unfoldable pub backend_info : SecurityProfile → BackendInfo
  backend_info profile = record {
    kind = backend_kubernetes;
    readiness = readiness_beta;
    details = field "namespace" (str b.namespace) (
        field "image" (str b.image) (
          field "runtimeClassName" (str b.runtime_class_name) (field "profile" (str profile) end)));
  }

  -- ensureClient: the client stands in for a health checker that is not configured
  checker_or : Option (HealthChecker W) → Option (HealthChecker W) → Option (HealthChecker W)
  checker_or from_client none = from_client
  checker_or from_client (some h) = some h

  unfoldable pub as_sandbox : Sandbox W PodSpec
  unfolding build_spec backend_info enforced_limits checker_or extract_out_value
  as_sandbox = record {
    asks_first = false;
    asks_timed = false;
    default_timeout = 60 * 10 ^ 9;
    not_configured = kubernetes_not_configured;
    unavailable = cluster_unavailable;
    client = b.client;
    health = checker_or b.client_health b.health;
    image = b.image;
    resolver = b.resolver;
    logger = b.logger;
    log_message = "executing in kubernetes";
    build = build_spec;
    extract = extract_out_value;
    info = backend_info;
    enforced = λ req spec. record (enforced_limits req.limits) { pids = false };
  }

  module _ (unmarshal : String → Option Value) (now : W → ℕ)
      (with_timeout : ℤ → Context W → Context W) where
    unfoldable pub execute : Context W → ExecuteRequest W → W → (ExecuteResult × Option Err) × W
    unfolding as_sandbox Sandbox.execute
    execute = Sandbox.execute unmarshal now with_timeout as_sandbox

    unfoldable pub as_backend : Backend W
    as_backend = record { kind = backend_kubernetes; execute = execute }
