-- ===== src/Temporal.antt =====
-- runtime/backend/temporal: a request is validated, and then refused.
pub mod Conformance
use toolexec.Base.{ℕ, ◌-◌, String, Option, none, some, is_empty, if◌then◌else◌}
use toolexec.Value.{str, field, end}
use toolexec.Errors.{Err, sentinel, message, wrapped, missing_sandbox_backend, temporal_unavailable}
use toolexec.Effects.{Context}
use toolexec.Runtime.Kinds.{backend_temporal, readiness_stub}
use toolexec.Runtime.Types.{ExecuteRequest, ExecuteResult, no_execution, Backend}
use toolexec.Runtime.Limits.{validate_request}

pub record TemporalBackend (W : Type 0) : Type 0 where
  pub host_port : String
  pub namespace : String
  pub task_queue : String
  pub sandbox_backend : Option (Backend W)
  pub workflow_id_prefix : String

-- The backend that is made from a configuration, which has the same fields; the logger is not used.
unfoldable pub new_backend : {W : Type 0} → TemporalBackend W → TemporalBackend W
new_backend cfg = record cfg {
  host_port = if is_empty cfg.host_port then "localhost:7233" else cfg.host_port;
  namespace = if is_empty cfg.namespace then "default" else cfg.namespace;
  task_queue = if is_empty cfg.task_queue then "toolruntime-execution" else cfg.task_queue;
  workflow_id_prefix =
      if is_empty cfg.workflow_id_prefix then "toolruntime-" else cfg.workflow_id_prefix;
}

module _ {W : Type 0} (now : W → ℕ) (b : TemporalBackend W) where
  refused : Option (Backend W) → W → (ExecuteResult × Option Err) × W
  refused none w = ((no_execution, some (sentinel missing_sandbox_backend)), w)
  refused (some sandbox) w = (
    (
      record no_execution {
        duration = now w - now w;
        backend = record {
          kind = backend_temporal;
          readiness = readiness_stub;
          details = field "namespace" (str b.namespace) (
              field "taskQueue" (str b.task_queue) (field "sandboxBackend" (str sandbox.kind) end));
        };
      },
      some (wrapped temporal_unavailable (message "temporal backend not fully implemented")),
    ),
    w,
  )

  unless_invalid : Option Err → W → (ExecuteResult × Option Err) × W
  unfolding refused
  unless_invalid (some e) w = ((no_execution, some e), w)
  unless_invalid none w = refused b.sandbox_backend w

  unfoldable pub execute : Context W → ExecuteRequest W → W → (ExecuteResult × Option Err) × W
  unfolding unless_invalid
  execute ctx req w = unless_invalid (validate_request req) w

  unfoldable pub as_backend : Backend W
  as_backend = record { kind = backend_temporal; execute = execute }
