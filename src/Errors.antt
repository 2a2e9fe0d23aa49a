-- ===== src/Errors.antt =====
-- Go's `error` values: the sentinels of every package, and the ways in which the code wraps them
-- (run/errors.go, runtime/errors.go, code/errors.go, backend/backend.go, exec/options.go, the gateways).
pub mod Matching
use toolexec.Base.{ℤ, String, Bool, false, ◌&&◌, ◌||◌, Option, none, some, List, [], ◌∷◌}
use toolexec.Model.{ToolBackend}
use mathlib.Core.Bool.{decide}

-- A package-level `errors.New` value, which is equal only to itself.
pub data Sentinel : Type 0 where
  -- run
  tool_not_found invalid_tool_id no_backends validation execution : Sentinel
  output_validation stream_not_supported : Sentinel
  -- index.ErrNotFound of tooldiscovery, and the two of `context`
  index_not_found canceled deadline_exceeded : Sentinel
  -- runtime
  runtime_unavailable backend_denied sandbox_violation timeout resource_limit : Sentinel
  missing_gateway missing_code invalid_limits : Sentinel
  -- runtime/gateway/direct, runtime/gateway/proxy
  tool_call_limit_exceeded chain_step_limit_exceeded : Sentinel
  connection_closed request_timeout protocol : Sentinel
  -- backend
  backend_exists backend_not_found backend_disabled tool_not_in_backend : Sentinel
  backend_unavailable malformed_tool_id : Sentinel
  -- code
  code_execution configuration limit_exceeded : Sentinel
  -- exec
  index_required docs_required : Sentinel
  -- runtime/backend/docker
  client_not_configured security_violation daemon_unavailable : Sentinel
  -- runtime/backend/containerd, gvisor, kata, kubernetes, firecracker, wasm
  containerd_not_configured containerd_unavailable containerd_violation : Sentinel
  gvisor_not_configured gvisor_unavailable gvisor_violation : Sentinel
  kata_not_configured kata_unavailable kata_violation : Sentinel
  kubernetes_not_configured cluster_unavailable kubernetes_violation : Sentinel
  firecracker_not_configured firecracker_unavailable : Sentinel
  wasm_not_configured wasm_unavailable invalid_module : Sentinel
  -- runtime/backend/remote, proxmox, temporal, unsafe
  remote_not_configured remote_failed : Sentinel
  proxmox_unavailable proxmox_not_configured runtime_not_configured lxc_not_running : Sentinel
  temporal_unavailable missing_sandbox_backend : Sentinel
  opt_in_required subprocess_failed : Sentinel

pub Sentinel-discrete : Discrete Sentinel
Sentinel-discrete = hlevel

unfoldable pub sentinel_eq : Sentinel → Sentinel → Bool
unfolding Sentinel-discrete
sentinel_eq a b = decide (Sentinel-discrete a b)

pub data Err : Type 0 where
  -- a sentinel itself
  sentinel : Sentinel → Err
  -- fmt.Errorf with no %w
  message : String → Err
  -- fmt.Errorf("%w: %v", sentinel, err): only the sentinel stays in the chain
  wrapped : Sentinel → Err → Err
  -- fmt.Errorf("text: %w", err)
  context : String → Err → Err
  -- run.ToolError: the tool id, the backend, the operation and the underlying error
  tool_error : String → Option ToolBackend → String → Err → Err
  -- code.CodeError: the message, the line, the column and the underlying error, which may be nil
  code_error : String → ℤ → ℤ → Err → Err
  bare_code_error : String → ℤ → ℤ → Err
  -- runtime.RuntimeError: the operation, the backend, whether it can be retried, and the underlying
  -- error, which may be nil
  runtime_error : String → String → Bool → Err → Err
  bare_runtime_error : String → String → Bool → Err
  -- docker.ClientError: the operation, the image, the container and the underlying error
  client_error : String → String → String → Err → Err
  -- an error made outside the repository, with the sentinels that its chain holds
  foreign : String → List Sentinel → Err

holds : List Sentinel → Sentinel → Bool
holds [] t = false
holds (s ∷ ss) t = sentinel_eq s t || holds ss t

-- errors.Is(err, target), for a target that is a sentinel; `ToolError` and `CodeError` have an `Is`
-- method of their own beside an `Unwrap`.
unfoldable pub errors_is : Err → Sentinel → Bool
unfolding holds
errors_is (sentinel s) t = sentinel_eq s t
errors_is (message m) t = false
errors_is (wrapped s e) t = sentinel_eq s t
errors_is (context m e) t = errors_is e t
errors_is (tool_error id b op e) t =
    (sentinel_eq t tool_not_found && errors_is e index_not_found) || errors_is e t
errors_is (code_error m line column e) t = sentinel_eq t code_execution || errors_is e t
errors_is (bare_code_error m line column) t = sentinel_eq t code_execution
errors_is (runtime_error op backend retryable e) t = errors_is e t
errors_is (bare_runtime_error op backend retryable) t = false
errors_is (client_error op image container e) t = errors_is e t
errors_is (foreign m ss) t = holds ss t

-- errors.As(err, &toolErr), as far as the code reads it: the backend of the first `ToolError`
unfoldable pub as_backend : Err → Option ToolBackend
as_backend (tool_error id b op e) = b
as_backend (context m e) = as_backend e
as_backend (code_error m line column e) = as_backend e
as_backend (runtime_error op backend retryable e) = as_backend e
as_backend (client_error op image container e) = as_backend e
as_backend _ = none
