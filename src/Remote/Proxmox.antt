-- ===== src/Remote/Proxmox.antt =====
-- runtime/backend/proxmox: the container is started and polled, a runtime service in it executes the
-- request, and the container may be stopped again. The API client is an interface that other code
-- implements; `wait` is the select of the polling loop, which gives the error of the context if the
-- context ends before the interval has passed. The loop takes fuel, a round for each poll. The
-- remote backend is made at the first request; it is the same for every request.
pub mod Starting
pub mod Serving
use toolexec.Base.{
  ℕ, zero, suc, ◌*◌, ◌^◌, ℤ, pos, negsuc, String, Bool, true, false, ◌||◌, Option, none, some,
  is_empty, str_eq, not, is_some, if◌then◌else◌,
}
use toolexec.Value.{Fields, str, int, field, end}
use toolexec.Errors.{
  Err, sentinel, wrapped, proxmox_unavailable, proxmox_not_configured, runtime_not_configured,
  lxc_not_running,
}
use toolexec.Effects.{Result, ok, err, Exec, Context}
use toolexec.Runtime.Kinds.{backend_proxmox_lxc, readiness_beta}
use toolexec.Runtime.Types.{
  SecurityProfile, ExecuteRequest, ExecuteResult, no_execution, BackendInfo,
}
use toolexec.Runtime.Limits.{validate_request}
use toolexec.Sandbox.{Logger, timeout_or}
use toolexec.Remote.{RemoteClient, RemoteBackend}
use toolexec.Remote

pub record ApiClient (W : Type 0) : Type 0 where
  pub status : Context W → String → ℤ → Exec W String
  pub start : Context W → String → ℤ → Exec W (Unit {0})
  pub stop : Context W → String → ℤ → Exec W (Unit {0})

-- Config; a nil pointer is `none`.
pub record Config (W : Type 0) : Type 0 where
  pub node : String
  pub vmid : ℤ
  pub auto_start : Option Bool
  pub auto_stop : Option Bool
  pub start_timeout : ℤ
  pub poll_interval : ℤ
  pub client : Option (ApiClient W)
  pub runtime_client : Option (RemoteClient W)
  pub runtime_gateway_endpoint : String
  pub runtime_gateway_token : String
  pub logger : Option (Logger W)

pub record ProxmoxBackend (W : Type 0) : Type 0 where
  pub client : Option (ApiClient W)
  pub runtime_client : Option (RemoteClient W)
  pub runtime_gateway_endpoint : String
  pub runtime_gateway_token : String
  pub node : String
  pub vmid : ℤ
  pub auto_start : Bool
  pub auto_stop : Bool
  pub start_timeout : ℤ
  pub poll_interval : ℤ
  pub logger : Option (Logger W)

unfoldable pub bool_value : Option Bool → Bool → Bool
bool_value none default = default
bool_value (some b) default = b

unfoldable pub new_backend : {W : Type 0} → Config W → ProxmoxBackend W
unfolding bool_value
new_backend cfg = record {
  client = cfg.client;
  runtime_client = cfg.runtime_client;
  runtime_gateway_endpoint = cfg.runtime_gateway_endpoint;
  runtime_gateway_token = cfg.runtime_gateway_token;
  node = cfg.node;
  vmid = cfg.vmid;
  auto_start = bool_value cfg.auto_start true;
  auto_stop = bool_value cfg.auto_stop false;
  start_timeout = timeout_or (120 * 10 ^ 9) cfg.start_timeout;
  poll_interval = timeout_or (2 * 10 ^ 9) cfg.poll_interval;
  logger = cfg.logger;
}

abbrev pub is_zero : ℤ → Bool
is_zero (pos zero) = true
is_zero _ = false

-- A computation that may run out of fuel.
abbrev pub Partial : Type 0 → Type 0 → Type 0
Partial W A = W → Option (A × W)

module _ {W : Type 0} (wait : Context W → ℤ → W → Option Err × W)
    (with_timeout : ℤ → Context W → Context W) (b : ProxmoxBackend W) where
  -- what the loop does with a status and with the wait
  waited : Partial W (Result (Unit {0})) → Option Err × W → Option (Result (Unit {0}) × W)
  waited more (some e, w) = some (err e, w)
  waited more (none, w) = more w

  polled :
      Partial W (Result (Unit {0})) → Context W → Result String × W → Option (Result (Unit {0}) × W)
  unfolding waited
  polled more ctx (err e, w) = some (err (wrapped proxmox_unavailable e), w)
  polled more ctx (ok s, w) =
      if str_eq s "running" then some (ok tt, w) else waited more (wait ctx b.poll_interval w)

  unfoldable pub poll : ApiClient W → Context W → ℕ → Partial W (Result (Unit {0}))
  unfolding polled
  poll client ctx zero w = none
  poll client ctx (suc fuel) w =
      polled (poll client ctx fuel) ctx (client.status ctx b.node b.vmid w)

  note : Option (Logger W) → W → W
  note none w = w
  note (some write) w = write "starting proxmox lxc" w

  started : ApiClient W → Context W → ℕ → Result (Unit {0}) × W → Option (Result (Unit {0}) × W)
  started client ctx fuel (err e, w) = some (err (wrapped proxmox_unavailable e), w)
  started client ctx fuel (ok _, w) = poll client (with_timeout b.start_timeout ctx) fuel w

  first_status : ApiClient W → Context W → ℕ → Result String × W → Option (Result (Unit {0}) × W)
  unfolding started note
  first_status client ctx fuel (err e, w) = some (err (wrapped proxmox_unavailable e), w)
  first_status client ctx fuel (ok s, w) =
      if str_eq s "running"
      then some (ok tt, w)
      else if not b.auto_start
      then some (err (sentinel lxc_not_running), w)
      else started client ctx fuel (client.start ctx b.node b.vmid (note b.logger w))

  unfoldable pub ensure_running : ApiClient W → Context W → ℕ → Partial W (Result (Unit {0}))
  unfolding first_status
  ensure_running client ctx fuel w =
      if is_empty b.node || is_zero b.vmid
      then some (err (sentinel proxmox_unavailable), w)
      else first_status client ctx fuel (client.status ctx b.node b.vmid w)

  endpoint_field : Option String → Fields
  endpoint_field none = end
  endpoint_field (some e) = if is_empty e then end else field "endpoint" (str e) end

  unfoldable pub backend_info : RemoteClient W → SecurityProfile → BackendInfo
  unfolding endpoint_field
  backend_info c profile = record {
    kind = backend_proxmox_lxc;
    readiness = readiness_beta;
    details =
        field "node" (str b.node)
          (field "vmid" (int b.vmid) (field "profile" (str profile) (endpoint_field c.endpoint)));
  }

  unfoldable pub remote_of : RemoteClient W → RemoteBackend W
  remote_of c = Remote.new_backend (record {
    client = some c;
    gateway_endpoint = b.runtime_gateway_endpoint;
    gateway_token = b.runtime_gateway_token;
    timeout_overhead = pos 0;
    enable_streaming = true;
    logger = b.logger;
  })

  module _ (now : W → ℕ) (background : Context W) where
    -- the error of Stop is dropped
    stop_if : Bool → ApiClient W → W → W
    stop_if false client w = w
    stop_if true client w =
        (client.stop (with_timeout (pos (30 * 10 ^ 9)) background) b.node b.vmid w).1

    -- the runtime service executes the request, whatever it returns
    run_service :
        ApiClient W
        → RemoteClient W
        → Context W
        → ExecuteRequest W
        → W
        → (ExecuteResult × Option Err) × W
    unfolding stop_if remote_of
    run_service client c ctx req w =
        let ((r, e), w1) = Remote.execute (remote_of c) now with_timeout ctx req w in
        ((record r { backend = backend_info c req.profile }, e), stop_if b.auto_stop client w1)

    unless_stopped :
        ApiClient W
        → RemoteClient W
        → Context W
        → ExecuteRequest W
        → Option (Result (Unit {0}) × W)
        → Option ((ExecuteResult × Option Err) × W)
    unfolding run_service
    unless_stopped client c ctx req none = none
    unless_stopped client c ctx req (some (err e, w)) = some ((no_execution, some e), w)
    unless_stopped client c ctx req (some (ok _, w)) = some (run_service client c ctx req w)

    with_clients :
        Option (RemoteClient W)
        → Option (ApiClient W)
        → Context W
        → ExecuteRequest W
        → ℕ
        → Partial W (ExecuteResult × Option Err)
    unfolding unless_stopped
    with_clients none client ctx req fuel w =
        some ((no_execution, some (sentinel runtime_not_configured)), w)
    with_clients (some c) none ctx req fuel w =
        some ((no_execution, some (sentinel proxmox_not_configured)), w)
    with_clients (some c) (some client) ctx req fuel w =
        unless_stopped client c ctx req
          (if b.auto_start then ensure_running client ctx fuel w else some (ok tt, w))

    unless_invalid :
        Option Err → Context W → ExecuteRequest W → ℕ → Partial W (ExecuteResult × Option Err)
    unfolding with_clients
    unless_invalid (some e) ctx req fuel w = some ((no_execution, some e), w)
    unless_invalid none ctx req fuel w = with_clients b.runtime_client b.client ctx req fuel w

    unfoldable pub execute :
        Context W → ExecuteRequest W → ℕ → Partial W (ExecuteResult × Option Err)
    unfolding unless_invalid
    execute ctx req fuel w = unless_invalid (validate_request req) ctx req fuel w
