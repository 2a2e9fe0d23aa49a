-- ===== src/Remote.antt =====
-- runtime/backend/remote: the request that is sent to a runtime service, and what is made of its
-- answer. Durations that the service reports are taken to be natural numbers that fit an int64 in
-- nanoseconds, and so is the sum of the two timeouts.
pub mod Proxmox
pub mod Conformance
use toolexec.Base.{
  ℕ, zero, suc, ◌-◌, ◌*◌, ◌/◌, ◌^◌, ◌==◌, ℤ, pos, ◌+ℤ◌, String, Bool, Option, none, some, List, map,
  is_empty, is_some, if◌then◌else◌,
}
use toolexec.Model.{BackendKind}
use toolexec.Value.{Value, Fields, str, field, end}
use toolexec.Errors.{Err, sentinel, message, wrapped, remote_not_configured, remote_failed}
use toolexec.Effects.{Result, ok, err, Exec, Context}
use toolexec.Runtime.Kinds.{backend_remote, readiness_beta}
use toolexec.Runtime.Types.{
  SecurityProfile, Limits, LimitsEnforced, ToolCallRecord, ExecuteRequest, ExecuteResult,
  no_execution, BackendInfo, Backend,
}
use toolexec.Runtime.Limits.{validate_request}
use toolexec.Sandbox.{Logger, timeout_or}

pub record GatewayDescriptor : Type 0 where
  pub url : String
  pub token : String
  pub protocol : String

-- LimitsPayload has the fields of Limits.
pub record ExecutePayload : Type 0 where
  pub language : String
  pub code : String
  pub timeout_millis : ℕ
  pub limits : Limits
  pub profile : String
  pub metadata : Fields

pub record RemoteRequest : Type 0 where
  pub request : ExecutePayload
  pub gateway : Option GatewayDescriptor
  pub stream : Bool

pub record ToolCallPayload : Type 0 where
  pub tool_id : String
  pub backend_kind : BackendKind
  pub duration_ms : ℕ
  pub error_op : String

pub record ExecuteResultPayload : Type 0 where
  pub value : Value
  pub stdout : String
  pub stderr : String
  pub tool_calls : List ToolCallPayload
  pub duration_millis : ℕ
  pub limits_enforced : LimitsEnforced

pub record RemoteError : Type 0 where
  pub code : String
  pub message : String

pub record RemoteResponse : Type 0 where
  pub result : Option ExecuteResultPayload
  pub error : Option RemoteError

-- `endpoint` is what the client answers as an EndpointProvider, if it is one.
pub record RemoteClient (W : Type 0) : Type 0 where
  pub execute : Context W → RemoteRequest → Exec W RemoteResponse
  pub endpoint : Option String

pub record RemoteBackend (W : Type 0) : Type 0 where
  pub client : Option (RemoteClient W)
  pub gateway_endpoint : String
  pub gateway_token : String
  pub timeout_overhead : ℤ
  pub enable_streaming : Bool
  pub logger : Option (Logger W)

-- The backend that is made from a configuration, which has the same fields.
unfoldable pub new_backend : {W : Type 0} → RemoteBackend W → RemoteBackend W
new_backend cfg = record cfg { timeout_overhead = timeout_or (5 * 10 ^ 9) cfg.timeout_overhead }

-- `if req.Timeout > 0`, in milliseconds
abbrev millis : ℤ → ℕ
millis (pos n) = n / 10 ^ 6
millis _ = 0

unfoldable pub build_execute_payload : {W : Type 0} → ExecuteRequest W → ExecutePayload
build_execute_payload req = record {
  language = req.language;
  code = req.code;
  timeout_millis = millis req.timeout;
  limits = req.limits;
  profile = req.profile;
  metadata = req.metadata;
}

unfoldable pub build_gateway_descriptor : String → String → Option GatewayDescriptor
build_gateway_descriptor endpoint token =
    if is_empty endpoint
    then none
    else some (record { url = endpoint; token = token; protocol = "toolruntime-gateway-http/v1" })

unfoldable pub map_call : ToolCallPayload → ToolCallRecord
map_call call = record {
  tool_id = call.tool_id;
  backend_kind = call.backend_kind;
  duration = call.duration_ms * 10 ^ 6;
  error_op = call.error_op;
}

unfoldable pub map_remote_result : ExecuteResultPayload → ExecuteResult
unfolding map_call
map_remote_result p = record no_execution {
  value = p.value;
  stdout = p.stdout;
  stderr = p.stderr;
  tool_calls = map map_call p.tool_calls;
  duration = p.duration_millis * 10 ^ 6;
  limits_enforced = p.limits_enforced;
}

module _ {W : Type 0} (b : RemoteBackend W) where
  endpoint_details : Option String → Fields
  endpoint_details none = end
  endpoint_details (some e) = if is_empty e then end else field "endpoint" (str e) end

  client_details : Option (RemoteClient W) → Fields
  client_details none = end
  client_details (some c) = endpoint_details c.endpoint

  unfoldable pub backend_info : BackendInfo
  unfolding client_details endpoint_details
  backend_info = record {
    kind = backend_remote;
    readiness = readiness_beta;
    details = client_details b.client;
  }

  unfoldable pub remote_request : ExecuteRequest W → RemoteRequest
  remote_request req = record {
    request = build_execute_payload req;
    gateway = build_gateway_descriptor b.gateway_endpoint b.gateway_token;
    stream = b.enable_streaming;
  }

  failed : ℕ → Err → ExecuteResult × Option Err
  failed elapsed e = (record no_execution { duration = elapsed; backend = backend_info }, some e)

  mapped : ℕ → Option ExecuteResultPayload → ExecuteResult × Option Err
  unfolding failed
  mapped elapsed none = failed elapsed (wrapped remote_failed (message "missing result"))
  mapped elapsed (some p) =
      let r = map_remote_result p in
      (
        record r {
          duration = if r.duration == 0 then elapsed else r.duration;
          backend = backend_info;
        },
        none,
      )

  answered : ℕ → Option RemoteError → Option ExecuteResultPayload → ExecuteResult × Option Err
  unfolding mapped
  answered elapsed (some e) p = failed elapsed (wrapped remote_failed (message e.message))
  answered elapsed none p = mapped elapsed p

  -- what the client returned
  unfoldable pub report : ℕ → Result RemoteResponse → ExecuteResult × Option Err
  unfolding answered
  report elapsed (err e) = failed elapsed e
  report elapsed (ok r) = answered elapsed r.error r.result

  module _ (now : W → ℕ) (with_timeout : ℤ → Context W → Context W) where
    call_client :
        Option (RemoteClient W)
        → Context W
        → ExecuteRequest W
        → W
        → (ExecuteResult × Option Err) × W
    call_client none ctx req w = ((no_execution, some (sentinel remote_not_configured)), w)
    call_client (some c) ctx req w =
        let timed = with_timeout (timeout_or (30 * 10 ^ 9) req.timeout +ℤ b.timeout_overhead) ctx in
        let (r, w1) = c.execute timed (remote_request req) w in (report (now w1 - now w) r, w1)

    unless_invalid :
        Option Err → Context W → ExecuteRequest W → W → (ExecuteResult × Option Err) × W
    unfolding call_client
    unless_invalid (some e) ctx req w = ((no_execution, some e), w)
    unless_invalid none ctx req w = call_client b.client ctx req w

    unfoldable pub execute : Context W → ExecuteRequest W → W → (ExecuteResult × Option Err) × W
    unfolding unless_invalid
    execute ctx req w = unless_invalid (validate_request req) ctx req w

    unfoldable pub as_backend : Backend W
    as_backend = record { kind = backend_remote; execute = execute }
