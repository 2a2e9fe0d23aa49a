-- ===== src/Sandbox/Wasm.antt =====
-- runtime/backend/wasm.
pub mod Base64
pub mod Modules
pub mod Isolation
use toolexec.Base.{
  ℕ, zero, suc, ℤ, pos, ◌-◌, ◌*◌, ◌/◌, ◌^◌, ◌==◌, ◌&&◌, String, Bool, true, false, Option, none,
  some, List, [], ◌∷◌, is_empty, ltb, str_eq, if◌then◌else◌,
}
use toolexec.Base.Dict.{Dict}
use toolexec.Value.{Value, bool, int, str, bytes, Fields, field, end, get}
use toolexec.Errors.{Err, sentinel, wasm_not_configured, wasm_unavailable, invalid_module}
use toolexec.Effects.{Result, ok, err, Context}
use toolexec.Runtime.Kinds.{backend_wasm, readiness_beta}
use toolexec.Runtime.Types.{
  SecurityProfile, profile_dev, profile_standard, profile_hardened, Limits, ExecuteRequest,
  ExecuteResult, BackendInfo, LimitsEnforced, Backend,
}
use toolexec.Sandbox.{Sandbox, Client, HealthChecker, Logger}
use toolexec.Sandbox.Limits.{is_positive}
use toolexec.Sandbox.Wasm.Base64.{decode_string}
use toolexec.Docker.Output
use toolexec.Sandbox

pub record Mount : Type 0 where
  pub host_path : String
  pub guest_path : String
  pub read_only : Bool

pub record ResourceSpec : Type 0 where
  pub memory_pages : ℕ
  pub fuel_limit : ℕ
  pub stack_size : ℕ

pub record SecuritySpec : Type 0 where
  pub enable_wasi : Bool
  pub allowed_host_functions : List String
  pub enable_network : Bool
  pub enable_clock : Bool

pub record Spec : Type 0 where
  pub module_bytes : List ℕ
  pub entry_point : String
  pub args : List String
  pub env : List String
  pub stdin : List ℕ
  pub working_dir : String
  pub mounts : List Mount
  pub resources : ResourceSpec
  pub security : SecuritySpec
  pub timeout : ℤ
  pub labels : Dict String

-- The module loader is not called.
pub record WasmBackend (W : Type 0) : Type 0 where
  pub runtime : String
  pub max_memory_pages : ℤ
  pub enable_wasi : Bool
  pub allowed_host_functions : List String
  pub client : Option (Client W Spec)
  pub health_checker : Option (HealthChecker W)
  pub logger : Option (Logger W)

-- The backend that is made from a configuration, which has the same fields.
unfoldable pub new_backend : {W : Type 0} → WasmBackend W → WasmBackend W
new_backend cfg = record cfg {
  runtime = if is_empty cfg.runtime then "wazero" else cfg.runtime;
  max_memory_pages = if is_positive cfg.max_memory_pages then cfg.max_memory_pages else pos 256;
}

abbrev pub max_uint32 : ℕ
max_uint32 = 2 ^ 32 - 1

unfoldable pub clamp_uint32 : ℕ → ℕ
clamp_uint32 n = if ltb max_uint32 n then max_uint32 else n

-- 00 61 73 6d
unfoldable pub is_wasm_module : List ℕ → Bool
is_wasm_module (a ∷ b ∷ c ∷ d ∷ rest) = a == 0 && b == 0x61 && c == 0x73 && d == 0x6d
is_wasm_module _ = false

checked_module : List ℕ → Result (List ℕ)
checked_module m = if is_wasm_module m then ok m else err (sentinel invalid_module)

decoded : Option (List ℕ) → Option (List ℕ) → Result (List ℕ)
unfolding checked_module
decoded (some m) raw = checked_module m
decoded none (some m) = checked_module m
decoded none none = err (sentinel invalid_module)

unfoldable pub decode_module_string : String → Result (List ℕ)
unfolding decoded
decode_module_string value =
    if is_empty value
    then err (sentinel invalid_module)
    else decoded (decode_string true value) (decode_string false value)

unfoldable pub decode_module : Value → Result (List ℕ)
unfolding checked_module
decode_module (bytes m) = checked_module m
decode_module (str value) = decode_module_string value
decode_module _ = err (sentinel invalid_module)

-- the bytes, else the text
first_module : Option Value → Option Value → Result (List ℕ)
first_module (some raw) _ = decode_module raw
first_module none (some raw) = decode_module raw
first_module none none = err (sentinel invalid_module)

unfoldable pub module_from_request : Fields → Result (List ℕ)
unfolding first_module
module_from_request metadata =
    first_module (get metadata "wasm_module") (get metadata "wasm_module_b64")

-- the pages of the configuration
pages_of : ℤ → ℕ
pages_of (pos n) = clamp_uint32 n
pages_of _ = 0

-- the pages of the request, where it has a limit of a page or more
request_pages : ℤ → ℕ → ℕ
request_pages (pos n) configured =
    let pages = n / (64 * 1024) in if pages == 0 then configured else clamp_uint32 pages
request_pages _ configured = configured

-- extractOutValue, which is spelled out in each of the packages
unfoldable pub extract_out_value : (String → Option Value) → String → Value
extract_out_value = Output.extract_out_value

module _ {W : Type 0} (b : WasmBackend W) where
  unfoldable pub security_of : SecurityProfile → SecuritySpec
  security_of profile =
      let hardened = str_eq profile profile_hardened in
      record {
        enable_wasi = b.enable_wasi;
        allowed_host_functions = if hardened then [] else b.allowed_host_functions;
        enable_network = false;
        enable_clock = if hardened then false else true;
      }

  unfoldable pub build_spec : ExecuteRequest W → SecurityProfile → Spec
  unfolding security_of pages_of request_pages clamp_uint32
  build_spec req profile = record {
    module_bytes = [];
    entry_point = "";
    args = [];
    env = [];
    stdin = [];
    working_dir = "";
    mounts = [];
    resources = record {
      memory_pages = request_pages req.limits.memory_bytes (pages_of b.max_memory_pages);
      fuel_limit = 0;
      stack_size = 0;
    };
    security = security_of profile;
    timeout = req.timeout;
    labels = ("runtime.profile", profile) ∷ ("runtime.backend", backend_wasm) ∷ [];
  }

  with_module : Spec → Result (List ℕ) → Result Spec
  with_module s (ok m) = ok (record s { module_bytes = m })
  with_module s (err e) = err e

  -- the module, and the spec that it is put into
  unfoldable pub prepare_spec : ExecuteRequest W → SecurityProfile → Result Spec
  unfolding with_module
  prepare_spec req profile = with_module (build_spec req profile) (module_from_request req.metadata)

  unfoldable pub backend_info : SecurityProfile → BackendInfo
  backend_info profile = record {
    kind = backend_wasm;
    readiness = readiness_beta;
    details = field "runtime" (str b.runtime) (
        field "profile" (str profile) (
          field "maxMemoryPages" (int b.max_memory_pages)
            (field "enableWASI" (bool b.enable_wasi) end)));
  }

  unfoldable pub limits_enforced : Spec → LimitsEnforced
  limits_enforced s = record {
    timeout = true;
    tool_calls = true;
    chain_steps = true;
    memory = ltb 0 s.resources.memory_pages;
    cpu = ltb 0 s.resources.fuel_limit;
    pids = false;
    disk = false;
  }

  unfoldable pub as_sandbox : Sandbox W Spec
  unfolding prepare_spec backend_info limits_enforced extract_out_value
  as_sandbox = record {
    asks_first = false;
    asks_timed = true;
    default_timeout = 30 * 10 ^ 9;
    not_configured = wasm_not_configured;
    unavailable = wasm_unavailable;
    client = b.client;
    health = b.health_checker;
    image = "";
    resolver = none;
    logger = b.logger;
    log_message = "executing in WASM sandbox";
    build = λ image req profile. prepare_spec req profile;
    extract = extract_out_value;
    info = backend_info;
    enforced = λ req spec. limits_enforced spec;
  }

  module _ (unmarshal : String → Option Value) (now : W → ℕ)
      (with_timeout : ℤ → Context W → Context W) where
    unfoldable pub execute : Context W → ExecuteRequest W → W → (ExecuteResult × Option Err) × W
    unfolding as_sandbox Sandbox.execute
    execute = Sandbox.execute unmarshal now with_timeout as_sandbox

    unfoldable pub as_backend : Backend W
    as_backend = record { kind = backend_wasm; execute = execute }
