-- ===== src/Runtime/Types.antt =====
-- runtime/types.go and the interface of runtime/backend.go. Profiles and kinds of backends are
-- string types, as in the source. Durations are in nanoseconds and not negative.
use toolexec.Base.{ℕ, ℤ, String, Bool, false, Option, List, [], str_eq, ◌||◌}
use toolexec.Value.{Value, Fields, null, end}
use toolexec.Errors.{Err}
use toolexec.Effects.{Exec, Context}
use toolexec.Model.{BackendKind, Summary, ToolDoc, ToolExample}
use toolexec.Run.Types.{ChainStep, RunResult, ChainOutcome}

abbrev pub SecurityProfile : Type 0
SecurityProfile = String

abbrev pub profile_dev : SecurityProfile
profile_dev = "dev"

abbrev pub profile_standard : SecurityProfile
profile_standard = "standard"

abbrev pub profile_hardened : SecurityProfile
profile_hardened = "hardened"

-- IsValid of SecurityProfile
unfoldable pub is_valid : SecurityProfile → Bool
is_valid p = str_eq p profile_dev || str_eq p profile_standard || str_eq p profile_hardened

-- Zero is "unlimited".
pub record Limits : Type 0 where
  pub max_tool_calls : ℤ
  pub max_chain_steps : ℤ
  pub cpu_quota_millis : ℤ
  pub memory_bytes : ℤ
  pub pids_max : ℤ
  pub disk_bytes : ℤ

pub record ToolCallRecord : Type 0 where
  pub tool_id : String
  pub backend_kind : BackendKind
  pub duration : ℕ
  pub error_op : String

-- ToolGateway. `get_tool_calls` is the optional interface toolCallRecorder.
pub record ToolGateway (W : Type 0) : Type 0 where
  pub search_tools : Context W → String → ℤ → Exec W (List Summary)
  pub list_namespaces : Context W → Exec W (List String)
  pub describe_tool : Context W → String → String → Exec W ToolDoc
  pub list_tool_examples : Context W → String → ℤ → Exec W (List ToolExample)
  pub run_tool : Context W → String → Fields → W → (RunResult × Option Err) × W
  pub run_chain : Context W → List ChainStep → W → ChainOutcome × W
  pub get_tool_calls : Option (W → List ToolCallRecord)

pub record ExecuteRequest (W : Type 0) : Type 0 where
  pub language : String
  pub code : String
  pub timeout : ℤ
  pub limits : Limits
  pub profile : SecurityProfile
  pub gateway : Option (ToolGateway W)
  pub metadata : Fields

pub record BackendInfo : Type 0 where
  pub kind : String
  pub readiness : String
  pub details : Fields

pub record LimitsEnforced : Type 0 where
  pub timeout : Bool
  pub tool_calls : Bool
  pub chain_steps : Bool
  pub memory : Bool
  pub cpu : Bool
  pub pids : Bool
  pub disk : Bool

pub record ExecuteResult : Type 0 where
  pub value : Value
  pub stdout : String
  pub stderr : String
  pub tool_calls : List ToolCallRecord
  pub duration : ℕ
  pub backend : BackendInfo
  pub limits_enforced : LimitsEnforced

abbrev pub nothing_enforced : LimitsEnforced
nothing_enforced = record {
  timeout = false;
  tool_calls = false;
  chain_steps = false;
  memory = false;
  cpu = false;
  pids = false;
  disk = false;
}

-- The zero value `ExecuteResult{}`.
abbrev pub no_execution : ExecuteResult
no_execution = record {
  value = null;
  stdout = "";
  stderr = "";
  tool_calls = [];
  duration = 0;
  backend = record { kind = ""; readiness = ""; details = end };
  limits_enforced = nothing_enforced;
}

-- The interface Backend.
pub record Backend (W : Type 0) : Type 0 where
  pub kind : String
  pub execute : Context W → ExecuteRequest W → W → (ExecuteResult × Option Err) × W
