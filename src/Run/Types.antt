-- ===== src/Run/Types.antt =====
-- run/types.go and the interfaces of run/executor.go.
use toolexec.Base.{ℕ, String, Bool, Option, none, List}
use toolexec.Model.{unset, ToolBackend, Tool}
use toolexec.Value.{Value, Fields, null}
use toolexec.Errors.{Err}
use toolexec.Effects.{Exec, Context}

-- mcp.Content. `other` is a content that is no text: the JSON object that it encodes to, or none
-- where it does not encode to one.
pub data Content : Type 0 where
  text : String → Content
  other : Option Fields → Content

-- mcp.CallToolResult; a nil `StructuredContent` is `null`.
pub record CallToolResult : Type 0 where
  pub structured_content : Value
  pub content : List Content

-- mcp.CallToolParams
pub record CallToolParams : Type 0 where
  pub name : String
  pub arguments : Fields

pub data StreamEventKind : Type 0 where
  progress chunk done error : StreamEventKind

pub record StreamEvent : Type 0 where
  pub kind : StreamEventKind
  pub tool_id : String
  pub payload : Value
  pub err : Option Err

-- The numbers are floats that hold small naturals.
pub record ProgressEvent : Type 0 where
  pub progress : ℕ
  pub total : ℕ
  pub message : String

pub record ChainStep : Type 0 where
  pub tool_id : String
  pub args : Fields
  pub use_previous : Bool

pub record RunResult : Type 0 where
  pub tool : Tool
  pub backend : ToolBackend
  pub structured : Value
  pub mcp_result : Option CallToolResult

pub record StepResult : Type 0 where
  pub tool_id : String
  pub backend : ToolBackend
  pub result : RunResult
  pub err : Option Err

-- The zero values `model.ToolBackend{}` and `RunResult{}`.
abbrev pub no_backend : ToolBackend
no_backend = record { kind = unset; server_name = none; provider = none; local_name = none }

abbrev pub no_result : RunResult
no_result = record {
  tool = record { name = ""; namespace = ""; details = null };
  backend = no_backend;
  structured = null;
  mcp_result = none;
}

-- What `RunChain` returns: `(RunResult, []StepResult, error)`.
pub record ChainOutcome : Type 0 where
  pub result : RunResult
  pub steps : List StepResult
  pub err : Option Err

-- A nil result comes with a nil error too. A channel is nil, or the events that it will carry
-- until it is closed.
pub record McpExecutor (W : Type 0) : Type 0 where
  pub call_tool : Context W → String → CallToolParams → Exec W (Option CallToolResult)
  pub call_tool_stream : Context W → String → CallToolParams → Exec W (Option (List StreamEvent))

pub record ProviderExecutor (W : Type 0) : Type 0 where
  pub call_tool : Context W → String → String → Fields → Exec W Value
  pub call_tool_stream : Context W → String → String → Fields → Exec W (Option (List StreamEvent))

abbrev pub LocalHandler : Type 0 → Type 0
LocalHandler W = Context W → Fields → Exec W Value

-- `Get` of LocalRegistry: none is a name that is not registered, `some none` a nil handler.
pub record LocalRegistry (W : Type 0) : Type 0 where
  pub get : String → Option (Option (LocalHandler W))
