-- ===== src/Run/Dispatch.antt =====
-- run/dispatch.go. The texts of the messages are those of the source,
-- without the values that they quote.
use toolexec.Base.{String, Option, none, some}
use toolexec.Model.{ToolBackend, Tool, mcp, provider, local, unset, other}
use toolexec.Value.{Value, Fields, null}
use toolexec.Errors.{message}
use toolexec.Effects.{Exec, pure, fail, ◌>>=◌, Context}
use toolexec.Run.Types.{CallToolResult, McpExecutor, ProviderExecutor, LocalHandler, LocalRegistry}
use toolexec.Run.Config.{DefaultRunner}

-- dispatchResult
pub record DispatchResult : Type 0 where
  pub structured : Value
  pub mcp_result : Option CallToolResult

module _ {W : Type 0} (ctx : Context W) where
  unfoldable pub dispatch_mcp :
      Option (McpExecutor W) → Option String → Tool → Fields → Exec W DispatchResult
  dispatch_mcp none server tool args = fail (message "MCP executor not configured")
  dispatch_mcp (some exec) none tool args = fail (message "MCP backend missing server name")
  dispatch_mcp (some exec) (some server) tool args = do
    result ← exec.call_tool ctx server (record { name = tool.name; arguments = args })
    pure (record { structured = null; mcp_result = result })

  unfoldable pub dispatch_provider :
      Option (ProviderExecutor W) → Option (String × String) → Fields → Exec W DispatchResult
  dispatch_provider none details args = fail (message "provider executor not configured")
  dispatch_provider (some exec) none args = fail (message "provider backend missing details")
  dispatch_provider (some exec) (some (provider_id, tool_id)) args = do
    result ← exec.call_tool ctx provider_id tool_id args
    pure (record { structured = result; mcp_result = none })

  call_handler : Option (Option (LocalHandler W)) → Fields → Exec W DispatchResult
  call_handler (some (some handler)) args = do
    result ← handler ctx args
    pure (record { structured = result; mcp_result = none })
  call_handler _ args = fail (message "local handler not found")

  unfoldable pub dispatch_local :
      Option (LocalRegistry W) → Option String → Fields → Exec W DispatchResult
  unfolding call_handler
  dispatch_local none name args = fail (message "local registry not configured")
  dispatch_local (some reg) none args = fail (message "local backend missing name")
  dispatch_local (some reg) (some name) args = call_handler (reg.get name) args

  unfoldable pub dispatch : DefaultRunner W → Tool → ToolBackend → Fields → Exec W DispatchResult
  unfolding dispatch_mcp dispatch_provider dispatch_local
  dispatch r tool backend args = elim backend.kind [
    | mcp ↦ dispatch_mcp r.config.mcp backend.server_name tool args
    | provider ↦ dispatch_provider r.config.provider backend.provider args
    | local ↦ dispatch_local r.config.local backend.local_name args
    | unset ↦ fail (message "unknown backend kind")
    | other k ↦ fail (message "unknown backend kind")
  ]
