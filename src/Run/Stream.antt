-- ===== src/Run/Stream.antt =====
-- run/stream.go, and RunStream of run/default_runner.go with the goroutine that it starts.
pub mod Order
use toolexec.Base.{
  true, Bool, false, String, ◌≡◌, Option, none, some, List, [], ◌∷◌, ◌++◌, map, is_empty,
  if◌then◌else◌,
}
use toolexec.Model.{ToolBackend, Tool, mcp, provider, local, unset, other}
use toolexec.Value.{Fields}
use toolexec.Errors.{message, sentinel, stream_not_supported, tool_error}
use toolexec.Effects.{Exec, pure, fail, map_err, ◌>>=◌, Context}
use toolexec.Run.Types.{StreamEvent, McpExecutor, ProviderExecutor}
use toolexec.Run.Config.{DefaultRunner}
use toolexec.Run.Resolve.{Resolved}
use toolexec.Run.Runner.{prepare}

-- A channel: nil, or the events that it will carry until it is closed.
abbrev pub Channel : Type 0
Channel = Option (List StreamEvent)

-- The goroutine of RunStream: what it has still to read, the event that it holds between the
-- receive and the send, what it has sent, and whether it has returned and closed its channel.
pub record Forwarder : Type 0 where
  pub tool_id : String
  pub incoming : List StreamEvent
  pub held : Option StreamEvent
  pub sent : List StreamEvent
  pub closed : Bool

module _ {W : Type 0} (r : DefaultRunner W) (ctx : Context W) where
  dispatch_stream_mcp : Option (McpExecutor W) → Option String → Tool → Fields → Exec W Channel
  dispatch_stream_mcp none server tool args = fail (message "MCP executor not configured")
  dispatch_stream_mcp (some exec) none tool args = fail (message "MCP backend missing server name")
  dispatch_stream_mcp (some exec) (some server) tool args =
      exec.call_tool_stream ctx server (record { name = tool.name; arguments = args })

  dispatch_stream_provider :
      Option (ProviderExecutor W) → Option (String × String) → Fields → Exec W Channel
  dispatch_stream_provider none details args = fail (message "provider executor not configured")
  dispatch_stream_provider (some exec) none args = fail (message "provider backend missing details")
  dispatch_stream_provider (some exec) (some (provider_id, tool_id)) args =
      exec.call_tool_stream ctx provider_id tool_id args

  unfoldable pub dispatch_stream : Tool → ToolBackend → Fields → Exec W Channel
  unfolding dispatch_stream_mcp dispatch_stream_provider
  dispatch_stream tool backend args = elim backend.kind [
    | mcp ↦ dispatch_stream_mcp r.config.mcp backend.server_name tool args
    | provider ↦ dispatch_stream_provider r.config.provider backend.provider args
    | local ↦ fail (sentinel stream_not_supported)
    | unset ↦ fail (message "unknown backend kind")
    | other k ↦ fail (message "unknown backend kind")
  ]

  -- the guard against a nil channel, and the start of the goroutine
  start_forwarder : String → ToolBackend → Channel → Exec W Forwarder
  start_forwarder id backend none =
      fail (tool_error id (some backend) "stream" (sentinel stream_not_supported))
  start_forwarder id backend (some events) =
      pure (record { tool_id = id; incoming = events; held = none; sent = []; closed = false })

  open_stream : String → Fields → Resolved × ToolBackend → Exec W Forwarder
  unfolding start_forwarder
  open_stream id args (resolved, backend) = do
    raw ←
        map_err (tool_error id (some backend) "stream") (dispatch_stream resolved.tool backend args)
    start_forwarder id backend raw

  unfoldable pub run_stream : String → Fields → Exec W Forwarder
  unfolding open_stream
  run_stream id args = prepare r ctx id args >>= open_stream id args

-- `if ev.ToolID == "" { ev.ToolID = toolID }`
unfoldable pub stamp : String → StreamEvent → StreamEvent
stamp id ev = record ev { tool_id = if is_empty ev.tool_id then id else ev.tool_id }

-- What the goroutine may do next; the context may end at any moment.
pub data ForwarderStep : Forwarder → Forwarder → Type 0 where
  receive :
      (f : Forwarder) (ev : StreamEvent) (rest : List StreamEvent)
      → f.closed ≡ false
      → f.held ≡ none
      → f.incoming ≡ ev ∷ rest
      → ForwarderStep f (record f { incoming = rest; held = some (stamp f.tool_id ev) })
  send :
      (f : Forwarder) (ev : StreamEvent)
      → f.closed ≡ false
      → f.held ≡ some ev
      → ForwarderStep f (record f { held = none; sent = f.sent ++ ev ∷ [] })
  -- the raw channel is closed
  finish :
      (f : Forwarder)
      → f.closed ≡ false
      → f.held ≡ none
      → f.incoming ≡ []
      → ForwarderStep f (record f { closed = true })
  -- `<-ctx.Done()`, in either select
  cancel : (f : Forwarder) → f.closed ≡ false → ForwarderStep f (record f { closed = true })

pub data ForwarderSteps (f : Forwarder) : Forwarder → Type 0 where
  here : ForwarderSteps f f
  then : {g h : Forwarder} → ForwarderSteps f g → ForwarderStep g h → ForwarderSteps f h
