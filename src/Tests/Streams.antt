-- ===== src/Tests/Streams.antt =====
-- The theorems on streams, for an MCP server that sends two events.
use toolexec.Base.{ℕ, suc, ◌≤◌, ◌≡◌, refl, false, true, none, some, List, [], ◌∷◌, ◌++◌, map, ◌⊎◌}
use toolexec.Model.{mcp}
use toolexec.Value.{null, str}
use toolexec.Effects.{ok, ◌>>=◌}
use toolexec.Run.Types.{StreamEvent, chunk, done, McpExecutor, no_backend}
use toolexec.Run.Config.{DefaultRunner}
use toolexec.Run.Resolve.{resolve_tool, from_index, select_backend}
use toolexec.Run.Runner.{prepare}
use toolexec.Run.Stream.{
  Forwarder, ForwarderSteps, here, then, receive, send, stamp, dispatch_stream, run_stream,
}
use toolexec.Run.Stream.Order.{
  run_stream-order, run_stream-terminates, run_stream_can_finish, count_steps, CanStep,
}
use toolexec.Tests.Fixture.{live, index, runner, tool_named, args}

abbrev chunk_event : StreamEvent
chunk_event = record { kind = chunk; tool_id = ""; payload = str "a"; err = none }

abbrev done_event : StreamEvent
done_event = record { kind = done; tool_id = "other"; payload = null; err = none }

abbrev events : List StreamEvent
events = chunk_event ∷ done_event ∷ []

abbrev server : McpExecutor ℕ
server = record {
  call_tool = λ ctx name params w. (ok none, suc w);
  call_tool_stream = λ ctx name params w. (ok (some events), suc w);
}

abbrev streaming : DefaultRunner ℕ
streaming = record runner {
  config = record runner.config {
    mcp = some server;
    index = some (record index {
      get_tool =
          λ id w. (ok (tool_named id, record no_backend { kind = mcp; server_name = some "s" }), w);
    });
  };
}

abbrev started : Forwarder
started = record { tool_id = "t"; incoming = events; held = none; sent = []; closed = false }

abbrev received : Forwarder
received = record started { incoming = done_event ∷ []; held = some (stamp "t" chunk_event) }

abbrev forwarded : Forwarder
forwarded = record received { held = none; sent = stamp "t" chunk_event ∷ [] }

run_stream-started : run_stream streaming live "t" args 0 ≡ (ok started, 1)
unfolding run_stream ◌>>=◌ prepare resolve_tool from_index select_backend dispatch_stream
run_stream-started = refl

two_steps : ForwarderSteps started forwarded
two_steps =
    then (then here (receive started chunk_event (done_event ∷ []) refl refl refl))
      (send received (stamp "t" chunk_event) refl refl)

run_stream-order_example :
    forwarded.sent ++ map (stamp "t") forwarded.incoming ≡ map (stamp "t") events
run_stream-order_example =
    run_stream-order streaming live "t" args 0 1 started forwarded run_stream-started two_steps

run_stream-terminates_example :
    (count_steps two_steps ≤ 5) × ((forwarded.closed ≡ true) ⊎ CanStep forwarded)
run_stream-terminates_example =
    run_stream-terminates streaming live "t" args 0 1 started forwarded run_stream-started two_steps

run_stream_can_finish_example :
    (h : Forwarder) × ForwarderSteps forwarded h
    × (h.closed ≡ true)
    × (h.sent ≡ map (stamp "t") events)
run_stream_can_finish_example =
    run_stream_can_finish streaming live "t" args 0 1 started forwarded run_stream-started two_steps
      refl
