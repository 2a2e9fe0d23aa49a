-- ===== src/Lib.antt =====
-- A verification library for toolexec, the Go library that runs tools: it resolves a tool id to a
-- backend, validates, executes and normalises (package run), chains tools, and runs code in
-- sandboxes whose only way out is a gateway to the tools (package runtime).
--
-- The parts, and the files that model them:
--   Model, Value, Errors     the types of the modules toolfoundation and tooldiscovery that pass
--                            through, JSON-like values, and error chains with errors.Is
--   Effects                  Go functions as functions on a world `W`: whatever the program only
--                            calls (handlers, servers, indexes, the clock) changes the world;
--                            Keeps, Fails and Ensures are the logics for it
--   Run/Types, Run/Config    run/types.go, run/executor.go, run/config.go, NewRunner
--   Run/Resolve              run/resolve.go: resolveTool, selectBackend
--   Run/Dispatch             run/dispatch.go
--   Run/Normalize            run/normalize.go
--   Run/Runner               run/default_runner.go: Run (prepare and perform), RunWithProgress
--   Run/Chain                run/default_runner.go: RunChain, RunChainWithProgress
--   Run/Stream               run/stream.go and RunStream; its goroutine is a step relation
--   Runtime/Types, Limits,   runtime/types.go, runtime/backend.go
--   Runtime/Kinds
--   Runtime/Router           runtime/runtime.go: NewDefaultRuntime, Execute, RegisterBackend,
--                            UnregisterBackend
--   Runtime/Contract         runtime/contract.go: the tests that a backend and a gateway have to
--                            pass, as functions to the failures that they report; the files named
--                            Conformance have the laws of the components that are tested
--   Gateway/Direct           runtime/gateway/direct/direct.go; Concurrency has the sections under
--                            the mutex as steps of a system of calls
--   Gateway/Proxy            runtime/gateway/proxy: the pending requests, Payloads (what the methods
--                            put into messages and read of them), Methods, and Calls with the
--                            accesses of requests and deliveries in flight as steps
--   Docker                   runtime/backend/docker: Spec, Validation, Builder, Options, Output and
--                            Execution after the files of that package and docker.go
--   Sandbox                  runtime/backend/containerd, gvisor, kata, kubernetes, firecracker and
--                            wasm: the Execute that they share, and a file for each
--   Remote, Remote/Proxmox   runtime/backend/remote, runtime/backend/proxmox
--   Temporal, Unsafe         runtime/backend/temporal, runtime/backend/unsafe
--   Code                     code/tools.go, code/executor.go, code/config.go: Copies, Tools, Executor
--                            and Configuration; an engine is a script of calls of the interface
--                            Tools, one at a time
--   Code/RuntimeEngine       runtime/toolcodeengine: snippets that run on a runtime
--   Backends                 backend/registry.go, backend/aggregator.go: registration and Execute;
--                            Listing has the lists and StartAll, Local is backend/local/local.go;
--                            the files named Listed relate ListTools to Execute
--   Facade                   exec/exec.go, exec/options.go, exec/result.go: New, RunTool, RunChain
--   Tests                    the theorems at concrete inputs
--
-- How they interact: Runtime/Router hands a request to a backend such as Docker; the sandboxed code
-- calls Gateway/Direct, which counts and calls a Run/Runner, here as the record of operations
-- Runner that Run/Chain implements; the runner calls executors, which are records of arguments.
--
-- How code is modelled:
--   * A call is a function from the world to its result and the world after it. An error return is
--     the case err of Result; where a Go function returns a value beside its error, both are there.
--     A context is the action ctx.Err(), so that cancellation may come between any two calls. Where
--     the source asks ctx.Err() a second time to return what the first call found, it is one call.
--   * Nil pointers, interfaces and functions are none. A nil map reads as an empty one.
--   * Errors keep the chain that errors.Is and errors.As read; message texts are without the
--     values that they quote.
--   * Go ints that may be negative are ℤ; counts are ℕ. The counter of the direct gateway is taken
--     not to overflow, the CPU quota of the Docker backend wraps as an int64 does. Times are in
--     nanoseconds. Progress is a natural number.
--   * json.Unmarshal is the parameter `unmarshal`, time.Now `now`, context.WithTimeout
--     `with_timeout`, and the defaults of the other repositories are parameters of new_runner.
--   * The polling loop of the Proxmox backend takes fuel, a round for each poll: one poll more than
--     the deadline of the start leaves is enough. The other loops are structural recursions, and the
--     goroutines are relations; the one of RunStream has a bound on its steps.
--   * The calls that an engine makes of package code are one at a time: toolsImpl has no lock, and
--     calls at once, which its documentation allows, are not modelled.
--   * The request counter of the proxy gateway has 64 bits, and a run makes fewer requests.
--   * encoding/base64 and the decimal numbers of fmt are written out: Sandbox/Wasm/Base64 and
--     Base/Decimal.
--
-- Not modelled: the texts that Error methods return, the interfaces that no code uses
-- (StreamRunner, DaemonInfo, ModuleLoader, StreamingBackend, ConfigurableBackend), the codec of the
-- proxy gateway, which it does not call, and the examples. The mutexes of the runtime and of the
-- registry are left out, since a call reads the maps once.
pub mod Base
pub mod Errors
pub mod Effects
pub mod Value
pub mod Model
pub mod Run
pub mod Runtime
pub mod Gateway
pub mod Docker
pub mod Sandbox
pub mod Remote
pub mod Temporal
pub mod Unsafe
pub mod Code
pub mod Backends
pub mod Facade
pub mod Tests
