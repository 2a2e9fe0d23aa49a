-- ===== src/Tests/Hosts.antt =====
-- The theorems on snippets on a runtime, on Proxmox containers and on the unsafe host.
use mathlib.Core.Bool.{decide}
use Prim.Native.Nat.{min}
use toolexec.Base.{
  ◌&&◌, ltb, length, ℕ, ◌-◌, ◌<◌, ℤ, String, ◌≡◌, refl, true, false, pos, Option, none, some, List,
  [], ◌∷◌, if◌then◌else◌, arith,
}
use toolexec.Effects.{ok, Context}
use toolexec.Errors.{Err, message, wrapped, resource_limit, errors_is, sentinel_eq}
use toolexec.Value.{Value, str, end}
use toolexec.Runtime.Types.{ExecuteRequest, nothing_enforced, ToolGateway}
use toolexec.Code.Executor.{wrap_timeout}
use toolexec.Code.RuntimeEngine.{map_error}
use toolexec.Code.RuntimeEngine.Outcome.{matches, limits_reported}
use toolexec.Unsafe.{
  UnsafeBackend, Host, execute, execute_subprocess, extract_out_value, text_value,
}
use toolexec.Unsafe.Safety.{Tracks, execute-left}
use mathlib.Core.Path.{subst}
use toolexec.Run.Types.{no_result}
use toolexec.Docker.Output.{split_lines}
use toolexec.Runtime.Limits.{validate_request}
use toolexec.Remote.{RemoteClient}
use toolexec.Remote.Proxmox
use toolexec.Remote.Proxmox.{ApiClient, ProxmoxBackend}
use toolexec.Remote.Proxmox.Serving.{Handled, execute-Handled}
use toolexec.Remote.Proxmox.Starting.{Ends}
use toolexec.Tests.Fixture.{live, no_json}
use toolexec.Tests.Runtimes.{request}

-- The world counts the intervals until the container runs.
abbrev api : ApiClient ℕ
api = record {
  status = λ ctx node vmid w. (ok (if ltb 0 w then "stopped" else "running"), w);
  start = λ ctx node vmid w. (ok tt, w);
  stop = λ ctx node vmid w. (ok tt, w);
}

-- An interval passes while one to five are left; else the context ends.
abbrev wait : Context ℕ → ℤ → ℕ → Option Err × ℕ
wait ctx interval w = if ltb 0 w && ltb w 6 then (none, w - 1) else (some (message "deadline"), w)

abbrev with_timeout : ℤ → Context ℕ → Context ℕ
with_timeout t ctx = ctx

abbrev now : ℕ → ℕ
now w = w

abbrev kept : Value → Value
kept v = v

-- The runtime service answers with a value.
abbrev service : RemoteClient ℕ
service = record {
  execute = λ ctx req w. (
    ok (record {
      result = some (record {
        value = str "done";
        stdout = "";
        stderr = "";
        tool_calls = [];
        duration_millis = 0;
        limits_enforced = nothing_enforced;
      });
      error = none;
    }),
    w,
  );
  endpoint = none;
}

abbrev proxmox : ProxmoxBackend ℕ
proxmox = record {
  client = some api;
  runtime_client = some service;
  runtime_gateway_endpoint = "";
  runtime_gateway_token = "";
  node = "node";
  vmid = pos 100;
  auto_start = true;
  auto_stop = true;
  start_timeout = pos 3;
  poll_interval = pos 1;
  logger = none;
}

-- The world is a list of directories; the file system makes "/tmp/1" and removes the last.
abbrev remove : List String → List String
remove [] = []
remove (d ∷ ds) = ds

abbrev host : Host (List String)
host = record {
  make_dir = λ w. (ok "/tmp/1", "/tmp/1" ∷ w);
  remove_all = λ dir w. remove w;
  write_file = λ path text w. (ok tt, w);
  go_run = λ ctx dir w. (record { stdout = "__OUT__:1"; stderr = ""; err = none }, w);
}

abbrev alive : Context (List String)
alive w = (none, w)

limits_reported_example :
    matches (
      wrap_timeout kept now with_timeout
        (map_error (some (wrapped resource_limit (message "memory")))))
    ≡ true
unfolding errors_is sentinel_eq decide
limits_reported_example =
    limits_reported kept now with_timeout (wrapped resource_limit (message "memory"))

interval : (w v : ℕ) → wait live (pos 1) w ≡ (none, v) → min 5 v < min 5 w
interval w v h = ground arith

ends : Ends wait with_timeout proxmox api live 5 (min 5)
ends = record { bounded = λ w. omega arith; status = λ w. omega arith; interval = interval }

any_client :
    (client : ApiClient ℕ)
    → proxmox.client ≡ some client
    → Ends wait with_timeout proxmox client live 5 (min 5)
any_client client e =
    let same : api ≡ client = cc in
    subst (λ c. Ends wait with_timeout proxmox c live 5 (min 5)) same ends

execute-Handled_example :
    Handled wait with_timeout proxmox now live live request 6 2
      (Proxmox.execute wait with_timeout proxmox now live live request 6 2)
execute-Handled_example =
    execute-Handled wait with_timeout proxmox now live live request 5 (min 5) any_client 2

tracks : Tracks host none alive (λ w. w)
tracks = record {
  made = λ w v dir e. ground arith;
  not_made = λ w v e h. absurd (ground arith);
  removed = λ w dir ds e. rw e refl;
  wrote = λ w path text. refl;
  ran = λ w dir. refl;
  asked = λ w. refl;
  logged = λ w write text e. absurd cc;
}

abbrev unsafe : UnsafeBackend (List String)
unsafe = record { mode = "subprocess"; logger = none; require_opt_in = false }

abbrev unlimited : ℤ → Context (List String) → Context (List String)
unlimited t ctx = ctx

-- It does nothing.
abbrev idle_gateway : ToolGateway (List String)
idle_gateway = record {
  search_tools = λ ctx query limit w. (ok [], w);
  list_namespaces = λ ctx w. (ok [], w);
  describe_tool = λ ctx id level w. (ok (record { summary = ""; notes = "" }), w);
  list_tool_examples = λ ctx id limit w. (ok [], w);
  run_tool = λ ctx id args w. ((no_result, none), w);
  run_chain = λ ctx steps w. (record { result = no_result; steps = []; err = none }, w);
  get_tool_calls = none;
}

abbrev unsafe_request : ExecuteRequest (List String)
unsafe_request = record {
  language = "go";
  code = "__out = 1";
  timeout = pos 0;
  limits = request.limits;
  profile = "";
  gateway = some idle_gateway;
  metadata = end;
}

-- The request is accepted, and runs in a directory that is made and removed.
runs_code :
    (execute no_json length unlimited host unsafe alive unsafe_request ("/etc" ∷ [])).0.0.value
    ≡ str "1"
unfolding execute execute_subprocess extract_out_value split_lines text_value validate_request
runs_code = refl

execute-left_example :
    (execute no_json length unlimited host unsafe alive unsafe_request ("/etc" ∷ [])).1
    ≡ "/etc" ∷ []
execute-left_example =
    execute-left no_json length unlimited host unsafe alive unsafe_request (λ w. w) tracks
      ("/etc" ∷ [])
