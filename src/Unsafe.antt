-- ===== src/Unsafe.antt =====
-- runtime/backend/unsafe: the code is run on the host, by `go run` in a temporary directory. The
-- operating system is a parameter: making the directory, writing a file, running the program and
-- removing the directory.
pub mod Safety
pub mod Conformance
pub mod Output
use Prim.Native.String.{slice, len, ◌++◌ as text_append}
use text.Mathlib.Text.{starts_with, find?}
use toolexec.Base.{
  ℕ, ◌-◌, ◌*◌, ◌^◌, ℤ, String, Bool, false, not, ◌&&◌, Option, none, some, List, [], ◌∷◌, is_empty,
  is_some, str_eq, if◌then◌else◌,
}
use toolexec.Value.{Value, null, bool, str, Fields, field, end, get}
use toolexec.Errors.{Err, sentinel, wrapped, timeout, opt_in_required, subprocess_failed}
use toolexec.Effects.{Result, ok, err, Exec, Context}
use toolexec.Runtime.Kinds.{backend_unsafe_host, readiness_prod}
use toolexec.Runtime.Types.{ExecuteRequest, ExecuteResult, no_execution, Backend}
use toolexec.Runtime.Limits.{validate_request}
use toolexec.Sandbox.{Logger, timeout_or}
use toolexec.Docker.Output.{split_lines}

abbrev pub mode_interpreter : String
mode_interpreter = "interpreter"

pub record UnsafeBackend (W : Type 0) : Type 0 where
  pub mode : String
  pub logger : Option (Logger W)
  pub require_opt_in : Bool

-- The backend that is made from a configuration, which has the same fields.
unfoldable pub new_backend : {W : Type 0} → UnsafeBackend W → UnsafeBackend W
new_backend cfg = record cfg { mode = if is_empty cfg.mode then mode_interpreter else cfg.mode }

-- What a program that has run left on its outputs, and its error.
pub record Ran : Type 0 where
  pub stdout : String
  pub stderr : String
  pub err : Option Err

pub record Host (W : Type 0) : Type 0 where
  pub make_dir : Exec W String
  pub remove_all : String → W → W
  pub write_file : String → String → Exec W (Unit {0})
  pub go_run : Context W → String → W → Ran × W

-- strings.Contains(s, part)
abbrev contains_text : String → String → Bool
contains_text s part = is_some (find? s part)

abbrev before_code : String
before_code =
    "package main\n\nimport (\n\t\"encoding/json\"\n\t\"fmt\"\n)\n\nfunc main() {\n\tvar __out any\n\n\t// User code starts here\n\t"

abbrev behind_code : String
behind_code =
    "\n\t// User code ends here\n\n\t// Output __out value\n\tif __out != nil {\n\t\tdata, _ := json.Marshal(__out)\n\t\tfmt.Printf(\"__OUT__:%s\\n\", string(data))\n\t}\n}\n"

unfoldable pub wrap_code : String → String
wrap_code code =
    if contains_text code "package " && contains_text code "func main()"
    then code
    else text_append before_code (text_append code behind_code)

abbrev go_mod : String
go_mod = "module toolruntime_exec\n\ngo 1.21\n"

abbrev pub out_marker : String
out_marker = "__OUT__:"

-- what JSON makes of the text behind the marker, else the text
unfoldable pub text_value : String → Option Value → Value
text_value text none = str text
text_value text (some v) = v

-- the loop over the lines, from the first
first_value : (String → Option Value) → List String → Value
first_value unmarshal [] = null
first_value unmarshal (line ∷ lines) =
    let rest = first_value unmarshal lines in
    let text = slice line (len out_marker) (len line) in
    if starts_with line out_marker then text_value text (unmarshal text) else rest

unfoldable pub extract_out_value : (String → Option Value) → String → Value
unfolding first_value text_value
extract_out_value unmarshal stdout = first_value unmarshal (split_lines stdout)

-- `req.Metadata["unsafeOptIn"].(bool)`, and whether it is true
opted : Option Value → Bool
opted (some (bool b)) = b
opted _ = false

unfoldable pub opted_in : Fields → Bool
unfolding opted
opted_in metadata = opted (get metadata "unsafeOptIn")

module _ {W : Type 0} (unmarshal : String → Option Value) (now : W → ℕ)
    (with_timeout : ℤ → Context W → Context W) (host : Host W) (b : UnsafeBackend W) where
  outputs : Ran → ExecuteResult
  outputs r = record no_execution { stdout = r.stdout; stderr = r.stderr }

  -- the program has failed, and the context is asked whether it has ended
  program_failed : Ran → Err → Option Err × W → (ExecuteResult × Option Err) × W
  program_failed r e (some why, w) = ((outputs r, some (wrapped timeout why)), w)
  program_failed r e (none, w) = ((outputs r, some (wrapped subprocess_failed e)), w)

  outcome : Context W → Ran → Option Err → W → (ExecuteResult × Option Err) × W
  unfolding program_failed outputs
  outcome ctx r none w =
      ((record (outputs r) { value = extract_out_value unmarshal r.stdout }, none), w)
  outcome ctx r (some e) w = program_failed r e (ctx w)

  settle : Context W → Ran × W → (ExecuteResult × Option Err) × W
  unfolding outcome
  settle ctx (r, w) = outcome ctx r r.err w

  failed : Err → W → (ExecuteResult × Option Err) × W
  failed e w = ((no_execution, some (wrapped subprocess_failed e)), w)

  run_files : Context W → String → Result (Unit {0}) × W → (ExecuteResult × Option Err) × W
  unfolding settle failed
  run_files ctx dir (err e, w) = failed e w
  run_files ctx dir (ok _, w) = settle ctx (host.go_run ctx dir w)

  write_module : Context W → String → Result (Unit {0}) × W → (ExecuteResult × Option Err) × W
  unfolding run_files
  write_module ctx dir (err e, w) = failed e w
  write_module ctx dir (ok _, w) =
      run_files ctx dir (host.write_file (text_append dir "/go.mod") go_mod w)

  -- the deferred removal
  removing : String → (ExecuteResult × Option Err) × W → (ExecuteResult × Option Err) × W
  removing dir (out, w) = (out, host.remove_all dir w)

  in_dir : Context W → String → Result String × W → (ExecuteResult × Option Err) × W
  unfolding write_module removing
  in_dir ctx code (err e, w) = failed e w
  in_dir ctx code (ok dir, w) =
      removing dir
        (write_module ctx dir (host.write_file (text_append dir "/main.go") (wrap_code code) w))

  unfoldable pub execute_subprocess : Context W → String → W → (ExecuteResult × Option Err) × W
  unfolding in_dir
  execute_subprocess ctx code w = in_dir ctx code (host.make_dir w)

  -- The interpreter is not there: the subprocess takes its place.
  unfoldable pub execute_interpreter : Context W → String → W → (ExecuteResult × Option Err) × W
  execute_interpreter = execute_subprocess

  by_mode : Context W → String → W → (ExecuteResult × Option Err) × W
  unfolding execute_interpreter
  by_mode ctx code w =
      if str_eq b.mode mode_interpreter
      then execute_interpreter ctx code w
      else if str_eq b.mode "subprocess"
      then execute_subprocess ctx code w
      else execute_interpreter ctx code w

  stamp : ℕ → (ExecuteResult × Option Err) × W → (ExecuteResult × Option Err) × W
  stamp start ((r, e), w) = (
    (
      record r {
        duration = now w - start;
        backend = record {
          kind = backend_unsafe_host;
          readiness = readiness_prod;
          details = field "mode" (str b.mode) end;
        };
      },
      e,
    ),
    w,
  )

  warn : Option (Logger W) → W → W
  warn none w = w
  warn (some write) w = write "UNSAFE: executing code without isolation" w

  run_request : Context W → ExecuteRequest W → W → (ExecuteResult × Option Err) × W
  unfolding by_mode stamp warn
  run_request ctx req w =
      let w1 = warn b.logger w in
      stamp (now w1) (by_mode (with_timeout (timeout_or (30 * 10 ^ 9) req.timeout) ctx) req.code w1)

  unless_invalid : Option Err → Context W → ExecuteRequest W → W → (ExecuteResult × Option Err) × W
  unfolding run_request
  unless_invalid (some e) ctx req w = ((no_execution, some e), w)
  unless_invalid none ctx req w =
      if b.require_opt_in && not (opted_in req.metadata)
      then ((no_execution, some (sentinel opt_in_required)), w)
      else run_request ctx req w

  unfoldable pub execute : Context W → ExecuteRequest W → W → (ExecuteResult × Option Err) × W
  unfolding unless_invalid
  execute ctx req w = unless_invalid (validate_request req) ctx req w

  unfoldable pub as_backend : Backend W
  as_backend = record { kind = backend_unsafe_host; execute = execute }
