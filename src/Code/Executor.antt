-- ===== src/Code/Executor.antt =====
-- code/executor.go, code/config.go and code/types.go. An engine is an interface that other code
-- implements, and sees the tools through the interface Tools alone: what it does with a snippet is
-- a script of calls of that interface and of effects of its own, each followed by what it does with
-- the answer, so that no two calls are in flight at once. A script ends; contexts bound the time that an engine takes.
use toolexec.Base.{
  ℕ, zero, suc, ◌-◌, ◌/◌, ℤ, pos, negsuc, String, Bool, true, false, Option, none, some, List,
  length, ltb, is_empty, if◌then◌else◌,
}
use toolexec.Model.{Summary, ToolDoc, ToolExample}
use toolexec.Value.{Value, Fields}
use toolexec.Errors.{Err, message, wrapped, errors_is, limit_exceeded, deadline_exceeded}
use toolexec.Effects.{Result, Context}
use toolexec.Run.Types.{ChainStep, RunResult, ChainOutcome}
use toolexec.Run.Config.{Index, Store}
use toolexec.Run.Runner.{Runner}
use toolexec.Code.Tools.{
  CallRecord, ToolsConfig, ToolsState, new_tools, println, search_tools, list_namespaces,
  describe_tool, list_tool_examples, run_tool, run_chain,
}

pub record ExecuteParams : Type 0 where
  pub language : String
  pub code : String
  pub timeout : ℤ
  pub max_tool_calls : ℤ

pub record ExecuteResult : Type 0 where
  pub value : Value
  pub stdout : String
  pub stderr : String
  pub tool_calls : List CallRecord
  pub duration_ms : ℕ

pub data Script (W : Type 0) : Type 0 where
  finish : ExecuteResult → Option Err → Script W
  effect : (W → Value × W) → (Value → Script W) → Script W
  prints : String → Script W → Script W
  searches : Context W → String → ℤ → (Result (List Summary) → Script W) → Script W
  lists : Context W → (Result (List String) → Script W) → Script W
  describes : Context W → String → String → (Result ToolDoc → Script W) → Script W
  exemplifies : Context W → String → ℤ → (Result (List ToolExample) → Script W) → Script W
  calls : Context W → String → Fields → (RunResult × Option Err → Script W) → Script W
  chains : Context W → List ChainStep → (ChainOutcome → Script W) → Script W

abbrev pub Engine : Type 0 → Type 0
Engine W = Context W → ExecuteParams → Script W

-- Config, with the required fields as they are when Validate accepts them. `logger` is Logf with
-- the two numbers that it is given.
pub record Config (W : Type 0) : Type 0 where
  pub index : Index W
  pub docs : Store W
  pub run : Runner W
  pub engine : Engine W
  pub default_timeout : ℤ
  pub default_language : String
  pub max_tool_calls : ℤ
  pub max_chain_steps : ℤ
  pub logger : Option (ℕ → ℕ → W → W)

-- `maxCalls == 0 || maxCalls > limit`, for a limit above 0
abbrev exceeds : ℤ → ℕ → Bool
exceeds (pos zero) limit = true
exceeds (pos (suc n)) limit = ltb limit (suc n)
exceeds (negsuc n) limit = false

-- the request's limit, capped by the configuration
unfoldable pub resolve_max_calls : ℤ → ℤ → ℤ
resolve_max_calls (pos zero) max_calls = max_calls
resolve_max_calls (pos (suc n)) max_calls =
    if exceeds max_calls (suc n) then pos (suc n) else max_calls
resolve_max_calls (negsuc n) max_calls = max_calls

module _ {W : Type 0} (copy_opaque : Value → Value) (now : W → ℕ)
    (with_timeout : ℤ → Context W → Context W) where
  -- an engine at work
  unfoldable pub play :
      ToolsConfig W → Script W → ToolsState → W → (ExecuteResult × Option Err) × ToolsState × W
  play tools (finish result e) t w = ((result, e), t, w)
  play tools (effect f k) t w = let (v, w1) = f w in play tools (k v) t w1
  play tools (prints text k) t w = play tools k (println text t) w
  play tools (searches ctx query limit k) t w =
      let (r, w1) = search_tools copy_opaque now tools ctx query limit w in play tools (k r) t w1
  play tools (lists ctx k) t w =
      let (r, w1) = list_namespaces copy_opaque now tools ctx w in play tools (k r) t w1
  play tools (describes ctx id level k) t w =
      let (r, w1) = describe_tool copy_opaque now tools ctx id level w in play tools (k r) t w1
  play tools (exemplifies ctx id limit k) t w =
      let (r, w1) = list_tool_examples copy_opaque now tools ctx id limit w in play tools (k r) t w1
  play tools (calls ctx id args k) t w =
      let (r, t1, w1) = run_tool copy_opaque now tools ctx id args t w in play tools (k r) t1 w1
  play tools (chains ctx steps k) t w =
      let (r, t1, w1) = run_chain copy_opaque now tools ctx steps t w in play tools (k r) t1 w1

  unfoldable pub apply_params : Config W → ExecuteParams → ExecuteParams
  apply_params cfg params = record params {
    language = if is_empty params.language then cfg.default_language else params.language;
    timeout = elim params.timeout [ pos zero ↦ cfg.default_timeout | _ ↦ params.timeout ];
  }

  abbrev timed : ℤ → Context W → Context W
  timed (pos (suc n)) ctx = with_timeout (pos (suc n)) ctx
  timed _ ctx = ctx

  log : Option (ℕ → ℕ → W → W) → ℕ → ℕ → W → W
  log none count duration w = w
  log (some write) count duration w = write count duration w

  -- a deadline is a limit
  unfoldable pub wrap_timeout : Option Err → Option Err
  wrap_timeout none = none
  wrap_timeout (some e) =
      if errors_is e deadline_exceeded
      then some (wrapped limit_exceeded (message "timeout"))
      else some e

  unfoldable pub tools_of : Config W → ExecuteParams → ToolsConfig W
  unfolding resolve_max_calls
  tools_of cfg params = record {
    index = cfg.index;
    docs = cfg.docs;
    runner = cfg.run;
    max_tool_calls = resolve_max_calls cfg.max_tool_calls params.max_tool_calls;
    max_chain_steps = cfg.max_chain_steps;
  }

  unfoldable pub execute_code :
      Config W → Context W → ExecuteParams → W → (ExecuteResult × Option Err) × W
  unfolding apply_params log wrap_timeout tools_of
  execute_code cfg ctx params w =
      let p = apply_params cfg params in
      let ((result, e), t, w1) =
        play (tools_of cfg params) (cfg.engine (timed p.timeout ctx) p) new_tools w in
      let duration = (now w1 - now w) / 1000000 in
      (
        (
          record result { tool_calls = t.tool_calls; stdout = t.stdout; duration_ms = duration },
          wrap_timeout e,
        ),
        log cfg.logger (length t.tool_calls) duration w1,
      )
