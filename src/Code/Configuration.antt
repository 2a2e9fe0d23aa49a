-- ===== src/Code/Configuration.antt =====
-- Validate and applyDefaults of code/config.go, and NewDefaultExecutor of code/executor.go. A
-- configuration whose required fields are set is the one that the executor works with.
use toolexec.Base.{ℕ, ℤ, String, Option, none, some, List, [], ◌∷◌, ◌++◌, is_empty, if◌then◌else◌}
use toolexec.Errors.{Err, message, wrapped, configuration}
use toolexec.Effects.{Result, ok, err}
use toolexec.Run.Config.{Index, Store}
use toolexec.Run.Runner.{Runner}
use toolexec.Code.Executor.{Config, Engine}

-- Config, before it is validated; a nil field is `none`.
pub record Settings (W : Type 0) : Type 0 where
  pub index : Option (Index W)
  pub docs : Option (Store W)
  pub run : Option (Runner W)
  pub engine : Option (Engine W)
  pub default_timeout : ℤ
  pub default_language : String
  pub max_tool_calls : ℤ
  pub max_chain_steps : ℤ
  pub logger : Option (ℕ → ℕ → W → W)

named_if_nil {ℓ} : {A : Type ℓ} → String → Option A → List String
named_if_nil name none = name ∷ []
named_if_nil name (some a) = []

refused_if_any : List String → Option Err
refused_if_any [] = none
refused_if_any (name ∷ more) = some (wrapped configuration (message "missing required fields"))

module _ {W : Type 0} where
  -- the fields that are missing
  unfoldable pub missing : Settings W → List String
  unfolding named_if_nil
  missing s =
      named_if_nil "Index" s.index
      ++ (named_if_nil "Docs" s.docs
          ++ (named_if_nil "Run" s.run ++ named_if_nil "Engine" s.engine))

  unfoldable pub validate : Settings W → Option Err
  unfolding refused_if_any
  validate s = refused_if_any (missing s)

  unfoldable pub apply_defaults : Settings W → Settings W
  apply_defaults s = record s {
    default_language = if is_empty s.default_language then "go" else s.default_language;
  }

  -- The configuration that the executor holds; the fields are set where the settings are valid.
  executor_of :
      Settings W
      → Option (Index W)
      → Option (Store W)
      → Option (Runner W)
      → Option (Engine W)
      → Result (Config W)
  executor_of s (some index) (some docs) (some run) (some engine) = ok (record {
    index = index;
    docs = docs;
    run = run;
    engine = engine;
    default_timeout = s.default_timeout;
    default_language = s.default_language;
    max_tool_calls = s.max_tool_calls;
    max_chain_steps = s.max_chain_steps;
    logger = s.logger;
  })
  executor_of s _ _ _ _ = err (wrapped configuration (message "missing required fields"))

  unless_refused : Option Err → Settings W → Result (Config W)
  unfolding executor_of
  unless_refused (some e) s = err e
  unless_refused none s = executor_of s s.index s.docs s.run s.engine

  unfoldable pub new_executor : Settings W → Result (Config W)
  unfolding unless_refused
  new_executor s = unless_refused (validate s) (apply_defaults s)
