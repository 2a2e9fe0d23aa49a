-- ===== src/Runtime/Router.antt =====
-- DefaultRuntime of runtime/runtime.go. The maps are those at the time of the call; a nil map reads
-- as an empty one, and no backend in it is nil.
pub mod Policy
pub mod Registration
pub mod Delegation
pub mod Reports
use mathlib.Core.Option
use toolexec.Base.{
  String, Bool, ◌&&◌, Option, none, some, List, [], ◌∷◌, str_eq, is_empty, if◌then◌else◌,
}
use toolexec.Base.Dict.{Dict, lookup, insert, delete, contains}
use toolexec.Errors.{Err, message, wrapped, runtime_unavailable, backend_denied}
use toolexec.Effects.{Context}
use toolexec.Runtime.Types.{
  SecurityProfile, ToolCallRecord, ToolGateway, ExecuteRequest, ExecuteResult, no_execution,
  Backend,
}
use toolexec.Runtime.Limits.{validate_request}
use toolexec.Runtime.Kinds.{backend_unsafe_host}

pub record DefaultRuntime (W : Type 0) : Type 0 where
  pub backends : Dict (Backend W)
  pub deny_unsafe_profiles : List SecurityProfile
  pub default_profile : SecurityProfile
  pub logger : Option (String → W → W)

pub record RuntimeConfig (W : Type 0) : Type 0 where
  pub backends : Dict (Backend W)
  pub deny_unsafe_profiles : List SecurityProfile
  pub default_profile : SecurityProfile
  pub logger : Option (String → W → W)

-- NewDefaultRuntime; the set of the denied profiles is what the list contains
unfoldable pub new_runtime : {W : Type 0} → RuntimeConfig W → DefaultRuntime W
new_runtime cfg = record {
  backends = cfg.backends;
  deny_unsafe_profiles = cfg.deny_unsafe_profiles;
  default_profile = cfg.default_profile;
  logger = cfg.logger;
}

module _ {W : Type 0} where
  unfoldable pub register_backend :
      DefaultRuntime W → SecurityProfile → Backend W → DefaultRuntime W
  register_backend r profile backend = record r { backends = insert r.backends profile backend }

  unfoldable pub unregister_backend : DefaultRuntime W → SecurityProfile → DefaultRuntime W
  unregister_backend r profile = record r { backends = delete r.backends profile }

  -- the profile of the request, or the default
  unfoldable pub effective_profile : DefaultRuntime W → ExecuteRequest W → SecurityProfile
  effective_profile r req = if is_empty req.profile then r.default_profile else req.profile

  log : Option (String → W → W) → String → W → W
  log none msg w = w
  log (some write) msg w = write msg w

  recorded : Option (ToolGateway W) → W → List ToolCallRecord → List ToolCallRecord
  recorded none w calls = calls
  recorded (some gateway) w calls = elim gateway.get_tool_calls [ none ↦ calls | some f ↦ f w ]

  -- tool calls that the backend did not report are asked from the gateway
  capture : Option (ToolGateway W) → W → List ToolCallRecord → List ToolCallRecord
  unfolding recorded
  capture gateway w [] = recorded gateway w []
  capture gateway w (call ∷ calls) = call ∷ calls

  settle :
      DefaultRuntime W
      → ExecuteRequest W
      → ExecuteResult
      → Option Err
      → W
      → (ExecuteResult × Option Err) × W
  unfolding log capture
  settle r req result (some e) w = ((result, some e), log r.logger "execution failed" w)
  settle r req result none w = (
    (record result { tool_calls = capture req.gateway w result.tool_calls }, none),
    log r.logger "execution completed" w,
  )

  pub delegate :
      DefaultRuntime W
      → Context W
      → ExecuteRequest W
      → Backend W
      → W
      → (ExecuteResult × Option Err) × W
  unfolding settle
  delegate r ctx req backend w =
      let ((result, e), w1) = backend.execute ctx req (log r.logger "executing code" w) in
      settle r req result e w1

  route :
      DefaultRuntime W
      → Context W
      → ExecuteRequest W
      → Bool
      → Option (Backend W)
      → W
      → (ExecuteResult × Option Err) × W
  route r ctx req denied none w =
      ((no_execution, some (wrapped runtime_unavailable (message "no backend for profile"))), w)
  route r ctx req denied (some backend) w =
      if denied && str_eq backend.kind backend_unsafe_host
      then ((no_execution, some (wrapped backend_denied (message "unsafe backend denied"))), w)
      else delegate r ctx req backend w

  unless_refused :
      DefaultRuntime W
      → Context W
      → ExecuteRequest W
      → Option Err
      → W
      → (ExecuteResult × Option Err) × W
  unfolding route
  unless_refused r ctx req (some e) w = ((no_execution, some e), w)
  unless_refused r ctx req none w =
      let profile = effective_profile r req in
      route r ctx req (contains r.deny_unsafe_profiles profile) (lookup r.backends profile) w

  unless_ended :
      DefaultRuntime W
      → Context W
      → ExecuteRequest W
      → Option Err
      → W
      → (ExecuteResult × Option Err) × W
  unfolding unless_refused
  unless_ended r ctx req (some e) w = ((no_execution, some e), w)
  unless_ended r ctx req none w = unless_refused r ctx req (validate_request req) w

  unfoldable pub execute :
      DefaultRuntime W → Context W → ExecuteRequest W → W → (ExecuteResult × Option Err) × W
  unfolding unless_ended delegate
  execute r ctx req w = let (e, w1) = ctx w in unless_ended r ctx req e w1
