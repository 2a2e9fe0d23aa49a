-- ===== src/Runtime/Router/Delegation.antt =====
-- What a request can do to the world is what the backend of its profile does.
use toolexec.Base.{◌≡◌, inl, inr, Bool, ◌&&◌, Option, none, some, str_eq, Bool-cases}
use toolexec.Base.Dict.{lookup}
use toolexec.Errors.{Err}
use toolexec.Effects.{Context}
use toolexec.Effects.Keeps.{ContextKeeps}
use toolexec.Runtime.Types.{ExecuteRequest, Backend}
use toolexec.Runtime.Limits.{validate_request}
use toolexec.Runtime.Kinds.{backend_unsafe_host}
use toolexec.Runtime.Router.{
  DefaultRuntime, effective_profile, route, unless_refused, unless_ended, execute,
}
use toolexec.Runtime.Router.Policy.{LoggerKeeps, delegate-Keeps}

module _ {W : Type 0} (P : W → Type 0) (r : DefaultRuntime W) (ctx : Context W)
    (req : ExecuteRequest W) (logs : LoggerKeeps P r.logger) (b : Backend W)
    (registered : lookup r.backends (effective_profile r req) ≡ some b)
    (runs : (w : W) → P w → P (b.execute ctx req w).1) where
  route_found-Keeps : (denied : Bool) (w : W) → P w → P (route r ctx req denied (some b) w).1
  unfolding route
  route_found-Keeps denied w p = elim (Bool-cases (denied && str_eq b.kind backend_unsafe_host)) [
    | inl refused ↦ rw refused p
    | inr accepted ↦ rw accepted (delegate-Keeps P r ctx req logs b w runs p)
  ]

  unless_refused_found-Keeps : (e : Option Err) (w : W) → P w → P (unless_refused r ctx req e w).1
  unfolding unless_refused
  unless_refused_found-Keeps (some e) w p = p
  unless_refused_found-Keeps none w p = rw registered (route_found-Keeps _ w p)

  unless_ended_found-Keeps : (e : Option Err) (w : W) → P w → P (unless_ended r ctx req e w).1
  unfolding unless_ended
  unless_ended_found-Keeps (some e) w p = p
  unless_ended_found-Keeps none w p = unless_refused_found-Keeps (validate_request req) w p

  pub execute_found-Keeps : (w : W) → ContextKeeps P ctx → P w → P (execute r ctx req w).1
  unfolding execute
  execute_found-Keeps w asks p = unless_ended_found-Keeps (ctx w).0 _ (asks.at w p)
