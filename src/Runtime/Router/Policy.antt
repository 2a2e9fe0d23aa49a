-- ===== src/Runtime/Router/Policy.antt =====
-- What the routing guarantees: no unsafe backend for a denied profile, and which backend runs.
use toolexec.Base.{
  String, ◌≡◌, ◌≢◌, refl, inl, inr, true, Option, none, some, str_eq, eq_iff, Bool-cases,
}
use toolexec.Base.Dict.{lookup, contains}
use toolexec.Errors.{Err}
use toolexec.Effects.{Context}
use toolexec.Effects.Keeps.{ContextKeeps}
use toolexec.Runtime.Types.{SecurityProfile, ExecuteRequest, ExecuteResult, Backend}
use toolexec.Runtime.Limits.{validate_request}
use toolexec.Runtime.Kinds.{backend_unsafe_host}
use toolexec.Runtime.Router.{
  DefaultRuntime, effective_profile, log, settle, delegate, route, unless_refused, unless_ended,
  execute,
}

-- Whatever the logger writes keeps `P`.
pub record LoggerKeeps {W : Type 0} (P : W → Type 0) (logger : Option (String → W → W))
    : Type 0 where
  pub at :
      (write : String → W → W) (msg : String) (w : W) → logger ≡ some write → P w → P (write msg w)

log-Keeps :
    {W : Type 0} {P : W → Type 0} (logger : Option (String → W → W)) (msg : String) (w : W)
    → LoggerKeeps P logger
    → P w
    → P (log logger msg w)
unfolding log
log-Keeps none msg w k p = p
log-Keeps (some write) msg w k p = k.at write msg w refl p

module _ {W : Type 0} (P : W → Type 0) (r : DefaultRuntime W) (ctx : Context W)
    (req : ExecuteRequest W) (logs : LoggerKeeps P r.logger) where
  settle-Keeps :
      (result : ExecuteResult) (e : Option Err) (w : W) → P w → P (settle r req result e w).1
  unfolding settle
  settle-Keeps result (some e) w p = log-Keeps r.logger _ w logs p
  settle-Keeps result none w p = log-Keeps r.logger _ w logs p

  pub delegate-Keeps :
      (b : Backend W) (w : W)
      → ((w : W) → P w → P (b.execute ctx req w).1)
      → P w
      → P (delegate r ctx req b w).1
  unfolding delegate
  delegate-Keeps b w k p =
      settle-Keeps _ _ _ (k (log r.logger "executing code" w) (log-Keeps r.logger _ w logs p))

  -- Every backend that the runtime has, the unsafe one apart, keeps `P`.
  abbrev SafeKeep : Type 0
  SafeKeep =
      (profile : SecurityProfile) (b : Backend W)
      → lookup r.backends profile ≡ some b
      → b.kind ≢ backend_unsafe_host
      → (w : W) → P w
      → P (b.execute ctx req w).1

  route-Keeps :
      (profile : SecurityProfile) (found : Option (Backend W)) (w : W)
      → lookup r.backends profile ≡ found
      → SafeKeep
      → P w
      → P (route r ctx req true found w).1
  unfolding route
  route-Keeps profile none w e k p = p
  route-Keeps profile (some b) w e k p = elim (Bool-cases (str_eq b.kind backend_unsafe_host)) [
    | inl unsafe ↦ rw unsafe p
    | inr safe ↦ rw safe (
        delegate-Keeps b w (k profile b e (λ h. cc (safe, (eq_iff b.kind backend_unsafe_host).1 h)))
          p)
  ]

  unless_refused-Keeps :
      (e : Option Err) (w : W)
      → contains r.deny_unsafe_profiles (effective_profile r req) ≡ true
      → SafeKeep
      → P w
      → P (unless_refused r ctx req e w).1
  unfolding unless_refused
  unless_refused-Keeps (some e) w denied k p = p
  unless_refused-Keeps none w denied k p =
      rw denied (route-Keeps (effective_profile r req) _ w refl k p)

  unless_ended-Keeps :
      (e : Option Err) (w : W)
      → contains r.deny_unsafe_profiles (effective_profile r req) ≡ true
      → SafeKeep
      → P w
      → P (unless_ended r ctx req e w).1
  unfolding unless_ended
  unless_ended-Keeps (some e) w denied k p = p
  unless_ended-Keeps none w denied k p = unless_refused-Keeps (validate_request req) w denied k p

  -- For a profile that is denied the unsafe backend, a request whose profile, or the default one
  -- where it names none, is that profile never reaches an unsafe backend: whatever the context,
  -- the logger and every backend of another kind leave alone, executing the request leaves alone.
  pub execute_denied-Keeps :
      (w : W)
      → ContextKeeps P ctx
      → contains r.deny_unsafe_profiles (effective_profile r req) ≡ true
      → SafeKeep
      → P w
      → P (execute r ctx req w).1
  unfolding execute
  execute_denied-Keeps w asks denied k p = unless_ended-Keeps (ctx w).0 _ denied k (asks.at w p)
