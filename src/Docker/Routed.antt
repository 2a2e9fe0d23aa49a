-- ===== src/Docker/Routed.antt =====
-- The runtime with the Docker backend behind it.
use toolexec.Base.{ℕ, ℤ, String, ◌≡◌, Option, some}
use toolexec.Base.Dict.{lookup}
use toolexec.Value.{Value}
use toolexec.Effects.{Context}
use toolexec.Effects.Keeps.{ContextKeeps}
use toolexec.Runtime.Types.{ExecuteRequest}
use toolexec.Runtime.Router.{DefaultRuntime, effective_profile, execute}
use toolexec.Runtime.Router.Policy.{LoggerKeeps}
use toolexec.Runtime.Router.Delegation.{execute_found-Keeps}
use toolexec.Docker.Execution.{DockerBackend, effective_timeout, as_backend}
use toolexec.Docker.Execution.Safety.{ServicesKeep, IsolatedRunsKeep, execute_isolated-Keeps}

-- A request that the runtime routes to a Docker backend makes the client run no spec but one that
-- is isolated for the request's own profile, or for the standard profile where the request names
-- none: the runtime's default profile chooses the backend and not the isolation. What such runs,
-- the contexts, the loggers, the image resolver and the health checker leave alone, the runtime
-- leaves alone.
pub execute_docker-Keeps :
    {W : Type 0} (P : W → Type 0) (unmarshal : String → Option Value) (now : W → ℕ)
    (with_timeout : ℤ → Context W → Context W) (b : DockerBackend W) (r : DefaultRuntime W)
    (ctx : Context W) (req : ExecuteRequest W) (w : W)
    → lookup r.backends (effective_profile r req) ≡ some (as_backend unmarshal now with_timeout b)
    → LoggerKeeps P r.logger
    → ContextKeeps P ctx
    → ContextKeeps P (with_timeout (effective_timeout unmarshal now with_timeout b req.timeout) ctx)
    → IsolatedRunsKeep P unmarshal now with_timeout b req
    → ServicesKeep P b
    → P w
    → P (execute r ctx req w).1
unfolding as_backend
execute_docker-Keeps P unmarshal now with_timeout b r ctx req w registered logs asks timed runs k
      p =
    execute_found-Keeps P r ctx req logs (as_backend unmarshal now with_timeout b) registered
      (λ v q. execute_isolated-Keeps P unmarshal now with_timeout b ctx req v timed runs k q) w asks
      p
