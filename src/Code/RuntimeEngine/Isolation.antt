-- ===== src/Code/RuntimeEngine/Isolation.antt =====
-- Snippets that runtime/toolcodeengine runs on a runtime with the Docker backend.
use toolexec.Base.{
  ℕ, ℤ, String, ◌≡◌, refl, true, false, Bool-cases, inl, inr, ◌||◌, Option, some, arith, is_empty,
  str_eq, if◌then◌else◌,
}
use toolexec.Base.Dict.{lookup}
use toolexec.Value.{Value}
use toolexec.Effects.{ok, Context}
use toolexec.Effects.Keeps.{Keeps, ContextKeeps}
use toolexec.Runtime.Types.{SecurityProfile, profile_standard, profile_hardened}
use toolexec.Runtime.Router.{DefaultRuntime, effective_profile}
use toolexec.Runtime.Router
use toolexec.Runtime.Router.Policy.{LoggerKeeps}
use toolexec.Docker.Spec.{ContainerSpec}
use toolexec.Docker.Validation.{IsSandboxed}
use toolexec.Docker.Execution.{ContainerRunner, DockerBackend, effective_timeout, as_backend}
use toolexec.Docker.Execution.Safety.{ServicesKeep, IsolatedRunsKeep}
use toolexec.Docker.Routed.{execute_docker-Keeps}
use toolexec.Code.Executor.{ExecuteParams}
use toolexec.Code.RuntimeEngine.{
  Tools, RuntimeExecute, RuntimeEngine, engine_of, new_engine, request_of, map_outcome, run_on,
  execute,
}

-- the profile of an engine, from the one that its configuration names
unfoldable pub engine_profile : SecurityProfile → SecurityProfile
engine_profile p = if is_empty p then profile_standard else p

engine_profile-named : (p : SecurityProfile) → is_empty (engine_profile p) ≡ false
unfolding engine_profile
engine_profile-named p = elim (Bool-cases (is_empty p)) [
  | inl unnamed ↦ rw unnamed refl
  | inr named ↦ rw (named, named) refl
]

engine_profile-isolated :
    (p : SecurityProfile)
    → (is_empty p || str_eq p profile_standard || str_eq p profile_hardened) ≡ true
    → (str_eq (engine_profile p) profile_standard || str_eq (engine_profile p) profile_hardened)
      ≡ true
unfolding engine_profile
engine_profile-isolated p h = elim (Bool-cases (is_empty p)) [
  | inl unnamed ↦ rw unnamed refl
  | inr named ↦ rw named (rw named at h)
]

new_engine-made :
    {W : Type 0} (run : RuntimeExecute W) (p : SecurityProfile) (e : RuntimeEngine W)
    → new_engine (record { runtime = some run; profile = p }) ≡ ok e
    → e ≡ record { runtime = some run; profile = engine_profile p }
unfolding new_engine engine_of engine_profile
new_engine-made run p e h = ground arith

module _ {W : Type 0} (P : W → Type 0) (unmarshal : String → Option Value) (now : W → ℕ)
    (with_timeout : ℤ → Context W → Context W) (b : DockerBackend W) where
  -- The client keeps `P` whenever it runs a sandboxed spec with no network and a read-only root.
  abbrev pub OfflineRunsKeep : Type 0
  OfflineRunsKeep =
      (client : ContainerRunner W) (ctx : Context W) (spec : ContainerSpec)
      → b.client ≡ some client
      → IsSandboxed spec
      → spec.security.network_mode ≡ "none"
      → spec.security.read_only_rootfs ≡ true
      → Keeps P (client.run ctx spec)

  -- An engine that is made for a runtime, with no profile, the standard or the hardened one, and
  -- whose profile the runtime routes to a Docker backend, makes the client run no snippet but in a
  -- sandboxed container with no network and a read-only root: what such runs, the contexts, the
  -- loggers, the image resolver and the health checker leave alone, the snippet leaves alone.
  pub execute_snippet-Keeps :
      (r : DefaultRuntime W) (p : SecurityProfile) (e : RuntimeEngine W) (ctx : Context W)
      (params : ExecuteParams) (tools : Tools W) (w : W)
      → new_engine (record { runtime = some (Router.execute r); profile = p }) ≡ ok e
      → (is_empty p || str_eq p profile_standard || str_eq p profile_hardened) ≡ true
      → lookup r.backends (engine_profile p) ≡ some (as_backend unmarshal now with_timeout b)
      → OfflineRunsKeep
      → LoggerKeeps P r.logger
      → ContextKeeps P ctx
      → ContextKeeps P
          (with_timeout (effective_timeout unmarshal now with_timeout b params.timeout) ctx)
      → ServicesKeep P b
      → P w
      → P (execute e ctx params tools w).1
  unfolding execute run_on map_outcome request_of effective_profile
  execute_snippet-Keeps r p e ctx params tools w made isolated routed runs logs asks timed k q =
      let engine = new_engine-made (Router.execute r) p e made in
      let named = engine_profile-named p in
      let inside = engine_profile-isolated p isolated in
      let offline : IsolatedRunsKeep P unmarshal now with_timeout b
          (request_of (engine_profile p) params tools) =
        λ client ctx' spec c i.
          runs client ctx' spec c i.sandboxed (rw (named, inside) at i.network)
            (rw (named, inside) at i.rootfs) in
      rw engine (
        execute_docker-Keeps P unmarshal now with_timeout b r ctx
          (request_of (engine_profile p) params tools) w (rw named routed) logs asks timed offline k
          q)
