-- ===== src/Docker/Execution/Safety.antt =====
-- What the Docker backend asks its client to run.
use toolexec.Base.{ℕ, ℤ, String, ◌≡◌, refl, Option, none, some, arith}
use toolexec.Value.{Value}
use toolexec.Errors.{Err}
use toolexec.Effects.{Result, ok, err, Exec, Context, ◌>>=◌}
use toolexec.Effects.Keeps.{Keeps, Keeps-fail, Keeps-pure, Keeps-map_err, ContextKeeps, keeps_rules}
use toolexec.Effects.Ensures.{Ensures, Ensures-bind, Ensures-pure}
use toolexec.Runtime.Types.{ExecuteRequest}
use toolexec.Docker.Spec.{ContainerSpec}
use toolexec.Docker.Execution.{
  ContainerRunner, DockerBackend, effective_timeout, effective_profile, refuse, read_clock,
  health_check, resolve_image, lift, log, prepare_spec, run_client, run_prepared, execute,
}
use toolexec.Docker.Isolation.{IsIsolated, build_spec-IsIsolated}

-- The parts of the backend beside the client keep `P`.
pub record ServicesKeep {W : Type 0} (P : W → Type 0) (b : DockerBackend W) : Type 0 where
  pub logger :
      (write : String → W → W) (msg : String) (w : W)
      → b.logger ≡ some write
      → P w
      → P (write msg w)
  pub health :
      (ping : Context W → Exec W (Unit {0})) (ctx : Context W)
      → b.health_checker ≡ some ping
      → Keeps P (ping ctx)
  pub resolver :
      (resolve : Context W → String → Exec W String) (ctx : Context W)
      → b.image_resolver ≡ some resolve
      → Keeps P (resolve ctx b.image_name)

module _ {W : Type 0} (P : W → Type 0) (unmarshal : String → Option Value) (now : W → ℕ)
    (with_timeout : ℤ → Context W → Context W) (b : DockerBackend W) where
  refuse-Keeps : (e : Option Err) → Keeps P (refuse unmarshal now with_timeout b e)
  unfolding refuse
  refuse-Keeps none = Keeps-pure tt
  refuse-Keeps (some e) = Keeps-fail e

  lift-Keeps : (r : Result ContainerSpec) → Keeps P (lift unmarshal now with_timeout b r)
  unfolding lift
  lift-Keeps (ok s) = Keeps-pure s
  lift-Keeps (err e) = Keeps-fail e

  read_clock-Keeps : Keeps P (read_clock unmarshal now with_timeout b)
  unfolding read_clock
  read_clock-Keeps = record { at = λ w p. p }

  health_check-Keeps :
      (h : Option (Context W → Exec W (Unit {0}))) (ctx : Context W)
      → b.health_checker ≡ h
      → ServicesKeep P b
      → Keeps P (health_check unmarshal now with_timeout b h ctx)
  unfolding health_check
  health_check-Keeps none ctx e k = Keeps-pure tt
  health_check-Keeps (some ping) ctx e k = Keeps-map_err _ _ (k.health ping ctx e)

  resolve_image-Keeps :
      (h : Option (Context W → String → Exec W String)) (ctx : Context W)
      → b.image_resolver ≡ h
      → ServicesKeep P b
      → Keeps P (resolve_image unmarshal now with_timeout b h ctx)
  unfolding resolve_image
  resolve_image-Keeps none ctx e k = Keeps-pure b.image_name
  resolve_image-Keeps (some resolve) ctx e k = k.resolver resolve ctx e

  log-Keeps :
      (l : Option (String → W → W)) (w : W)
      → b.logger ≡ l
      → ServicesKeep P b
      → P w
      → P (log unmarshal now with_timeout b l w)
  unfolding log
  log-Keeps none w e k p = p
  log-Keeps (some write) w e k p = k.logger write _ w e p

  prepare_spec-Keeps :
      (ctx : Context W) (req : ExecuteRequest W)
      → ContextKeeps P ctx
      → ServicesKeep P b
      → Keeps P (prepare_spec unmarshal now with_timeout b ctx req)
  unfolding prepare_spec
  prepare_spec-Keeps ctx req c k =
      let health = health_check-Keeps b.health_checker ctx refl k in
      let image = resolve_image-Keeps b.image_resolver ctx refl k in
      search (keeps_rules, refuse-Keeps, lift-Keeps, read_clock-Keeps) depth 20

  lift-spec :
      (r : Result ContainerSpec) (w : W) (s : ContainerSpec)
      → (lift unmarshal now with_timeout b r w).0 ≡ ok s
      → r ≡ ok s
  unfolding lift ◌>>=◌
  lift-spec (ok s) w t h = h
  lift-spec (err e) w t h = ground arith

  abbrev pub Isolated : ExecuteRequest W → ContainerSpec → Type 0
  Isolated req =
      IsIsolated b.seccomp_path (effective_profile unmarshal now with_timeout b req.profile)

  prepare_spec-IsIsolated :
      (ctx : Context W) (req : ExecuteRequest W)
      → Ensures
          (λ (p : ℕ × ContainerSpec). Isolated req p.1)
          (prepare_spec unmarshal now with_timeout b ctx req)
  unfolding prepare_spec
  prepare_spec-IsIsolated ctx req = Ensures-bind _ _ λ _ _. Ensures-bind _ _ λ _ _.
      Ensures-bind _ _ λ _ _. Ensures-bind _ _ λ start _. Ensures-bind _ _ λ _ _.
        Ensures-bind _ _ λ image _. Ensures-bind _ _ λ spec built.
          Ensures-pure _ (start, spec)
            (build_spec-IsIsolated b.seccomp_path image req _ spec
              (lift-spec _ built.0 spec built.1))

  -- The client keeps `P` whenever it is asked to run an isolated spec.
  abbrev pub IsolatedRunsKeep : ExecuteRequest W → Type 0
  IsolatedRunsKeep req =
      (client : ContainerRunner W) (ctx : Context W) (spec : ContainerSpec)
      → b.client ≡ some client
      → Isolated req spec
      → Keeps P (client.run ctx spec)

  run_client-Keeps :
      (c : Option (ContainerRunner W)) (ctx : Context W) (req : ExecuteRequest W)
      (spec : ContainerSpec) (start : ℕ) (w : W)
      → b.client ≡ c
      → IsolatedRunsKeep req
      → ServicesKeep P b
      → Isolated req spec
      → P w
      → P (run_client unmarshal now with_timeout b c ctx req spec start w).1
  unfolding run_client
  run_client-Keeps none ctx req spec start w e runs k i p = p
  run_client-Keeps (some client) ctx req spec start w e runs k i p =
      (runs client ctx spec e i).at _ (log-Keeps b.logger w refl k p)

  run_prepared-Keeps :
      (ctx : Context W) (req : ExecuteRequest W) (r : Result (ℕ × ContainerSpec)) (w : W)
      → ((q : ℕ × ContainerSpec) → r ≡ ok q → Isolated req q.1)
      → IsolatedRunsKeep req
      → ServicesKeep P b
      → P w
      → P (run_prepared unmarshal now with_timeout b ctx req r w).1
  unfolding run_prepared
  run_prepared-Keeps ctx req (ok (start, spec)) w i runs k p =
      run_client-Keeps b.client ctx req spec start w refl runs k (i (start, spec) refl) p
  run_prepared-Keeps ctx req (err e) w i runs k p = p

  -- The client is only asked to run specs that are isolated for the profile of the request, or for
  -- the standard profile where the request names none: what such runs, the timed context, the
  -- logger, the image resolver and the health checker leave alone, executing a request leaves alone.
  pub execute_isolated-Keeps :
      (ctx : Context W) (req : ExecuteRequest W) (w : W)
      → ContextKeeps P
          (with_timeout (effective_timeout unmarshal now with_timeout b req.timeout) ctx)
      → IsolatedRunsKeep req
      → ServicesKeep P b
      → P w
      → P (execute unmarshal now with_timeout b ctx req w).1
  unfolding execute
  execute_isolated-Keeps ctx req w c runs k p =
      let timed = with_timeout (effective_timeout unmarshal now with_timeout b req.timeout) ctx in
      run_prepared-Keeps timed req _ _ ((prepare_spec-IsIsolated timed req).at w) runs k
        ((prepare_spec-Keeps timed req c k).at w p)
