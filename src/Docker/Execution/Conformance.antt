-- ===== src/Docker/Execution/Conformance.antt =====
-- runtime/backend/docker: the Docker backend under the laws of the contract tests.
use toolexec.Base.{ℕ, ℤ, String, ◌≡◌, ◌≢◌, refl, Option, none, some, arith}
use toolexec.Value.{Value}
use toolexec.Errors.{Err}
use toolexec.Effects.{Result, ok, err, Context, fail, pure}
use toolexec.Effects.Ensures.{Ensures, Ensures-bind}
use toolexec.Runtime.Types.{ExecuteRequest}
use toolexec.Runtime.Limits.{validate_request}
use toolexec.Runtime.Contract.Laws.{Conforms}
use toolexec.Docker.Spec.{ContainerSpec, ContainerResult}
use toolexec.Docker.Execution.{
  ContainerRunner, DockerBackend, backend_info, effective_timeout, refuse, prepare_spec, convert,
  run_client, run_prepared, execute, as_backend,
}

module _ {W : Type 0} (unmarshal : String → Option Value) (now : W → ℕ)
    (with_timeout : ℤ → Context W → Context W) (b : DockerBackend W) where
  refuse-none :
      (o : Option Err) (w : W) (u : Unit {0})
      → (refuse unmarshal now with_timeout b o w).0 ≡ ok u
      → o ≡ none
  unfolding refuse pure fail
  refuse-none none w u h = refl
  refuse-none (some e) w u h = absurd (ground arith)

  -- a spec is only prepared for a valid request
  prepare_spec-valid :
      (timed : Context W) (req : ExecuteRequest W)
      → Ensures
          (λ (p : ℕ × ContainerSpec). validate_request req ≡ none)
          (prepare_spec unmarshal now with_timeout b timed req)
  unfolding prepare_spec
  prepare_spec-valid timed req =
      Ensures-bind _ _ λ u refused. record {
        at = λ w a h. refuse-none (validate_request req) refused.0 u refused.1;
      }

  run_prepared-invalid :
      (timed : Context W) (req : ExecuteRequest W) (r : Result (ℕ × ContainerSpec)) (w : W)
      → ((p : ℕ × ContainerSpec) → r ≢ ok p)
      → (run_prepared unmarshal now with_timeout b timed req r w).0.1 ≢ none
  unfolding run_prepared
  run_prepared-invalid timed req (ok p) w h = absurd (h p refl)
  run_prepared-invalid timed req (err e) w h = λ same. cc

  convert-kind :
      (req : ExecuteRequest W) (elapsed : ℕ) (r : Result ContainerResult)
      → (convert unmarshal now with_timeout b req elapsed r).0.backend.kind ≡ "docker"
  unfolding convert backend_info
  convert-kind req elapsed (ok out) = refl
  convert-kind req elapsed (err e) = refl

  run_client-kind :
      (c : Option (ContainerRunner W)) (timed : Context W) (req : ExecuteRequest W)
      (spec : ContainerSpec) (start : ℕ) (w : W)
      → (run_client unmarshal now with_timeout b c timed req spec start w).0.1 ≡ none
      → (run_client unmarshal now with_timeout b c timed req spec start w).0.0.backend.kind
        ≡ "docker"
  unfolding run_client
  run_client-kind none timed req spec start w h = absurd cc
  run_client-kind (some run) timed req spec start w h = convert-kind req _ _

  run_prepared-kind :
      (timed : Context W) (req : ExecuteRequest W) (r : Result (ℕ × ContainerSpec)) (w : W)
      → (run_prepared unmarshal now with_timeout b timed req r w).0.1 ≡ none
      → (run_prepared unmarshal now with_timeout b timed req r w).0.0.backend.kind ≡ "docker"
  unfolding run_prepared
  run_prepared-kind timed req (ok (start, spec)) w h =
      run_client-kind b.client timed req spec start w h
  run_prepared-kind timed req (err e) w h = absurd cc

  pub as_backend-Conforms : Conforms (as_backend unmarshal now with_timeout b)
  unfolding as_backend execute
  as_backend-Conforms = record {
    named = refl;
    refuses = λ ctx req w invalid.
        let timed = with_timeout (effective_timeout unmarshal now with_timeout b req.timeout) ctx in
        run_prepared-invalid timed req _ _
          (λ p h. invalid ((prepare_spec-valid timed req).at w p h));
    reports = λ ctx req w h. run_prepared-kind _ req _ _ h;
  }
