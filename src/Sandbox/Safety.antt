-- ===== src/Sandbox/Safety.antt =====
-- What Execute of a sandbox backend asks its client to run, and when.
use toolexec.Base.{ℕ, ℤ, String, ◌≡◌, refl, Option, none, some, arith}
use toolexec.Value.{Value}
use toolexec.Errors.{Err, Sentinel}
use toolexec.Effects.{Result, ok, err, Context, ◌>>=◌}
use toolexec.Effects.Keeps.{Keeps, Keeps-fail, Keeps-pure, Keeps-map_err, ContextKeeps, keeps_rules}
use toolexec.Effects.Ensures.{Ensures, Ensures-bind, Ensures-pure}
use toolexec.Runtime.Types.{ExecuteRequest}
use toolexec.Sandbox.{
  Sandbox, Client, HealthChecker, ImageResolver, Logger, timeout_or, profile_or_standard, refuse,
  lift, health_check, resolve_image, log, read_clock, prepare, run_client, run_prepared, execute,
}

-- The parts of the backend beside the client keep `P`.
pub record ServicesKeep {W Spec : Type 0} (P : W → Type 0) (b : Sandbox W Spec) : Type 0 where
  pub logger :
      (write : Logger W) (msg : String) (w : W) → b.logger ≡ some write → P w → P (write msg w)
  pub health :
      (ping : HealthChecker W) (ctx : Context W) → b.health ≡ some ping → Keeps P (ping ctx)
  pub resolver :
      (resolve : ImageResolver W) (ctx : Context W)
      → b.resolver ≡ some resolve
      → Keeps P (resolve ctx b.image)

-- The client keeps `P` whenever it is asked to run a spec that satisfies `Q`.
abbrev pub RunsKeep : {W Spec : Type 0} → (W → Type 0) → (Spec → Type 0) → Sandbox W Spec → Type 0
RunsKeep {W} {Spec} P Q b =
    (run : Client W Spec) (ctx : Context W) (spec : Spec)
    → b.client ≡ some run
    → Q spec
    → Keeps P (run ctx spec)

module _ {W : Type 0} (P : W → Type 0) where
  refuse-Keeps : (e : Option Err) → Keeps P (refuse e)
  unfolding refuse
  refuse-Keeps none = Keeps-pure tt
  refuse-Keeps (some e) = Keeps-fail e

  lift-Keeps : {A : Type 0} (r : Result A) → Keeps P (lift r)
  unfolding lift
  lift-Keeps (ok s) = Keeps-pure s
  lift-Keeps (err e) = Keeps-fail e

  read_clock-Keeps : (now : W → ℕ) → Keeps P (read_clock now)
  unfolding read_clock
  read_clock-Keeps now = record { at = λ w p. p }

module _ {W Spec : Type 0} (P : W → Type 0) (b : Sandbox W Spec) (k : ServicesKeep P b) where
  health_check-Keeps :
      (s : Sentinel) (h : Option (HealthChecker W)) (ctx : Context W)
      → b.health ≡ h
      → Keeps P (health_check s h ctx)
  unfolding health_check
  health_check-Keeps s none ctx e = Keeps-pure tt
  health_check-Keeps s (some ping) ctx e = Keeps-map_err _ _ (k.health ping ctx e)

  resolve_image-Keeps :
      (h : Option (ImageResolver W)) (ctx : Context W)
      → b.resolver ≡ h
      → Keeps P (resolve_image b.image h ctx)
  unfolding resolve_image
  resolve_image-Keeps none ctx e = Keeps-pure b.image
  resolve_image-Keeps (some resolve) ctx e = k.resolver resolve ctx e

  log-Keeps : (msg : String) (l : Option (Logger W)) (w : W) → b.logger ≡ l → P w → P (log msg l w)
  unfolding log
  log-Keeps msg none w e p = p
  log-Keeps msg (some write) w e p = k.logger write msg w e p

lift-same : {W A : Type 0} (r : Result A) (w : W) (a : A) → (lift r w).0 ≡ ok a → r ≡ ok a
unfolding lift ◌>>=◌
lift-same (ok a) w b h = h
lift-same (err e) w b h = ground arith

module _ {W Spec : Type 0} (P : W → Type 0) (Q : Spec → Type 0) (unmarshal : String → Option Value)
    (now : W → ℕ) (with_timeout : ℤ → Context W → Context W) (b : Sandbox W Spec) where
  prepare-Keeps :
      (ctx timed : Context W) (req : ExecuteRequest W)
      → ContextKeeps P ctx
      → ContextKeeps P timed
      → ServicesKeep P b
      → Keeps P (prepare unmarshal now with_timeout b ctx timed req)
  unfolding prepare
  prepare-Keeps ctx timed req c t k =
      let health = health_check-Keeps P b k b.unavailable b.health timed refl in
      let image = resolve_image-Keeps P b k b.resolver timed refl in
      search (keeps_rules, refuse-Keeps, lift-Keeps, read_clock-Keeps) depth 20

  -- every spec that the backend builds for the request satisfies `Q`
  abbrev pub Builds : ExecuteRequest W → Type 0
  Builds req =
      (image : String) (spec : Spec)
      → b.build image req (profile_or_standard req.profile) ≡ ok spec
      → Q spec

  prepare-Ensures :
      (ctx timed : Context W) (req : ExecuteRequest W)
      → Builds req
      → Ensures (λ (p : ℕ × Spec). Q p.1) (prepare unmarshal now with_timeout b ctx timed req)
  unfolding prepare
  prepare-Ensures ctx timed req builds = Ensures-bind _ _ λ _ _. Ensures-bind _ _ λ _ _.
      Ensures-bind _ _ λ _ _. Ensures-bind _ _ λ _ _. Ensures-bind _ _ λ start _.
        Ensures-bind _ _ λ _ _. Ensures-bind _ _ λ image _. Ensures-bind _ _ λ spec built.
          Ensures-pure _ (start, spec) (builds image spec (lift-same _ built.0 spec built.1))

  run_client-Keeps :
      (c : Option (Client W Spec)) (timed : Context W) (req : ExecuteRequest W) (spec : Spec)
      (start : ℕ) (w : W)
      → b.client ≡ c
      → RunsKeep P Q b
      → ServicesKeep P b
      → Q spec
      → P w
      → P (run_client unmarshal now with_timeout b c timed req spec start w).1
  unfolding run_client
  run_client-Keeps none timed req spec start w e runs k q p = p
  run_client-Keeps (some run) timed req spec start w e runs k q p =
      (runs run timed spec e q).at _ (log-Keeps P b k b.log_message b.logger w refl p)

  run_prepared-Keeps :
      (timed : Context W) (req : ExecuteRequest W) (r : Result (ℕ × Spec)) (w : W)
      → ((q : ℕ × Spec) → r ≡ ok q → Q q.1)
      → RunsKeep P Q b
      → ServicesKeep P b
      → P w
      → P (run_prepared unmarshal now with_timeout b timed req r w).1
  unfolding run_prepared
  run_prepared-Keeps timed req (ok (start, spec)) w good runs k p =
      run_client-Keeps b.client timed req spec start w refl runs k (good (start, spec) refl) p
  run_prepared-Keeps timed req (err e) w good runs k p = p

  -- If every spec that a backend builds for a request satisfies `Q`, its client is only asked to
  -- run such specs: what such runs, the contexts, the logger, the image resolver and the health
  -- checker leave alone, executing the request leaves alone.
  pub execute_built-Keeps :
      (ctx : Context W) (req : ExecuteRequest W) (w : W)
      → Builds req
      → RunsKeep P Q b
      → ContextKeeps P ctx
      → ContextKeeps P (with_timeout (timeout_or b.default_timeout req.timeout) ctx)
      → ServicesKeep P b
      → P w
      → P (execute unmarshal now with_timeout b ctx req w).1
  unfolding execute
  execute_built-Keeps ctx req w builds runs c t k p =
      let timed = with_timeout (timeout_or b.default_timeout req.timeout) ctx in
      run_prepared-Keeps timed req _ _ ((prepare-Ensures ctx timed req builds).at w) runs k
        ((prepare-Keeps ctx timed req c t k).at w p)
