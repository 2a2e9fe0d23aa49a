-- ===== src/Sandbox.antt =====
-- The Execute method that the packages runtime/backend/containerd, gvisor, kata, kubernetes,
-- firecracker and wasm each spell out: what differs between them is a field. The client, the image
-- resolver and the health checker are interfaces that other code implements; context.WithTimeout,
-- the clock and json.Unmarshal are parameters.
pub mod Limits
pub mod Safety
pub mod Containerd
pub mod Gvisor
pub mod Kata
pub mod Kubernetes
pub mod Firecracker
pub mod Wasm
pub mod Confinement
pub mod Conformance
use toolexec.Base.{
  ℕ, zero, ◌-◌, ℤ, pos, String, Bool, Option, none, some, [], is_empty, is_some, if◌then◌else◌,
}
use toolexec.Value.{Value}
use toolexec.Errors.{Err, Sentinel, sentinel, wrapped}
use toolexec.Effects.{
  Result, ok, err, Exec, Context, pure, fail, map_err, check, guard, when, ◌>>=◌, ◌>>◌,
}
use toolexec.Runtime.Types.{
  SecurityProfile, profile_standard, ExecuteRequest, ExecuteResult, no_execution, BackendInfo,
  LimitsEnforced,
}
use toolexec.Runtime.Limits.{validate_request}

-- What Execute reads of the result that a client returns.
pub record Output : Type 0 where
  pub stdout : String
  pub stderr : String
  pub duration : ℕ

abbrev pub Client : Type 0 → Type 0 → Type 0
Client W Spec = Context W → Spec → Exec W Output

abbrev pub HealthChecker : Type 0 → Type 0
HealthChecker W = Context W → Exec W (Unit {0})

abbrev pub ImageResolver : Type 0 → Type 0
ImageResolver W = Context W → String → Exec W String

abbrev pub Logger : Type 0 → Type 0
Logger W = String → W → W

pub record Sandbox (W Spec : Type 0) : Type 0 where
  -- whether ctx.Err() is asked before the request is validated, and whether the timed context is
  -- asked before the clock is read
  pub asks_first : Bool
  pub asks_timed : Bool
  -- the timeout of a request that has none, in nanoseconds
  pub default_timeout : ℕ
  pub not_configured : Sentinel
  pub unavailable : Sentinel
  pub client : Option (Client W Spec)
  pub health : Option (HealthChecker W)
  pub image : String
  pub resolver : Option (ImageResolver W)
  pub logger : Option (Logger W)
  pub log_message : String
  pub build : String → ExecuteRequest W → SecurityProfile → Result Spec
  pub extract : (String → Option Value) → String → Value
  pub info : SecurityProfile → BackendInfo
  pub enforced : ExecuteRequest W → Spec → LimitsEnforced

-- `timeout == 0`
abbrev pub timeout_or : ℕ → ℤ → ℤ
timeout_or default (pos zero) = pos default
timeout_or default t = t

abbrev pub profile_or_standard : SecurityProfile → SecurityProfile
profile_or_standard p = if is_empty p then profile_standard else p

module _ {W : Type 0} where
  pub refuse : Option Err → Exec W (Unit {0})
  refuse none = pure tt
  refuse (some e) = fail e

  pub lift : {A : Type 0} → Result A → Exec W A
  lift (ok a) = pure a
  lift (err e) = fail e

  pub health_check : Sentinel → Option (HealthChecker W) → Context W → Exec W (Unit {0})
  health_check unavailable none ctx = pure tt
  health_check unavailable (some ping) ctx = map_err (wrapped unavailable) (ping ctx)

  pub resolve_image : String → Option (ImageResolver W) → Context W → Exec W String
  resolve_image image none ctx = pure image
  resolve_image image (some resolve) ctx = resolve ctx image

  pub log : String → Option (Logger W) → W → W
  log message none w = w
  log message (some write) w = write message w

  -- time.Now()
  pub read_clock : (W → ℕ) → Exec W ℕ
  read_clock now w = (ok (now w), w)

module _ {W Spec : Type 0} (unmarshal : String → Option Value) (now : W → ℕ)
    (with_timeout : ℤ → Context W → Context W) (b : Sandbox W Spec) where
  -- Everything before the client is called: the time when it began, and the spec.
  unfoldable pub prepare : Context W → Context W → ExecuteRequest W → Exec W (ℕ × Spec)
  unfolding refuse lift health_check resolve_image read_clock
  prepare ctx timed req = do
    when b.asks_first (check ctx)
    refuse (validate_request req)
    guard (is_some b.client) (sentinel b.not_configured)
    when b.asks_timed (check timed)
    start ← read_clock now
    health_check b.unavailable b.health timed
    image ← resolve_image b.image b.resolver timed
    spec ← lift (b.build image req (profile_or_standard req.profile))
    pure (start, spec)

  convert : ExecuteRequest W → Spec → ℕ → Result Output → ExecuteResult × Option Err
  convert req spec elapsed (ok out) = (
    record {
      value = b.extract unmarshal out.stdout;
      stdout = out.stdout;
      stderr = out.stderr;
      tool_calls = [];
      duration = out.duration;
      backend = b.info (profile_or_standard req.profile);
      limits_enforced = b.enforced req spec;
    },
    none,
  )
  convert req spec elapsed (err e) = (
    record no_execution { duration = elapsed; backend = b.info (profile_or_standard req.profile) },
    some e,
  )

  -- The client is nil only where `prepare` has failed.
  run_client :
      Option (Client W Spec)
      → Context W
      → ExecuteRequest W
      → Spec
      → ℕ
      → W
      → (ExecuteResult × Option Err) × W
  unfolding log convert
  run_client none timed req spec start w = ((no_execution, some (sentinel b.not_configured)), w)
  run_client (some run) timed req spec start w =
      let (result, w1) = run timed spec (log b.log_message b.logger w) in
      (convert req spec (now w1 - start) result, w1)

  run_prepared :
      Context W → ExecuteRequest W → Result (ℕ × Spec) → W → (ExecuteResult × Option Err) × W
  unfolding run_client
  run_prepared timed req (ok (start, spec)) w = run_client b.client timed req spec start w
  run_prepared timed req (err e) w = ((no_execution, some e), w)

  unfoldable pub execute : Context W → ExecuteRequest W → W → (ExecuteResult × Option Err) × W
  unfolding run_prepared
  execute ctx req w =
      let timed = with_timeout (timeout_or b.default_timeout req.timeout) ctx in
      let (spec, w1) = prepare ctx timed req w in run_prepared timed req spec w1
