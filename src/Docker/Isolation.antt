-- ===== src/Docker/Isolation.antt =====
-- What the containers of the Docker backend can and cannot do.
use toolexec.Base.{
  ℕ, ◌*◌, ◌^◌, ◌%◌, ◌<◌, ℤ, is_negative, false, ap, ◌∙◌, inl, inr, Option-cases, pos, String, ◌≡◌,
  refl, ◌||◌, Bool, [], arith, str_eq, if◌then◌else◌,
}
use toolexec.Effects.{ok}
use toolexec.Runtime.Types.{SecurityProfile, profile_standard, profile_hardened, ExecuteRequest}
use toolexec.Docker.Spec.{ContainerSpec}
use toolexec.Docker.Validation.{validate_spec, IsSandboxed, validate_spec_iff}
use toolexec.Docker.Builder.{build}
use toolexec.Docker.Options.{positive_or_zero, positive_times_1000, wrap_int64, spec_of, build_spec}

-- What the builder returns is the spec it holds, and it satisfies the sandbox rules.
pub build-IsSandboxed : (b s : ContainerSpec) → build b ≡ ok s → (s ≡ b) × IsSandboxed s
unfolding build
build-IsSandboxed b s h = elim (Option-cases (validate_spec b)) [
  | inl valid ↦ let same : s ≡ b = ground arith in (same, rw same ((validate_spec_iff b).0 valid))
  | inr (e, refused) ↦ absurd (ground arith)
]

abbrev is_isolated : SecurityProfile → Bool
is_isolated p = str_eq p profile_standard || str_eq p profile_hardened

-- The isolation that a spec has for a profile.
pub record IsIsolated (seccomp_path : String) (profile : SecurityProfile) (s : ContainerSpec)
    : Type 0 where
  pub sandboxed : IsSandboxed s
  pub user : s.security.user ≡ "nobody:nogroup"
  pub network : s.security.network_mode ≡ (if is_isolated profile then "none" else "bridge")
  pub rootfs : s.security.read_only_rootfs ≡ is_isolated profile
  pub seccomp :
      s.security.seccomp_profile ≡ (if str_eq profile profile_hardened then seccomp_path else "")
  pub no_mounts : s.mounts ≡ []

-- Whatever a request asks for, a container spec that is built for it is unprivileged, off the host
-- network and with no mounts, and runs as nobody; with the standard and the hardened profile it has
-- no network and a read-only root, and with any other profile it has the bridge network and a
-- writable root; the seccomp profile is set for the hardened profile only.
pub build_spec-IsIsolated :
    {W : Type 0} (seccomp_path image : String) (req : ExecuteRequest W) (profile : SecurityProfile)
    (s : ContainerSpec)
    → build_spec seccomp_path image req profile ≡ ok s
    → IsIsolated seccomp_path profile s
unfolding build_spec
build_spec-IsIsolated seccomp_path image req profile s h =
    let (same, sandboxed) = build-IsSandboxed (spec_of seccomp_path image req profile) s h in
    rw same (record {
      sandboxed = rw same at sandboxed;
      user = refl;
      network = refl;
      rootfs = refl;
      seccomp = refl;
      no_mounts = refl;
    })

-- an int64 product that is not negative is the one modulo 2 ^ 64, which is below 2 ^ 63
wrap_int64-nonnegative :
    (n : ℕ) (q : ℤ)
    → q ≡ wrap_int64 n
    → is_negative q ≡ false
    → (q ≡ pos (n % 2 ^ 64)) × (n % 2 ^ 64 < 2 ^ 63)
unfolding wrap_int64
wrap_int64-nonnegative n q e h = (ground arith, ground arith)

-- The limits of a spec that is built for a request whose limits are not negative. Memory and
-- processes are those of the request. The CPU quota is a thousand times the request's modulo 2 ^ 64,
-- as an int64 wraps, and no spec is built where this is 2 ^ 63 or more, since the quota is negative
-- then.
pub build_spec-limits :
    {W : Type 0} (seccomp_path image : String) (req : ExecuteRequest W) (profile : SecurityProfile)
    (s : ContainerSpec) (memory pids cpu : ℕ)
    → build_spec seccomp_path image req profile ≡ ok s
    → req.limits.memory_bytes ≡ pos memory
    → req.limits.pids_max ≡ pos pids
    → req.limits.cpu_quota_millis ≡ pos cpu
    → (s.resources.memory_bytes ≡ pos memory)
      × (s.resources.pids_limit ≡ pos pids)
      × (s.resources.cpu_quota ≡ pos (cpu * 1000 % 2 ^ 64))
      × (cpu * 1000 % 2 ^ 64 < 2 ^ 63)
unfolding build_spec positive_times_1000 positive_or_zero
build_spec-limits seccomp_path image req profile s memory pids cpu h m p c =
    let (same, sandboxed) = build-IsSandboxed (spec_of seccomp_path image req profile) s h in
    let quota : s.resources.cpu_quota ≡ wrap_int64 (cpu * 1000) =
      ap (λ (s : ContainerSpec). s.resources.cpu_quota) same ∙ ap positive_times_1000 c in
    let (exact, low) = wrap_int64-nonnegative (cpu * 1000) _ quota sandboxed.cpu in
    (
      ap (λ (s : ContainerSpec). s.resources.memory_bytes) same ∙ ap positive_or_zero m,
      ap (λ (s : ContainerSpec). s.resources.pids_limit) same ∙ ap positive_or_zero p,
      exact,
      low,
    )
