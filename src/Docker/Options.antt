-- ===== src/Docker/Options.antt =====
-- containerOptions, networkMode and buildSpec of runtime/backend/docker/docker.go.
use toolexec.Base.{
  ℕ, ◌-◌, ◌*◌, ◌%◌, ◌^◌, ℤ, pos, negsuc, String, Bool, false, ◌||◌, ltb, str_eq, if◌then◌else◌,
}
use toolexec.Effects.{Result}
use toolexec.Runtime.Kinds.{backend_docker}
use toolexec.Runtime.Types.{
  SecurityProfile, profile_standard, profile_hardened, Limits, ExecuteRequest,
}
use toolexec.Docker.Spec.{ContainerSpec, ResourceSpec, SecuritySpec}
use toolexec.Docker.Builder.{
  new_spec_builder, with_timeout, with_security, with_resources, with_label, build,
}

pub record ContainerOptions : Type 0 where
  pub network_disabled : Bool
  pub read_only_rootfs : Bool
  pub memory_limit : ℤ
  pub cpu_quota : ℤ
  pub pids_limit : ℤ
  pub seccomp_profile : String
  pub user : String

-- The int64 that a natural number wraps to.
unfoldable pub wrap_int64 : ℕ → ℤ
wrap_int64 n =
    let low = n % 2 ^ 64 in if ltb low (2 ^ 63) then pos low else negsuc (2 ^ 64 - low - 1)

-- `if limit > 0 { opts.X = limit }` over a zero option
unfoldable pub positive_or_zero : ℤ → ℤ
positive_or_zero (pos n) = pos n
positive_or_zero (negsuc n) = pos 0

-- the same, times 1000, in int64
unfoldable pub positive_times_1000 : ℤ → ℤ
unfolding wrap_int64
positive_times_1000 (pos n) = wrap_int64 (n * 1000)
positive_times_1000 (negsuc n) = pos 0

-- A profile other than the three gets the zero options, as ProfileDev does.
unfoldable pub container_options : String → SecurityProfile → Limits → ContainerOptions
container_options seccomp_path profile limits =
    let isolated = str_eq profile profile_standard || str_eq profile profile_hardened in
    record {
      network_disabled = isolated;
      read_only_rootfs = isolated;
      memory_limit = positive_or_zero limits.memory_bytes;
      cpu_quota = positive_times_1000 limits.cpu_quota_millis;
      pids_limit = positive_or_zero limits.pids_max;
      seccomp_profile = if str_eq profile profile_hardened then seccomp_path else "";
      user = "nobody:nogroup";
    }

unfoldable pub network_mode : ContainerOptions → String
network_mode opts = if opts.network_disabled then "none" else "bridge"

unfoldable pub spec_of :
    {W : Type 0} → String → String → ExecuteRequest W → SecurityProfile → ContainerSpec
unfolding container_options network_mode new_spec_builder with_timeout with_security with_resources
    with_label
spec_of seccomp_path image req profile =
    let opts = container_options seccomp_path profile req.limits in
    let security : SecuritySpec = record {
      user = opts.user;
      read_only_rootfs = opts.read_only_rootfs;
      network_mode = network_mode opts;
      seccomp_profile = opts.seccomp_profile;
      privileged = false;
    } in
    let resources : ResourceSpec = record {
      memory_bytes = opts.memory_limit;
      cpu_quota = opts.cpu_quota;
      pids_limit = opts.pids_limit;
      disk_bytes = pos 0;
    } in
    with_label "runtime.backend" backend_docker (
      with_label "runtime.profile" profile (
        with_resources resources
          (with_security security (with_timeout req.timeout (new_spec_builder image)))))

unfoldable pub build_spec :
    {W : Type 0} → String → String → ExecuteRequest W → SecurityProfile → Result ContainerSpec
unfolding spec_of
build_spec seccomp_path image req profile = build (spec_of seccomp_path image req profile)
