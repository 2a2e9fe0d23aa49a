-- ===== src/Sandbox/Limits.antt =====
-- What the packages containerd, gvisor, kata and kubernetes of runtime/backend declare alike, each
-- for itself: the resources of a spec, their validation, and the options that a request's limits
-- become. The types are those of the Docker package.
use toolexec.Base.{
  ◌||◌, ℤ, is_negative, pos, suc, String, Bool, true, false, Option, none, some, str_eq,
  if◌then◌else◌,
}
use toolexec.Errors.{Err, Sentinel, sentinel, message, wrapped, context}
use toolexec.Effects.{Result, ok, err}
use toolexec.Runtime.Types.{
  SecurityProfile, profile_dev, profile_standard, profile_hardened, Limits, LimitsEnforced,
}
use toolexec.Docker.Spec.{ResourceSpec, SecuritySpec}
use toolexec.Docker.Options.{positive_or_zero}

-- `limit > 0`
abbrev pub is_positive : ℤ → Bool
is_positive (pos (suc n)) = true
is_positive _ = false

-- an error, with the part of the spec in front; else the rest decides
abbrev pub or_else : String → Option Err → Option Err → Option Err
or_else part none rest = rest
or_else part (some e) rest = some (context part e)

-- `s.NetworkMode == "host"`
unfoldable pub validate_network : Sentinel → String → Option Err
validate_network violation mode =
    if str_eq mode "host"
    then some (wrapped violation (message "host network not allowed"))
    else none

-- Validate of SecuritySpec, where it has a `Privileged`
unfoldable pub validate_security : Sentinel → SecuritySpec → Option Err
unfolding validate_network
validate_security violation s =
    if s.privileged then some (sentinel violation) else validate_network violation s.network_mode

-- Validate of ResourceSpec
unfoldable pub validate_resources : ResourceSpec → Option Err
validate_resources r =
    if is_negative r.memory_bytes
    then some (message "memory cannot be negative")
    else if is_negative r.cpu_quota
    then some (message "cpu quota cannot be negative")
    else if is_negative r.pids_limit
    then some (message "pids limit cannot be negative")
    else if is_negative r.disk_bytes
    then some (message "disk limit cannot be negative")
    else none

-- the second half of the options: the limits of the request
unfoldable pub resources_of : (ℤ → ℤ) → Limits → ResourceSpec
unfolding positive_or_zero
resources_of quota limits = record {
  memory_bytes = positive_or_zero limits.memory_bytes;
  cpu_quota = quota limits.cpu_quota_millis;
  pids_limit = positive_or_zero limits.pids_max;
  disk_bytes = positive_or_zero limits.disk_bytes;
}

-- The first half: the network mode and whether the root is read-only. A profile other than the
-- three keeps the zero values.
unfoldable pub isolation_of : String → SecurityProfile → String × Bool
isolation_of dev_network profile =
    if str_eq profile profile_dev
    then (dev_network, false)
    else if str_eq profile profile_standard || str_eq profile profile_hardened
    then ("none", true)
    else ("", false)

-- what a result says is enforced: the limits that the request has
unfoldable pub enforced_limits : Limits → LimitsEnforced
enforced_limits limits = record {
  timeout = true;
  tool_calls = true;
  chain_steps = true;
  memory = is_positive limits.memory_bytes;
  cpu = is_positive limits.cpu_quota_millis;
  pids = is_positive limits.pids_max;
  disk = is_positive limits.disk_bytes;
}

-- `if err := spec.Validate(); err != nil { return err }`
unfoldable pub checked : {A : Type 0} → A → Option Err → Result A
checked a none = ok a
checked a (some e) = err e
