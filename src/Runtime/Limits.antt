-- ===== src/Runtime/Limits.antt =====
-- Validate of Limits and of ExecuteRequest (runtime/types.go).
use toolexec.Base.{
  true, ℤ, is_negative, String, ◌≡◌, ◌≢◌, ◌↔◌, false, Option, none, some, arith, is_some, is_empty,
  eq_iff, if◌then◌else◌,
}
use toolexec.Errors.{Err, message, wrapped, sentinel, invalid_limits, missing_gateway, missing_code}
use toolexec.Runtime.Types.{Limits, ExecuteRequest}

-- A limit that is negative is an error of this name; else `rest` decides.
abbrev nonnegative : ℤ → String → Option Err → Option Err
nonnegative n what rest =
    if is_negative n then some (wrapped invalid_limits (message what)) else rest

unfoldable pub validate_limits : Limits → Option Err
validate_limits l = nonnegative l.max_tool_calls "MaxToolCalls cannot be negative" (
    nonnegative l.max_chain_steps "MaxChainSteps cannot be negative" (
      nonnegative l.cpu_quota_millis "CPUQuotaMillis cannot be negative" (
        nonnegative l.memory_bytes "MemoryBytes cannot be negative" (
          nonnegative l.pids_max "PidsMax cannot be negative"
            (nonnegative l.disk_bytes "DiskBytes cannot be negative" none)))))

unfoldable pub validate_request : {W : Type 0} → ExecuteRequest W → Option Err
unfolding validate_limits
validate_request req =
    if is_some req.gateway
    then (if is_empty req.code then some (sentinel missing_code) else validate_limits req.limits)
    else some (sentinel missing_gateway)

-- Every limit is zero or more.
pub record AreValid (l : Limits) : Type 0 where
  pub tool_calls : is_negative l.max_tool_calls ≡ false
  pub chain_steps : is_negative l.max_chain_steps ≡ false
  pub cpu : is_negative l.cpu_quota_millis ≡ false
  pub memory : is_negative l.memory_bytes ≡ false
  pub pids : is_negative l.pids_max ≡ false
  pub disk : is_negative l.disk_bytes ≡ false

-- A request is accepted exactly if it has a gateway and code and no limit of it is negative.
pub validate_request_iff :
    {W : Type 0} (req : ExecuteRequest W)
    → (validate_request req ≡ none)
      ↔ ((is_some req.gateway ≡ true) × (req.code ≢ "") × AreValid req.limits)
unfolding validate_request
validate_request_iff req = grind (arith, eq_iff req.code "")
