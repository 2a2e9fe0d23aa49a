-- ===== src/Code/RuntimeEngine/Outcome.antt =====
-- The errors of a snippet that runs on a runtime, as the code package's executor reports them.
use mathlib.Core.Bool.{decide}
use toolexec.Base.{
  ℕ, ℤ, ◌≡◌, refl, Bool, true, false, ◌||◌, Option, none, some, arith, if◌then◌else◌,
}
use toolexec.Value.{Value}
use toolexec.Errors.{
  Err, wrapped, errors_is, timeout, resource_limit, sandbox_violation, limit_exceeded,
  code_execution, deadline_exceeded, sentinel_eq, message,
}
use toolexec.Effects.{Context}
use toolexec.Code.Executor.{wrap_timeout}
use toolexec.Code.RuntimeEngine.{map_error}

wrapped_limit-limit : (e : Err) → errors_is (wrapped limit_exceeded e) limit_exceeded ≡ true
unfolding errors_is sentinel_eq decide
wrapped_limit-limit e = refl

wrapped_limit-deadline : (e : Err) → errors_is (wrapped limit_exceeded e) deadline_exceeded ≡ false
unfolding errors_is sentinel_eq decide
wrapped_limit-deadline e = refl

wrapped_execution-limit : (e : Err) → errors_is (wrapped code_execution e) limit_exceeded ≡ false
unfolding errors_is sentinel_eq decide
wrapped_execution-limit e = refl

wrapped_execution-deadline :
    (e : Err) → errors_is (wrapped code_execution e) deadline_exceeded ≡ false
unfolding errors_is sentinel_eq decide
wrapped_execution-deadline e = refl

timed_out-limit : errors_is (wrapped limit_exceeded (message "timeout")) limit_exceeded ≡ true
timed_out-limit = wrapped_limit-limit (message "timeout")

-- whether an error that may be nil is the target
abbrev pub matches : Option Err → Bool
matches none = false
matches (some e) = errors_is e limit_exceeded

-- What a snippet's caller finds with errors.Is(err, ErrLimitExceeded), after the engine has mapped
-- the runtime's error and the executor the engine's: a timeout and a resource limit are limits; else
-- a sandbox violation is none; else an ended deadline and a limit of the tools are.
pub limits_reported :
    {W : Type 0} (copy_opaque : Value → Value) (now : W → ℕ)
    (with_timeout : ℤ → Context W → Context W) (e : Err)
    → (matches (wrap_timeout copy_opaque now with_timeout (map_error (some e))) ≡ (
        if errors_is e timeout || errors_is e resource_limit
        then true
        else if errors_is e sandbox_violation
        then false
        else errors_is e deadline_exceeded || errors_is e limit_exceeded))
unfolding wrap_timeout map_error
limits_reported copy_opaque now with_timeout e = ground (
  arith,
  wrapped_limit-limit e,
  wrapped_limit-deadline e,
  wrapped_execution-limit e,
  wrapped_execution-deadline e,
  timed_out-limit,
)
