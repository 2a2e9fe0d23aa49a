-- ===== src/Runtime/Router/Registration.antt =====
-- What registering and unregistering a backend changes for the requests that follow.
use toolexec.Base.{◌≡◌, ◌≢◌, none, some, arith, eq_iff}
use toolexec.Base.Dict.{insert, lookup-insert, lookup-delete}
use toolexec.Errors.{message, wrapped, runtime_unavailable}
use toolexec.Effects.{Context}
use toolexec.Runtime.Types.{SecurityProfile, ExecuteRequest, no_execution, Backend}
use toolexec.Runtime.Limits.{validate_request}
use toolexec.Runtime.Router.{
  DefaultRuntime, register_backend, unregister_backend, effective_profile, execute,
}

module _ {W : Type 0} (r : DefaultRuntime W) (ctx : Context W) (req : ExecuteRequest W)
    (profile : SecurityProfile) (w : W) where
  -- Requests of other profiles are executed as before a backend was registered or unregistered.
  pub execute-other_profile :
      (b : Backend W)
      → effective_profile r req ≢ profile
      → (execute (register_backend r profile b) ctx req w ≡ execute r ctx req w)
        × (execute (unregister_backend r profile) ctx req w ≡ execute r ctx req w)
  unfolding execute register_backend unregister_backend effective_profile
  execute-other_profile b other =
      let e = eq_iff profile (effective_profile r req) in
      (
        ground (arith, lookup-insert r.backends profile b (effective_profile r req), e, other),
        ground (arith, lookup-delete r.backends profile (effective_profile r req), e, other),
      )

  -- After a profile's backend is unregistered, a valid request of that profile fails with
  -- ErrRuntimeUnavailable and runs nothing; once a backend is registered for it, unregistering
  -- undoes exactly that.
  pub execute-unregister :
      (b : Backend W) (w₁ : W)
      → effective_profile r req ≡ profile
      → ctx w ≡ (none, w₁)
      → validate_request req ≡ none
      → (execute (unregister_backend r profile) ctx req w ≡ (
        (no_execution, some (wrapped runtime_unavailable (message "no backend for profile"))),
        w₁,
      ))
        × (execute (unregister_backend (register_backend r profile b) profile) ctx req w
            ≡ execute (unregister_backend r profile) ctx req w)
  unfolding execute register_backend unregister_backend effective_profile
  execute-unregister b w₁ same hc hv = (
    ground (
      arith,
      lookup-delete r.backends profile (effective_profile r req),
      eq_iff profile (effective_profile r req),
    ),
    ground (
      arith,
      lookup-delete r.backends profile (effective_profile r req),
      lookup-delete (insert r.backends profile b) profile (effective_profile r req),
      eq_iff profile (effective_profile r req),
    ),
  )
