-- ===== src/Runtime/Router/Reports.antt =====
-- What a successful execution of the runtime says of the request and of the backend that ran it.
use toolexec.Base.{
  ◌≡◌, refl, ◌∙◌, ap, sym, inl, inr, Bool, true, ◌&&◌, Option, none, some, str_eq, eq_iff,
  Bool-cases, arith,
}
use toolexec.Base.Dict.{lookup, contains}
use toolexec.Errors.{Err}
use toolexec.Effects.{Context}
use toolexec.Runtime.Types.{SecurityProfile, ExecuteRequest, ExecuteResult, Backend}
use toolexec.Runtime.Limits.{validate_request}
use toolexec.Runtime.Kinds.{backend_unsafe_host}
use toolexec.Runtime.Contract.Laws.{Conforms}
use toolexec.Runtime.Router.{
  DefaultRuntime, effective_profile, settle, delegate, route, unless_refused, unless_ended, execute,
}

some-ne_none : {e : Err} → ¬ (some e ≡ none)
some-ne_none h = cc

module _ {W : Type 0} (r : DefaultRuntime W) (ctx : Context W) (req : ExecuteRequest W) where
  -- what the backend of the request's profile has returned, when that profile allows the backend
  pub record IsReported (result : ExecuteResult) : Type 0 where
    pub backend : Backend W
    pub registered : lookup r.backends (effective_profile r req) ≡ some backend
    pub kind : result.backend.kind ≡ backend.kind
    pub valid : validate_request req ≡ none
    pub allowed : ¬ (
        (contains r.deny_unsafe_profiles (effective_profile r req) ≡ true)
        × (backend.kind ≡ backend_unsafe_host))

  settle-kind :
      (out : ExecuteResult) (e : Option Err) (w : W) (result : ExecuteResult)
      → (settle r req out e w).0 ≡ (result, none)
      → (e ≡ none) × (result.backend.kind ≡ out.backend.kind)
  unfolding settle
  settle-kind out (some e) w result h = absurd (ground arith)
  settle-kind out none w result h = (refl, ap (λ p. p.0.backend.kind) (sym h))

  delegate-kind :
      (b : Backend W) (w : W) (result : ExecuteResult)
      → Conforms b
      → (delegate r ctx req b w).0 ≡ (result, none)
      → result.backend.kind ≡ b.kind
  unfolding delegate
  delegate-kind b w result c h =
      let (fine, same) = settle-kind _ _ _ result h in same ∙ c.reports ctx req _ fine

  module _
      (conform : (profile : SecurityProfile) (b : Backend W)
        → lookup r.backends profile ≡ some b
        → Conforms b) where
    route-IsReported :
        (denied : Bool) (found : Option (Backend W)) (w : W) (result : ExecuteResult)
        → contains r.deny_unsafe_profiles (effective_profile r req) ≡ denied
        → lookup r.backends (effective_profile r req) ≡ found
        → validate_request req ≡ none
        → (route r ctx req denied found w).0 ≡ (result, none)
        → IsReported result
    unfolding route
    route-IsReported denied none w result d there valid h = absurd (ground arith)
    route-IsReported denied (some b) w result d there valid h =
        elim (Bool-cases (denied && str_eq b.kind backend_unsafe_host)) [
          | inl refused ↦ absurd (some-ne_none (ap (λ p. p.1) (rw refused at h)))
          | inr accepted ↦ record {
            backend = b;
            registered = there;
            kind = delegate-kind b w result (conform _ b there) (rw accepted at h);
            valid = valid;
            allowed = λ (listed, unsafe). ground (arith, eq_iff b.kind backend_unsafe_host);
          }
        ]

    unless_refused-IsReported :
        (e : Option Err) (w : W) (result : ExecuteResult)
        → validate_request req ≡ e
        → (unless_refused r ctx req e w).0 ≡ (result, none)
        → IsReported result
    unfolding unless_refused
    unless_refused-IsReported (some e) w result valid h = absurd (some-ne_none (ap (λ p. p.1) h))
    unless_refused-IsReported none w result valid h =
        route-IsReported _ _ w result refl refl valid h

    unless_ended-IsReported :
        (e : Option Err) (w : W) (result : ExecuteResult)
        → (unless_ended r ctx req e w).0 ≡ (result, none)
        → IsReported result
    unfolding unless_ended
    unless_ended-IsReported (some e) w result h = absurd (some-ne_none (ap (λ p. p.1) h))
    unless_ended-IsReported none w result h =
        unless_refused-IsReported (validate_request req) w result refl h

    -- An execution of the runtime without an error was valid, and its result names the kind of the
    -- backend that the runtime has for the request's profile, or for the default profile where the
    -- request names none; that kind is not the unsafe one where the profile is denied it. Every
    -- backend of the runtime has to have the laws of the contract tests.
    pub execute-IsReported :
        (w : W) (result : ExecuteResult)
        → (execute r ctx req w).0 ≡ (result, none)
        → IsReported result
    unfolding execute
    execute-IsReported w result h = unless_ended-IsReported _ _ result h
