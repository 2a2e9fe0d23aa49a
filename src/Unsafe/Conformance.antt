-- ===== src/Unsafe/Conformance.antt =====
-- runtime/backend/unsafe: the unsafe backend under the laws of the contract tests.
use toolexec.Base.{
  ℕ, ℤ, String, ◌≡◌, ◌≢◌, refl, Option, none, some, arith, inl, inr, Bool-cases, not, ◌&&◌,
}
use toolexec.Value.{Value}
use toolexec.Errors.{Err}
use toolexec.Effects.{Context}
use toolexec.Runtime.Types.{ExecuteRequest}
use toolexec.Runtime.Limits.{validate_request}
use toolexec.Runtime.Contract.Laws.{Conforms}
use toolexec.Unsafe.{
  UnsafeBackend, Host, opted_in, stamp, run_request, unless_invalid, execute, as_backend,
}

module _ {W : Type 0} (unmarshal : String → Option Value) (now : W → ℕ)
    (with_timeout : ℤ → Context W → Context W) (host : Host W) (b : UnsafeBackend W) where
  run_request-kind :
      (ctx : Context W) (req : ExecuteRequest W) (w : W)
      → (run_request unmarshal now with_timeout host b ctx req w).0.0.backend.kind ≡ "unsafe_host"
  unfolding run_request stamp
  run_request-kind ctx req w = refl

  invalid :
      (o : Option Err) (ctx : Context W) (req : ExecuteRequest W) (w : W)
      → o ≢ none
      → (unless_invalid unmarshal now with_timeout host b o ctx req w).0.1 ≢ none
  unfolding unless_invalid
  invalid (some e) ctx req w h = λ same. cc
  invalid none ctx req w h = absurd (h refl)

  unless_invalid-kind :
      (o : Option Err) (ctx : Context W) (req : ExecuteRequest W) (w : W)
      → (unless_invalid unmarshal now with_timeout host b o ctx req w).0.1 ≡ none
      → (unless_invalid unmarshal now with_timeout host b o ctx req w).0.0.backend.kind
        ≡ "unsafe_host"
  unfolding unless_invalid
  unless_invalid-kind (some e) ctx req w h = absurd cc
  unless_invalid-kind none ctx req w h =
      elim (Bool-cases (b.require_opt_in && not (opted_in req.metadata))) [
        | inl refused ↦ absurd (ground arith)
        | inr allowed ↦ rw allowed (run_request-kind ctx req w)
      ]

  pub as_backend-Conforms : Conforms (as_backend unmarshal now with_timeout host b)
  unfolding as_backend execute
  as_backend-Conforms = record {
    named = refl;
    refuses = λ ctx req w h. invalid (validate_request req) ctx req w h;
    reports = λ ctx req w h. unless_invalid-kind (validate_request req) ctx req w h;
  }
