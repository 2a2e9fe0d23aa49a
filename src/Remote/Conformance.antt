-- ===== src/Remote/Conformance.antt =====
-- runtime/backend/remote: the remote backend under the laws of the contract tests.
use toolexec.Base.{ℕ, ℤ, ◌≡◌, ◌≢◌, refl, Option, none, some}
use toolexec.Errors.{Err}
use toolexec.Effects.{Result, ok, err}
use toolexec.Effects.{Context}
use toolexec.Runtime.Types.{ExecuteRequest, ExecuteResult}
use toolexec.Runtime.Limits.{validate_request}
use toolexec.Runtime.Contract.Laws.{Conforms}
use toolexec.Remote.{
  RemoteClient, RemoteBackend, RemoteError, RemoteResponse, ExecuteResultPayload, backend_info,
  failed, mapped, answered, report, call_client, unless_invalid, execute, as_backend,
}

-- an error, or the kind of the backend
abbrev Answers : ExecuteResult × Option Err → Type 0
Answers out = out.1 ≡ none → out.0.backend.kind ≡ "remote"

module _ {W : Type 0} (b : RemoteBackend W) where
  failed-Answers : (elapsed : ℕ) (e : Err) → Answers (failed b elapsed e)
  unfolding failed
  failed-Answers elapsed e h = absurd cc

  mapped-Answers : (elapsed : ℕ) (p : Option ExecuteResultPayload) → Answers (mapped b elapsed p)
  unfolding mapped backend_info
  mapped-Answers elapsed none h = failed-Answers elapsed _ h
  mapped-Answers elapsed (some p) h = refl

  answered-Answers :
      (elapsed : ℕ) (e : Option RemoteError) (p : Option ExecuteResultPayload)
      → Answers (answered b elapsed e p)
  unfolding answered
  answered-Answers elapsed (some e) p = failed-Answers elapsed _
  answered-Answers elapsed none p = mapped-Answers elapsed p

  report-Answers : (elapsed : ℕ) (r : Result RemoteResponse) → Answers (report b elapsed r)
  unfolding report
  report-Answers elapsed (err e) = failed-Answers elapsed e
  report-Answers elapsed (ok r) = answered-Answers elapsed r.error r.result

  module _ (now : W → ℕ) (with_timeout : ℤ → Context W → Context W) where
    call_client-Answers :
        (c : Option (RemoteClient W)) (ctx : Context W) (req : ExecuteRequest W) (w : W)
        → Answers (call_client b now with_timeout c ctx req w).0
    unfolding call_client
    call_client-Answers none ctx req w = λ h. absurd cc
    call_client-Answers (some c) ctx req w = report-Answers _ _

    unless_invalid-Answers :
        (o : Option Err) (ctx : Context W) (req : ExecuteRequest W) (w : W)
        → Answers (unless_invalid b now with_timeout o ctx req w).0
    unfolding unless_invalid
    unless_invalid-Answers (some e) ctx req w = λ h. absurd cc
    unless_invalid-Answers none ctx req w = call_client-Answers b.client ctx req w

    invalid :
        (o : Option Err) (ctx : Context W) (req : ExecuteRequest W) (w : W)
        → o ≢ none
        → (unless_invalid b now with_timeout o ctx req w).0.1 ≢ none
    unfolding unless_invalid
    invalid (some e) ctx req w h = λ same. cc
    invalid none ctx req w h = absurd (h refl)

    pub as_backend-Conforms : Conforms (as_backend b now with_timeout)
    unfolding as_backend execute
    as_backend-Conforms = record {
      named = refl;
      refuses = λ ctx req w h. invalid (validate_request req) ctx req w h;
      reports = λ ctx req w h. unless_invalid-Answers (validate_request req) ctx req w h;
    }
