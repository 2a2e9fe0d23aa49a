-- ===== src/Sandbox/Conformance.antt =====
-- The backends over the shared Execute under the laws of the contract tests.
use toolexec.Base.{ℕ, ℤ, String, ◌≡◌, ◌≢◌, refl, false, Option, none, some, arith, is_empty}
use toolexec.Value.{Value}
use toolexec.Errors.{Err}
use toolexec.Effects.{Result, ok, err, Context, pure, fail}
use toolexec.Effects.Ensures.{Ensures, Ensures-bind}
use toolexec.Runtime.Types.{SecurityProfile, ExecuteRequest}
use toolexec.Runtime.Limits.{validate_request}
use toolexec.Runtime.Contract.Laws.{Conforms}
use toolexec.Sandbox
use toolexec.Sandbox.{Sandbox, Client, prepare, refuse, convert, run_client, run_prepared}

refuse-none :
    {W : Type 0} (o : Option Err) (w : W) (u : Unit {0}) → (refuse o w).0 ≡ ok u → o ≡ none
unfolding refuse pure fail
refuse-none none w u h = refl
refuse-none (some e) w u h = absurd (ground arith)

module _ {W Spec : Type 0} (unmarshal : String → Option Value) (now : W → ℕ)
    (with_timeout : ℤ → Context W → Context W) (b : Sandbox W Spec) where
  -- a spec is only prepared for a valid request
  prepare-valid :
      (ctx timed : Context W) (req : ExecuteRequest W)
      → Ensures
          (λ (p : ℕ × Spec). validate_request req ≡ none)
          (prepare unmarshal now with_timeout b ctx timed req)
  unfolding prepare
  prepare-valid ctx timed req = Ensures-bind _ _ λ _ _.
      Ensures-bind _ _ λ u refused. record {
        at = λ w a h. refuse-none (validate_request req) refused.0 u refused.1;
      }

  run_prepared-invalid :
      (timed : Context W) (req : ExecuteRequest W) (r : Result (ℕ × Spec)) (w : W)
      → ((p : ℕ × Spec) → r ≢ ok p)
      → (run_prepared unmarshal now with_timeout b timed req r w).0.1 ≢ none
  unfolding run_prepared
  run_prepared-invalid timed req (ok p) w h = absurd (h p refl)
  run_prepared-invalid timed req (err e) w h = λ same. cc

  module _ (kind : String) (info : (p : SecurityProfile) → (b.info p).kind ≡ kind) where
    convert-kind :
        (req : ExecuteRequest W) (spec : Spec) (elapsed : ℕ) (r : Result Sandbox.Output)
        → (convert unmarshal now with_timeout b req spec elapsed r).0.backend.kind ≡ kind
    unfolding convert
    convert-kind req spec elapsed (ok out) = info _
    convert-kind req spec elapsed (err e) = info _

    run_client-kind :
        (c : Option (Client W Spec)) (timed : Context W) (req : ExecuteRequest W) (spec : Spec)
        (start : ℕ) (w : W)
        → (run_client unmarshal now with_timeout b c timed req spec start w).0.1 ≡ none
        → (run_client unmarshal now with_timeout b c timed req spec start w).0.0.backend.kind ≡ kind
    unfolding run_client
    run_client-kind none timed req spec start w h = absurd cc
    run_client-kind (some run) timed req spec start w h = convert-kind req spec _ _

    run_prepared-kind :
        (timed : Context W) (req : ExecuteRequest W) (r : Result (ℕ × Spec)) (w : W)
        → (run_prepared unmarshal now with_timeout b timed req r w).0.1 ≡ none
        → (run_prepared unmarshal now with_timeout b timed req r w).0.0.backend.kind ≡ kind
    unfolding run_prepared
    run_prepared-kind timed req (ok (start, spec)) w h =
        run_client-kind b.client timed req spec start w h
    run_prepared-kind timed req (err e) w h = absurd cc

    pub execute-Conforms :
        is_empty kind ≡ false
        → Conforms (record { kind = kind; execute = Sandbox.execute unmarshal now with_timeout b })
    unfolding Sandbox.execute
    execute-Conforms named = record {
      named = named;
      refuses = λ ctx req w invalid.
          let timed = with_timeout (Sandbox.timeout_or b.default_timeout req.timeout) ctx in
          run_prepared-invalid timed req _ _
            (λ p h. invalid ((prepare-valid ctx timed req).at w p h));
      reports = λ ctx req w h. run_prepared-kind _ req _ _ h;
    }
