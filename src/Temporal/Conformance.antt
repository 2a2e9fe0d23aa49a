-- ===== src/Temporal/Conformance.antt =====
-- runtime/backend/temporal: the Temporal backend under the laws of the contract tests.
use toolexec.Base.{ℕ, ◌≢◌, refl, Option, none, some}
use toolexec.Errors.{Err}
use toolexec.Runtime.Types.{Backend}
use toolexec.Runtime.Limits.{validate_request}
use toolexec.Runtime.Contract.Laws.{Conforms}
use toolexec.Temporal.{TemporalBackend, refused, unless_invalid, execute, as_backend}

module _ {W : Type 0} (now : W → ℕ) (b : TemporalBackend W) where
  refused-ne_none : (s : Option (Backend W)) (w : W) → (refused now b s w).0.1 ≢ none
  unfolding refused
  refused-ne_none none w h = cc
  refused-ne_none (some sandbox) w h = cc

  unless_invalid-ne_none : (o : Option Err) (w : W) → (unless_invalid now b o w).0.1 ≢ none
  unfolding unless_invalid
  unless_invalid-ne_none (some e) w h = cc
  unless_invalid-ne_none none w h = refused-ne_none b.sandbox_backend w h

  -- No request is executed.
  pub as_backend-Conforms : Conforms (as_backend now b)
  unfolding as_backend execute
  as_backend-Conforms = record {
    named = refl;
    refuses = λ ctx req w invalid. unless_invalid-ne_none (validate_request req) w;
    reports = λ ctx req w h. absurd (unless_invalid-ne_none (validate_request req) w h);
  }
