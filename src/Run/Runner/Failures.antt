-- ===== src/Run/Runner/Failures.antt =====
-- How Run fails: the shape of its errors, and what has happened by then.
use mathlib.Core.Path.{subst}
use toolexec.Base.{String, ◌≡◌, ◌⊎◌, inl, inr, ap, some, Option}
use toolexec.Model.{ToolBackend}
use toolexec.Value.{Value, Fields}
use toolexec.Errors.{Err, wrapped, tool_error, execution, output_validation}
use toolexec.Effects.{Result, ok, err, map_err, Context, ◌>>=◌, continue}
use toolexec.Effects.Fails.{
  Fails, Fails-at, Fails-pure, Fails-map_err, Fails-any, Fails-when, Fails-bind,
}
use toolexec.Effects.Keeps.{ContextKeeps}
use toolexec.Run.Config.{DefaultRunner}
use toolexec.Run.Resolve.{Resolved}
use toolexec.Run.Resolve.Keeps.{LookupsKeep}
use toolexec.Run.Normalize.{normalize}
use toolexec.Run.Types.{RunResult}
use toolexec.Run.Runner.{prepare, perform, run}
use toolexec.Run.Runner.Preparation.{Refused, prepare-Fails, prepare-Keeps}

-- The errors of the steps from the execution on; each names the backend.
pub data Broken (id : String) : Err → Type 0 where
  failed :
      (b : ToolBackend) (e : Err)
      → Broken id (tool_error id (some b) "execute" (wrapped execution e))
  invalid_output :
      (b : ToolBackend) (e : Err)
      → Broken id (tool_error id (some b) "validate_output" (wrapped output_validation e))

abbrev pub Failure : {W : Type 0} → Context W → String → Err → Type 0
Failure ctx id e = Refused ctx id e ⊎ Broken id e

module _ {W : Type 0} (unmarshal : String → Option Value) (r : DefaultRunner W) (ctx : Context W)
    (id : String) (args : Fields) where
  Fails-output :
      (p : Resolved × ToolBackend) (result : RunResult)
      → Fails (Broken id) (
          map_err
            (λ e. tool_error id (some p.1) "validate_output" (wrapped output_validation e))
            (r.validator.validate_output p.0.tool result.structured))
  Fails-output p result = Fails-map_err _ _ (Fails-any _ (invalid_output p.1))

  perform-Fails :
      (p : Resolved × ToolBackend) → Fails (Broken id) (perform unmarshal r ctx id args p)
  unfolding perform
  perform-Fails (resolved, b) = Fails-bind _ _ (Fails-map_err _ _ (Fails-any _ (failed b))) λ dr _.
      let result = normalize unmarshal resolved.tool b dr in
      Fails-bind _ _ (Fails-when _ _ (Fails-output (resolved, b) result)) (λ _ _. Fails-pure result)

  -- How a run ends, given how its preparation ended: with the preparation's error and world, or
  -- with an error of the later steps.
  run_split :
      (p : Result (Resolved × ToolBackend)) (w₁ w' : W) (e : Err)
      → continue p (perform unmarshal r ctx id args) w₁ ≡ (err e, w')
      → (p ≡ err e) × (w₁ ≡ w') ⊎ Broken id e
  run_split (ok q) w₁ w' e h =
      inr (Fails-at w₁ (perform-Fails q) (ap (λ (x : Result RunResult × W). x.0) h))
  run_split (err e₁) w₁ w' e h = inl (cc, cc)

  -- When Run fails, its error is the reason why the context ended, or a ToolError with the tool's
  -- id: an empty id, a resolution error, or one of the errors of the validations and the execution,
  -- which name the backend and match ErrValidation, ErrExecution and ErrOutputValidation. The
  -- operation "select_backend" is not among them.
  pub run-Failure :
      (w w' : W) (e : Err) → run unmarshal r ctx id args w ≡ (err e, w') → Failure ctx id e
  unfolding run ◌>>=◌
  run-Failure w w' e h =
      elim (run_split (prepare r ctx id args w).0 (prepare r ctx id args w).1 w' e h) [
        | inl same ↦ inl (Fails-at w (prepare-Fails r ctx id args) same.0)
        | inr b ↦ inr b
      ]

  -- What the context, every lookup and the input validation leave alone has not changed when Run
  -- fails, unless it fails with an error of the execution or of the output validation.
  pub run_failed-Keeps :
      {P : W → Type 0} (w w' : W) (e : Err)
      → ContextKeeps P ctx
      → LookupsKeep P r
      → P w
      → run unmarshal r ctx id args w ≡ (err e, w')
      → P w' ⊎ Broken id e
  unfolding run ◌>>=◌
  run_failed-Keeps {P} w w' e c k p h =
      elim (run_split (prepare r ctx id args w).0 (prepare r ctx id args w).1 w' e h) [
        | inl same ↦ inl (subst P same.1 ((prepare-Keeps r ctx id args c k).at w p))
        | inr b ↦ inr b
      ]
