-- ===== src/Run/Runner/Validation.antt =====
-- What a successful Run has had checked.
use toolexec.Base.{String, eq_iff, ◌≡◌, refl, ◌≢◌, true, false, Option, arith, is_empty}
use toolexec.Model.{ToolBackend}
use toolexec.Value.{Value, Fields}
use toolexec.Effects.{Result, ok, err, Context, continue, ◌>>=◌}
use toolexec.Run.Config.{DefaultRunner}
use toolexec.Run.Resolve.{Resolved, resolve_tool, select_backend}
use toolexec.Run.Dispatch.{DispatchResult, dispatch}
use toolexec.Run.Normalize.{normalize}
use toolexec.Run.Types.{RunResult}
use toolexec.Run.Runner.{prepare, perform, run}

module _ {W : Type 0} (unmarshal : String → Option Value) (r : DefaultRunner W) (ctx : Context W)
    (id : String) (args : Fields) where
  -- What stands behind the result of a run from `w` to `w'`: the tool that was resolved, the
  -- reply of the selected backend, and the checks of the input before and of the output after it.
  pub record Checked (w w' : W) (result : RunResult) : Type 0 where
    pub named : id ≢ ""
    pub resolved : Resolved
    pub found : (resolve_tool r ctx id (ctx w).1).0 ≡ ok resolved
    pub before : W
    pub input_valid :
        r.config.validate_input ≡ true
        → r.validator.validate_input resolved.tool args (resolve_tool r ctx id (ctx w).1).1
          ≡ (ok tt, before)
    pub reply : DispatchResult
    pub after : W
    pub dispatched :
        dispatch ctx r resolved.tool (r.backend_selector resolved.backends) args before
        ≡ (ok reply, after)
    pub normalized :
        result ≡ normalize unmarshal resolved.tool (r.backend_selector resolved.backends) reply
    pub output_valid :
        r.config.validate_output ≡ true
        → r.validator.validate_output resolved.tool result.structured after ≡ (ok tt, w')

  prepare-ok :
      (w w₁ : W) (resolved : Resolved) (b : ToolBackend)
      → prepare r ctx id args w ≡ (ok (resolved, b), w₁)
      → (is_empty id ≡ false)
        × (b ≡ r.backend_selector resolved.backends)
        × ((resolve_tool r ctx id (ctx w).1).0 ≡ ok resolved)
        × (r.config.validate_input ≡ true
            → r.validator.validate_input resolved.tool args (resolve_tool r ctx id (ctx w).1).1
              ≡ (ok tt, w₁))
  unfolding prepare select_backend ◌>>=◌
  prepare-ok w w₁ resolved b h = (ground arith, ground arith, ground arith, λ k. ground arith)

  perform-ok :
      (w₁ w' : W) (resolved : Resolved) (b : ToolBackend) (result : RunResult)
      → perform unmarshal r ctx id args (resolved, b) w₁ ≡ (ok result, w')
      → (reply : DispatchResult) × (dispatch ctx r resolved.tool b args w₁
          ≡ (ok reply, (dispatch ctx r resolved.tool b args w₁).1))
        × (result ≡ normalize unmarshal resolved.tool b reply)
        × (r.config.validate_output ≡ true
            → r.validator.validate_output resolved.tool result.structured
                (dispatch ctx r resolved.tool b args w₁).1
              ≡ (ok tt, w'))
  unfolding perform ◌>>=◌
  perform-ok w₁ w' resolved b result h =
      go (dispatch ctx r resolved.tool b args w₁).0 (dispatch ctx r resolved.tool b args w₁).1 refl
    where
      go :
          (d : Result DispatchResult) (v : W)
          → dispatch ctx r resolved.tool b args w₁ ≡ (d, v)
          → (reply : DispatchResult) × (dispatch ctx r resolved.tool b args w₁
              ≡ (ok reply, (dispatch ctx r resolved.tool b args w₁).1))
            × (result ≡ normalize unmarshal resolved.tool b reply)
            × (r.config.validate_output ≡ true
                → r.validator.validate_output resolved.tool result.structured
                    (dispatch ctx r resolved.tool b args w₁).1
                  ≡ (ok tt, w'))
      go (ok reply) v e = (reply, ground arith, ground arith, λ k. ground arith)
      go (err x) v e = absurd (ground arith)

  checked :
      (w w' w₁ : W) (result : RunResult) (p : Result (Resolved × ToolBackend))
      → prepare r ctx id args w ≡ (p, w₁)
      → continue p (perform unmarshal r ctx id args) w₁ ≡ (ok result, w')
      → Checked w w' result
  checked w w' w₁ result (err e) hp h = cc
  checked w w' w₁ result (ok (resolved, b)) hp h =
      let (named, selected, found, valid) = prepare-ok w w₁ resolved b hp in
      let (reply, dispatched, normalized, output) = perform-ok w₁ w' resolved b result h in
      record {
        named = λ e. ground (arith, eq_iff id "");
        resolved = resolved;
        found = found;
        before = w₁;
        input_valid = valid;
        reply = reply;
        after = (dispatch ctx r resolved.tool b args w₁).1;
        dispatched = rw (← selected) dispatched;
        normalized = rw (← selected) normalized;
        output_valid = output;
      }

  -- A run that succeeds had an id, and its result is the normalised reply of the backend that the
  -- selector chose among those of the resolved tool. With input validation on, the validator had
  -- accepted the arguments before the dispatch; with output validation on, it accepted the
  -- structured result, as the last thing that happened.
  pub run-Checked :
      (w w' : W) (result : RunResult)
      → run unmarshal r ctx id args w ≡ (ok result, w')
      → Checked w w' result
  unfolding run ◌>>=◌
  run-Checked w w' result h =
      checked w w' (prepare r ctx id args w).1 result (prepare r ctx id args w).0 refl h
