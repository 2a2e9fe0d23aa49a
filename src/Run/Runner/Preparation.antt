-- ===== src/Run/Runner/Preparation.antt =====
-- What the steps before the execution do to the world, and how they can end.
use toolexec.Base.{
  String, eq_iff, Bool, ◌≡◌, refl, ◌≢◌, true, false, not, none, some, List, [], ◌∷◌, arith,
  is_empty,
}
use toolexec.Model.{ToolBackend}
use toolexec.Value.{Fields}
use toolexec.Errors.{Err, sentinel, wrapped, tool_error, invalid_tool_id, validation}
use toolexec.Effects.{map_err, Context}
use toolexec.Effects.Fails.{
  Fails, map_err-ok, Fails-pure, Fails-map_err, Fails-any, Fails-check, Fails-guard, Fails-when,
  Fails-bind,
}
use toolexec.Effects.Keeps.{Keeps, ContextKeeps, keeps_rules}
use toolexec.Run.Config.{DefaultRunner}
use toolexec.Run.Resolve.{Resolved, select_backend}
use toolexec.Run.Resolve.Keeps.{LookupsKeep, resolve_tool-Keeps, select_backend-Keeps}
use toolexec.Run.Resolve.Sources.{resolve_tool-has_backends}
use toolexec.Run.Runner.{prepare}

pub prepare-Keeps :
    {W : Type 0} {P : W → Type 0} (r : DefaultRunner W) (ctx : Context W) (id : String)
    (args : Fields)
    → ContextKeeps P ctx
    → LookupsKeep P r
    → Keeps P (prepare r ctx id args)
unfolding prepare
prepare-Keeps r ctx id args c k =
    let kv = k.validator in
    search (keeps_rules, resolve_tool-Keeps, select_backend-Keeps, kv) depth 12

-- The errors with which the preparation can end.
pub data Refused {W : Type 0} (ctx : Context W) (id : String) : Err → Type 0 where
  ended : (w : W) (e : Err) → (ctx w).0 ≡ some e → Refused ctx id e
  empty_id :
      id ≡ "" → Refused ctx id (tool_error id none "validate_tool_id" (sentinel invalid_tool_id))
  unresolved : (e : Err) → Refused ctx id (tool_error id none "resolve" e)
  invalid_input :
      (b : ToolBackend) (e : Err)
      → Refused ctx id (tool_error id (some b) "validate_input" (wrapped validation e))

Fails-select_backend :
    {W : Type 0} {F : Err → Type 0} (r : DefaultRunner W) (bs : List ToolBackend)
    → bs ≢ []
    → Fails F (select_backend r bs)
unfolding select_backend
Fails-select_backend r [] h = absurd (h refl)
Fails-select_backend r (b ∷ bs) h = Fails-pure (r.backend_selector (b ∷ bs))

not-false : (b : Bool) → not b ≡ false → b ≡ true
not-false b h = ground arith

module _ {W : Type 0} (r : DefaultRunner W) (ctx : Context W) (id : String) where
  Fails-input :
      (resolved : Resolved) (b : ToolBackend) (args : Fields)
      → Fails (Refused ctx id) (
          map_err
            (λ e. tool_error id (some b) "validate_input" (wrapped validation e))
            (r.validator.validate_input resolved.tool args))
  Fails-input resolved b args = Fails-map_err _ _ (Fails-any _ (invalid_input b))

  -- With an id that resolves the selection cannot fail, so no `select_backend` error is listed.
  pub prepare-Fails : (args : Fields) → Fails (Refused ctx id) (prepare r ctx id args)
  unfolding prepare
  prepare-Fails args = Fails-bind _ _ (Fails-check ctx ended) λ _ _.
      Fails-bind _ _
        (Fails-guard _ _ (λ h. empty_id ((eq_iff id "").0 (not-false (is_empty id) h))))
        λ _ _. Fails-bind _ _ (Fails-map_err _ _ (Fails-any _ unresolved)) λ resolved found.
          Fails-bind _ _
            (Fails-map_err _ _ (
              Fails-select_backend r resolved.backends (
                resolve_tool-has_backends r ctx id found.0 resolved
                  (map_err-ok _ _ found.0 resolved found.1))))
            λ b _.
              Fails-bind _ _ (Fails-when _ _ (Fails-input resolved b args))
                (λ _ _. Fails-pure (resolved, b))
