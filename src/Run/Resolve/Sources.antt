-- ===== src/Run/Resolve/Sources.antt =====
-- Which of the index and the resolvers decides what a tool id stands for (run/resolve.go).
use toolexec.Base.{String, ◌≡◌, ◌≢◌, none, some, [], arith, if◌then◌else◌}
use toolexec.Errors.{Err, errors_is, index_not_found}
use toolexec.Effects.{ok, err, ◌>>=◌, Context}
use toolexec.Run.Config.{Index, DefaultRunner}
use toolexec.Run.Resolve.{
  Resolved, from_index, from_tool_resolver, from_backends_resolver, resolve_tool,
}

-- A tool that resolves has at least one backend, whether the index or a resolver gave it.
pub resolve_tool-has_backends :
    {W : Type 0} (r : DefaultRunner W) (ctx : Context W) (id : String) (w : W) (res : Resolved)
    → (resolve_tool r ctx id w).0 ≡ ok res
    → res.backends ≢ []
unfolding resolve_tool from_tool_resolver from_index from_backends_resolver ◌>>=◌
resolve_tool-has_backends r ctx id w res h = ground arith

abbrev pub without_index : {W : Type 0} → DefaultRunner W → DefaultRunner W
without_index r = record r { config = record r.config { index = none } }

abbrev pub live : {W : Type 0} → Context W
live w = (none, w)

-- An id that the index does not know is resolved as if no index were configured; any other error
-- of the index ends the resolution with that error.
pub resolve_tool-index_miss :
    {W : Type 0} (r : DefaultRunner W) (ctx : Context W) (id : String) (idx : Index W) (w w₁ w₂ : W)
    (e : Err)
    → r.config.index ≡ some idx
    → ctx w ≡ (none, w₁)
    → idx.get_tool id w₁ ≡ (err e, w₂)
    → resolve_tool r ctx id w ≡ (
        if errors_is e index_not_found
        then resolve_tool (without_index r) live id w₂
        else (err e, w₂))
unfolding resolve_tool from_index from_tool_resolver from_backends_resolver ◌>>=◌
resolve_tool-index_miss r ctx id idx w w₁ w₂ e hi hc ht = ground arith
