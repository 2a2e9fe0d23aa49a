-- ===== src/Run/Resolve.antt =====
-- run/resolve.go.
pub mod Keeps
pub mod Sources
use toolexec.Base.{String, Option, none, some, List, [], ◌∷◌, if◌then◌else◌}
use toolexec.Model.{ToolBackend, Tool}
use toolexec.Errors.{sentinel, tool_not_found, no_backends, index_not_found, errors_is}
use toolexec.Effects.{Result, ok, err, Exec, pure, fail, attempt, ◌>>=◌, ◌>>◌, Context, check}
use toolexec.Run.Config.{Index, Config, DefaultRunner}

-- resolveResult
pub record Resolved : Type 0 where
  pub tool : Tool
  pub backends : List ToolBackend

-- `err == nil && t != nil`
usable_tool : Result (Option Tool) → Option Tool
usable_tool (ok t) = t
usable_tool (err e) = none

-- `err == nil && len(b) > 0`; the empty list is "no backends found"
usable_backends : Result (List ToolBackend) → List ToolBackend
usable_backends (ok bs) = bs
usable_backends (err e) = []

module _ {W : Type 0} where
  -- the two inner branches on what GetAllBackends returned
  all_or_default : ToolBackend → Result (List ToolBackend) → Exec W (List ToolBackend)
  all_or_default default_backend (ok []) = pure (default_backend ∷ [])
  all_or_default default_backend (ok (b ∷ bs)) = pure (b ∷ bs)
  all_or_default default_backend (err e) =
      if errors_is e index_not_found then pure (default_backend ∷ []) else fail e

  -- what GetTool returned; none is "not found, go on with the resolvers"
  on_get_tool :
      Index W → String → Result (Tool × ToolBackend) → Exec W (Option (Tool × List ToolBackend))
  unfolding all_or_default
  on_get_tool idx id (ok (tool, default_backend)) = do
    all ← attempt (idx.get_all_backends id)
    backends ← all_or_default default_backend all
    pure (some (tool, backends))
  on_get_tool idx id (err e) = if errors_is e index_not_found then pure none else fail e

  -- 1. the index, if one is configured
  unfoldable pub from_index : Option (Index W) → String → Exec W (Option (Tool × List ToolBackend))
  unfolding on_get_tool
  from_index none id = pure none
  from_index (some idx) id = do got ← attempt (idx.get_tool id); on_get_tool idx id got

  -- 2. ToolResolver
  unfoldable pub from_tool_resolver :
      Option (String → Exec W (Option Tool)) → String → Exec W (Option Tool)
  unfolding usable_tool
  from_tool_resolver none id = pure none
  from_tool_resolver (some resolve) id = do t ← attempt (resolve id); pure (usable_tool t)

  -- 3. BackendsResolver
  unfoldable pub from_backends_resolver :
      Option (String → Exec W (List ToolBackend)) → String → Exec W (List ToolBackend)
  unfolding usable_backends
  from_backends_resolver none id = pure []
  from_backends_resolver (some resolve) id = do bs ← attempt (resolve id); pure (usable_backends bs)

  -- 4. what is there in the end
  assemble : Option Tool → List ToolBackend → Exec W Resolved
  assemble none bs = fail (sentinel tool_not_found)
  assemble (some t) [] = fail (sentinel no_backends)
  assemble (some t) (b ∷ bs) = pure (record { tool = t; backends = b ∷ bs })

  -- Where the index has the tool, the backends are found with it, and no resolver is called.
  after_index : Config W → String → Option (Tool × List ToolBackend) → Exec W Resolved
  unfolding assemble
  after_index cfg id (some (tool, backends)) = assemble (some tool) backends
  after_index cfg id none = do
    tool ← from_tool_resolver cfg.tool_resolver id
    backends ← from_backends_resolver cfg.backends_resolver id
    assemble tool backends

  unfoldable pub resolve_tool : DefaultRunner W → Context W → String → Exec W Resolved
  unfolding after_index
  resolve_tool r ctx id = do
    check ctx
    found ← from_index r.config.index id
    after_index r.config id found

  unfoldable pub select_backend : DefaultRunner W → List ToolBackend → Exec W ToolBackend
  select_backend r [] = fail (sentinel no_backends)
  select_backend r (b ∷ bs) = pure (r.backend_selector (b ∷ bs))
