-- ===== src/Backends/Listing.antt =====
-- What backend/registry.go and backend/aggregator.go do with all the tool sources at once. `all` is
-- what List returns: the sources of the registry, in whatever order the map gives them. The namespaces
-- are written into a copy of the tools; the source writes them into the slice that ListTools returned.
use toolexec.Base.{
  String, ◌≢◌, List, [], ◌∷◌, ◌++◌, map, is_empty, str_eq, eq_iff, if◌then◌else◌, All, All-append,
  arith, inl, inr, Bool-cases,
}
use toolexec.Base.Dict.{Dict}
use toolexec.Model.{Tool}
use toolexec.Effects.{Exec, Context, pure, ◌>>=◌, ◌>>◌}
use toolexec.Effects.Ensures.{Ensures, Ensures-bind, Ensures-pure}
use toolexec.Backends.{ToolSource, Registry}

values : {A : Type 0} → Dict A → List A
values [] = []
values ((k, a) ∷ m) = a ∷ values m

-- a tool without a namespace gets the name of its source
unfoldable pub in_namespace : String → Tool → Tool
in_namespace name tool = if is_empty tool.namespace then record tool { namespace = name } else tool

module _ {W : Type 0} where
  -- List, in the order of the association list
  unfoldable pub list : Registry W → List (ToolSource W)
  unfolding values
  list r = values r.backends

  -- the loop of ListEnabled
  unfoldable pub list_enabled : List (ToolSource W) → W → List (ToolSource W)
  list_enabled [] w = []
  list_enabled (b ∷ bs) w = let rest = list_enabled bs w in if b.enabled w then b ∷ rest else rest

  -- the loop of ListByKind
  unfoldable pub list_by_kind : String → List (ToolSource W) → List (ToolSource W)
  list_by_kind kind [] = []
  list_by_kind kind (b ∷ bs) =
      let rest = list_by_kind kind bs in if str_eq b.kind kind then b ∷ rest else rest

  -- Names; `sort` is sort.Strings
  unfoldable pub names : (List String → List String) → List (ToolSource W) → List String
  names sort all = sort (map (λ (b : ToolSource W). b.name) all)

  unfoldable pub start_each : Context W → List (ToolSource W) → Exec W (Unit {0})
  start_each ctx [] = pure tt
  start_each ctx (b ∷ bs) = b.start ctx >> start_each ctx bs

  -- StartAll: which sources are enabled is asked before the first is started
  unfoldable pub start_all : Context W → List (ToolSource W) → Exec W (Unit {0})
  start_all ctx all w = start_each ctx (list_enabled all w) w

  unfoldable pub stop_all : List (ToolSource W) → Exec W (Unit {0})
  stop_all [] = pure tt
  stop_all (b ∷ bs) = b.stop >> stop_all bs

  unfoldable pub list_each : Context W → List (ToolSource W) → Exec W (List Tool)
  list_each ctx [] = pure []
  list_each ctx (b ∷ bs) = do
    tools ← b.list_tools ctx
    rest ← list_each ctx bs
    pure (map (in_namespace b.name) tools ++ rest)

  -- ListAllTools
  unfoldable pub list_all_tools : Context W → List (ToolSource W) → Exec W (List Tool)
  list_all_tools ctx all w = list_each ctx (list_enabled all w) w

-- every tool has a namespace
abbrev AreNamed : List Tool → Type 0
AreNamed = All (λ (t : Tool). t.namespace ≢ "")

map-AreNamed :
    (name : String) (tools : List Tool) → name ≢ "" → AreNamed (map (in_namespace name) tools)
unfolding in_namespace
map-AreNamed name [] h = tt
map-AreNamed name (t ∷ ts) h = (ground (arith, eq_iff t.namespace ""), map-AreNamed name ts h)

module _ {W : Type 0} where
  list_each-AreNamed :
      (ctx : Context W) (bs : List (ToolSource W))
      → All (λ (b : ToolSource W). b.name ≢ "") bs
      → Ensures AreNamed (list_each ctx bs)
  unfolding list_each
  list_each-AreNamed ctx [] h = Ensures-pure _ [] tt
  list_each-AreNamed ctx (b ∷ bs) (named, h) = Ensures-bind _ _ λ tools _.
      Ensures-bind _ _ λ rest got. Ensures-pure _ _ (
        All-append _ (map (in_namespace b.name) tools) rest (map-AreNamed b.name tools named)
          ((list_each-AreNamed ctx bs h).at got.0 rest got.1))

  enabled-named :
      (all : List (ToolSource W)) (w : W)
      → All (λ (b : ToolSource W). b.name ≢ "") all
      → All (λ (b : ToolSource W). b.name ≢ "") (list_enabled all w)
  unfolding list_enabled
  enabled-named [] w h = tt
  enabled-named (b ∷ bs) w (named, h) = elim (Bool-cases (b.enabled w)) [
    | inl on ↦ rw on (named, enabled-named bs w h)
    | inr off ↦ rw off (enabled-named bs w h)
  ]

  -- Every tool that ListAllTools returns for sources that have a name has a namespace.
  pub list_all_tools-AreNamed :
      (ctx : Context W) (all : List (ToolSource W))
      → All (λ (b : ToolSource W). b.name ≢ "") all
      → Ensures AreNamed (list_all_tools ctx all)
  unfolding list_all_tools
  list_all_tools-AreNamed ctx all h = record {
    at = λ w. (list_each-AreNamed ctx (list_enabled all w) (enabled-named all w h)).at w;
  }
