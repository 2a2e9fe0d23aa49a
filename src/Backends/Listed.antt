-- ===== src/Backends/Listed.antt =====
-- What ListAllTools and Execute of backend/aggregator.go have to do with each other. `all` is what
-- List returns.
use toolexec.Base.{
  String, ◌≡◌, ◌≢◌, refl, true, false, Option, some, List, [], ◌∷◌, map, is_empty, eq_iff,
  if◌then◌else◌, All, All-append, arith, ◌⊎◌, inl, inr, Bool-cases,
}
use mathlib.Core.List.{Memᴰ}
use toolexec.Base.Dict.{lookup}
use toolexec.Value.{Fields}
use toolexec.Errors.{sentinel, backend_disabled}
use toolexec.Model.{Tool}
use toolexec.Effects.{ok, err, Context, fail, ◌>>=◌}
use toolexec.Effects.Ensures.{Ensures, Ensures-bind, Ensures-pure}
use toolexec.Backends.{ToolSource, Registry, execute, format_tool_id}
use toolexec.Backends.Listing.{in_namespace, list_enabled, list_each, list_all_tools}
use toolexec.Backends.Routing.{IsNamed}

module _ {W : Type 0} where
  -- A source whose tools have no namespace, or its own name as theirs.
  abbrev pub IsOwn : Context W → ToolSource W → Type 0
  IsOwn ctx b =
      Ensures (All (λ (t : Tool). (t.namespace ≡ "") ⊎ (t.namespace ≡ b.name))) (b.list_tools ctx)

  module _ (r : Registry W) (ctx : Context W) where
    -- all is what List returns, and every source of it gives its tools no other name than its own
    abbrev pub AreOwn : List (ToolSource W) → Type 0
    AreOwn = All (λ (b : ToolSource W). (lookup r.backends b.name ≡ some b) × IsOwn ctx b)

    -- The source that the registry has under the namespace of a tool, which has the property `E`,
    -- and among whose tools the tool is, under that namespace.
    pub record HasSource (E : ToolSource W → Type 0) (t : Tool) : Type 0 where
      pub source : ToolSource W
      pub registered : lookup r.backends t.namespace ≡ some source
      pub named : t.namespace ≢ ""
      pub holds : E source
      pub world : W
      pub tools : List Tool
      pub listed : (source.list_tools ctx world).0 ≡ ok tools
      pub tool : Tool
      pub offered : Memᴰ tool tools
      pub placed : t ≡ in_namespace source.name tool

    module _ (E : ToolSource W → Type 0) where
      -- what is known of each source
      pub record IsListed (b : ToolSource W) : Type 0 where
        pub registered : lookup r.backends b.name ≡ some b
        pub named : b.name ≢ ""
        pub own : IsOwn ctx b
        pub holds : E b

      in_namespace-own :
          (name : String) (t : Tool)
          → (t.namespace ≡ "") ⊎ (t.namespace ≡ name)
          → (in_namespace name t).namespace ≡ name
      unfolding in_namespace
      in_namespace-own name t (inl none) = rw none refl
      in_namespace-own name t (inr same) = elim (Bool-cases (is_empty t.namespace)) [
        | inl empty ↦ rw empty refl
        | inr named ↦ rw (named, same) refl
      ]

      found :
          (b : ToolSource W) (h : IsListed b) (w : W) (tools : List Tool) (t : Tool)
          → (b.list_tools ctx w).0 ≡ ok tools
          → Memᴰ t tools
          → (t.namespace ≡ "") ⊎ (t.namespace ≡ b.name)
          → HasSource E (in_namespace b.name t)
      found b h w tools t listed offered own =
          let placed = in_namespace-own b.name t own in
          record {
            source = b;
            registered = rw placed h.registered;
            named = rw placed h.named;
            holds = h.holds;
            world = w;
            tools = tools;
            listed = listed;
            tool = t;
            offered = offered;
            placed = refl;
          }

      map-HaveSources :
          (b : ToolSource W) (h : IsListed b) (w : W) (tools ts : List Tool)
          → (b.list_tools ctx w).0 ≡ ok tools
          → ((t : Tool) → Memᴰ t ts → Memᴰ t tools)
          → All (λ (t : Tool). (t.namespace ≡ "") ⊎ (t.namespace ≡ b.name)) ts
          → All (HasSource E) (map (in_namespace b.name) ts)
      map-HaveSources b h w tools [] listed within own = tt
      map-HaveSources b h w tools (t ∷ ts) listed within (own, rest) = (
        found b h w tools t listed (within t (Memᴰ.head refl)) own,
        map-HaveSources b h w tools ts listed (λ u m. within u (Memᴰ.tail m)) rest,
      )

      list_each-HaveSources :
          (bs : List (ToolSource W))
          → All IsListed bs
          → Ensures (All (HasSource E)) (list_each ctx bs)
      unfolding list_each
      list_each-HaveSources [] h = Ensures-pure _ [] tt
      list_each-HaveSources (b ∷ bs) (h, hs) = Ensures-bind _ _ λ tools (w, listed).
          Ensures-bind _ _ λ rest got. Ensures-pure _ _ (
            All-append _ (map (in_namespace b.name) tools) rest
              (map-HaveSources b h w tools tools listed (λ t m. m) (h.own.at w tools listed))
              ((list_each-HaveSources bs hs).at got.0 rest got.1))

    -- the sources that are enabled are listed
    enabled-IsListed :
        (all : List (ToolSource W)) (w : W)
        → IsNamed r
        → AreOwn all
        → All (IsListed (λ b. b.enabled w ≡ true)) (list_enabled all w)
    unfolding list_enabled
    enabled-IsListed [] w named h = tt
    enabled-IsListed (b ∷ bs) w named ((there, own), h) = elim (Bool-cases (b.enabled w)) [
      | inl on ↦ rw on (
        record { registered = there; named = (named.at b.name b there).1; own = own; holds = on },
        enabled-IsListed bs w named h,
      )
      | inr off ↦ rw off (enabled-IsListed bs w named h)
    ]

    executed :
        (parse : String → Option (String × String)) (E : ToolSource W → Type 0) (t : Tool)
        (h : HasSource E t) (ctx' : Context W) (args : Fields) (v : W)
        → parse (format_tool_id t.namespace t.name) ≡ some (t.namespace, t.name)
        → execute parse r ctx' (format_tool_id t.namespace t.name) args v ≡ (
            if h.source.enabled v
            then h.source.execute ctx' t.name args v
            else (err (sentinel backend_disabled), v))
    unfolding execute ◌>>=◌ fail
    executed parse E t h ctx' args v p =
        let nonempty : is_empty t.namespace ≡ false = ground (arith, eq_iff t.namespace "") in
        rw (p, nonempty, h.registered) refl

    -- a tool whose id parses as it is made
    abbrev pub IsParsed : (String → Option (String × String)) → Tool → Type 0
    IsParsed parse t = parse (format_tool_id t.namespace t.name) ≡ some (t.namespace, t.name)

    -- A tool with a source that has the property `E`, to which the call with the tool's id goes.
    abbrev pub IsExecuted :
        (String → Option (String × String))
        → (ToolSource W → Type 0)
        → Context W
        → Fields
        → Tool
        → Type 0
    IsExecuted parse E ctx' args t =
        (h : HasSource E t) × ((v : W)
          → execute parse r ctx' (format_tool_id t.namespace t.name) args v ≡ (
              if h.source.enabled v
              then h.source.execute ctx' t.name args v
              else (err (sentinel backend_disabled), v)))

    All-IsExecuted :
        (parse : String → Option (String × String)) (E : ToolSource W → Type 0) (ctx' : Context W)
        (args : Fields) (tools : List Tool)
        → All (IsParsed parse) tools
        → All (HasSource E) tools
        → All (IsExecuted parse E ctx' args) tools
    All-IsExecuted parse E ctx' args [] p h = tt
    All-IsExecuted parse E ctx' args (t ∷ ts) (p, ps) (h, hs) =
        ((h, λ v. executed parse E t h ctx' args v p), All-IsExecuted parse E ctx' args ts ps hs)

    -- What ListAllTools lists, Execute calls. Where every backend is registered under its own name
    -- and gives its tools no namespace but that name, and the ids of the listed tools parse as they
    -- are made: each listed tool comes from a backend that was enabled when the tools were listed
    -- and that is registered under the tool's namespace, and a call with the tool's id is that
    -- backend's call with the tool's name, or ErrBackendDisabled and nothing else, once the backend
    -- is disabled.
    pub list_all_tools-IsExecuted :
        (parse : String → Option (String × String)) (all : List (ToolSource W)) (ctx' : Context W)
        (args : Fields) (w : W) (tools : List Tool)
        → IsNamed r
        → AreOwn all
        → (list_all_tools ctx all w).0 ≡ ok tools
        → All (IsParsed parse) tools
        → All (IsExecuted parse (λ b. b.enabled w ≡ true) ctx' args) tools
    unfolding list_all_tools
    list_all_tools-IsExecuted parse all ctx' args w tools named own listed parses =
        All-IsExecuted parse (λ b. b.enabled w ≡ true) ctx' args tools parses
          ((list_each-HaveSources (λ b. b.enabled w ≡ true) (list_enabled all w)
              (enabled-IsListed all w named own)).at
            w tools listed)
