-- ===== src/Backends/Local/Entries.antt =====
-- The tools that ListTools of backend/local/local.go makes of the entries of the table.
use mathlib.Core.Path.{subst}
use mathlib.Core.List.{Memᴰ}
use mathlib.Core.List.Memᴰ
use toolexec.Base.{String, ◌≡◌, refl, sym, ap, [], ◌∷◌, ◌⊎◌, inl, inr, All}
use toolexec.Base.Dict.{Dict}
use toolexec.Model.{Tool}
use toolexec.Value.{Value}
use toolexec.Effects.{Context, pure}
use toolexec.Backends.Listed.{IsOwn}
use toolexec.Backends.Local.{ToolDef, LocalBackend, tools_of, list_tools, as_source}

pub tool_same :
    (j k n m : String) (details : Value)
    → j ≡ k
    → n ≡ m
    → ◌≡◌ {A = Tool}
        (record { name = k; namespace = m; details = details })
        (record { name = j; namespace = n; details = details })
tool_same j k n m details e f = cc

module _ {W : Type 0} where
  pub tools_of-mem :
      (namespace : String) (m : Dict (ToolDef W)) (t : Tool)
      → Memᴰ t (tools_of namespace m)
      → (k : String) × (def : ToolDef W) × Memᴰ (k, def) m
        × (def.name ≡ t.name)
        × (t.namespace ≡ namespace)
  unfolding tools_of
  tools_of-mem namespace [] t h = absurd (Memᴰ.not-nil h)
  tools_of-mem namespace ((k, def) ∷ m) t h = elim (Memᴰ.cases_cons h) [
    | inl e ↦ (
      k,
      def,
      Memᴰ.head refl,
      sym (ap (λ (u : Tool). u.name) e),
      ap (λ (u : Tool). u.namespace) e,
    )
    | inr rest ↦
        let (j, found, there, named, placed) = tools_of-mem namespace m t rest in
        (j, found, Memᴰ.tail there, named, placed)
  ]

  pub mem-tools_of :
      (namespace k : String) (m : Dict (ToolDef W)) (def : ToolDef W)
      → Memᴰ (k, def) m
      → Memᴰ
          (record { name = def.name; namespace = namespace; details = def.details })
          (tools_of namespace m)
  unfolding tools_of
  mem-tools_of namespace k [] def h = absurd (Memᴰ.not-nil h)
  mem-tools_of namespace k ((j, other) ∷ m) def h = elim (Memᴰ.cases_cons h) [
    | inl e ↦
        Memᴰ.head
          (ap (λ p. record { name = p.1.name; namespace = namespace; details = p.1.details }) e)
    | inr rest ↦ Memᴰ.tail (mem-tools_of namespace k m def rest)
  ]

  tools_of-own :
      (namespace : String) (m : Dict (ToolDef W))
      → All (λ (t : Tool). (t.namespace ≡ "") ⊎ (t.namespace ≡ namespace)) (tools_of namespace m)
  unfolding tools_of
  tools_of-own namespace [] = tt
  tools_of-own namespace ((k, def) ∷ m) = (inr refl, tools_of-own namespace m)

  -- A local source gives its tools its own name, as the aggregator asks of a source.
  pub as_source-IsOwn :
      (name : String) (load : W → LocalBackend W) (ctx : Context W)
      → ((w : W) → (load w).name ≡ name)
      → IsOwn ctx (as_source name load)
  unfolding as_source list_tools pure
  as_source-IsOwn name load ctx same = record {
    at = λ w tools e.
        let it : tools_of (load w).name (load w).handlers ≡ tools = cc in
        subst (All (λ (t : Tool). (t.namespace ≡ "") ⊎ (t.namespace ≡ name))) it
          (rw (same w) (tools_of-own name (load w).handlers));
  }

  pub in_namespace :
      (namespace name : String) (m : Dict (ToolDef W))
      → namespace ≡ name
      → All (λ (t : Tool). t.namespace ≡ name) (tools_of namespace m)
  unfolding tools_of
  in_namespace namespace name [] e = tt
  in_namespace namespace name ((k, def) ∷ m) e = (e, in_namespace namespace name m e)
