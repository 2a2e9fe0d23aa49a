-- ===== src/Run/Resolve/Keeps.antt =====
-- What resolution does to the world, and that a resolved tool has a backend (run/resolve.go).
use toolexec.Base.{String, ◌≡◌, refl, Option, none, some, List, [], ◌∷◌}
use toolexec.Model.{ToolBackend, Tool}
use toolexec.Value.{Fields}
use toolexec.Effects.{Result, ok, err, Exec, pure, attempt, Context}
use toolexec.Effects.Keeps.{
  Keeps, ContextKeeps, Keeps-bind, Keeps-attempt, Keeps-pure, Keeps-check, keeps_rules,
}
use toolexec.Run.Config.{Index, DefaultRunner}
use toolexec.Run.Resolve.{
  all_or_default, on_get_tool, from_index, usable_tool, from_tool_resolver, usable_backends,
  from_backends_resolver, assemble, after_index, resolve_tool, select_backend,
}

-- `P` holds on through every call of the index, the resolvers and the input validator.
pub record LookupsKeep {W : Type 0} (P : W → Type 0) (r : DefaultRunner W) : Type 0 where
  pub index :
      (idx : Index W) (id : String)
      → r.config.index ≡ some idx
      → Keeps P (idx.get_tool id) × Keeps P (idx.get_all_backends id)
  pub tool_resolver :
      (f : String → Exec W (Option Tool)) (id : String)
      → r.config.tool_resolver ≡ some f
      → Keeps P (f id)
  pub backends_resolver :
      (f : String → Exec W (List ToolBackend)) (id : String)
      → r.config.backends_resolver ≡ some f
      → Keeps P (f id)
  pub validator : (tool : Tool) (args : Fields) → Keeps P (r.validator.validate_input tool args)

module _ {W : Type 0} {P : W → Type 0} where
  all_or_default-Keeps :
      (b : ToolBackend) (r : Result (List ToolBackend)) → Keeps P (all_or_default b r)
  unfolding all_or_default
  all_or_default-Keeps b (ok []) = search keeps_rules
  all_or_default-Keeps b (ok (c ∷ cs)) = search keeps_rules
  all_or_default-Keeps b (err e) = search keeps_rules

  on_get_tool-Keeps :
      (idx : Index W) (id : String) (r : Result (Tool × ToolBackend))
      → Keeps P (idx.get_all_backends id)
      → Keeps P (on_get_tool idx id r)
  unfolding on_get_tool
  on_get_tool-Keeps idx id (ok (t, b)) k = search (keeps_rules, all_or_default-Keeps)
  on_get_tool-Keeps idx id (err e) k = search keeps_rules

  from_index-Keeps :
      (index : Option (Index W)) (id : String)
      → ((idx : Index W) (id : String)
          → index ≡ some idx
          → Keeps P (idx.get_tool id) × Keeps P (idx.get_all_backends id))
      → Keeps P (from_index index id)
  unfolding from_index
  from_index-Keeps none id k = search keeps_rules
  from_index-Keeps (some idx) id k =
      let (k₁, k₂) = k idx id refl in
      Keeps-bind (attempt (idx.get_tool id)) (on_get_tool idx id) (Keeps-attempt _ k₁)
        (λ got. on_get_tool-Keeps idx id got k₂)

  from_tool_resolver-Keeps :
      (resolver : Option (String → Exec W (Option Tool))) (id : String)
      → ((f : String → Exec W (Option Tool)) (id : String) → resolver ≡ some f → Keeps P (f id))
      → Keeps P (from_tool_resolver resolver id)
  unfolding from_tool_resolver
  from_tool_resolver-Keeps none id k = search keeps_rules
  from_tool_resolver-Keeps (some f) id k =
      Keeps-bind (attempt (f id)) (λ t. pure (usable_tool t)) (Keeps-attempt _ (k f id refl))
        (λ t. Keeps-pure _)

  from_backends_resolver-Keeps :
      (resolver : Option (String → Exec W (List ToolBackend))) (id : String)
      → ((f : String → Exec W (List ToolBackend)) (id : String)
          → resolver ≡ some f
          → Keeps P (f id))
      → Keeps P (from_backends_resolver resolver id)
  unfolding from_backends_resolver
  from_backends_resolver-Keeps none id k = search keeps_rules
  from_backends_resolver-Keeps (some f) id k =
      Keeps-bind (attempt (f id)) (λ t. pure (usable_backends t)) (Keeps-attempt _ (k f id refl))
        (λ t. Keeps-pure _)

  assemble-Keeps : (t : Option Tool) (bs : List ToolBackend) → Keeps P (assemble t bs)
  unfolding assemble
  assemble-Keeps none bs = search keeps_rules
  assemble-Keeps (some t) [] = search keeps_rules
  assemble-Keeps (some t) (b ∷ bs) = search keeps_rules

  after_index-Keeps :
      (r : DefaultRunner W) (id : String) (found : Option (Tool × List ToolBackend))
      → LookupsKeep P r
      → Keeps P (after_index r.config id found)
  unfolding after_index
  after_index-Keeps r id (some (t, bs)) k = assemble-Keeps (some t) bs
  after_index-Keeps r id none k =
      Keeps-bind (from_tool_resolver r.config.tool_resolver id) _
        (from_tool_resolver-Keeps _ id k.tool_resolver)
        λ t.
          Keeps-bind (from_backends_resolver r.config.backends_resolver id) (assemble t)
            (from_backends_resolver-Keeps _ id k.backends_resolver) (assemble-Keeps t)

  pub resolve_tool-Keeps :
      (r : DefaultRunner W) (ctx : Context W) (id : String)
      → ContextKeeps P ctx
      → LookupsKeep P r
      → Keeps P (resolve_tool r ctx id)
  unfolding resolve_tool
  resolve_tool-Keeps r ctx id c k = Keeps-bind _ _ (Keeps-check ctx c) λ _.
      Keeps-bind (from_index r.config.index id) (after_index r.config id)
        (from_index-Keeps _ id k.index) (λ found. after_index-Keeps r id found k)

  pub select_backend-Keeps :
      (r : DefaultRunner W) (bs : List ToolBackend) → Keeps P (select_backend r bs)
  unfolding select_backend
  select_backend-Keeps r [] = search keeps_rules
  select_backend-Keeps r (b ∷ bs) = search keeps_rules
