-- ===== src/Backends/Local/Listed.antt =====
-- What ListTools and Execute of backend/local/local.go have to do with each other, after any
-- registrations.
use mathlib.Core.List.{Memᴰ}
use mathlib.Core.List.Memᴰ
use toolexec.Base.{
  String, ◌≡◌, refl, ◌∙◌, sym, ap, Bool, Option, none, some, is_empty, if◌then◌else◌, arith, ◌⊎◌,
  inl, inr, Bool-cases, Option-cases, All,
}
use toolexec.Base.Dict.{lookup}
use toolexec.Model.{Tool}
use toolexec.Value.{Value, Fields}
use toolexec.Errors.{sentinel, backend_disabled, tool_not_in_backend}
use toolexec.Run.Types.{LocalHandler}
use toolexec.Effects.{err, Exec, Context, fail}
use toolexec.Backends.Local.Entries.{tool_same, tools_of-mem, mem-tools_of, in_namespace}
use toolexec.Backends.Local.Keys.{IsKeyed, delete-IsKeyed, insert-IsKeyed, mem-lookup}
use toolexec.Backends.Local.{
  ToolDef, LocalBackend, new_local, set_enabled, register_handler, unregister_handler, tools_of,
  list_tools, call_handler, call_found, execute,
}

-- What callers do to a source. A definition that is registered has the name that it is registered
-- under, or none of its own.
pub data Step {W : Type 0} : LocalBackend W → LocalBackend W → Type 0 where
  registers :
      (name : String) (def : ToolDef W) (b : LocalBackend W)
      → (def.name ≡ "") ⊎ (def.name ≡ name)
      → Step b (register_handler name def b)
  unregisters : (name : String) (b : LocalBackend W) → Step b (unregister_handler name b)
  switches : (on : Bool) (b : LocalBackend W) → Step b (set_enabled on b)

-- The sources that come from a new one by such steps.
pub data Reach {W : Type 0} (name : String) : LocalBackend W → Type 0 where
  starts : Reach name (new_local name)
  steps : (b b' : LocalBackend W) → Reach name b → Step b b' → Reach name b'

module _ {W : Type 0} where
  registered_name :
      (name : String) (def : ToolDef W)
      → (def.name ≡ "") ⊎ (def.name ≡ name)
      → (if is_empty def.name then record def { name = name } else def).name ≡ name
  registered_name name def (inl unnamed) = rw unnamed refl
  registered_name name def (inr own) = elim (Bool-cases (is_empty def.name)) [
    | inl unnamed ↦ rw unnamed refl
    | inr named ↦ rw (named, own) refl
  ]

  step-IsKeyed : (b b' : LocalBackend W) → Step b b' → IsKeyed b.handlers → IsKeyed b'.handlers
  unfolding register_handler unregister_handler set_enabled
  step-IsKeyed _ _ (registers name def b own) keyed =
      insert-IsKeyed b.handlers name _ (registered_name name def own) keyed
  step-IsKeyed _ _ (unregisters name b) keyed = delete-IsKeyed b.handlers name keyed
  step-IsKeyed _ _ (switches on b) keyed = keyed

  step-name : (b b' : LocalBackend W) → Step b b' → b'.name ≡ b.name
  unfolding register_handler unregister_handler set_enabled
  step-name _ _ (registers name def b own) = refl
  step-name _ _ (unregisters name b) = refl
  step-name _ _ (switches on b) = refl

  reached :
      (name : String) (b : LocalBackend W) → Reach name b → (b.name ≡ name) × IsKeyed b.handlers
  unfolding new_local
  reached name _ starts = (refl, λ k def h. absurd (Memᴰ.not-nil h))
  reached name _ (steps b b' r s) =
      let (named, keyed) = reached name b r in (step-name b b' s ∙ named, step-IsKeyed b b' s keyed)

  -- The answer of a source for what its table has under a name: that of the handler, ErrToolNotFound
  -- where there is none, and ErrBackendDisabled while the source is disabled.
  abbrev pub answer : LocalBackend W → Option (LocalHandler W) → Context W → Fields → Exec W Value
  answer b handler ctx args w =
      if b.enabled
      then elim handler [
        | none ↦ (err (sentinel tool_not_in_backend), w)
        | some run ↦ run ctx args w
      ]
      else (err (sentinel backend_disabled), w)

  execute-found :
      (b : LocalBackend W) (k : String) (def : ToolDef W) (handler : Option (LocalHandler W))
      (ctx : Context W) (args : Fields) (w : W)
      → lookup b.handlers k ≡ some def
      → def.handler ≡ handler
      → execute b ctx k args w ≡ answer b handler ctx args w
  unfolding execute call_found call_handler fail
  execute-found b k def none ctx args w h e = rw (h, e) (ground arith)
  execute-found b k def (some run) ctx args w h e = rw (h, e) (ground arith)

  execute-missing :
      (b : LocalBackend W) (k : String) (ctx : Context W) (args : Fields) (w : W)
      → lookup b.handlers k ≡ none
      → execute b ctx k args w ≡ answer b none ctx args w
  unfolding execute call_found fail
  execute-missing b k ctx args w h = rw h (ground arith)

  unlisted :
      (b : LocalBackend W) (k : String)
      → IsKeyed b.handlers
      → lookup b.handlers k ≡ none
      → ¬ ((t : Tool) × Memᴰ t (tools_of b.name b.handlers) × (t.name ≡ k))
  unlisted b k keyed missing (t, there, named) =
      let (j, def, held, same, _) = tools_of-mem b.name b.handlers t there in
      let (own, found) = keyed j def held in
      let at_k : j ≡ k = sym own ∙ (same ∙ named) in
      let here : lookup b.handlers k ≡ some def = ap (lookup b.handlers) (sym at_k) ∙ found in cc

  listed :
      (name : String) (b : LocalBackend W) (k : String) (def : ToolDef W)
      → b.name ≡ name
      → def.name ≡ k
      → Memᴰ (k, def) b.handlers
      → Memᴰ
          (record { name = k; namespace = name; details = def.details })
          (tools_of b.name b.handlers)
  listed name b k def named own held =
      Memᴰ.cast (tool_same def.name k b.name name def.details own named)
        (mem-tools_of b.name k b.handlers def held)

  -- ListTools and Execute agree, however definitions have been registered and unregistered and the
  -- source enabled and disabled, as long as a definition is registered under its own name or has
  -- none. The listed tools have the source's name for a namespace. A name is either in the table,
  -- and then a tool with that name and the details of its definition is listed, and executing it is
  -- what that definition's handler does; or it is not, and then no listed tool has it, and executing
  -- it fails with ErrToolNotFound and does nothing. A listed tool whose definition has a nil handler
  -- fails with ErrToolNotFound too; while the source is disabled, every name fails with
  -- ErrBackendDisabled and does nothing.
  pub list_tools-execute :
      (name : String) (b : LocalBackend W) (ctx : Context W) (args : Fields) (w : W) (k : String)
      → Reach name b
      → All (λ (t : Tool). t.namespace ≡ name) (list_tools b)
        × (((def : ToolDef W) × (lookup b.handlers k ≡ some def)
              × Memᴰ (record { name = k; namespace = name; details = def.details }) (list_tools b)
              × (execute b ctx k args w ≡ answer b def.handler ctx args w))
            ⊎ ((lookup b.handlers k ≡ none)
                × (¬ ((t : Tool) × Memᴰ t (list_tools b) × (t.name ≡ k)))
                × (execute b ctx k args w ≡ answer b none ctx args w)))
  unfolding list_tools
  list_tools-execute name b ctx args w k r =
      let (named, keyed) = reached name b r in
      (
        in_namespace b.name name b.handlers named,
        elim (Option-cases (lookup b.handlers k)) [
          | inl missing ↦
              inr (missing, unlisted b k keyed missing, execute-missing b k ctx args w missing)
          | inr (def, found) ↦
              let held = mem-lookup b.handlers k def found in
              inl (
                def,
                found,
                listed name b k def named (keyed k def held).0 held,
                execute-found b k def def.handler ctx args w found refl,
              )
        ],
      )
