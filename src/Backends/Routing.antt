-- ===== src/Backends/Routing.antt =====
-- The registry's invariant, and where a call of the aggregator goes.
use toolexec.Base.{
  String, ◌≡◌, ◌≢◌, true, Option, none, some, arith, eq_iff, str_eq, if◌then◌else◌, Bool-cases, inl,
  inr, ap, sym, ◌∙◌, eq_refl,
}
use toolexec.Base.Dict.{lookup, lookup-insert, lookup-delete}
use toolexec.Value.{Fields}
use toolexec.Errors.{sentinel, backend_not_found}
use toolexec.Effects.{ok, err, Context, ◌>>=◌}
use toolexec.Backends.{ToolSource, Registry, register, unregister, execute, format_tool_id}

-- Every backend is registered under its own name, which is not empty.
pub record IsNamed {W : Type 0} (r : Registry W) : Type 0 where
  pub at : (k : String) (b : ToolSource W) → lookup r.backends k ≡ some b → (b.name ≡ k) × (k ≢ "")

pub register-lookup :
    {W : Type 0} (r r' : Registry W) (b : ToolSource W) (k : String)
    → register r (some b) ≡ ok r'
    → (lookup r'.backends k ≡ (if str_eq b.name k then some b else lookup r.backends k))
      × (b.name ≢ "")
unfolding register
register-lookup r r' b k h =
    let empty = eq_iff b.name "" in
    (ground (arith, lookup-insert r.backends b.name b k), ground (arith, empty))

unregister-lookup :
    {W : Type 0} (r : Registry W) (name k : String) (w : W)
    → lookup (unregister r name w).0.backends k
      ≡ (if str_eq name k then none else lookup r.backends k)
unfolding unregister
unregister-lookup r name k w = ground (arith, lookup-delete r.backends name k, eq_iff name k)

named_at :
    {W : Type 0} (r : Registry W) (b c : ToolSource W) (k : String)
    → IsNamed r
    → b.name ≢ ""
    → (if str_eq b.name k then some b else lookup r.backends k) ≡ some c
    → (c.name ≡ k) × (k ≢ "")
named_at r b c k v named e = elim (Bool-cases (str_eq b.name k)) [
  | inl here ↦
      let same : b.name ≡ k = (eq_iff b.name k).0 here in
      let it : b ≡ c = ground arith in
      (ap (λ (x : ToolSource _). x.name) (sym it) ∙ same, λ empty. named (same ∙ empty))
  | inr there ↦ v.at k c (rw there at e)
]

left_at :
    {W : Type 0} (name k : String) (found : Option (ToolSource W)) (b : ToolSource W)
    → (if str_eq name k then none else found) ≡ some b
    → found ≡ some b
left_at name k found b e = ground arith

register-IsNamed :
    {W : Type 0} (r r' : Registry W) (o : Option (ToolSource W))
    → IsNamed r
    → register r o ≡ ok r'
    → IsNamed r'
unfolding register
register-IsNamed r r' none v h = absurd (ground arith)
register-IsNamed r r' (some b) v h = record {
  at = λ k c e.
      let (found, named) = register-lookup r r' b k h in named_at r b c k v named (rw found at e);
}

unregister-IsNamed :
    {W : Type 0} (r : Registry W) (name : String) (w : W)
    → IsNamed r
    → IsNamed (unregister r name w).0
unregister-IsNamed r name w v = record {
  at = λ k b e. v.at k b (left_at name k _ b (rw (unregister-lookup r name k w) at e));
}

-- Registering, when it succeeds, and unregistering keep every backend under its own name, which is
-- not empty.
pub registry-IsNamed :
    {W : Type 0} (r r' : Registry W) (o : Option (ToolSource W)) (name : String) (w : W)
    → IsNamed r
    → register r o ≡ ok r'
    → IsNamed r' × IsNamed (unregister r name w).0
registry-IsNamed r r' o name w v h = (register-IsNamed r r' o v h, unregister-IsNamed r name w v)

-- Once a backend has been registered, a call with an id made of its name and a tool goes to that
-- backend and to that tool, while it is enabled and ids parse as they are made; once it has been
-- unregistered, such a call fails with ErrBackendNotFound and calls nothing.
pub execute-registered :
    {W : Type 0} (parse : String → Option (String × String)) (r r' : Registry W) (b : ToolSource W)
    (ctx : Context W) (tool : String) (args : Fields) (w v : W)
    → register r (some b) ≡ ok r'
    → parse (format_tool_id b.name tool) ≡ some (b.name, tool)
    → b.enabled w ≡ true
    → (execute parse r' ctx (format_tool_id b.name tool) args w ≡ b.execute ctx tool args w)
      × (execute parse (unregister r' b.name v).0 ctx (format_tool_id b.name tool) args w
          ≡ (err (sentinel backend_not_found), w))
unfolding register execute unregister ◌>>=◌
execute-registered parse r r' b ctx tool args w v h p on =
    let (found, named) = register-lookup r r' b b.name h in
    let gone = unregister-lookup r' b.name b.name v in
    let same = eq_refl b.name in let empty = eq_iff b.name "" in (ground arith, ground arith)
