-- ===== src/Backends/Local/Keys.antt =====
-- The table of backend/local/local.go as pairs of a name and a definition, each under its own name.
use mathlib.Core.List.{Memᴰ}
use mathlib.Core.List.Memᴰ
use toolexec.Base.{
  String, ◌≡◌, ◌≢◌, refl, ◌∙◌, sym, ap, some, [], ◌∷◌, str_eq, eq_iff, arith, inl, inr, Bool-cases,
}
use toolexec.Base.Dict.{Dict, lookup, insert, delete, lookup-insert, lookup-delete}
use toolexec.Backends.Local.{ToolDef}

mem-delete :
    {V : Type 0} (m : Dict V) (j k : String) (v : V)
    → Memᴰ (k, v) (delete m j)
    → Memᴰ (k, v) m × (j ≢ k)
unfolding delete
mem-delete [] j k v h = absurd (Memᴰ.not-nil h)
mem-delete ((i, u) ∷ m) j k v h = elim (Bool-cases (str_eq i j)) [
  | inl same ↦ let (there, other) = mem-delete m j k v (rw same at h) in (Memᴰ.tail there, other)
  | inr differ ↦ elim (Memᴰ.cases_cons (rw differ at h)) [
    | inl e ↦ (Memᴰ.head e, λ at_j. cc (differ, (eq_iff i j).1 (sym (ap (λ p. p.0) e) ∙ sym at_j)))
    | inr rest ↦ let (there, other) = mem-delete m j k v rest in (Memᴰ.tail there, other)
  ]
]

lookup_here :
    {V : Type 0} (m : Dict V) (j k : String) (v : V) → j ≡ k → lookup (insert m j v) k ≡ some v
lookup_here m j k v e = rw (lookup-insert m j v k, (eq_iff j k).1 e) refl

lookup_there :
    {V : Type 0} (m : Dict V) (j k : String) (v : V) → j ≢ k → lookup (insert m j v) k ≡ lookup m k
lookup_there m j k v e = ground (arith, lookup-insert m j v k, eq_iff j k)

pub mem-lookup :
    {V : Type 0} (m : Dict V) (k : String) (v : V) → lookup m k ≡ some v → Memᴰ (k, v) m
unfolding lookup
mem-lookup [] k v h = absurd cc
mem-lookup ((i, u) ∷ m) k v h = elim (Bool-cases (str_eq i k)) [
  | inl here ↦
      let it : some u ≡ some v = rw here at h in
      let same : u ≡ v = cc in let at : i ≡ k = (eq_iff i k).0 here in Memᴰ.head (cc (same, at))
  | inr there ↦ Memᴰ.tail (mem-lookup m k v (rw there at h))
]

module _ {W : Type 0} where
  -- Each definition has the name that it is found under
  abbrev pub IsKeyed : Dict (ToolDef W) → Type 0
  IsKeyed m =
      (k : String) (def : ToolDef W) → Memᴰ (k, def) m → (def.name ≡ k) × (lookup m k ≡ some def)

  pub delete-IsKeyed : (m : Dict (ToolDef W)) (j : String) → IsKeyed m → IsKeyed (delete m j)
  delete-IsKeyed m j keyed k def h =
      let (there, other) = mem-delete m j k def h in
      let (named, found) = keyed k def there in
      (named, ground (arith, lookup-delete m j k, eq_iff j k))

  pub insert-IsKeyed :
      (m : Dict (ToolDef W)) (j : String) (new : ToolDef W)
      → new.name ≡ j
      → IsKeyed m
      → IsKeyed (insert m j new)
  unfolding insert
  insert-IsKeyed m j new own keyed k def h = elim (Memᴰ.cases_cons h) [
    | inl e ↦
        let here : k ≡ j = ap (λ p. p.0) e in
        let it : def ≡ new = ap (λ p. p.1) e in
        (
          ap (λ (d : ToolDef W). d.name) it ∙ own ∙ sym here,
          lookup_here m j k new (sym here) ∙ ap some (sym it),
        )
    | inr rest ↦
        let (there, other) = mem-delete m j k def rest in
        let (named, found) = keyed k def there in (named, lookup_there m j k new other ∙ found)
  ]
