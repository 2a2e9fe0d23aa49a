-- ===== src/Base/Dict.antt =====
-- A Go map with string keys, as an association list; its order is not read by the code that is
-- modelled, except where a definition takes the order of an iteration as an argument.
use Prim.Native.String.{String}
use mathlib.Core.Path.{◌≡◌}
use mathlib.Core.Bool.{Bool, true, false}
use mathlib.Core.Option.{Option, none, some}
use mathlib.Core.List.{List, [], ◌∷◌}
use native.Mathlib.Omega.{arith}
use text.Mathlib.Text.{◌==◌}
use text.Mathlib.TextEquality.{eq_iff}
use toolexec.Base.Tests.{if◌then◌else◌}

abbrev pub Dict {ℓ} : Type ℓ → Type ℓ
Dict V = List (String × V)

module _ {ℓ} {V : Type ℓ} where
  -- m[k] with the `ok` flag
  unfoldable pub lookup : Dict V → String → Option V
  lookup [] k = none
  lookup ((j, v) ∷ m) k = if j == k then some v else lookup m k

  -- delete(m, k)
  unfoldable pub delete : Dict V → String → Dict V
  delete [] k = []
  delete ((j, v) ∷ m) k = let rest = delete m k in if j == k then rest else (j, v) ∷ rest

  -- m[k] = v
  unfoldable pub insert : Dict V → String → V → Dict V
  insert m k v = (k, v) ∷ delete m k

  pub lookup-delete :
      (m : Dict V) (k j : String) → lookup (delete m k) j ≡ (if k == j then none else lookup m j)
  unfolding lookup delete
  lookup-delete [] k j = ground arith
  lookup-delete ((i, v) ∷ m) k j =
      ground (arith, lookup-delete m k j, eq_iff i k, eq_iff i j, eq_iff k j)

  pub lookup-insert :
      (m : Dict V) (k : String) (v : V) (j : String)
      → lookup (insert m k v) j ≡ (if k == j then some v else lookup m j)
  unfolding lookup insert
  lookup-insert m k v j = ground (arith, lookup-delete m k j)

-- A set of strings.
unfoldable pub contains : List String → String → Bool
contains [] k = false
contains (j ∷ s) k = if j == k then true else contains s k
