-- ===== src/Value.antt =====
-- Go's `any` as the code meets it: decoded JSON, `int`, `[]string`, `[]byte`, `[]map[string]any`
-- (`maps`, whose elements are `obj`), and values that it only passes on.
-- `Fields` is a `map[string]any`; the nil map reads as the empty one.
use toolexec.Base.{
  ℕ, ℤ, String, ◌≡◌, refl, Bool, Option, none, some, List, arith, str_eq, eq_iff, if◌then◌else◌,
}

mutual
  pub data Fields : Type 0 where
    end : Fields
    field : String → Value → Fields → Fields

  pub data Elements : Type 0 where
    last : Elements
    element : Value → Elements → Elements

  pub data Value : Type 0 where
    null : Value
    bool : Bool → Value
    int : ℤ → Value
    str : String → Value
    bytes : List ℕ → Value
    maps : Elements → Value
    texts : List String → Value
    opaque : ℕ → Value
    list : Elements → Value
    obj : Fields → Value

-- m[k] with the `ok` flag
unfoldable pub get : Fields → String → Option Value
get end k = none
get (field j v m) k = if str_eq j k then some v else get m k

-- m[k] = v
pub put : Fields → String → Value → Fields
put end k v = field k v end
put (field j w m) k v = if str_eq j k then field k v m else field j w (put m k v)

pub get-put :
    (m : Fields) (k j : String) (v : Value)
    → get (put m k v) j ≡ (if str_eq k j then some v else get m j)
unfolding get put
get-put end k j v = refl
get-put (field i w m) k j v = ground (arith, eq_iff k j, eq_iff i k, eq_iff i j, get-put m k j v)
