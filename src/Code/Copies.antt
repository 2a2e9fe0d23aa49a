-- ===== src/Code/Copies.antt =====
-- deepCopyArgs and deepCopyValue of code/tools.go. `copy_opaque` is what reflection and
-- encoding/json make of a value of a type that the code does not name.
use toolexec.Base.{String, List, [], ◌∷◌}
use toolexec.Value.{
  Value, null, bool, int, str, bytes, maps, texts, opaque, list, obj, Elements, last, element,
  Fields, end, field,
}

-- `[]string` becomes `[]any`
unfoldable pub copy_texts : List String → Elements
copy_texts [] = last
copy_texts (s ∷ ss) = element (str s) (copy_texts ss)

module _ (copy_opaque : Value → Value) where
  unfoldable mutual
    unfolding copy_texts

    pub deep_copy_value : Value → Value
    deep_copy_value null = null
    deep_copy_value (bool b) = bool b
    deep_copy_value (int n) = int n
    deep_copy_value (str s) = str s
    deep_copy_value (bytes b) = copy_opaque (bytes b)
    deep_copy_value (maps ms) = copy_opaque (maps ms)
    deep_copy_value (texts ss) = list (copy_texts ss)
    deep_copy_value (opaque n) = copy_opaque (opaque n)
    deep_copy_value (list xs) = list (deep_copy_slice xs)
    deep_copy_value (obj m) = obj (deep_copy_args m)

    pub deep_copy_slice : Elements → Elements
    deep_copy_slice last = last
    deep_copy_slice (element x xs) = element (deep_copy_value x) (deep_copy_slice xs)

    pub deep_copy_args : Fields → Fields
    deep_copy_args end = end
    deep_copy_args (field k v m) = field k (deep_copy_value v) (deep_copy_args m)
