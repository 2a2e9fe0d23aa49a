-- ===== src/Docker/Output.antt =====
-- extractOutValue of runtime/backend/docker/docker.go: the value that the sandboxed program printed.
-- `unmarshal` is json.Unmarshal.
pub mod Reports
use Prim.Native.Char.{Char, code}
use Prim.Native.String.{slice, len}
use text.Mathlib.Text.{starts_with}
use mathlib.Core.List.{reverse}
use toolexec.Base.{
  ◌==◌, String, Bool, false, ◌&&◌, ◌||◌, Option, none, some, List, [], ◌∷◌, leb, is_empty,
  if◌then◌else◌,
}
use toolexec.Value.{Value, null, str, obj, get}

-- strings.Split(s, "\n")
cons_char : Char → List String → List String
cons_char c [] = String.◌∷◌ c String.[] ∷ []
cons_char c (l ∷ ls) = String.◌∷◌ c l ∷ ls

unfoldable pub split_lines : String → List String
unfolding cons_char
split_lines String.[] = "" ∷ []
split_lines (String.◌∷◌ c s) =
    let rest = split_lines s in if code c == 10 then "" ∷ rest else cons_char c rest

-- unicode.IsSpace
abbrev is_space : Char → Bool
is_space c =
    code c == 32
    || (leb 9 (code c) && leb (code c) 13)
    || code c == 0x85
    || code c == 0xa0
    || code c == 0x1680
    || (leb 0x2000 (code c) && leb (code c) 0x200a)
    || code c == 0x2028
    || code c == 0x2029
    || code c == 0x202f
    || code c == 0x205f
    || code c == 0x3000

trim_left : String → String
trim_left String.[] = ""
trim_left (String.◌∷◌ c s) = let rest = trim_left s in if is_space c then rest else String.◌∷◌ c s

pub trim_right : String → String
trim_right String.[] = ""
trim_right (String.◌∷◌ c s) =
    let rest = trim_right s in if is_empty rest && is_space c then "" else String.◌∷◌ c rest

-- strings.TrimSpace
unfoldable pub trim_space : String → String
unfolding trim_left trim_right
trim_space s = trim_right (trim_left s)

-- strings.HasSuffix(s, "}")
ends_with_brace : String → Bool
ends_with_brace String.[] = false
ends_with_brace (String.◌∷◌ c String.[]) = code c == b'}'
ends_with_brace (String.◌∷◌ c (String.◌∷◌ d s)) = ends_with_brace (String.◌∷◌ d s)

abbrev out_marker : String
out_marker = "__OUT__:"

module _ (unmarshal : String → Option Value) where
  -- the text behind the marker, decoded if it is JSON
  pub marked_value : String → Option Value → Value
  marked_value text none = str text
  marked_value text (some v) = v

  -- `payload["__out"]`, for a JSON object
  object_value : Option Value → Option Value
  object_value (some (obj m)) = get m "__out"
  object_value _ = none

  -- The value of one trimmed line, if it has one.
  unfoldable pub line_value : String → Option Value
  unfolding marked_value object_value ends_with_brace
  line_value line =
      if starts_with line out_marker
      then (let text = slice line (len out_marker) (len line) in
          some (marked_value text (unmarshal text)))
      else if starts_with line "{" && ends_with_brace line
      then object_value (unmarshal line)
      else none

  -- the loop, over the lines from the last to the first
  last_value : List String → Value
  last_value [] = null
  last_value (line ∷ lines) = elim (line_value (trim_space line)) [
    | none ↦ last_value lines
    | some v ↦ v
  ]

  unfoldable pub extract_out_value : String → Value
  unfolding last_value
  extract_out_value stdout = last_value (reverse (split_lines stdout))
