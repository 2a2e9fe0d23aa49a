-- ===== src/Sandbox/Wasm/Base64.antt =====
-- DecodeString of encoding/base64, as runtime/backend/wasm/wasm.go calls it: StdEncoding, whose last
-- group is padded, and RawStdEncoding, whose last group is short. Line breaks are skipped. Texts
-- are lists of character codes.
pub mod RoundTrip
use Prim.Native.Char.{code}
use toolexec.Base.{
  ℕ, ◌+◌, ◌-◌, ◌*◌, ◌/◌, ◌%◌, ◌==◌, String, Bool, ◌&&◌, ◌||◌, Option, none, some, List, [], ◌∷◌,
  leb, if◌then◌else◌,
}

-- the number that a digit stands for
unfoldable pub sextet : ℕ → Option ℕ
sextet c =
    if leb b'A' c && leb c b'Z'
    then some (c - b'A')
    else if leb b'a' c && leb c b'z'
    then some (c - b'a' + 26)
    else if leb b'0' c && leb c b'9'
    then some (c - b'0' + 52)
    else if c == b'+'
    then some 62
    else if c == b'/'
    then some 63
    else none

cons3 : ℕ → ℕ → ℕ → ℕ → Option (List ℕ) → Option (List ℕ)
cons3 a b c d none = none
cons3 a b c d (some rest) =
    some ((a * 4 + b / 16) ∷ (b % 16 * 16 + c / 4) ∷ (c % 4 * 64 + d) ∷ rest)

-- a whole group: three bytes
whole : Option ℕ → Option ℕ → Option ℕ → Option ℕ → Option (List ℕ) → Option (List ℕ)
whole (some a) (some b) (some c) (some d) rest = cons3 a b c d rest
whole _ _ _ _ rest = none

-- a last group of three digits, and of two
two_bytes : Option ℕ → Option ℕ → Option ℕ → Option (List ℕ)
two_bytes (some a) (some b) (some c) = some ((a * 4 + b / 16) ∷ (b % 16 * 16 + c / 4) ∷ [])
two_bytes _ _ _ = none

one_byte : Option ℕ → Option ℕ → Option (List ℕ)
one_byte (some a) (some b) = some ((a * 4 + b / 16) ∷ [])
one_byte _ _ = none

-- what stands behind padding
only_at_end : List ℕ → Option (List ℕ) → Option (List ℕ)
only_at_end [] out = out
only_at_end (c ∷ cs) out = none

-- the digits in groups of four
unfoldable pub decode_groups : Bool → List ℕ → Option (List ℕ)
unfolding whole cons3 two_bytes one_byte only_at_end
decode_groups padded [] = some []
decode_groups padded (a ∷ []) = none
decode_groups padded (a ∷ b ∷ []) = if padded then none else one_byte (sextet a) (sextet b)
decode_groups padded (a ∷ b ∷ c ∷ []) =
    if padded then none else two_bytes (sextet a) (sextet b) (sextet c)
decode_groups padded (a ∷ b ∷ c ∷ d ∷ rest) =
    let more = whole (sextet a) (sextet b) (sextet c) (sextet d) (decode_groups padded rest) in
    if padded && d == b'='
    then only_at_end rest (
        if c == b'='
        then one_byte (sextet a) (sextet b)
        else two_bytes (sextet a) (sextet b) (sextet c))
    else more

-- without the line breaks
unfoldable pub digits_of : String → List ℕ
digits_of String.[] = []
digits_of (String.◌∷◌ c s) =
    let rest = digits_of s in if code c == 10 || code c == 13 then rest else code c ∷ rest

unfoldable pub decode_string : Bool → String → Option (List ℕ)
unfolding decode_groups digits_of
decode_string padded s = decode_groups padded (digits_of s)
