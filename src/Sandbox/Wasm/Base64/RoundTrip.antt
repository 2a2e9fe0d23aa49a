-- ===== src/Sandbox/Wasm/Base64/RoundTrip.antt =====
-- The standard encoding of base64, padded or not, and that runtime/backend/wasm/wasm.go reads it back.
use toolexec.Base.{
  ℕ, ◌+◌, ◌-◌, ◌*◌, ◌/◌, ◌%◌, ◌<◌, ◌==◌, ◌≡◌, refl, ap, Bool, true, false, ◌⊎◌, none, some, List,
  [], ◌∷◌, inl, inr, ltb, arith, All, if◌then◌else◌,
}
use toolexec.Sandbox.Wasm.Base64.{sextet, decode_groups}

-- the digit for a number below 64, in the standard alphabet
digit : ℕ → ℕ
digit v =
    if ltb v 26
    then v + b'A'
    else if ltb v 52
    then v - 26 + b'a'
    else if ltb v 62
    then v - 52 + b'0'
    else if v == 62
    then b'+'
    else b'/'

sextet-digit : (v : ℕ) → v < 64 → sextet (digit v) ≡ some v
unfolding sextet digit
sextet-digit v h = ground arith

-- the padding of a short last group
padding : Bool → List ℕ → List ℕ
padding true p = p
padding false p = []

-- The standard encoding, padded or not.
unfoldable pub encode : Bool → List ℕ → List ℕ
unfolding digit padding
encode padded [] = []
encode padded (x ∷ []) = digit (x / 4) ∷ digit (x % 4 * 16) ∷ padding padded (b'=' ∷ b'=' ∷ [])
encode padded (x ∷ y ∷ []) =
    digit (x / 4) ∷ digit (x % 4 * 16 + y / 16) ∷ digit (y % 16 * 4) ∷ padding padded (b'=' ∷ [])
encode padded (x ∷ y ∷ z ∷ rest) =
    digit (x / 4)
    ∷ digit (x % 4 * 16 + y / 16)
    ∷ digit (y % 16 * 4 + z / 64)
    ∷ digit (z % 64)
    ∷ encode padded rest

abbrev pub AreBytes : List ℕ → Type 0
AreBytes = All (λ b. b < 256)

digit_ne_pad : (v : ℕ) → v < 64 → (digit v == b'=') ≡ false
unfolding digit
digit_ne_pad v h = ground arith

first_back : (x : ℕ) → x / 4 * 4 + x % 4 * 16 / 16 ≡ x
first_back x = omega arith

second_back : (x y : ℕ) → y < 256 → (x % 4 * 16 + y / 16) % 16 * 16 + y % 16 * 4 / 4 ≡ y
second_back x y h = omega arith

first_of_two : (x y : ℕ) → y < 256 → x / 4 * 4 + (x % 4 * 16 + y / 16) / 16 ≡ x
first_of_two x y h = omega arith

second_of_three :
    (x y z : ℕ)
    → y < 256
    → z < 256
    → (x % 4 * 16 + y / 16) % 16 * 16 + (y % 16 * 4 + z / 64) / 4 ≡ y
second_of_three x y z h k = omega arith

third : (y z : ℕ) → z < 256 → (y % 16 * 4 + z / 64) % 4 * 64 + z % 64 ≡ z
third y z h = omega arith

two_back :
    (x y : ℕ)
    → y < 256
    → some (
        (x / 4 * 4 + (x % 4 * 16 + y / 16) / 16)
        ∷ ((x % 4 * 16 + y / 16) % 16 * 16 + y % 16 * 4 / 4)
        ∷ [])
      ≡ some (x ∷ y ∷ [])
two_back x y h = cc (first_of_two x y h, second_back x y h)

three_back :
    (x y z : ℕ) (rest : List ℕ)
    → y < 256
    → z < 256
    → some (
        (x / 4 * 4 + (x % 4 * 16 + y / 16) / 16)
        ∷ ((x % 4 * 16 + y / 16) % 16 * 16 + (y % 16 * 4 + z / 64) / 4)
        ∷ ((y % 16 * 4 + z / 64) % 4 * 64 + z % 64)
        ∷ rest)
      ≡ some (x ∷ y ∷ z ∷ rest)
three_back x y z rest h k = cc (first_of_two x y h, second_of_three x y z h k, third y z k)

pub decode_groups-encode :
    (padded : Bool) (m : List ℕ) → AreBytes m → decode_groups padded (encode padded m) ≡ some m
unfolding decode_groups encode padding
decode_groups-encode padded [] h = refl
decode_groups-encode true (x ∷ []) (hx, _) =
    rw (sextet-digit (x / 4) (omega arith), sextet-digit (x % 4 * 16) (omega arith))
      (ap (λ n. some (n ∷ [])) (first_back x))
decode_groups-encode false (x ∷ []) (hx, _) =
    rw (sextet-digit (x / 4) (omega arith), sextet-digit (x % 4 * 16) (omega arith))
      (ap (λ n. some (n ∷ [])) (first_back x))
decode_groups-encode true (x ∷ y ∷ []) (hx, (hy, _)) =
    rw (digit_ne_pad (y % 16 * 4) (omega arith)) (
      rw
        (
          sextet-digit (x / 4) (omega arith),
          sextet-digit (x % 4 * 16 + y / 16) (omega arith),
          sextet-digit (y % 16 * 4) (omega arith),
        )
        (two_back x y hy))
decode_groups-encode false (x ∷ y ∷ []) (hx, (hy, _)) =
    rw
      (
        sextet-digit (x / 4) (omega arith),
        sextet-digit (x % 4 * 16 + y / 16) (omega arith),
        sextet-digit (y % 16 * 4) (omega arith),
      )
      (two_back x y hy)
decode_groups-encode true (x ∷ y ∷ z ∷ rest) (hx, (hy, (hz, h))) =
    rw (digit_ne_pad (z % 64) (omega arith)) (
      rw
        (
          sextet-digit (x / 4) (omega arith),
          sextet-digit (x % 4 * 16 + y / 16) (omega arith),
          sextet-digit (y % 16 * 4 + z / 64) (omega arith),
          sextet-digit (z % 64) (omega arith),
          decode_groups-encode true rest h,
        )
        (three_back x y z rest hy hz))
decode_groups-encode false (x ∷ y ∷ z ∷ rest) (hx, (hy, (hz, h))) =
    rw
      (
        sextet-digit (x / 4) (omega arith),
        sextet-digit (x % 4 * 16 + y / 16) (omega arith),
        sextet-digit (y % 16 * 4 + z / 64) (omega arith),
        sextet-digit (z % 64) (omega arith),
        decode_groups-encode false rest h,
      )
      (three_back x y z rest hy hz)

-- A text without padding, read as a padded one, is refused or is read right.
pub raw_as_padded :
    (m : List ℕ)
    → AreBytes m
    → (decode_groups true (encode false m) ≡ none) ⊎ (decode_groups true (encode false m) ≡ some m)
unfolding decode_groups encode padding
raw_as_padded [] h = inr refl
raw_as_padded (x ∷ []) h = inl refl
raw_as_padded (x ∷ y ∷ []) h = inl refl
raw_as_padded (x ∷ y ∷ z ∷ rest) (hx, (hy, (hz, h))) = elim (raw_as_padded rest h) [
  | inl refused ↦ inl (
      rw (digit_ne_pad (z % 64) (omega arith)) (
        rw (
          sextet-digit (x / 4) (omega arith),
          sextet-digit (x % 4 * 16 + y / 16) (omega arith),
          sextet-digit (y % 16 * 4 + z / 64) (omega arith),
          sextet-digit (z % 64) (omega arith),
          refused,
        )))
  | inr right ↦ inr (
      rw (digit_ne_pad (z % 64) (omega arith)) (
        rw
          (
            sextet-digit (x / 4) (omega arith),
            sextet-digit (x % 4 * 16 + y / 16) (omega arith),
            sextet-digit (y % 16 * 4 + z / 64) (omega arith),
            sextet-digit (z % 64) (omega arith),
            right,
          )
          (three_back x y z rest hy hz)))
]
