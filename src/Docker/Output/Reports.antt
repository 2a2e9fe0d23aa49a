-- ===== src/Docker/Output/Reports.antt =====
-- What extractOutValue of runtime/backend/docker/docker.go, and of the packages that copy it, reads
-- from the lines of a program's output.
use Prim.Native.Char.{Char, code}
use Prim.Native.String.{slice, len, ◌++◌ as text_append}
use mathlib.Core.List.{reverse, reverse-append, reverse-cons}
use text.Mathlib.TextLemmas.{nil-append, cons-append}
use text.Mathlib.TextPositions.{len-append, slice-append_right, starts_with-append}
use toolexec.Base.{
  ◌≡◌, refl, ◌∙◌, sym, ap, ◌==◌, String, Bool, false, Option, none, some, List, [], ◌∷◌, ◌++◌, All,
  All-append, Bool-cases, inl, inr, append_assoc, if◌then◌else◌, arith, true,
}
use toolexec.Value.{Value}
use toolexec.Docker.Output.{
  cons_char, split_lines, is_space, trim_left, trim_right, trim_space, marked_value, out_marker,
  line_value, last_value, extract_out_value,
}

-- A text without a newline.
abbrev pub IsLine : String → Type 0
IsLine String.[] = Unit {0}
IsLine (String.◌∷◌ c s) = ((code c == 10) ≡ false) × IsLine s

-- a text without a space
abbrev IsSolid : String → Type 0
IsSolid String.[] = Unit {0}
IsSolid (String.◌∷◌ c s) = (is_space c ≡ false) × IsSolid s

-- A text that begins with a line, and a newline after it.
abbrev pub behind : String → String → String
behind s t = text_append s (String.◌∷◌ "\n" t)

pub IsLine-append : (s t : String) → IsLine s → IsLine t → IsLine (text_append s t)
IsLine-append String.[] t h k = rw (nil-append t) k
IsLine-append (String.◌∷◌ c s) t (h, hs) k = rw (cons-append c s t) (h, IsLine-append s t hs k)

split_lines-ne_nil : (s : String) → (l : String) × (ls : List String) × (split_lines s ≡ l ∷ ls)
unfolding split_lines cons_char
split_lines-ne_nil String.[] = ("", [], refl)
split_lines-ne_nil (String.◌∷◌ c s) =
    let (l, ls, e) = split_lines-ne_nil s in
    elim (Bool-cases (code c == 10)) [
      | inl ends ↦ ("", split_lines s, rw ends refl)
      | inr ends ↦ (String.◌∷◌ c l, ls, rw (ends, e) refl)
    ]

cons_char-append :
    (c : Char) (s : String) (ls : List String)
    → cons_char c (split_lines s ++ ls) ≡ cons_char c (split_lines s) ++ ls
unfolding cons_char
cons_char-append c s ls = let (l, rest, e) = split_lines-ne_nil s in rw e refl

-- Splitting at a newline gives the lines before it and the lines after it.
pub split_lines-behind : (s t : String) → split_lines (behind s t) ≡ split_lines s ++ split_lines t
unfolding split_lines
split_lines-behind String.[] t = rw (nil-append (String.◌∷◌ "\n" t)) refl
split_lines-behind (String.◌∷◌ c s) t =
    rw (cons-append c s (String.◌∷◌ "\n" t)) (elim (Bool-cases (code c == 10)) [
      | inl ends ↦ rw (ends, split_lines-behind s t) refl
      | inr ends ↦ rw (ends, split_lines-behind s t) (cons_char-append c s (split_lines t))
    ])

pub split_lines_line : (s : String) → IsLine s → split_lines s ≡ s ∷ []
unfolding split_lines cons_char
split_lines_line String.[] h = refl
split_lines_line (String.◌∷◌ c s) (h, hs) = rw (h, split_lines_line s hs) refl

trim_right-append :
    (s t : String) → IsSolid s → trim_right t ≡ t → trim_right (text_append s t) ≡ text_append s t
unfolding trim_right
trim_right-append String.[] t h e = rw (nil-append t) e
trim_right-append (String.◌∷◌ c s) t (h, hs) e =
    rw (cons-append c s t) (rw (trim_right-append s t hs e, h) ground arith)

-- what lies behind a text
pub slice-behind : (s t : String) → slice (text_append s t) (len s) (len (text_append s t)) ≡ t
slice-behind s t = ap (slice (text_append s t) (len s)) (len-append s t) ∙ slice-append_right s t

trim_left_solid :
    (c : Char) (s : String) → is_space c ≡ false → trim_left (String.◌∷◌ c s) ≡ String.◌∷◌ c s
unfolding trim_left
trim_left_solid c s h = rw h refl

-- A marked text keeps what it has, when the text ends in no space.
trim_space-marked :
    (text : String)
    → trim_right text ≡ text
    → trim_space (text_append out_marker text) ≡ text_append out_marker text
unfolding trim_space
trim_space-marked text e =
    ap (λ t. trim_right (trim_left t)) (cons-append "_" "_OUT__:" text)
    ∙ ap trim_right (
        trim_left_solid "_" (text_append "_OUT__:" text) refl
        ∙ sym (cons-append "_" "_OUT__:" text))
    ∙ trim_right-append out_marker text
        (refl, (refl, (refl, (refl, (refl, (refl, (refl, (refl, tt)))))))) e

pub first_branch : {A : Type 0} {b : Bool} {x : A} (y : A) → b ≡ true → (if b then x else y) ≡ x
first_branch y h = rw h refl

module _ (unmarshal : String → Option Value) where
  -- A line that has no value.
  abbrev pub Silent : String → Type 0
  Silent line = line_value unmarshal (trim_space line) ≡ none

  last_value-skip :
      (after rest : List String)
      → All Silent after
      → last_value unmarshal (after ++ rest) ≡ last_value unmarshal rest
  unfolding last_value
  last_value-skip [] rest h = refl
  last_value-skip (line ∷ after) rest (h, hs) = rw (last_value, h) (last_value-skip after rest hs)

  last_value-found :
      (line : String) (rest : List String) (v : Value)
      → line_value unmarshal (trim_space line) ≡ some v
      → last_value unmarshal (line ∷ rest) ≡ v
  unfolding last_value
  last_value-found line rest v h = rw (last_value, h) refl

  Silent-reverse : (after : List String) → All Silent after → All Silent (reverse after)
  Silent-reverse [] h = tt
  Silent-reverse (line ∷ after) (h, hs) =
      rw (reverse-cons line after)
        (All-append Silent (reverse after) (line ∷ []) (Silent-reverse after hs) (h, tt))

  -- the lines from the last to the first, where `line` is one of them
  reversed :
      (before line after : String)
      → IsLine line
      → reverse (split_lines (behind before (behind line after)))
        ≡ reverse (split_lines after) ++ (line ∷ reverse (split_lines before))
  reversed before line after h =
      rw
        (
          split_lines-behind before (behind line after),
          split_lines-behind line after,
          split_lines_line line h,
          reverse-append (split_lines before) (line ∷ split_lines after),
          reverse-cons line (split_lines after),
          append_assoc (reverse (split_lines after)) (line ∷ []) (reverse (split_lines before)),
        )
        refl

  -- The last line that has a value gives the value.
  pub extract_out_value_last :
      (before line after : String) (v : Value)
      → IsLine line
      → line_value unmarshal (trim_space line) ≡ some v
      → All Silent (split_lines after)
      → extract_out_value unmarshal (behind before (behind line after)) ≡ v
  unfolding extract_out_value
  extract_out_value_last before line after v one has silent =
      ap (last_value unmarshal) (reversed before line after one)
      ∙ last_value-skip (reverse (split_lines after)) (line ∷ reverse (split_lines before))
          (Silent-reverse (split_lines after) silent)
      ∙ last_value-found line (reverse (split_lines before)) v has

  line_value-marked :
      (text : String)
      → line_value unmarshal (text_append out_marker text)
        ≡ some (marked_value unmarshal text (unmarshal text))
  unfolding line_value
  line_value-marked text =
      first_branch _ (starts_with-append out_marker text)
      ∙ ap (λ t. some (marked_value unmarshal t (unmarshal t))) (slice-behind out_marker text)

  -- The value that a program reports on a marked line is read back: the JSON of the text, or the
  -- text itself where it is no JSON. The text has no newline and ends in no white space (that of
  -- unicode.IsSpace), and no later line of the output has a value, trimmed of white space; what the
  -- program printed before does not matter.
  pub extract_out_value_reported :
      (before text after : String)
      → IsLine text
      → trim_right text ≡ text
      → All Silent (split_lines after)
      → extract_out_value unmarshal (behind before (behind (text_append out_marker text) after))
        ≡ marked_value unmarshal text (unmarshal text)
  extract_out_value_reported before text after one trimmed silent =
      extract_out_value_last before (text_append out_marker text) after
        (marked_value unmarshal text (unmarshal text))
        (IsLine-append out_marker text
          (refl, (refl, (refl, (refl, (refl, (refl, (refl, (refl, tt)))))))) one)
        (ap (line_value unmarshal) (trim_space-marked text trimmed) ∙ line_value-marked text) silent
