-- ===== src/Unsafe/Output.antt =====
-- What extractOutValue of runtime/backend/unsafe/unsafe.go reads from the lines of a program's
-- output: the first marked line, where the other backends take the last.
use Prim.Native.String.{◌++◌ as text_append}
use text.Mathlib.Text.{starts_with}
use text.Mathlib.TextPositions.{starts_with-append}
use toolexec.Base.{◌≡◌, refl, ◌∙◌, ap, String, false, Option, List, [], ◌∷◌, ◌++◌, All}
use toolexec.Value.{Value}
use toolexec.Docker.Output.{split_lines}
use toolexec.Docker.Output.Reports.{
  IsLine, IsLine-append, behind, split_lines-behind, split_lines_line, slice-behind, first_branch,
}
use toolexec.Unsafe.{out_marker, text_value, first_value, extract_out_value}

-- A line that does not begin with the marker.
abbrev pub Unmarked : String → Type 0
Unmarked line = starts_with line out_marker ≡ false

module _ (unmarshal : String → Option Value) where
  first_value-skip :
      (before rest : List String)
      → All Unmarked before
      → first_value unmarshal (before ++ rest) ≡ first_value unmarshal rest
  unfolding first_value
  first_value-skip [] rest h = refl
  first_value-skip (line ∷ before) rest (h, hs) =
      rw (first_value, h) (first_value-skip before rest hs)

  first_value-marked :
      (text : String) (rest : List String)
      → first_value unmarshal (text_append out_marker text ∷ rest)
        ≡ text_value text (unmarshal text)
  unfolding first_value
  first_value-marked text rest =
      first_branch _ (starts_with-append out_marker text)
      ∙ ap (λ t. text_value t (unmarshal t)) (slice-behind out_marker text)

  -- The value is that of the first marked line, whose text is read as JSON, or taken as it is where
  -- it is no JSON; what is printed after that line, marked or not, does not change it.
  pub extract_out_value_first :
      (before text after : String)
      → All Unmarked (split_lines before)
      → IsLine text
      → extract_out_value unmarshal (behind before (behind (text_append out_marker text) after))
        ≡ text_value text (unmarshal text)
  unfolding extract_out_value
  extract_out_value_first before text after quiet one =
      ap (first_value unmarshal) (
        split_lines-behind before (behind (text_append out_marker text) after)
        ∙ ap (λ ls. split_lines before ++ ls)
            (split_lines-behind (text_append out_marker text) after
              ∙ ap (λ ls. ls ++ split_lines after)
                  (split_lines_line (text_append out_marker text) (
                    IsLine-append out_marker text
                      (refl, (refl, (refl, (refl, (refl, (refl, (refl, (refl, tt)))))))) one))))
      ∙ first_value-skip (split_lines before) (text_append out_marker text ∷ split_lines after)
          quiet
      ∙ first_value-marked text (split_lines after)
