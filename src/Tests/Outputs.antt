-- ===== src/Tests/Outputs.antt =====
-- The theorems on the value that is read from a program's output.
use toolexec.Base.{String, ◌≡◌, refl, true, Option, none, some, str_eq, if◌then◌else◌}
use toolexec.Value.{Value, str, bool}
use toolexec.Docker.Output
use toolexec.Docker.Output.Reports.{extract_out_value_reported}
use toolexec.Unsafe
use toolexec.Unsafe.Output.{extract_out_value_first}

-- It knows one JSON text.
abbrev unmarshal : String → Option Value
unmarshal text = if str_eq text "true" then some (bool true) else none

-- The program has printed a marked line of its own before.
extract_out_value_reported_example :
    Output.extract_out_value unmarshal "a\n__OUT__:b\n__OUT__:true\nc\n" ≡ bool true
unfolding Output.split_lines Output.line_value Output.trim_space
extract_out_value_reported_example =
    extract_out_value_reported unmarshal "a\n__OUT__:b" "true" "c\n"
      (refl, (refl, (refl, (refl, tt)))) refl (refl, (refl, tt))

extract_out_value_first_example :
    Unsafe.extract_out_value unmarshal "a\n__OUT__:b\n__OUT__:true\n" ≡ str "b"
unfolding Output.split_lines Unsafe.text_value
extract_out_value_first_example =
    extract_out_value_first unmarshal "a" "b" "__OUT__:true\n" (refl, tt) (refl, tt)
