-- ===== src/Controller/Heat/Text.antt =====
-- The functions of Go's package strings that internal/controller uses.
use Prim.Native.Char.{code}
use heat_operator.Base.{String, eqb, if◌then◌else◌}

-- strings.TrimSuffix(s, "\n")
unfoldable pub trim_newline : String → String
trim_newline String.[] = String.[]
trim_newline (String.◌∷◌ c String.[]) =
    if eqb (code c) 10 then String.[] else String.◌∷◌ c String.[]
trim_newline (String.◌∷◌ c (String.◌∷◌ d s)) = String.◌∷◌ c (trim_newline (String.◌∷◌ d s))
