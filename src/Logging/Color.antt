-- ===== src/Logging/Color.antt =====
-- include/erl/_impl/log/format/color.hpp.
use cpp26_experiments.Base.{
  ℕ, ◌==◌, leb, Bool, true, false, List, [], ◌∷◌, ◌++◌, Bytes, codes, length, replicate, set,
  if◌then◌else◌,
}
use cpp26_experiments.Util.Strings.{utos}

-- `make_ansi_code` of one option.
unfoldable pub make_ansi_code : ℕ → Bytes
make_ansi_code option = (27 ∷ codes "[") ++ (utos option ++ codes "m")

-- The loop of `make_ansi_code` of several.
unfoldable pub add_options : Bool → Bytes → List ℕ → Bytes
add_options must_separate ret [] = ret
add_options true ret (option ∷ options) =
    add_options true ((ret ++ codes ";") ++ utos option) options
add_options false ret (option ∷ options) = add_options true (ret ++ utos option) options

unfoldable pub make_ansi_codes : List ℕ → Bytes
make_ansi_codes options = add_options false (27 ∷ codes "[") options ++ codes "m"

-- `ANSICode`, `ANSICodes`, and their `|`.
pub data Ansi : Type 0 where
  ansi_code : ℕ → Ansi
  ansi_codes : List ℕ → Ansi

unfoldable pub behind_code : ℕ → Ansi → Ansi
behind_code code (ansi_code n) = ansi_codes (code ∷ (n ∷ []))
behind_code code (ansi_codes ns) = ansi_codes (code ∷ ns)

unfoldable pub behind_codes : List ℕ → Ansi → Ansi
behind_codes cs (ansi_code n) = ansi_codes (cs ++ (n ∷ []))
behind_codes cs (ansi_codes ns) = ansi_codes (cs ++ ns)

-- The conversion to a string view, which the formatters print.
unfoldable pub value_of : Ansi → Bytes
value_of (ansi_code code) = make_ansi_code code
value_of (ansi_codes cs) = make_ansi_codes cs

-- The call operators.
unfoldable pub call_code : ℕ → Bytes → Bytes
call_code code str = if code == 0 then str else make_ansi_code code ++ (str ++ make_ansi_code 0)

unfoldable pub call_codes : List ℕ → Bytes → Bytes
call_codes cs str = make_ansi_codes cs ++ (str ++ make_ansi_code 0)

-- `color_map`, of a number of severities; those beyond it are passed over.
unfoldable pub color_map_from : List Bytes → List (ℕ × Bytes) → List Bytes
color_map_from ret [] = ret
color_map_from ret ((severity, text) ∷ mappings) =
    color_map_from (if leb (length ret) severity then ret else set ret severity text) mappings

unfoldable pub color_map : ℕ → List (ℕ × Bytes) → List Bytes
color_map severities mappings = color_map_from (replicate severities []) mappings
