-- ===== src/Language/Printf.antt =====
-- The parts of `CheckLanguage` about the functions of C.
pub mod Assertion
use moohoorama.Base.{ℕ, not, Option, none, some, List, [], ◌∷◌, ◌++◌}
use moohoorama.Text.{Text, codes, eq, concat}
use moohoorama.Regex.{Re, Found, match, search_re, group_text, end_pos}
use moohoorama.Regex.Syntax.{re, ignore_case}
use moohoorama.Lint.Suppressions.{Effect}
use moohoorama.TextInside.{get_text_inside}
use moohoorama.Style.Report.{matches, found, say, when}
use moohoorama.Style.Operators.{naming}

abbrev snprintf_error : ℕ → Option Found → List Effect
snprintf_error linenum none = []
snprintf_error linenum (some m) = when (not (eq (group_text 2 m) (codes "0"))) (
    say linenum "runtime/printf" 3 (
      concat (
        codes "If you can, use sizeof("
        ∷ group_text 1 m
        ∷ codes ") instead of "
        ∷ group_text 2 m
        ∷ codes " as the 2nd arg to snprintf."
        ∷ [])))

-- Functions that write into a buffer.
unfoldable pub check_buffers : Text → ℕ → List Effect
unfolding search_re eq found
check_buffers line linenum =
    snprintf_error linenum (search_re (re "snprintf\\s*\\(([^,]*),\\s*([0-9]*)\\s*,") line)
    ++ when (found (re "\\bsprintf\\b") line)
        (say linenum "runtime/printf" 5 (codes "Never use sprintf.  Use snprintf instead."))
    ++ naming linenum "runtime/printf" 4 (codes "Almost always, snprintf is better than ")
        (search_re (re "\\b(strcpy|strcat)\\b") line)

-- `(?i)\b(string)?printf\s*\(`
unfoldable pub printf_pattern : Re
unfolding re ignore_case
printf_pattern = ignore_case (re "\\b(string)?printf\\s*\\(")

unfoldable pub printf_name_pattern : Re
unfolding re ignore_case
printf_name_pattern = ignore_case (re "\\b((?:string)?printf)\\s*\\(")

-- Where the first match ends.
abbrev pub end_of : Option Found → Option ℕ
end_of none = none
end_of (some m) = some (end_pos m)

abbrev named_printf : Option Found → Text
named_printf none = []
named_printf (some m) = group_text 1 m

abbrev format_error : ℕ → Text → Option Found → List Effect
format_error linenum line none = []
format_error linenum line (some m) = when (not (eq (group_text 1 m) (codes "__VA_ARGS__"))) (
    say linenum "runtime/printf" 4 (
      concat (
        codes "Potential format string bug. Do "
        ∷ named_printf (search_re printf_name_pattern line)
        ∷ codes "(\"%s\", "
        ∷ group_text 1 m
        ∷ codes ") instead."
        ∷ [])))

abbrev pub format_errors : ℕ → Text → Option (Option Text) → Option (List Effect)
format_errors linenum line none = none
format_errors linenum line (some none) = some []
format_errors linenum line (some (some [])) = some []
format_errors linenum line (some (some (c ∷ printf_args))) =
    some (format_error linenum line (match (re "([\\w.\\->()]+)$") (c ∷ printf_args)))

-- A format that is no literal; `none` is a failed assertion of `_GetTextInside`. The flag re.M makes no
-- difference for a pattern without anchors.
unfoldable pub check_format : Text → ℕ → Option (List Effect)
unfolding search_re match eq get_text_inside
check_format line linenum =
    format_errors linenum line (get_text_inside (end_of (search_re printf_pattern line)) line)

abbrev memset_error : ℕ → Option Found → List Effect
memset_error linenum none = []
memset_error linenum (some m) =
    when (not (matches (re "^''|-?[0-9]+|0x[0-9A-Fa-f]$") (group_text 2 m))) (
      say linenum "runtime/memset" 4 (
        concat (
          codes "Did you mean \"memset("
          ∷ group_text 1 m
          ∷ codes ", 0, "
          ∷ group_text 2 m
          ∷ codes ")\"?"
          ∷ [])))

unfoldable pub check_memset : Text → ℕ → List Effect
unfolding search_re matches
check_memset line linenum =
    memset_error linenum (search_re (re "memset\\s*\\(([^,]*),\\s*([^,]*),\\s*0\\s*\\)") line)
