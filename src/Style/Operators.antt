-- ===== src/Style/Operators.antt =====
-- The part of `CheckSpacing` about operators.
use moohoorama.Base.{
  ℕ, Bool, false, not, ◌&&◌, ◌||◌, Option, none, some, List, [], ◌++◌, if◌then◌else◌, String,
}
use moohoorama.Text.{Text, codes, eq, replace}
use moohoorama.Regex.{Re, Found, search_re, replace_all, group_text}
use moohoorama.Regex.Syntax.{re}
use moohoorama.Lint.Suppressions.{Effect}
use moohoorama.Cleanse.Lines.{CleansedLines}
use moohoorama.Style.Report.{matches, found, say, when}
use moohoorama.Style.Angles.{find_next_matching_angle_bracket, find_previous_matching_angle_bracket}

unfoldable pub operator_pattern : Re
unfolding re
operator_pattern = re "operator(==|!=|<|<<|<=|>=|>>|>)\\("

-- The line with the names of operator methods cut. The replacement is `'operator\('`, whose
-- backslash stays, as `\(` is no escape of a replacement.
unfoldable pub without_operator_names : Text → Text
unfolding replace_all operator_pattern
without_operator_names line = replace_all operator_pattern (λ m. codes "operator\\(") line

-- One report with the text of the first group at its end.
abbrev pub naming : ℕ → String → ℕ → Text → Option Found → List Effect
naming linenum category level message none = []
naming linenum category level message (some m) =
    say linenum category level (message ++ group_text 1 m)

-- `10<<20` and `operator<<;`
abbrev is_shift_exception : (Text → Bool) → Found → Bool
is_shift_exception isdigit m =
    isdigit (group_text 1 m) && isdigit (group_text 2 m)
    || (eq (group_text 1 m) (codes "operator") && eq (group_text 2 m) (codes ";"))

abbrev is_bad_shift : (Text → Bool) → Option Found → Bool
is_bad_shift isdigit none = false
is_bad_shift isdigit (some m) = not (is_shift_exception isdigit m)

abbrev not_a_template : (Text → Bool) → Option Found → Bool
not_a_template has_match none = false
not_a_template has_match (some m) = not (has_match (group_text 1 m))

-- `<` and `>` on lines that include nothing.
unfoldable pub check_angles : CleansedLines → ℕ → Text → List Effect
unfolding search_re find_next_matching_angle_bracket find_previous_matching_angle_bracket
check_angles clean_lines linenum reduced_line =
    when
      (not_a_template (find_next_matching_angle_bracket clean_lines linenum)
        (search_re (re "[^\\s<]<([^\\s=<].*)") reduced_line))
      (say linenum "whitespace/operators" 3 (codes "Missing spaces around <"))
    ++ when
        (not_a_template (find_previous_matching_angle_bracket clean_lines linenum)
          (search_re (re "^(.*[^\\s>])>[^\\s=>]") reduced_line))
        (say linenum "whitespace/operators" 3 (codes "Missing spaces around >"))

-- The shifts and the angle brackets; `isdigit` is the method of unicode strings.
unfoldable pub check_shifts : (Text → Bool) → CleansedLines → ℕ → Text → List Effect
unfolding check_angles eq
check_shifts isdigit clean_lines linenum line =
    (if is_bad_shift isdigit (search_re (re "(operator|\\S)(?:L|UL|ULL|l|ul|ull)?<<(\\S)") line)
      then say linenum "whitespace/operators" 3 (codes "Missing spaces around <<")
      else if not (matches (re "#.*include") line)
      then check_angles clean_lines linenum (replace line (codes "->") [])
      else [])
    ++ when (found (re ">>[a-zA-Z_]") line)
        (say linenum "whitespace/operators" 3 (codes "Missing spaces around >>"))

-- The operators of a line, from `=` to the unary ones.
unfoldable pub check_operators : (Text → Bool) → CleansedLines → ℕ → Text → List Effect
unfolding check_shifts found
check_operators isdigit clean_lines linenum line =
    when (found (re "[\\w.]=[\\w.]") line && not (found (re "\\b(if|while) ") line))
      (say linenum "whitespace/operators" 4 (codes "Missing spaces around ="))
    ++ naming linenum "whitespace/operators" 3 (codes "Missing spaces around ")
        (search_re (re "[^<>=!\\s](==|!=|<=|>=)[^<>=!\\s]") line)
    ++ check_shifts isdigit clean_lines linenum line
    ++ naming linenum "whitespace/operators" 4 (codes "Extra space for operator ")
        (search_re (re "(!\\s|~\\s|[\\s]--[\\s;]|[\\s]\\+\\+[\\s;])") line)
