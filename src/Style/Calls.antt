-- ===== src/Style/Calls.antt =====
-- `CheckSpacingForFunctionCall`.
use moohoorama.Base.{
  ℕ, Bool, not, ◌&&◌, ◌||◌, Option, none, some, List, [], ◌∷◌, ◌++◌, if◌then◌else◌,
}
use moohoorama.Text.{Text, codes}
use moohoorama.Regex.{Re, Found, search_re, group_text}
use moohoorama.Regex.Syntax.{re}
use moohoorama.Lint.Suppressions.{Effect}
use moohoorama.Style.Report.{found, say, when}

unfoldable pub control_patterns : List Re
control_patterns =
    re "\\bif\\s*\\((.*)\\)\\s*{"
    ∷ re "\\bfor\\s*\\((.*)\\)\\s*{"
    ∷ re "\\bwhile\\s*\\((.*)\\)\\s*[{;]"
    ∷ re "\\bswitch\\s*\\((.*)\\)\\s*{"
    ∷ []

abbrev group1_or : Text → Option Found → Text
group1_or line none = line
group1_or line (some m) = group_text 1 m

-- What the first of the expressions that is found has in its parentheses, or else the line.
unfoldable pub inside_control : List Re → Text → Text
unfolding search_re
inside_control [] line = line
inside_control (pattern ∷ patterns) line =
    let rest = inside_control patterns line in group1_or rest (search_re pattern line)

-- Control structures, and pointers or references to functions and arrays.
unfoldable pub is_no_call : Text → Bool
unfolding found
is_no_call fncall =
    found (re "\\b(if|for|while|switch|return|new|delete|catch|sizeof)\\b") fncall
    || found (re " \\([^)]+\\)\\([^)]*(\\)|,$)") fncall
    || found (re " \\([^)]+\\)\\[[^\\]]+\\]") fncall

unfoldable pub check_call : Text → ℕ → List Effect
unfolding found
check_call fncall linenum =
    (if found (re "\\w\\s*\\(\\s(?!\\s*\\\\$)") fncall
      then say linenum "whitespace/parens" 4 (codes "Extra space after ( in function call")
      else if found (re "\\(\\s+(?!(\\s*\\\\)|\\()") fncall
      then say linenum "whitespace/parens" 2 (codes "Extra space after (")
      else [])
    ++ when
        (found (re "\\w\\s+\\(") fncall
          && not (found (re "#\\s*define|typedef") fncall)
          && not (found (re "\\w\\s+\\((\\w+::)*\\*\\w+\\)\\(") fncall))
        (say linenum "whitespace/parens" 4 (codes "Extra space before ( in function call"))
    ++ when (found (re "[^)]\\s+\\)\\s*[^{\\s]") fncall) (
        say linenum "whitespace/parens" 2 (
          if found (re "^\\s+\\)") fncall
          then codes "Closing ) should be moved to the previous line"
          else codes "Extra space before )"))

-- `CheckSpacingForFunctionCall(filename, line, linenum, error)`
unfoldable pub check_spacing_for_function_call : Text → ℕ → List Effect
unfolding inside_control is_no_call check_call
check_spacing_for_function_call line linenum =
    let fncall = inside_control control_patterns line in
    when (not (is_no_call fncall)) (check_call fncall linenum)
