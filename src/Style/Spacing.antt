-- ===== src/Style/Spacing.antt =====
-- `CheckSpacing`.
use moohoorama.Base.{
  ℕ, ◌+◌, ◌-◌, min, Bool, not, ◌&&◌, ◌||◌, Option, none, some, List, [], ◌++◌, get_or, take, drop,
  length, leb, ◌==◌, if◌then◌else◌,
}
use moohoorama.Text.{Text, codes, eq, concat}
use moohoorama.Regex.{Found, match, search_re, group_text}
use moohoorama.Regex.Syntax.{re}
use moohoorama.Lint.Suppressions.{Effect}
use moohoorama.Cleanse.Lines.{CleansedLines}
use moohoorama.Expression.Scan.{Position, close_expression}
use moohoorama.Nesting.Blocks.{Block}
use moohoorama.Style.Report.{matches, found, say, when}
use moohoorama.Style.Blanks.{check_blank_spacing}
use moohoorama.Style.Comments.{check_comment_spacing}
use moohoorama.Style.Operators.{without_operator_names, naming, check_operators}
use moohoorama.Style.Calls.{check_spacing_for_function_call}

-- `for ( ; foo; bar)` and `for (foo; bar; )`
unfoldable pub is_for_exception : Text → Found → Bool
unfolding eq found
is_for_exception line m =
    eq (group_text 3 m) (codes ";") && length (group_text 2 m) == 1 + length (group_text 4 m)
    || (length (group_text 2 m) == 0 && found (re "\\bfor\\s*\\(.*; \\)") line)

abbrev inside_errors : Text → ℕ → Option Found → List Effect
inside_errors line linenum none = []
inside_errors line linenum (some m) =
    when (not (length (group_text 2 m) == length (group_text 4 m)) && not (is_for_exception line m))
      (say linenum "whitespace/parens" 5
        (codes "Mismatching spaces inside () in " ++ group_text 1 m))
    ++ when (not (leb (length (group_text 2 m)) 1)) (
        say linenum "whitespace/parens" 5
          (codes "Should have zero or one spaces inside ( and ) in " ++ group_text 1 m))

-- Parentheses of control structures.
unfoldable pub check_parens : Text → ℕ → List Effect
unfolding is_for_exception search_re
check_parens line linenum =
    naming linenum "whitespace/parens" 5 (codes "Missing space before ( in ")
      (search_re (re " (if\\(|for\\(|while\\(|switch\\()") line)
    ++ inside_errors line linenum
        (search_re (re "\\b(if|for|while|switch)\\s*\\(([ ]*)(.).*[^ ]+([ ]*)\\)\\s*{\\s*$") line)

-- `endline[endpos:]`, empty for -1
abbrev pub behind : Position → Text
behind p = elim p.pos_in_line [ none ↦ [] | some endpos ↦ drop endpos p.line ]

-- `trailing_text`: what follows a closing brace, with up to two more lines.
unfoldable pub trailing_text : CleansedLines → Position → Text
trailing_text clean_lines p =
    behind p
    ++ concat (
        take (min (p.linenum + 3) (clean_lines.num_lines - 1) - (p.linenum + 1))
          (drop (p.linenum + 1) clean_lines.elided))

abbrev brace_errors : CleansedLines → ℕ → Option Found → List Effect
brace_errors clean_lines linenum none = []
brace_errors clean_lines linenum (some m) =
    when
      (not (
        matches (re "^[\\s}]*[{.;,)<\\]]") (
          trailing_text clean_lines
            (close_expression clean_lines linenum (length (group_text 1 m))))))
      (say linenum "whitespace/braces" 5 (codes "Missing space before {"))

-- Braces and brackets.
unfoldable pub check_brace_spacing : CleansedLines → ℕ → Text → List Effect
unfolding trailing_text close_expression matches found
check_brace_spacing clean_lines linenum line =
    brace_errors clean_lines linenum (match (re "^(.*[^ ({]){") line)
    ++ when (found (re "}else") line)
        (say linenum "whitespace/braces" 5 (codes "Missing space before else"))
    ++ when (found (re "\\w\\s+\\[") line && not (found (re "delete\\s+\\[") line))
        (say linenum "whitespace/braces" 5 (codes "Extra space before ["))

-- Semicolons at the end of a line, and the colon of a range-based for.
unfoldable pub check_line_end : Text → ℕ → List Effect
unfolding found
check_line_end line linenum =
    (if found (re ":\\s*;\\s*$") line
      then say linenum "whitespace/semicolon" 5
          (codes "Semicolon defining empty statement. Use {} instead.")
      else if found (re "^\\s*;\\s*$") line
      then say linenum "whitespace/semicolon" 5 (
          codes
            "Line contains only semicolon. If this should be an empty statement, use {} instead.")
      else if found (re "\\s+;\\s*$") line && not (found (re "\\bfor\\b") line)
      then say linenum "whitespace/semicolon" 5 (
          codes
            "Extra space before last semicolon. If this should be an empty statement, use {} instead.")
      else [])
    ++ when (found (re "for *\\(.*[^:]:[^: ]") line || found (re "for *\\(.*[^: ]:[^:]") line) (
        say linenum "whitespace/forcolon" 2
          (codes "Missing space around colon in range-based for loop"))

-- Commas and semicolons inside a line; `raw` is the line with its comments.
unfoldable pub check_separators : Text → Text → ℕ → List Effect
unfolding found
check_separators raw line linenum =
    when (found (re ",[^,\\s]") line && found (re ",[^,\\s]") raw)
      (say linenum "whitespace/comma" 3 (codes "Missing space after ,"))
    ++ when (found (re ";[^\\s};\\\\)/]") line)
        (say linenum "whitespace/semicolon" 3 (codes "Missing space after ;"))

-- `CheckSpacing(filename, clean_lines, linenum, nesting_state, error)`
unfoldable pub check_spacing : (Text → Bool) → CleansedLines → ℕ → List Block → List Effect
unfolding without_operator_names
check_spacing isdigit clean_lines linenum stack =
    let raw = get_or clean_lines.lines_without_raw_strings linenum [] in
    let line = without_operator_names (get_or clean_lines.elided linenum []) in
    check_blank_spacing clean_lines linenum stack
    ++ check_comment_spacing raw linenum
    ++ check_operators isdigit clean_lines linenum line
    ++ check_parens line linenum
    ++ check_separators raw line linenum
    ++ check_spacing_for_function_call line linenum
    ++ check_brace_spacing clean_lines linenum line
    ++ check_line_end line linenum
