-- ===== src/Style/Braces.antt =====
-- `CheckBraces` and `CheckEmptyBlockBody`.
use moohoorama.Base.{
  ℕ, zero, suc, ◌+◌, ◌-◌, Bool, false, not, ◌&&◌, ◌||◌, Option, none, some, List, [], ◌∷◌, ◌++◌,
  get_or, take, drop, length, is_some, if◌then◌else◌,
}
use moohoorama.Text.{Text, codes, eq, contains, find}
use moohoorama.Regex.{Found, match, search_re, group_text}
use moohoorama.Regex.Syntax.{re}
use moohoorama.Lint.Suppressions.{Effect}
use moohoorama.Cleanse.Lines.{CleansedLines}
use moohoorama.FilePath.{last_split}
use moohoorama.Expression.Scan.{Position, close_expression, reverse_close_expression}
use moohoorama.Style.Report.{matches, found, say, when}
use moohoorama.Style.Blanks.{get_previous_non_blank_line}
use moohoorama.Style.Spacing.{behind}

-- `line.find(p, start)`
unfoldable pub find_from : ℕ → Text → Text → Option ℕ
unfolding find
find_from start line p = elim (find (drop start line) p) [ none ↦ none | some k ↦ some (start + k) ]

-- `endline[endpos:]`, which is the last character for -1
abbrev tail_at : Position → Text
tail_at p = elim p.pos_in_line [
  | none ↦ drop (length p.line - 1) p.line
  | some endpos ↦ drop endpos p.line
]

abbrev else_if_error : CleansedLines → ℕ → Option ℕ → List Effect
else_if_error clean_lines linenum none = []
else_if_error clean_lines linenum (some zero) = []
else_if_error clean_lines linenum (some (suc pos)) =
    when
      (not (is_some (find (tail_at (close_expression clean_lines linenum (suc pos))) (codes "{"))))
      (say linenum "readability/braces" 5
        (codes "If an else has a brace on one side, it should have it on both"))

-- The patterns make sure that there is such a position.
abbrev position_or_end : Text → Option ℕ → ℕ
position_or_end line none = length line
position_or_end line (some k) = k

-- An else with a brace on one side.
unfoldable pub check_else_sides : CleansedLines → ℕ → Text → List Effect
unfolding found matches find_from close_expression
check_else_sides clean_lines linenum line =
    if found (re "}\\s*else[^{]*$") line || matches (re "[^}]*else\\s*{") line
    then (if found (re "}\\s*else if([^{]*)$") line
        then else_if_error clean_lines linenum
            (find_from (position_or_end line (find line (codes "else if"))) line (codes "("))
        else say linenum "readability/braces" 5
            (codes "If an else has a brace on one side, it should have it on both"))
    else []

-- The parts about one line and the line that is not blank before it.
unfoldable pub check_brace_lines : CleansedLines → ℕ → Text → List Effect
unfolding found matches get_previous_non_blank_line check_else_sides
check_brace_lines clean_lines linenum line =
    let prevline = (get_previous_non_blank_line clean_lines linenum).0 in
    when
      (matches (re "\\s*{\\s*$") line
        && not (found (re "[,;:}{(]\\s*$") prevline)
        && not (matches (re "\\s*#") prevline))
      (say linenum "whitespace/braces" 4
        (codes "{ should almost always be at the end of the previous line"))
    ++ when (matches (re "\\s*else\\s*") line && matches (re "\\s*}\\s*$") prevline) (
        say linenum "whitespace/newline" 4
          (codes "An else should appear on the same line as the preceding }"))
    ++ check_else_sides clean_lines linenum line
    ++ when (found (re "\\belse [^\\s{]") line && not (found (re "\\belse if\\b") line)) (
        say linenum "whitespace/newline" 4
          (codes "Else clause should never be on same line as else (use 2 lines)"))
    ++ when (matches (re "\\s*do [^\\s{]") line) (
        say linenum "whitespace/newline" 4
          (codes "do/while clauses should not be on a single line"))

abbrev safe_macros : List Text
safe_macros =
    codes "TEST"
    ∷ codes "TEST_F"
    ∷ codes "MATCHER"
    ∷ codes "MATCHER_P"
    ∷ codes "TYPED_TEST"
    ∷ codes "EXCLUSIVE_LOCKS_REQUIRED"
    ∷ codes "SHARED_LOCKS_REQUIRED"
    ∷ codes "LOCKS_EXCLUDED"
    ∷ codes "INTERFACE_DEF"
    ∷ []

abbrev is_other_macro : Option Found → Bool
is_other_macro none = false
is_other_macro (some macro) = not (contains safe_macros (group_text 1 macro))

-- What stands before the parentheses of a block makes it a macro or a literal.
unfoldable pub is_macro_prefix : Text → Bool
unfolding found search_re contains
is_macro_prefix line_prefix =
    is_other_macro (search_re (re "\\b([A-Z_]+)\\s*$") line_prefix)
    || found (re "\\s+=\\s*$") line_prefix

abbrev opened_by_macro : Position → Bool
opened_by_macro p = elim p.pos_in_line [
  | none ↦ false
  | some start ↦ is_macro_prefix (take start p.line)
]

abbrev length_before : Option (Text × Text) → ℕ
length_before none = 0
length_before (some (before, after)) = length before

-- A block behind another statement.
unfoldable pub block_below : CleansedLines → ℕ → Text → Option Found
unfolding found match get_previous_non_blank_line
block_below clean_lines linenum line =
    let prevline = (get_previous_non_blank_line clean_lines linenum).0 in
    if found (re "[;{}]\\s*$") prevline then match (re "^(\\s*)\\{") line else none

-- `match`, behind the cases for parentheses, for else and const, and for other blocks.
abbrev pub block_at : CleansedLines → ℕ → Text → Option Found → Option Found → Option Found
block_at clean_lines linenum line (some m) e =
    let p =
      reverse_close_expression clean_lines linenum
        (length_before (last_split b')' (group_text 1 m))) in
    if opened_by_macro p then none else some m
block_at clean_lines linenum line none (some m) = some m
block_at clean_lines linenum line none none = block_below clean_lines linenum line

abbrev semicolon_error : CleansedLines → ℕ → Option Found → List Effect
semicolon_error clean_lines linenum none = []
semicolon_error clean_lines linenum (some m) =
    let p = close_expression clean_lines linenum (length (group_text 1 m)) in
    when (is_some p.pos_in_line && matches (re "^\\s*;") (behind p))
      (say p.linenum "readability/braces" 4 (codes "You don't need a ; after a }"))

-- The part about a semicolon behind a block.
unfoldable pub check_block_semicolon : CleansedLines → ℕ → Text → List Effect
unfolding match is_macro_prefix block_below reverse_close_expression close_expression
check_block_semicolon clean_lines linenum line = semicolon_error clean_lines linenum (
    block_at clean_lines linenum line (match (re "^(.*\\)\\s*)\\{") line)
      (match (re "^(.*(?:else|\\)\\s*const)\\s*)\\{") line))

-- `CheckBraces(filename, clean_lines, linenum, error)`
unfoldable pub check_braces : CleansedLines → ℕ → List Effect
unfolding check_brace_lines check_block_semicolon
check_braces clean_lines linenum =
    let line = get_or clean_lines.elided linenum [] in
    check_brace_lines clean_lines linenum line ++ check_block_semicolon clean_lines linenum line

abbrev pub empty_body : Position → Text → List Effect
empty_body p keyword = when (is_some p.pos_in_line && matches (re ";") (behind p)) (
    if eq keyword (codes "if")
    then say p.linenum "whitespace/empty_conditional_body" 5
        (codes "Empty conditional bodies should use {}")
    else say p.linenum "whitespace/empty_loop_body" 5
        (codes "Empty loop bodies should use {} or continue"))

abbrev body_errors : CleansedLines → ℕ → Text → Option Found → List Effect
body_errors clean_lines linenum line none = []
body_errors clean_lines linenum line (some m) =
    empty_body (close_expression clean_lines linenum (position_or_end line (find line (codes "("))))
      (group_text 1 m)

-- `CheckEmptyBlockBody(filename, clean_lines, linenum, error)`
unfoldable pub check_empty_block_body : CleansedLines → ℕ → List Effect
unfolding match matches close_expression eq
check_empty_block_body clean_lines linenum =
    let line = get_or clean_lines.elided linenum [] in
    body_errors clean_lines linenum line (match (re "\\s*(for|while|if)\\s*\\(") line)
