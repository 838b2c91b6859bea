-- ===== src/Style/Macros.antt =====
-- `CheckCheck` and `CheckAltTokens`, with their tables.
pub mod Operands
pub mod Loop
use moohoorama.Base.{
  ℕ, zero, suc, ◌+◌, ◌-◌, Bool, true, false, not, ◌&&◌, ◌||◌, Option, none, some, List, [], ◌∷◌,
  ◌++◌, get_or, take, drop, length, is_some, ◌==◌, if◌then◌else◌,
}
use moohoorama.Text.{Text, codes, eq, contains, find, concat, strip}
use moohoorama.Regex.{Re, Found, match, match_at, group_text}
use moohoorama.Regex.Syntax.{re, compile}
use moohoorama.Lint.Suppressions.{Effect}
use moohoorama.Cleanse.Lines.{CleansedLines}
use moohoorama.Expression.Scan.{Position, close_expression}
use moohoorama.Style.Report.{matches, say, when}
use moohoorama.Style.Macros.Operands.{Parsed, gave_up, operands, find_operands}

-- `_CHECK_MACROS`
unfoldable pub check_macros : List Text
check_macros =
    codes "DCHECK"
    ∷ codes "CHECK"
    ∷ codes "EXPECT_TRUE_M"
    ∷ codes "EXPECT_TRUE"
    ∷ codes "ASSERT_TRUE_M"
    ∷ codes "ASSERT_TRUE"
    ∷ codes "EXPECT_FALSE_M"
    ∷ codes "EXPECT_FALSE"
    ∷ codes "ASSERT_FALSE_M"
    ∷ codes "ASSERT_FALSE"
    ∷ []

abbrev entry : Text → List (Text × Text) → Text
entry key [] = []
entry key ((k, v) ∷ rest) = if eq k key then v else entry key rest

-- The suffix for an operator, and the one for its negation.
abbrev suffix : Text → Text
suffix operator = entry operator (
    (codes "==", codes "EQ")
    ∷ (codes "!=", codes "NE")
    ∷ (codes ">=", codes "GE")
    ∷ (codes ">", codes "GT")
    ∷ (codes "<=", codes "LE")
    ∷ (codes "<", codes "LT")
    ∷ [])

abbrev inverse_suffix : Text → Text
inverse_suffix operator = entry operator (
    (codes "==", codes "NE")
    ∷ (codes "!=", codes "EQ")
    ∷ (codes ">=", codes "LT")
    ∷ (codes ">", codes "LE")
    ∷ (codes "<=", codes "GT")
    ∷ (codes "<", codes "GE")
    ∷ [])

-- `_CHECK_REPLACEMENT[macro][operator]`
unfoldable pub check_replacement : Text → Text → Text
unfolding eq
check_replacement macro operator = entry macro (
    (codes "DCHECK", codes "DCHECK_" ++ suffix operator)
    ∷ (codes "CHECK", codes "CHECK_" ++ suffix operator)
    ∷ (codes "EXPECT_TRUE", codes "EXPECT_" ++ suffix operator)
    ∷ (codes "ASSERT_TRUE", codes "ASSERT_" ++ suffix operator)
    ∷ (codes "EXPECT_TRUE_M", codes "EXPECT_" ++ (suffix operator ++ codes "_M"))
    ∷ (codes "ASSERT_TRUE_M", codes "ASSERT_" ++ (suffix operator ++ codes "_M"))
    ∷ (codes "EXPECT_FALSE", codes "EXPECT_" ++ inverse_suffix operator)
    ∷ (codes "ASSERT_FALSE", codes "ASSERT_" ++ inverse_suffix operator)
    ∷ (codes "EXPECT_FALSE_M", codes "EXPECT_" ++ (inverse_suffix operator ++ codes "_M"))
    ∷ (codes "ASSERT_FALSE_M", codes "ASSERT_" ++ (inverse_suffix operator ++ codes "_M"))
    ∷ [])

abbrev macro_or : Text → Option (Text × ℕ) → Option Found → Option (Text × ℕ)
macro_or macro others none = others
macro_or macro others (some m) = some (macro, length (group_text 1 m))

-- The first of the macros that is called in the line, and the position of its parenthesis.
unfoldable pub find_macro : List Text → Text → Option (Text × ℕ)
unfolding find match compile
find_macro [] line = none
find_macro (macro ∷ macros) line =
    let others = find_macro macros line in
    if is_some (find line macro)
    then macro_or macro others
        (match (compile (codes "^(.*\\b" ++ (macro ++ codes "\\s*)\\("))) line)
    else others

-- The text between the parentheses, which end at `end_pos` of the line in `p`.
unfoldable pub check_expression : CleansedLines → ℕ → ℕ → Position → ℕ → Text
check_expression clean_lines linenum start_pos p end_pos =
    let line = get_or clean_lines.elided linenum [] in
    if linenum == p.linenum
    then drop (start_pos + 1) (take (end_pos - 1) line)
    else (drop (start_pos + 1) line
        ++ (concat (take (p.linenum - (linenum + 1)) (drop (linenum + 1) clean_lines.elided))
            ++ take (end_pos - 1) p.line))

-- `match_constant`
unfoldable pub constant_pattern : Re
unfolding re
constant_pattern = re "^([-+]?(\\d+|0[xX][0-9a-fA-F]+)[lLuU]{0,3}|\".*\"|'.*')$"

abbrev suggestion : ℕ → Text → Option Parsed → List Effect
suggestion linenum macro (some (operands (c ∷ lhs) (some (operator, d ∷ rhs)))) =
    when
      (not (is_some (find (d ∷ rhs) (codes "&&")))
        && not (is_some (find (d ∷ rhs) (codes "||")))
        && (matches constant_pattern (strip (c ∷ lhs))
            || matches constant_pattern (strip (d ∷ rhs))))
      (say linenum "readability/check" 2 (
        concat (
          codes "Consider using "
          ∷ check_replacement macro operator
          ∷ codes " instead of "
          ∷ macro
          ∷ codes "(a "
          ∷ operator
          ∷ codes " b)"
          ∷ [])))
suggestion linenum macro _ = []

abbrev expression_errors : CleansedLines → ℕ → Text → ℕ → Position → List Effect
expression_errors clean_lines linenum macro start_pos p = elim p.pos_in_line [
  | none ↦ []
  | some end_pos ↦
      suggestion linenum macro
        (find_operands (check_expression clean_lines linenum start_pos p end_pos))
]

abbrev macro_errors : CleansedLines → ℕ → Option (Text × ℕ) → List Effect
macro_errors clean_lines linenum none = []
macro_errors clean_lines linenum (some (macro, start_pos)) =
    expression_errors clean_lines linenum macro start_pos
      (close_expression clean_lines linenum start_pos)

-- `CheckCheck(filename, clean_lines, linenum, error)`
unfoldable pub check_check : CleansedLines → ℕ → List Effect
unfolding find_macro close_expression check_expression find_operands
check_check clean_lines linenum =
    macro_errors clean_lines linenum
      (find_macro check_macros (get_or clean_lines.elided linenum []))

-- `_ALT_TOKEN_REPLACEMENT`
unfoldable pub alt_token_replacement : List (Text × Text)
alt_token_replacement =
    (codes "and", codes "&&")
    ∷ (codes "bitor", codes "|")
    ∷ (codes "or", codes "||")
    ∷ (codes "xor", codes "^")
    ∷ (codes "compl", codes "~")
    ∷ (codes "bitand", codes "&")
    ∷ (codes "and_eq", codes "&=")
    ∷ (codes "or_eq", codes "|=")
    ∷ (codes "xor_eq", codes "^=")
    ∷ (codes "not", codes "!")
    ∷ (codes "not_eq", codes "!=")
    ∷ []

-- `_ALT_TOKEN_REPLACEMENT_PATTERN`. No two of the tokens match at the same place, so the order of
-- the keys does not matter.
unfoldable pub alt_token_pattern : Re
unfolding re
alt_token_pattern =
    re "[ =()](and|bitor|or|xor|compl|bitand|and_eq|or_eq|xor_eq|not|not_eq)(?=[ (]|$)"

abbrev hit : Option Found → List Found
hit none = []
hit (some m) = m ∷ []

abbrev skipped : Option Found → ℕ
skipped none = 0
skipped (some m) = length m.matched - 1

-- `pattern.finditer(line)`, for a pattern that never matches the empty text
unfoldable pub find_all : Re → ℕ → Option ℕ → Text → List Found
unfolding match_at
find_all r skip b [] = []
find_all r (suc skip) b (c ∷ s) = find_all r skip (some c) s
find_all r zero b (c ∷ s) =
    let m = match_at r 0 b (c ∷ s) in hit m ++ find_all r (skipped m) (some c) s

abbrev token_errors : ℕ → List Found → List Effect
token_errors linenum [] = []
token_errors linenum (m ∷ ms) =
    say linenum "readability/alt_tokens" 2 (
      concat (
        codes "Use operator "
        ∷ entry (group_text 1 m) alt_token_replacement
        ∷ codes " instead of "
        ∷ group_text 1 m
        ∷ []))
    ++ token_errors linenum ms

-- `CheckAltTokens(filename, clean_lines, linenum, error)`
unfoldable pub check_alt_tokens : CleansedLines → ℕ → List Effect
unfolding find_all matches find
check_alt_tokens clean_lines linenum =
    let line = get_or clean_lines.elided linenum [] in
    if matches (re "^\\s*#") line
      || is_some (find line (codes "/*"))
      || is_some (find line (codes "*/"))
    then []
    else token_errors linenum (find_all alt_token_pattern 0 none line)
