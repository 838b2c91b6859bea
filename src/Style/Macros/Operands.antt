-- ===== src/Style/Macros/Operands.antt =====
-- The loop of `CheckCheck` that reads an expression up to a relational operator.
use moohoorama.Base.{
  ℕ, zero, suc, ◌||◌, Option, none, some, List, [], ◌∷◌, ◌++◌, take, drop, length, pos,
  if◌then◌else◌,
}
use moohoorama.Text.{Text, codes, eq, contains}
use moohoorama.Regex.{Re, Found, match, group_text}
use moohoorama.Regex.Syntax.{re}
use moohoorama.Expression.Scan.{find_end_of_expression_in_line}

unfoldable pub operator_token_pattern : Re
unfolding re
operator_token_pattern = re "^\\s*(<<|<<=|>>|>>=|->\\*|->|&&|\\|\\||==|!=|>=|>|<=|<|\\()(.*)$"

unfoldable pub operand_pattern : Re
unfolding re
operand_pattern = re "^([^-=!<>()&|]+)(.*)$"

unfoldable pub one_character_pattern : Re
unfolding re
one_character_pattern = re "^(\\s*\\S)(.*)$"

-- The check is given up, or the text on the left, with the operator and the text behind it if there
-- is one.
pub data Parsed : Type 0 where
  gave_up : Parsed
  operands : Text → Option (Text × Text) → Parsed

-- One round of the loop: its end, or the text on the left so far and the rest of the expression.
pub data Round : Type 0 where
  stop : Parsed → Round
  go_on : Text → Text → Round

abbrev pub parenthesized : Text → Text → Option ℕ → Round
parenthesized lhs expression none = stop gave_up
parenthesized lhs expression (some end) =
    go_on (lhs ++ (b'(' ∷ take end expression)) (drop end expression)

abbrev pub other_operators : List Text
other_operators =
    codes "<<" ∷ codes "<<=" ∷ codes ">>" ∷ codes ">>=" ∷ codes "->*" ∷ codes "->" ∷ []

-- A token, and the expression behind it.
unfoldable pub at_token : Text → Text → Text → Round
unfolding eq contains
at_token lhs token rest =
    if eq token (codes "(")
    then parenthesized lhs rest (find_end_of_expression_in_line rest 0 (pos 1) b'(' b')').0
    else if eq token (codes "&&") || eq token (codes "||")
    then stop gave_up
    else if contains other_operators token
    then go_on (lhs ++ token) rest
    else stop (operands lhs (some (token, rest)))

abbrev pub at_operand : Text → Option Found → Option Found → Round
at_operand lhs (some m) n = go_on (lhs ++ group_text 1 m) (group_text 2 m)
at_operand lhs none (some n) = go_on (lhs ++ group_text 1 n) (group_text 2 n)
at_operand lhs none none = stop (operands lhs none)

abbrev pub by_token : Text → Text → Option Found → Round
by_token expression lhs (some m) = at_token lhs (group_text 1 m) (group_text 2 m)
by_token expression lhs none =
    at_operand lhs (match operand_pattern expression) (match one_character_pattern expression)

unfoldable pub next_round : Text → Text → Round
unfolding match at_token
next_round expression lhs = by_token expression lhs (match operator_token_pattern expression)

abbrev pub proceed : (Text → Text → Option Parsed) → Round → Option Parsed
proceed f (stop p) = some p
proceed f (go_on lhs expression) = f lhs expression

-- The loop, `none` if the fuel ran out.
unfoldable pub read_operands : ℕ → Text → Text → Option Parsed
unfolding next_round
read_operands zero lhs expression = none
read_operands (suc fuel) lhs [] = some (operands lhs none)
read_operands (suc fuel) lhs (c ∷ expression) =
    proceed (read_operands fuel) (next_round (c ∷ expression) lhs)

unfoldable pub find_operands : Text → Option Parsed
unfolding read_operands
find_operands expression = read_operands (suc (length expression)) [] expression
