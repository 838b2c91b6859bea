-- ===== src/Functions/Lengths.antt =====
-- `CheckForFunctionLengths`.
use moohoorama.Base.{
  ℕ, Bool, false, not, ◌||◌, Option, none, some, List, [], ◌∷◌, ◌++◌, drop, get_or, pos, is_some,
  if◌then◌else◌,
}
use moohoorama.Text.{Text, codes, eq, lstrip, split, split_onto}
use moohoorama.Regex.{Re, Found, match, search_re, group_text}
use moohoorama.Regex.Syntax.{re}
use moohoorama.Lint.Suppressions.{Effect, reports}
use moohoorama.Cleanse.Lines.{CleansedLines}
use moohoorama.Functions.State.{FunctionState, begin, count_line, check, end}

unfoldable pub declaration_pattern : Re
unfolding re
declaration_pattern = re "(\\w(\\w|::|\\*|\\&|\\s)*)\\("

unfoldable pub macro_pattern : Re
unfolding re
macro_pattern = re "[A-Z_]+$"

unfoldable pub body_end_pattern : Re
unfolding re
body_end_pattern = re "(;|})"

unfoldable pub open_brace_pattern : Re
unfolding re
open_brace_pattern = re "{"

unfoldable pub function_pattern : Re
unfolding re
function_pattern = re "((\\w|:)*)\\("

unfoldable pub test_macro_pattern : Re
unfolding re
test_macro_pattern = re "TEST"

unfoldable pub parameters_pattern : Re
unfolding re
parameters_pattern = re "(\\(.*\\))"

unfoldable pub function_end_pattern : Re
unfolding re
function_end_pattern = re "^\\}\\s*$"

unfoldable pub blank_pattern : Re
unfolding re
blank_pattern = re "^\\s*$"

abbrev last_word : List Text → Text
last_word [] = []
last_word (w ∷ []) = w
last_word (w ∷ v ∷ ws) = last_word (v ∷ ws)

-- Whether a line looks like the start of a function.
abbrev starts_function : Option Found → Bool
starts_function none = false
starts_function (some m) =
    let function_name = last_word (split (group_text 1 m)) in
    eq function_name (codes "TEST")
    || eq function_name (codes "TEST_F")
    || not (is_some (match macro_pattern function_name))

abbrev group1 : Option Found → Text
group1 none = []
group1 (some m) = group_text 1 m

-- The name under which the body is counted. A line that starts a function has a `(` behind a word,
-- so the search for the name succeeds.
unfoldable pub function_of : Text → Text → Text
function_of line joined_line =
    let function = group1 (search_re function_pattern line) in
    if is_some (match test_macro_pattern function)
    then function ++ group1 (search_re parameters_pattern joined_line)
    else function ++ codes "()"

-- The loop that looks for the body: `none` if no line has one, and otherwise what it does to the
-- function state.
unfoldable pub find_body : Text → Text → List Text → FunctionState → Option FunctionState
unfolding function_of begin lstrip
find_body line joined_line [] s = none
find_body line joined_line (start_line ∷ rest) s =
    let joined = joined_line ++ (codes " " ++ lstrip start_line) in
    let later = find_body line joined rest s in
    if is_some (search_re body_end_pattern start_line)
    then some s
    else if is_some (search_re open_brace_pattern start_line)
    then some (begin (function_of line joined) s)
    else later

abbrev with_body : ℕ → FunctionState → Option FunctionState → FunctionState × List Effect
with_body linenum s none = (
  s,
  reports (pos linenum) (codes "readability/fn_size") 5
      (codes "Lint failed to find start of function body."),
)
with_body linenum s (some s') = (s', [])

-- `CheckForFunctionLengths(filename, clean_lines, linenum, function_state, error)`, with
-- `_VerboseLevel()` in front
unfoldable pub check_for_function_lengths :
    ℕ → CleansedLines → ℕ → FunctionState → FunctionState × List Effect
unfolding find_body split_onto eq
check_for_function_lengths verbose_level clean_lines linenum s =
    let line = get_or clean_lines.lines linenum [] in
    if starts_function (match declaration_pattern line)
    then with_body linenum s (find_body line [] (drop linenum clean_lines.lines) s)
    else if is_some (match function_end_pattern line)
    then (end s, check verbose_level s linenum)
    else if not (is_some (match blank_pattern line))
    then (count_line s, [])
    else (s, [])
