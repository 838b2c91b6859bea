-- ===== src/Language/References.antt =====
-- `CheckForNonConstReference`.
use moohoorama.Base.{
  ℕ, ◌+◌, ◌-◌, Bool, true, false, not, ◌&&◌, ◌||◌, Option, none, some, List, [], ◌∷◌, ◌++◌, get_or,
  take, drop, length, ltb, is_some, map, if◌then◌else◌,
}
use moohoorama.Text.{Text, codes, concat, find, lstrip, strip}
use moohoorama.Regex.{Re, Found, search_re, replace_all, group_text}
use moohoorama.Regex.Syntax.{re}
use moohoorama.Lint.Suppressions.{Effect}
use moohoorama.Cleanse.Lines.{CleansedLines}
use moohoorama.FilePath.{last_split}
use moohoorama.Expression.Scan.{Position, reverse_close_expression}
use moohoorama.Nesting.Blocks.{Block, Kind, plain}
use moohoorama.Style.Report.{matches, found, say, when}
use moohoorama.Style.Macros.{find_all}

-- `_RE_PATTERN_REF_PARAM`, with `_RE_PATTERN_TYPE` and `_RE_PATTERN_IDENT` put in
unfoldable pub ref_param_pattern : Re
unfolding re
ref_param_pattern =
    re
      "((?:const\\s+)?(?:typename\\s+|class\\s+|struct\\s+|union\\s+|enum\\s+)?(?:\\w|\\s*<(?:<(?:<[^<>]*>|[^<>])*>|[^<>])*>|::)+(?:\\s*(?:\\bconst\\b|[*]))*\\s*&\\s*[_a-zA-Z]\\w*)\\s*(?:=[^,()]+)?[,)]"

-- `_RE_PATTERN_CONST_REF_PARAM`
unfoldable pub const_ref_param_pattern : Re
unfolding re
const_ref_param_pattern =
    re
      "(?:.*\\s*\\bconst\\s*&\\s*[_a-zA-Z]\\w*|const\\s+(?:const\\s+)?(?:typename\\s+|class\\s+|struct\\s+|union\\s+|enum\\s+)?(?:\\w|\\s*<(?:<(?:<[^<>]*>|[^<>])*>|[^<>])*>|::)+\\s*&\\s*[_a-zA-Z]\\w*)"

unfoldable pub whitelisted_functions : Re
unfolding re
whitelisted_functions =
    re "(?:[sS]wap(?:<\\w:+>)?|operator\\s*[<>][<>]|static_assert|COMPILE_ASSERT)\\s*\\("

-- `previous`: a type that starts in the line above.
unfoldable pub split_type : Text → Text → Option Found
unfolding matches search_re
split_type above line =
    if matches (re "\\s*::(?:[\\w<>]|::)+\\s*&\\s*\\S") line
    then search_re (re "\\b((?:const\\s*)?(?:[\\w<>]|::)+[\\w<>])\\s*$") above
    else if matches (re "\\s*[a-zA-Z_]([\\w<>]|::)+\\s*&\\s*\\S") line
    then search_re (re "\\b((?:const\\s*)?(?:[\\w<>]|::)+::)\\s*$") above
    else none

-- A template whose brackets open on an earlier line.
abbrev joined_template : CleansedLines → ℕ → Text → Position → Text
joined_template clean_lines linenum line p =
    if is_some p.pos_in_line && ltb p.linenum linenum
    then concat (map strip (take (linenum + 1 - p.linenum) (drop p.linenum clean_lines.elided)))
    else line

abbrev by_bracket : CleansedLines → ℕ → Text → Option (Text × Text) → Text
by_bracket clean_lines linenum line none = line
by_bracket clean_lines linenum line (some (before, after)) =
    joined_template clean_lines linenum line
      (reverse_close_expression clean_lines linenum (length before))

abbrev by_previous : CleansedLines → ℕ → Text → Option Found → Text
by_previous clean_lines linenum line (some m) = group_text 1 m ++ lstrip line
by_previous clean_lines linenum line none =
    by_bracket clean_lines linenum line (last_split b'>' line)

-- `line`, with what belongs to it from lines above.
unfoldable pub joined_line : CleansedLines → ℕ → Text → Text
unfolding split_type lstrip strip last_split reverse_close_expression
joined_line clean_lines linenum line =
    let above = get_or clean_lines.elided (linenum - 1) [] in
    if ltb 1 linenum then by_previous clean_lines linenum line (split_type above line) else line

abbrev is_declarative : Kind → Bool
is_declarative plain = false
is_declarative _ = true

-- The block below the innermost one is none, a class or a namespace.
abbrev opened_in_scope : List Block → Bool
opened_in_scope [] = true
opened_in_scope (b ∷ bs) = is_declarative b.kind

-- `check_params`, by the stack.
unfoldable pub in_declarations : List Block → Text → Bool
unfolding matches
in_declarations [] line = true
in_declarations (b ∷ bs) line =
    is_declarative b.kind || (matches (re ".*{\\s*$") line && opened_in_scope bs)

-- A function of the standard library on this line, or on one of the two lines above.
unfoldable pub is_whitelisted : CleansedLines → ℕ → Text → Bool
unfolding found
is_whitelisted clean_lines linenum line =
    found whitelisted_functions line
    || (not (found (re "\\S+\\([^)]*$") line)
        && ((ltb 0 linenum
              && found whitelisted_functions (get_or clean_lines.elided (linenum - 1) []))
            || (ltb 1 linenum
                && found whitelisted_functions (get_or clean_lines.elided (linenum - 2) []))))

abbrev parameter_errors : ℕ → List Found → List Effect
parameter_errors linenum [] = []
parameter_errors linenum (m ∷ ms) =
    when (not (matches const_ref_param_pattern (group_text 1 m))) (
      say linenum "runtime/references" 2 (
        codes "Is this a non-const reference? If so, make const or use a pointer: "
        ++ replace_all (re " *<") (λ n. codes "<") (group_text 1 m)))
    ++ parameter_errors linenum ms

-- The parameters of a line, without function bodies.
unfoldable pub check_parameters : Text → ℕ → List Effect
unfolding find_all matches replace_all
check_parameters line linenum =
    parameter_errors linenum
      (find_all ref_param_pattern 0 none (replace_all (re "{[^}]*}") (λ m. codes " ") line))

-- The rest of the function, for the line that was put together.
unfoldable pub check_joined : CleansedLines → ℕ → List Block → Text → List Effect
unfolding in_declarations is_whitelisted check_parameters
check_joined clean_lines linenum stack line =
    when (in_declarations stack line && not (is_whitelisted clean_lines linenum line))
      (check_parameters line linenum)

-- `CheckForNonConstReference(filename, clean_lines, linenum, nesting_state, error)`
unfoldable pub check_for_non_const_reference : CleansedLines → ℕ → List Block → List Effect
unfolding find joined_line check_joined
check_for_non_const_reference clean_lines linenum stack =
    let line = get_or clean_lines.elided linenum [] in
    when (is_some (find line (codes "&")))
      (check_joined clean_lines linenum stack (joined_line clean_lines linenum line))
