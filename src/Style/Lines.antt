-- ===== src/Style/Lines.antt =====
-- `GetLineWidth` and `CheckStyle`.
use moohoorama.Base.{
  ℕ, suc, ◌+◌, ◌*◌, ◌/◌, Bool, false, not, ◌&&◌, ◌||◌, Option, none, some, List, [], ◌∷◌, ◌++◌,
  get_or, length, ltb, is_some, ◌==◌, if◌then◌else◌,
}
use moohoorama.Text.{Text, codes, eq, starts_with, find, count, decimal, is_space}
use moohoorama.Regex.Syntax.{re}
use moohoorama.Lint.Suppressions.{Effect}
use moohoorama.Cleanse.Lines.{CleansedLines}
use moohoorama.Nesting.Blocks.{Block, ClassInfo}
use moohoorama.Nesting.Update.{innermost_class}
use moohoorama.Style.Report.{matches, say, when}
use moohoorama.Style.Blanks.{get_previous_non_blank_line, check_section_spacing}
use moohoorama.Style.Comments.{check_access}
use moohoorama.Style.Spacing.{check_spacing}
use moohoorama.Style.Braces.{check_braces, check_empty_block_body}
use moohoorama.Style.Macros.{check_check, check_alt_tokens}

-- What Python knows of Unicode: `unicode.isdigit`, `unicodedata.normalize('NFC', s)`, whether
-- `east_asian_width` is W or F, and whether `combining` is not zero.
pub record Unicode : Type 0 where
  pub isdigit : Text → Bool
  pub normalize : Text → Text
  pub is_wide : ℕ → Bool
  pub is_combining : ℕ → Bool

unfoldable pub width_of : Unicode → Text → ℕ
width_of u [] = 0
width_of u (c ∷ line) =
    (if u.is_wide c then 2 else if not (u.is_combining c) then 1 else 0) + width_of u line

-- `GetLineWidth(line)`, for a unicode string
unfoldable pub get_line_width : Unicode → Text → ℕ
unfolding width_of
get_line_width u line = width_of u (u.normalize line)

unfoldable pub leading_spaces : Text → ℕ
leading_spaces [] = 0
leading_spaces (c ∷ line) = let more = leading_spaces line in if c == b' ' then suc more else 0

abbrev pub ends_in_space : Text → Bool
ends_in_space [] = false
ends_in_space (c ∷ line) = is_space (get_or (c ∷ line) (length line) 0)

-- Tabs and white space at the ends of a line.
unfoldable pub check_indent : Text → Text → ℕ → List Effect
unfolding find leading_spaces is_space matches
check_indent line cleansed_line linenum =
    when (is_some (find line (codes "\t")))
      (say linenum "whitespace/tab" 1 (codes "Tab found; better to use spaces"))
    ++ (if ends_in_space line
        then say linenum "whitespace/end_of_line" 4
            (codes "Line ends in whitespace.  Consider deleting these extra spaces.")
        else when
            ((leading_spaces line == 1 || leading_spaces line == 3)
              && not (matches (re "\\s*\\w+\\s*:\\s*$") cleansed_line))
            (say linenum "whitespace/indent" 3
              (codes "Weird number of spaces at line-start.  Are you using a 2-space indent?")))

-- `is_header_guard`, where `cppvar` is `GetHeaderGuardCPPVariable(filename)`.
unfoldable pub is_header_guard : Text → Text → Text → Bool
unfolding eq starts_with
is_header_guard file_extension cppvar line =
    eq file_extension (codes "h")
    && (starts_with line (codes "#ifndef " ++ cppvar)
        || starts_with line (codes "#define " ++ cppvar)
        || starts_with line (codes "#endif  // " ++ cppvar))

-- Lines that may be long.
unfoldable pub may_be_long : Text → Text → Text → Bool
unfolding starts_with is_header_guard matches
may_be_long file_extension cppvar line =
    starts_with line (codes "#include")
    || is_header_guard file_extension cppvar line
    || matches (re "^\\s*//.*http(s?)://\\S*$") line
    || matches (re "^// \\$Id:.*#[0-9]+ \\$$") line

-- `line_length` is `_line_length`; `int(_line_length * 1.25)` is exact.
unfoldable pub check_length : ℕ → ℕ → ℕ → List Effect
unfolding decimal
check_length line_length line_width linenum =
    let extended_length = line_length * 5 / 4 in
    if ltb extended_length line_width
    then say linenum "whitespace/line_length" 4 (
        codes "Lines should very rarely be longer than "
        ++ (decimal extended_length ++ codes " characters"))
    else if ltb line_length line_width
    then say linenum "whitespace/line_length" 2
        (codes "Lines should be <= " ++ (decimal line_length ++ codes " characters long"))
    else []

-- More than one command on a line, unless in a for loop or a short case.
unfoldable pub check_commands : CleansedLines → ℕ → List Effect
unfolding find get_previous_non_blank_line
check_commands clean_lines linenum =
    let cleansed_line = get_or clean_lines.elided linenum [] in
    let prevline = (get_previous_non_blank_line clean_lines linenum).0 in
    when
      (ltb 1 (count cleansed_line (codes ";"))
        && not (is_some (find cleansed_line (codes "for")))
        && (not (is_some (find prevline (codes "for"))) || is_some (find prevline (codes ";")))
        && not (
            (is_some (find cleansed_line (codes "case "))
              || is_some (find cleansed_line (codes "default:")))
            && is_some (find cleansed_line (codes "break;"))))
      (say linenum "whitespace/newline" 0 (codes "More than one command on the same line"))

abbrev section_errors : CleansedLines → ℕ → Option ClassInfo → List Effect
section_errors clean_lines linenum none = []
section_errors clean_lines linenum (some class_info) =
    check_section_spacing clean_lines class_info linenum

-- `CheckStyle(filename, clean_lines, linenum, file_extension, nesting_state, error)`
unfoldable pub check_style :
    Unicode → ℕ → Text → CleansedLines → ℕ → Text → List Block → List Effect
unfolding check_indent may_be_long check_length check_commands get_line_width
check_style u line_length cppvar clean_lines linenum file_extension stack =
    let line = get_or clean_lines.lines_without_raw_strings linenum [] in
    let cleansed_line = get_or clean_lines.elided linenum [] in
    check_indent line cleansed_line linenum
    ++ when (not (may_be_long file_extension cppvar line))
        (check_length line_length (get_line_width u line) linenum)
    ++ check_commands clean_lines linenum
    ++ check_braces clean_lines linenum
    ++ check_empty_block_body clean_lines linenum
    ++ check_access clean_lines linenum stack
    ++ check_spacing u.isdigit clean_lines linenum stack
    ++ check_check clean_lines linenum
    ++ check_alt_tokens clean_lines linenum
    ++ section_errors clean_lines linenum (innermost_class stack)
