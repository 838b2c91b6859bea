-- ===== src/Style/Blanks.antt =====
-- Blank lines: `IsBlankLine`, `CheckSectionSpacing`, `GetPreviousNonBlankLine` and the first part of
-- `CheckSpacing`.
pub mod Laws
use mathlib.Core.List.{reverse}
use moohoorama.Base.{
  ℕ, zero, suc, ◌+◌, ◌-◌, Bool, true, false, not, ◌&&◌, ◌||◌, Option, none, some, List, [], ◌∷◌,
  ◌++◌, get_or, take, length, leb, ltb, is_some, ◌==◌, if◌then◌else◌,
}
use moohoorama.Text.{Text, codes, eq, find, is_space}
use moohoorama.Regex.{Found, match, group_text}
use moohoorama.Regex.Syntax.{re}
use moohoorama.Lint.Suppressions.{Effect}
use moohoorama.Cleanse.Lines.{CleansedLines}
use moohoorama.FilePath.{last_split}
use moohoorama.Nesting.Blocks.{Block, ClassInfo}
use moohoorama.Nesting.Update.{in_namespace_body}
use moohoorama.Style.Report.{matches, found, say, when}

-- `IsBlankLine(line)`
unfoldable pub is_blank_line : Text → Bool
unfolding is_space
is_blank_line [] = true
is_blank_line (c ∷ line) = is_space c && is_blank_line line

-- `GetPreviousNonBlankLine(clean_lines, linenum)`, with `none` for -1
unfoldable pub get_previous_non_blank_line : CleansedLines → ℕ → Text × Option ℕ
unfolding is_blank_line
get_previous_non_blank_line clean_lines zero = ([], none)
get_previous_non_blank_line clean_lines (suc n) =
    let earlier = get_previous_non_blank_line clean_lines n in
    let prevline = get_or clean_lines.elided n [] in
    if is_blank_line prevline then earlier else (prevline, some n)

-- `lines[n - 1]`, which is the last line for n = 0
unfoldable pub line_before : List Text → ℕ → Text
line_before lines zero = get_or lines (length lines - 1) []
line_before lines (suc n) = get_or lines n []

-- The lines above, the nearest first: whether an initializer list starts there.
unfoldable pub initializer_list_above : List Text → Bool
unfolding matches eq
initializer_list_above [] = false
initializer_list_above (line ∷ lines) =
    let above = initializer_list_above lines in
    if matches (re " {6}\\w") line then above else eq (take 5 line) (codes "    :")

-- `exception`: the block belongs to a function header or an initializer list.
unfoldable pub is_header_end : List Text → ℕ → Text → Bool
unfolding initializer_list_above
is_header_end elided linenum prev_line =
    if matches (re " {6}\\w") prev_line
    then initializer_list_above (reverse (take (linenum - 1) elided))
    else (matches (re " {4}\\w[^\\(]*\\)\\s*(const\\s*)?(\\{\\s*$|:)") prev_line
        || matches (re " {4}:") prev_line)

abbrev leaves_open : Option (Text × Text) → Bool
leaves_open none = false
leaves_open (some (before, after)) = not (is_some (find after (codes "}")))

abbrev section_gap : ℕ → Option Found → List Effect
section_gap linenum none = []
section_gap linenum (some m) =
    say linenum "whitespace/blank_line" 3
      (codes "Do not leave a blank line after \"" ++ (group_text 1 m ++ codes ":\""))

-- A blank line inside a block.
unfoldable pub check_blank_line : CleansedLines → ℕ → List Effect
unfolding is_header_end line_before
check_blank_line clean_lines linenum =
    let prev_line = line_before clean_lines.elided linenum in
    let next_line = get_or clean_lines.lines_without_raw_strings (linenum + 1) [] in
    when
      (leaves_open (last_split b'{' prev_line)
        && not (is_header_end clean_lines.elided linenum prev_line))
      (say linenum "whitespace/blank_line" 2
        (codes "Redundant blank line at the start of a code block should be deleted."))
    ++ when
        (ltb (linenum + 1) clean_lines.num_lines
          && matches (re "\\s*}") next_line
          && not (is_some (find next_line (codes "} else "))))
        (say linenum "whitespace/blank_line" 3
          (codes "Redundant blank line at the end of a code block should be deleted."))
    ++ section_gap linenum (match (re "\\s*(public|protected|private):") prev_line)

-- The part of `CheckSpacing` about blank lines.
unfoldable pub check_blank_spacing : CleansedLines → ℕ → List Block → List Effect
unfolding is_blank_line check_blank_line
check_blank_spacing clean_lines linenum stack =
    when
      (is_blank_line (get_or clean_lines.lines_without_raw_strings linenum [])
        && not (in_namespace_body stack))
      (check_blank_line clean_lines linenum)

-- The first of `k` lines from line `i` on that ends in an open brace, or else `head`.
unfoldable pub end_of_class_head : ℕ → List Text → ℕ → ℕ → ℕ
unfolding found
end_of_class_head head lines i zero = head
end_of_class_head head lines i (suc k) =
    let later = end_of_class_head head lines (suc i) k in
    if found (re "\\{\\s*$") (get_or lines i []) then i else later

abbrev section_start : List Text → ClassInfo → ℕ → Option Found → List Effect
section_start lines class_info linenum none = []
section_start lines class_info linenum (some m) =
    let prev_line = get_or lines (linenum - 1) [] in
    let start = class_info.starting_linenum in
    when
      (not (is_blank_line prev_line)
        && not (found (re "\\b(class|struct)\\b") prev_line)
        && not (found (re "\\\\$") prev_line)
        && ltb (end_of_class_head start lines start (linenum - start)) (linenum - 1))
      (say linenum "whitespace/blank_line" 3
        (b'"' ∷ (group_text 1 m ++ codes ":\" should be preceded by a blank line")))

-- `CheckSectionSpacing(filename, clean_lines, class_info, linenum, error)`
unfoldable pub check_section_spacing : CleansedLines → ClassInfo → ℕ → List Effect
unfolding end_of_class_head
check_section_spacing clean_lines class_info linenum =
    when
      (not (leb (class_info.last_line - class_info.starting_linenum) 24)
        && not (leb linenum class_info.starting_linenum))
      (section_start clean_lines.lines class_info linenum
        (match (re "\\s*(public|protected|private):") (get_or clean_lines.lines linenum [])))
