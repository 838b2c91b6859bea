-- ===== src/Tests/Style.antt =====
-- The checks of style and of include lines.
use moohoorama.Base.{true, false, ◌≡◌, refl, inl, [], ◌∷◌, ◌++◌, map, pos, length, List, some}
use moohoorama.Text.{codes, eq, ascii_lower, strip, find, replace_from, Text}
use moohoorama.Regex.{match, search_re, group_text, group?}
use moohoorama.Lint.Suppressions.{reports}
use moohoorama.Cleanse.Lines.{CleansedLines, include_pattern}
use moohoorama.Includes.State.{IncludeState, init}
use moohoorama.Includes.Lines.{
  included_at, check_include_line, new_style_pattern, stream_pattern, included_again,
}
use moohoorama.Includes.Dictionary.{
  first_including, check_includes, or_else, check_includes-included,
}
use moohoorama.Style.Angles.{
  find_next_matching_angle_bracket, find_previous_matching_angle_bracket, is_operator,
}
use moohoorama.Style.Angles.Laws.{done, char, find_next-Template}
use moohoorama.Regex.Syntax.{re}
use moohoorama.Expression.Scan.{find_end_of_expression_in_line}
use moohoorama.Style.Report.{matches}
use moohoorama.Style.Macros.{
  check_check, check_macros, check_replacement, constant_pattern, check_alt_tokens,
  alt_token_pattern, alt_token_replacement,
}
use moohoorama.Style.Macros.Operands.{
  Parsed, find_operands, operator_token_pattern, operand_pattern, one_character_pattern,
}
use moohoorama.Style.Macros.Loop.{find_operands-some}
use moohoorama.Style.Calls.{check_spacing_for_function_call, control_patterns}
use moohoorama.Style.Comments.{check_comment, todo_pattern}
use moohoorama.Style.Braces.{check_block_semicolon, check_else_sides, check_empty_block_body}
use moohoorama.Style.Blanks.{check_blank_spacing, get_previous_non_blank_line}
use moohoorama.Style.Operators.{check_operators}
use moohoorama.FilePath.{last_split}
use moohoorama.Nesting.Update.{in_namespace_body}
use moohoorama.Style.Blanks.Laws.{IsPrevious, get_previous_non_blank_line-IsPrevious}

abbrev source : CleansedLines
source = record {
  elided = codes "vector<pair<int, a> >" ∷ codes "> x;" ∷ [];
  lines = codes "#include \"a/b.h\"" ∷ codes "#include <map>" ∷ codes "#include \"a/b.h\"" ∷ [];
  raw_lines = [];
  lines_without_raw_strings = [];
  num_lines = 3;
}

template_closed : find_next_matching_angle_bracket source 0 (codes "pair<int>") ≡ true
unfolding find_next_matching_angle_bracket
template_closed = refl

comparison : find_next_matching_angle_bracket source 0 (codes " b) {") ≡ false
unfolding find_next_matching_angle_bracket
comparison = refl

template_opened : find_previous_matching_angle_bracket source 1 (codes " y(b, c)") ≡ true
unfolding find_previous_matching_angle_bracket
template_opened = refl

find_next-Template_example :
    find_next_matching_angle_bracket source 0 (codes "a" ++ (b'>' ∷ codes " x;")) ≡ true
unfolding is_operator
find_next-Template_example =
    find_next-Template source 0 b'>' (codes " x;") (char refl done) (inl refl)

angle_in_angle : find_next_matching_angle_bracket source 0 (codes "a<b>, c") ≡ true
unfolding find_next_matching_angle_bracket
angle_in_angle = refl

-- Three lines of includes.
abbrev after : IncludeState
after = check_includes (map ascii_lower) (codes "a/b.cc") (codes "a/b.cc") source 0 2 init

check_includes-included_example :
    included_at (codes "a/b.h") after.included
    ≡ or_else
        (included_at (codes "a/b.h") init.included)
        (first_including (codes "a/b.h") source 0 2)
check_includes-included_example =
    check_includes-included (map ascii_lower) (codes "a/b.cc") (codes "a/b.cc") source
      (codes "a/b.h") 0 2 init

abbrev recorded : IncludeState
recorded = record init { included = (codes "a/b.h", 0) ∷ [] }

second_include :
    check_include_line (map ascii_lower) (codes "a/b.cc") (codes "a/b.cc") source 2 recorded ≡ (
      recorded,
      reports (pos 2) (codes "build/include") 4 (codes "\"a/b.h\" already included at a/b.cc:0"),
    )
unfolding check_include_line included_at search_re include_pattern new_style_pattern match
    stream_pattern group_text included_again eq
second_include = refl

-- One line of code as a file, under a first line.
abbrev lines_of : List Text → CleansedLines
lines_of lines = record {
  elided = lines;
  lines = lines;
  raw_lines = lines;
  lines_without_raw_strings = lines;
  num_lines = length lines;
}

check_suggested :
    check_check (lines_of (codes "  CHECK((a) == 42);" ∷ [])) 0
    ≡ reports
        (pos 0)
        (codes "readability/check")
        2
        (codes "Consider using CHECK_EQ instead of CHECK(a == b)")
unfolding check_check check_macros re search_re match constant_pattern operator_token_pattern
    operand_pattern one_character_pattern check_replacement strip group_text
    find_end_of_expression_in_line find matches
check_suggested = refl

conjunction_kept : check_check (lines_of (codes "CHECK(a == 42 && b)" ∷ [])) 0 ≡ []
unfolding check_check check_macros re search_re match constant_pattern operator_token_pattern
    operand_pattern one_character_pattern check_replacement strip group_text
    find_end_of_expression_in_line find
conjunction_kept = refl

find_operands-some_example : (p : Parsed) × (find_operands (codes "(a) == 42") ≡ some p)
find_operands-some_example = find_operands-some (codes "(a) == 42")

alt_tokens :
    check_alt_tokens (lines_of (codes "if (a and not_eq)" ∷ [])) 0
    ≡ reports (pos 0) (codes "readability/alt_tokens") 2 (codes "Use operator && instead of and")
unfolding check_alt_tokens re search_re match alt_token_pattern alt_token_replacement group_text
    find eq
alt_tokens = refl

call_spacing :
    check_spacing_for_function_call (codes "if (f( x)) {") 3
    ≡ reports (pos 3) (codes "whitespace/parens") 4 (codes "Extra space after ( in function call")
unfolding check_spacing_for_function_call control_patterns re search_re group_text
call_spacing = refl

todo_without_name :
    check_comment (codes "// TODO: x") 3
    ≡ reports
        (pos 3)
        (codes "readability/todo")
        2
        (codes "Missing username in TODO; it should look like \"// TODO(my_username): Stuff.\"")
unfolding check_comment todo_pattern match group_text group?
todo_without_name = refl

todo_at_end : check_comment (codes "// TODO(me)") 3 ≡ []
unfolding check_comment todo_pattern match group_text group?
todo_at_end = refl

-- A colon that is followed by a character which is no space: the last group takes no part.
todo_tight :
    check_comment (codes "// TODO(me):x") 3
    ≡ reports
        (pos 3)
        (codes "whitespace/todo")
        2
        (codes "TODO(my_username) should be followed by a space")
unfolding check_comment todo_pattern match group_text group?
todo_tight = refl

semicolon_behind_block :
    check_block_semicolon (lines_of (codes "while (x) {};" ∷ [])) 0 (codes "while (x) {};")
    ≡ reports (pos 0) (codes "readability/braces") 4 (codes "You don't need a ; after a }")
unfolding check_block_semicolon re search_re group_text last_split matches
semicolon_behind_block = refl

else_on_one_side :
    check_else_sides (lines_of (codes "} else" ∷ [])) 0 (codes "} else")
    ≡ reports
        (pos 0)
        (codes "readability/braces")
        5
        (codes "If an else has a brace on one side, it should have it on both")
unfolding check_else_sides re search_re
else_on_one_side = refl

empty_loop :
    check_empty_block_body (lines_of (codes "for (;;);" ∷ [])) 0
    ≡ reports
        (pos 0)
        (codes "whitespace/empty_loop_body")
        5
        (codes "Empty loop bodies should use {} or continue")
unfolding check_empty_block_body re search_re group_text find
empty_loop = refl

blank_behind_brace :
    check_blank_spacing (lines_of (codes "f() {" ∷ [] ∷ codes "  x;" ∷ [])) 1 []
    ≡ reports
        (pos 1)
        (codes "whitespace/blank_line")
        2
        (codes "Redundant blank line at the start of a code block should be deleted.")
unfolding check_blank_spacing re search_re match find in_namespace_body last_split
blank_behind_brace = refl

operators_tight :
    check_operators (λ s. false) (lines_of (codes "a<b && c==d" ∷ [])) 0 (codes "a<b) c==d")
    ≡ reports (pos 0) (codes "whitespace/operators") 3 (codes "Missing spaces around ==")
      ++ reports (pos 0) (codes "whitespace/operators") 3 (codes "Missing spaces around <")
unfolding check_operators re search_re group_text matches replace_from
operators_tight = refl

get_previous_non_blank_line-IsPrevious_example :
    IsPrevious
      (lines_of (codes "a" ∷ [] ∷ codes " " ∷ codes "b" ∷ []))
      3
      (get_previous_non_blank_line (lines_of (codes "a" ∷ [] ∷ codes " " ∷ codes "b" ∷ [])) 3)
get_previous_non_blank_line-IsPrevious_example =
    get_previous_non_blank_line-IsPrevious (lines_of (codes "a" ∷ [] ∷ codes " " ∷ codes "b" ∷ []))
      3
