-- ===== src/Tests/Lines.antt =====
-- Matching, the preparation of the lines, and the matching of parentheses.
use moohoorama.Base.{
  ◌≡◌, refl, some, List, [], ◌∷◌, ◌++◌, drop, length, arith, is_some, true, false, ◌+◌, none, ◌↔◌,
}
use moohoorama.Text.{Text, codes, find, decimal}
use moohoorama.Regex.{Found, match, search_re, replace_all, group_text}
use moohoorama.Regex.Syntax.{re}
use moohoorama.Cleanse.RawStrings.{
  cleanse_raw_strings, raw_string_pattern, leading_space_pattern, leading_space, delimiter_of,
}
use moohoorama.Cleanse.MultiLine.{
  remove_multi_line_comments, no_end, opens_comment, ends_comment, find_line, dummy,
}
use moohoorama.Cleanse.Blanking.{Blanks, blanked, inside_after}
use moohoorama.Cleanse.BlankingLoop.{remove_multi_line_comments-Blanks}
use moohoorama.Cleanse.Lines.{
  CleansedLines, cleanse_comments, c_comments_pattern, collapse_strings, include_pattern,
  double_quotes_pattern, single_quotes_pattern, escapes_pattern,
}
use moohoorama.Cleanse.Laws.{cleanse_raw_strings-multi_line, blanks}
use moohoorama.Expression.Scan.{close_expression, reverse_close_expression}
use moohoorama.Expression.Closing.{ClosedAt, close_expression-ClosedAt}
use moohoorama.TextInside.{get_text_inside}
use moohoorama.TextInside.Laws.{Balanced, get_text_inside_iff}

search_words : is_some (search_re (re "(f|ind|io|i)?stream$") (codes "iostream")) ≡ true
unfolding search_re re
search_words = refl

replace_numbers : replace_all (re "\\d+") (λ m. codes "n") (codes "a12b3") ≡ codes "anbn"
unfolding replace_all re
replace_numbers = refl

numbers : decimal 1205 ≡ codes "1205"
unfolding decimal
numbers = refl

comments_removed : cleanse_comments (codes "x = 1; /* y */ z  // w") ≡ codes "x = 1; z"
unfolding cleanse_comments replace_all c_comments_pattern
comments_removed = refl

strings_collapsed : collapse_strings (codes "f(\"a\\\"b\", 'c');") ≡ codes "f(\"\", '');"
unfolding collapse_strings replace_all match include_pattern double_quotes_pattern
    single_quotes_pattern escapes_pattern
strings_collapsed = refl

abbrev commented : List Text
commented = codes "/* a" ∷ codes "b */" ∷ codes "c;" ∷ codes "/* d" ∷ []

commented_removed :
    remove_multi_line_comments commented
    ≡ (dummy ∷ dummy ∷ codes "c;" ∷ codes "/* d" ∷ [], no_end 3)
unfolding remove_multi_line_comments find_line opens_comment ends_comment
commented_removed = refl

remove_multi_line_comments-Blanks_example :
    Blanks [] commented (remove_multi_line_comments commented)
remove_multi_line_comments-Blanks_example = remove_multi_line_comments-Blanks commented

blanked_once :
    (blanked false commented ≡ dummy ∷ dummy ∷ codes "c;" ∷ dummy ∷ [])
    × (inside_after false commented ≡ true)
unfolding blanked inside_after opens_comment ends_comment
blanked_once = (refl, refl)

abbrev opener : Text
opener = codes "s = R\"x(a"

abbrev final : Text
final = codes "  c)x\";"

abbrev opened : Found
opened = record {
  start = 0;
  matched = opener;
  after = [];
  groups = (3, codes "a") ∷ (2, codes "x") ∷ (1, codes "s = ") ∷ [];
}

opener_opens : match raw_string_pattern opener ≡ some opened
unfolding match raw_string_pattern
opener_opens = refl

cleanse_raw_strings-multi_line_example :
    cleanse_raw_strings (opener ∷ (codes "b" ∷ []) ++ (final ∷ codes "d;" ∷ []))
    ≡ (group_text 1 opened ++ codes "\"\"")
      ∷ (blanks (codes "b" ∷ [])
          ++ ((leading_space (match leading_space_pattern final)
                ++ (codes "\"\"" ++ drop (3 + length (delimiter_of opened)) final))
              ∷ cleanse_raw_strings (codes "d;" ∷ [])))
unfolding find group_text
cleanse_raw_strings-multi_line_example =
    cleanse_raw_strings-multi_line opener final (codes "b" ∷ []) (codes "d;" ∷ []) opened 3
      opener_opens refl (refl, tt) refl

abbrev call : List Text
call = codes "f(a, (b)," ∷ codes "  c(d));" ∷ []

abbrev call_lines : CleansedLines
call_lines = record {
  elided = call;
  lines = call;
  raw_lines = call;
  num_lines = 2;
  lines_without_raw_strings = call;
}

call_closed :
    close_expression call_lines 0 1
    ≡ record { line = codes "  c(d));"; linenum = 1; pos_in_line = some 7 }
unfolding close_expression
call_closed = refl

call_opened :
    reverse_close_expression call_lines 1 6
    ≡ record { line = codes "f(a, (b),"; linenum = 0; pos_in_line = some 1 }
unfolding reverse_close_expression
call_opened = refl

close_expression-ClosedAt_example :
    ClosedAt call_lines 0 1 b'(' b')' (close_expression call_lines 0 1)
close_expression-ClosedAt_example = close_expression-ClosedAt call_lines 0 1 (omega arith) refl

abbrev printed : Text
printed = codes "printf(a(), b(c()));"

arguments_printed : get_text_inside (some 7) printed ≡ some (some (codes "a(), b(c())"))
unfolding get_text_inside
arguments_printed = refl

arguments_crossed : get_text_inside (some 7) (codes "printf(a[)]);") ≡ some none
unfolding get_text_inside
arguments_crossed = refl

get_text_inside_iff_example :
    (get_text_inside (some 7) printed ≡ some (some (codes "a(), b(c())"))) ↔ (
      Balanced (codes "a(), b(c())")
      × ((rest : Text) × (drop 7 printed ≡ codes "a(), b(c())" ++ (b')' ∷ rest))))
get_text_inside_iff_example = get_text_inside_iff printed 6 (codes "a(), b(c())") refl
