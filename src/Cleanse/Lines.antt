-- ===== src/Cleanse/Lines.antt =====
-- `IsCppString`, `CleanseComments` and the class `CleansedLines`.
use moohoorama.Base.{
  ℕ, ◌+◌, ◌%◌, Bool, not, Option, none, some, List, [], map, length, take, ◌==◌, is_some,
  if◌then◌else◌,
}
use moohoorama.Text.{Text, codes, count, count_from, replace, replace_from, rstrip, find}
use moohoorama.Regex.{Re, match, replace_all}
use moohoorama.Regex.Syntax.{re}
use moohoorama.Cleanse.RawStrings.{cleanse_raw_strings}

unfoldable pub include_pattern : Re
unfolding re
include_pattern = re "^\\s*#\\s*include\\s*([<\"])([^>\"]*)[>\"].*$"

unfoldable pub escapes_pattern : Re
unfolding re
escapes_pattern = re "\\\\([abfnrtv?\"\\\\\\']|\\d+|x[0-9a-fA-F]+)"

unfoldable pub double_quotes_pattern : Re
unfolding re
double_quotes_pattern = re "\"[^\"]*\""

unfoldable pub single_quotes_pattern : Re
unfolding re
single_quotes_pattern = re "'.'"

-- The pattern is verbose in the source: white space in it does not count.
unfoldable pub c_comments_pattern : Re
unfolding re
c_comments_pattern = re "(\\s*/\\*.*\\*/\\s*$|/\\*.*\\*/\\s+|\\s+/\\*.*\\*/(?=\\W)|/\\*.*\\*/)"

-- The last test is on the parity of a difference a - b - c, which is that of a + b + c.
is_odd_quoted : Text → Bool
unfolding count_from
is_odd_quoted line =
    (count line (codes "\"") + count line (codes "\\\"") + count line (codes "'\"'")) % 2 == 1

-- `IsCppString(line)`
unfoldable pub is_cpp_string : Text → Bool
unfolding is_odd_quoted replace_from
is_cpp_string line = is_odd_quoted (replace line (codes "\\\\") (codes "XX"))

abbrev cut_comment : Text → Option ℕ → Text
cut_comment line none = line
cut_comment line (some commentpos) =
    if not (is_cpp_string (take commentpos line)) then rstrip (take commentpos line) else line

abbrev by {ℓ} : {A : Type ℓ} → Text → A → Text
by t m = t

-- `CleanseComments(line)`
unfoldable pub cleanse_comments : Text → Text
unfolding is_cpp_string find rstrip
cleanse_comments line =
    replace_all c_comments_pattern (by []) (cut_comment line (find line (codes "//")))

-- `CleansedLines._CollapseStrings(elided)`
unfoldable pub collapse_strings : Text → Text
collapse_strings elided =
    if is_some (match include_pattern elided)
    then elided
    else replace_all double_quotes_pattern (by (codes "\"\"")) (
        replace_all single_quotes_pattern (by (codes "''"))
          (replace_all escapes_pattern (by []) elided))

pub record CleansedLines : Type 0 where
  pub elided : List Text
  pub lines : List Text
  pub raw_lines : List Text
  pub num_lines : ℕ
  pub lines_without_raw_strings : List Text

-- `CleansedLines(lines)`
unfoldable pub cleansed_lines : List Text → CleansedLines
unfolding cleanse_raw_strings cleanse_comments collapse_strings
cleansed_lines raw =
    let without = cleanse_raw_strings raw in
    record {
      elided = map (λ line. cleanse_comments (collapse_strings line)) without;
      lines = map cleanse_comments without;
      raw_lines = raw;
      num_lines = length raw;
      lines_without_raw_strings = without;
    }
