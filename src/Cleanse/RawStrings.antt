-- ===== src/Cleanse/RawStrings.antt =====
-- `CleanseRawStrings`.
use moohoorama.Base.{ℕ, ◌+◌, Option, none, some, List, [], ◌∷◌, ◌++◌, length, drop}
use moohoorama.Text.{Text, codes, find}
use moohoorama.Regex.{Re, Found, match, group_text}
use moohoorama.Regex.Syntax.{re}

unfoldable pub leading_space_pattern : Re
unfolding re
leading_space_pattern = re "^(\\s*)\\S"

unfoldable pub raw_string_pattern : Re
unfolding re
raw_string_pattern = re "^(.*)\\b(?:R|u8R|uR|UR|LR)\"([^\\s\\\\()]*)\\((.*)$"

-- `m.group(1)` of the leading space. A line that holds the delimiter has a character that is no
-- white space, so the match is there.
abbrev pub leading_space : Option Found → Text
leading_space none = []
leading_space (some m) = group_text 1 m

-- A line inside a raw string that `delimiter` ends, at `end` if it is there: the new line, and the
-- delimiter that is still open behind it.
abbrev inside_at : Text → Text → Option ℕ → Text × Option Text
inside_at delimiter line none = ([], some delimiter)
inside_at delimiter line (some end) = (
  leading_space (match leading_space_pattern line)
      ++ (codes "\"\"" ++ drop (end + length delimiter) line),
  none,
)

-- A line outside, at the match for the beginning of a raw string if there is one.
abbrev closed_at : Text → Text → Text → Option ℕ → Text × Option Text
closed_at before delimiter after none = (before ++ codes "\"\"", some delimiter)
closed_at before delimiter after (some end) =
    (before ++ (codes "\"\"" ++ drop (end + length delimiter) after), none)

abbrev pub delimiter_of : Found → Text
delimiter_of m = codes ")" ++ (group_text 2 m ++ codes "\"")

abbrev outside_at : Text → Option Found → Text × Option Text
outside_at line none = (line, none)
outside_at line (some m) =
    closed_at (group_text 1 m) (delimiter_of m) (group_text 3 m)
      (find (group_text 3 m) (delimiter_of m))

unfoldable pub cleanse_line : Option Text → Text → Text × Option Text
cleanse_line none line = outside_at line (match raw_string_pattern line)
cleanse_line (some delimiter) line = inside_at delimiter line (find line delimiter)

-- The loop over the lines, from a delimiter that may be open.
unfoldable pub cleanse_raw_from : Option Text → List Text → List Text
unfolding cleanse_line
cleanse_raw_from d [] = []
cleanse_raw_from d (line ∷ lines) =
    let (line', d') = cleanse_line d line in line' ∷ cleanse_raw_from d' lines

-- `CleanseRawStrings(raw_lines)`
unfoldable pub cleanse_raw_strings : List Text → List Text
unfolding cleanse_raw_from
cleanse_raw_strings = cleanse_raw_from none
