-- ===== src/FileChecks.antt =====
-- cpplint.py, small checks on a whole file or on one line: `CheckForCopyright`,
-- `CheckForBadCharacters`, `CheckForNewlineAtEOF`, `CheckForMultilineCommentsAndStrings`,
-- `CheckVlogArguments` and `CheckInvalidIncrement`.
pub mod Laws
use moohoorama.Base.{
  ℕ, zero, suc, ◌+◌, ◌%◌, Bool, true, false, not, ◌&&◌, ◌||◌, Option, none, some, List, [], ◌∷◌,
  ◌++◌, get_or, pos, sub_ℕ, ltb, length, take, drop, ◌==◌, is_some, if◌then◌else◌, ◌-◌,
}
use moohoorama.Text.{Text, codes, count, count_from, replace, replace_from}
use moohoorama.Regex.{Re, match, search_re}
use moohoorama.Regex.Syntax.{re}
use moohoorama.Lint.Suppressions.{Effect, reports}
use moohoorama.Cleanse.Lines.{CleansedLines}

-- `re.search(r'Copyright', line, re.I)`
unfoldable pub copyright_pattern : Re
unfolding re
copyright_pattern = re "[Cc][Oo][Pp][Yy][Rr][Ii][Gg][Hh][Tt]"

find_copyright : List Text → List Effect
find_copyright [] = reports (pos 0) (codes "legal/copyright") 5 (
    codes
      "No copyright message found.  You should have a line: \"Copyright [year] <Copyright Owner>\"")
find_copyright (line ∷ lines) =
    let rest = find_copyright lines in
    if is_some (search_re copyright_pattern line) then [] else rest

-- `CheckForCopyright(filename, lines, error)`: the lines 1 to 10
unfoldable pub check_for_copyright : List Text → List Effect
unfolding find_copyright
check_for_copyright lines = find_copyright (take 10 (drop 1 lines))

-- `c in line`
unfoldable pub has_char : ℕ → Text → Bool
has_char x [] = false
has_char x (c ∷ line) = c == x || has_char x line

unfoldable pub bad_characters : ℕ → Text → List Effect
unfolding has_char
bad_characters linenum line =
    (if has_char 0xfffd line
      then reports (pos linenum) (codes "readability/utf8") 5
          (codes "Line contains invalid UTF-8 (or Unicode replacement character).")
      else [])
    ++ (if has_char 0 line
        then reports (pos linenum) (codes "readability/nul") 5 (codes "Line contains NUL byte.")
        else [])

bad_characters_from : ℕ → List Text → List Effect
unfolding bad_characters
bad_characters_from linenum [] = []
bad_characters_from linenum (line ∷ lines) =
    bad_characters linenum line ++ bad_characters_from (suc linenum) lines

-- `CheckForBadCharacters(filename, lines, error)`
unfoldable pub check_for_bad_characters : List Text → List Effect
unfolding bad_characters_from
check_for_bad_characters = bad_characters_from 0

abbrev is_empty : Text → Bool
is_empty [] = true
is_empty (c ∷ t) = false

-- `CheckForNewlineAtEOF(filename, lines, error)`; `lines[-2]` is looked at if there are three lines
unfoldable pub check_for_newline_at_eof : List Text → List Effect
check_for_newline_at_eof lines =
    if ltb (length lines) 3 || not (is_empty (get_or lines (length lines - 2) []))
    then reports (sub_ℕ (length lines) 2) (codes "whitespace/ending_newline") 5
        (codes "Could not find a newline character at the end of the file.")
    else []

-- `CheckForMultilineCommentsAndStrings(filename, clean_lines, linenum, error)`. A difference is odd
-- exactly if the sum is.
unfoldable pub check_for_multiline_comments_and_strings : CleansedLines → ℕ → List Effect
unfolding count_from replace_from
check_for_multiline_comments_and_strings clean_lines linenum =
    let line = replace (get_or clean_lines.elided linenum []) (codes "\\\\") [] in
    (if ltb (count line (codes "*/")) (count line (codes "/*"))
      then reports (pos linenum) (codes "readability/multiline_comment") 5 (
          codes
            "Complex multi-line /*...*/-style comment found. Lint may give bogus warnings.  Consider replacing these with //-style comments, with #if 0...#endif, or with more clearly structured multi-line comments.")
      else [])
    ++ (if (count line (codes "\"") + count line (codes "\\\"")) % 2 == 0
        then []
        else reports (pos linenum) (codes "readability/multiline_string") 5 (
            codes
              "Multi-line string (\"...\") found.  This lint script doesn't do well with such strings, and may give bogus warnings.  Use C++11 raw strings or concatenation instead."))

unfoldable pub vlog_pattern : Re
unfolding re
vlog_pattern = re "\\bVLOG\\((INFO|ERROR|WARNING|DFATAL|FATAL)\\)"

-- `CheckVlogArguments(filename, clean_lines, linenum, error)`
unfoldable pub check_vlog_arguments : CleansedLines → ℕ → List Effect
check_vlog_arguments clean_lines linenum =
    if is_some (search_re vlog_pattern (get_or clean_lines.elided linenum []))
    then reports (pos linenum) (codes "runtime/vlog") 5 (
        codes
          "VLOG() should be used with numeric verbosity level.  Use LOG() if you want symbolic severity levels.")
    else []

unfoldable pub invalid_increment_pattern : Re
unfolding re
invalid_increment_pattern = re "^\\s*\\*\\w+(\\+\\+|--);"

-- `CheckInvalidIncrement(filename, clean_lines, linenum, error)`
unfoldable pub check_invalid_increment : CleansedLines → ℕ → List Effect
check_invalid_increment clean_lines linenum =
    if is_some (match invalid_increment_pattern (get_or clean_lines.elided linenum []))
    then reports (pos linenum) (codes "runtime/invalid_increment") 5
        (codes "Changing pointer instead of value (or unused value of operator*).")
    else []
