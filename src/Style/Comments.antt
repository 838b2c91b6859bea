-- ===== src/Style/Comments.antt =====
-- `CheckComment`, the part of `CheckSpacing` about comments, and `CheckAccess`.
use moohoorama.Base.{
  ℕ, ◌+◌, ◌-◌, ◌%◌, Bool, true, false, not, ◌&&◌, ◌||◌, Option, none, some, List, [], ◌∷◌, ◌++◌,
  get_or, take, drop, length, leb, ltb, ◌==◌,
}
use moohoorama.Text.{Text, codes, eq, find, count}
use moohoorama.Regex.{Re, Found, match, group?, group_text}
use moohoorama.Regex.Syntax.{re, space}
use moohoorama.Lint.Suppressions.{Effect}
use moohoorama.Cleanse.Lines.{CleansedLines}
use moohoorama.Nesting.Blocks.{Block, Kind, class_info}
use moohoorama.Style.Report.{matches, found, say, when}

-- `_RE_PATTERN_TODO`
unfoldable pub todo_pattern : Re
unfolding re
todo_pattern = re "^//(\\s*)TODO(\\(.+?\\))?:?(\\s|$)?"

-- What follows the colon is no blank and not the end. A group that took no part is None, which is
-- neither.
unfoldable pub is_bad_gap : Option Text → Bool
unfolding eq
is_bad_gap none = true
is_bad_gap (some t) = not (eq t (codes " ")) && not (eq t [])

abbrev todo_errors : ℕ → Option Found → List Effect
todo_errors linenum none = []
todo_errors linenum (some m) =
    when (ltb 1 (length (group_text 1 m)))
      (say linenum "whitespace/todo" 2 (codes "Too many spaces before TODO"))
    ++ when (length (group_text 2 m) == 0) (
        say linenum "readability/todo" 2
          (codes "Missing username in TODO; it should look like \"// TODO(my_username): Stuff.\""))
    ++ when (is_bad_gap (group? 3 m))
        (say linenum "whitespace/todo" 2 (codes "TODO(my_username) should be followed by a space"))

-- `CheckComment(comment, filename, linenum, error)`
unfoldable pub check_comment : Text → ℕ → List Effect
unfolding is_bad_gap
check_comment comment linenum = todo_errors linenum (match todo_pattern comment)

-- `line[pos - back] not in string.whitespace`, if there is such a character
unfoldable pub is_tight : Text → ℕ → ℕ → Bool
is_tight line pos back = leb back pos && not (space (get_or line (pos - back) 0))

-- The text of a comment that may stand at the slashes.
unfoldable pub is_comment_exception : Text → Bool
unfolding found
is_comment_exception text =
    found (re "[=/-]{4,}\\s*$") text
    || found (re "^/$") text
    || found (re "^!< ") text
    || found (re "^/< ") text
    || found (re "^/+ ") text

-- The slashes are not in quotes: `line` has an even number of quotes that are not escaped in front of
-- them. The numbers are compared without a difference, as each escaped quote is a quote.
unfoldable pub is_outside_quotes : Text → ℕ → Bool
is_outside_quotes line commentpos =
    let before = take commentpos line in
    (count before (codes "\"") - count before (codes "\\\"")) % 2 == 0

-- A comment that starts at `commentpos`.
unfoldable pub check_comment_at : Text → ℕ → ℕ → List Effect
unfolding is_tight is_comment_exception check_comment
check_comment_at line linenum commentpos =
    let text = drop (commentpos + 2) line in
    when
      (not (matches (re "^\\s*{ //") line)
        && (is_tight line commentpos 1 || is_tight line commentpos 2))
      (say linenum "whitespace/comments" 2
        (codes "At least two spaces is best between code and comments"))
    ++ when
        (ltb (commentpos + 2) (length line)
          && not (get_or text 0 0 == b' ')
          && not (is_comment_exception text))
        (say linenum "whitespace/comments" 4 (codes "Should have a space between // and comment"))
    ++ check_comment (drop commentpos line) linenum

abbrev comment_errors : Text → ℕ → Option ℕ → List Effect
comment_errors line linenum none = []
comment_errors line linenum (some commentpos) =
    when (is_outside_quotes line commentpos) (check_comment_at line linenum commentpos)

-- The part of `CheckSpacing` about comments.
unfoldable pub check_comment_spacing : Text → ℕ → List Effect
unfolding is_outside_quotes check_comment_at
check_comment_spacing line linenum = comment_errors line linenum (find line (codes "//"))

unfoldable pub disallow_pattern : Re
unfolding re
disallow_pattern =
    re "\\s*(DISALLOW_COPY_AND_ASSIGN|DISALLOW_EVIL_CONSTRUCTORS|DISALLOW_IMPLICIT_CONSTRUCTORS)"

-- The access of the innermost block, if it is a class.
abbrev pub exposed : Kind → Bool
exposed (class_info c) = not (eq c.access (codes "private"))
exposed _ = false

abbrev pub in_exposed : List Block → Bool
in_exposed [] = false
in_exposed (b ∷ bs) = exposed b.kind

abbrev access_error : ℕ → List Block → Option Found → List Effect
access_error linenum stack none = []
access_error linenum stack (some m) = when (in_exposed stack) (
    say linenum "readability/constructors" 3
      (group_text 1 m ++ codes " must be in the private: section"))

-- `CheckAccess(filename, clean_lines, linenum, nesting_state, error)`
unfoldable pub check_access : CleansedLines → ℕ → List Block → List Effect
check_access clean_lines linenum stack =
    access_error linenum stack (match disallow_pattern (get_or clean_lines.elided linenum []))
