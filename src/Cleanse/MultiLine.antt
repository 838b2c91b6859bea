-- ===== src/Cleanse/MultiLine.antt =====
-- `FindNextMultiLineCommentStart` to `RemoveMultiLineComments`. A search from a line is given the
-- lines from there on, with the index of the first.
use moohoorama.Base.{
  ℕ, zero, suc, ◌+◌, Bool, not, ◌&&◌, List, [], ◌∷◌, drop, length, leb, pos, is_some, if◌then◌else◌,
}
use moohoorama.Text.{Text, codes, strip, starts_with, ends_with, find}
use moohoorama.Lint.Suppressions.{Effect, reports}

-- The line starts with a comment marker, and the comment goes on beyond it.
unfoldable pub opens_comment : Text → Bool
unfolding strip starts_with find
opens_comment line =
    starts_with (strip line) (codes "/*") && not (is_some (find (drop 2 (strip line)) (codes "*/")))

unfoldable pub ends_comment : Text → Bool
unfolding strip ends_with
ends_comment line = ends_with (strip line) (codes "*/")

-- The index of the first line with a property, or the number of lines.
unfoldable pub find_line : (Text → Bool) → ℕ → List Text → ℕ
find_line p i [] = i
find_line p i (line ∷ lines) = let next = find_line p (suc i) lines in if p line then i else next

-- `FindNextMultiLineCommentStart(lines, lineix)`
abbrev pub find_next_multi_line_comment_start : List Text → ℕ → ℕ
find_next_multi_line_comment_start lines lineix = find_line opens_comment lineix (drop lineix lines)

-- `FindNextMultiLineCommentEnd(lines, lineix)`
abbrev pub find_next_multi_line_comment_end : List Text → ℕ → ℕ
find_next_multi_line_comment_end lines lineix = find_line ends_comment lineix (drop lineix lines)

abbrev pub dummy : Text
dummy = codes "// dummy"

-- `RemoveMultiLineCommentsFromRange(lines, begin, end)`
unfoldable pub remove_multi_line_comments_from_range : List Text → ℕ → ℕ → List Text
remove_multi_line_comments_from_range [] begin end = []
remove_multi_line_comments_from_range (x ∷ xs) begin zero = x ∷ xs
remove_multi_line_comments_from_range (x ∷ xs) zero (suc end) =
    dummy ∷ remove_multi_line_comments_from_range xs zero end
remove_multi_line_comments_from_range (x ∷ xs) (suc begin) (suc end) =
    x ∷ remove_multi_line_comments_from_range xs begin end

abbrev pub no_end : ℕ → List Effect
no_end begin =
    reports (pos (begin + 1)) (codes "readability/multiline_comment") 5
      (codes "Could not find end of multi-line comment")

-- The loop of `RemoveMultiLineComments`: the lines and the calls of `error`.
unfoldable pub remove_loop : ℕ → List Text → ℕ → List Text × List Effect
unfolding remove_multi_line_comments_from_range
remove_loop zero lines lineix = (lines, [])
remove_loop (suc fuel) lines lineix =
    let begin = find_next_multi_line_comment_start lines lineix in
    let end = find_next_multi_line_comment_end lines begin in
    let rest =
      remove_loop fuel (remove_multi_line_comments_from_range lines begin (end + 1)) (end + 1) in
    if leb (length lines) lineix
    then (lines, [])
    else if leb (length lines) begin
    then (lines, [])
    else if leb (length lines) end
    then (lines, no_end begin)
    else rest

-- `RemoveMultiLineComments(filename, lines, error)`
unfoldable pub remove_multi_line_comments : List Text → List Text × List Effect
unfolding remove_loop
remove_multi_line_comments lines = remove_loop (suc (length lines)) lines 0
