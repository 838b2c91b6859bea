-- ===== src/Cleanse/MultiLineLaws.antt =====
-- The rounds of the loop of `RemoveMultiLineComments`.
use moohoorama.Base.{
  ℕ, zero, suc, ◌+◌, ◌≤◌, ◌<◌, Bool, false, ◌≡◌, refl, List, [], length, arith, All,
}
use moohoorama.Text.{Text}
use moohoorama.Cleanse.MultiLine.{
  find_next_multi_line_comment_start, find_next_multi_line_comment_end,
  remove_multi_line_comments_from_range, no_end, remove_loop,
}

abbrev pub Without : (Text → Bool) → List Text → Type 0
Without p = All (λ l. p l ≡ false)

abbrev pub begin_of : List Text → ℕ → ℕ
begin_of lines lineix = find_next_multi_line_comment_start lines lineix

abbrev pub end_of : List Text → ℕ → ℕ
end_of lines lineix = find_next_multi_line_comment_end lines (begin_of lines lineix)

module _ (fuel : ℕ) (lines : List Text) (lineix : ℕ) where
  pub remove_loop-zero : remove_loop zero lines lineix ≡ (lines, [])
  unfolding remove_loop
  remove_loop-zero = refl

  pub remove_loop_done :
      length lines ≤ begin_of lines lineix → remove_loop (suc fuel) lines lineix ≡ (lines, [])
  unfolding remove_loop
  remove_loop_done h = ground arith

  pub remove_loop_open :
      lineix < length lines
      → begin_of lines lineix < length lines
      → length lines ≤ end_of lines lineix
      → remove_loop (suc fuel) lines lineix ≡ (lines, no_end (begin_of lines lineix))
  unfolding remove_loop
  remove_loop_open i b e = ground arith

  pub remove_loop_next :
      lineix < length lines
      → begin_of lines lineix < length lines
      → end_of lines lineix < length lines
      → remove_loop (suc fuel) lines lineix
        ≡ remove_loop fuel
            (remove_multi_line_comments_from_range lines
              (begin_of lines lineix)
              (end_of lines lineix + 1))
            (end_of lines lineix + 1)
  unfolding remove_loop
  remove_loop_next i b e = ground arith
