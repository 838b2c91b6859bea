-- ===== src/Processing.antt =====
-- cpplint.py, `ProcessLine` and `ProcessFileData`; there are no extra check functions. The names that
-- `FileInfo` and `GetHeaderGuardCPPVariable` find for the file are arguments.
pub mod Files
pub mod Run
pub mod Assertions
pub mod Program
use mathlib.Core.Option
use moohoorama.Base.{
  ℕ, zero, suc, ◌+◌, Bool, true, false, not, ◌&&◌, Option, none, some, List, [], ◌∷◌, ◌++◌, map,
  get_or, if◌then◌else◌,
}
use moohoorama.Text.{Text, codes, eq}
use moohoorama.Lint.Suppressions.{Effect, parse_nolint_suppressions}
use moohoorama.Lint.State.{Linter, reset_nolint_suppressions, run_effects}
use moohoorama.Cleanse.Lines.{CleansedLines, cleansed_lines}
use moohoorama.Cleanse.MultiLine.{remove_multi_line_comments}
use moohoorama.FileChecks.{
  check_for_copyright, check_for_bad_characters, check_for_newline_at_eof,
  check_for_multiline_comments_and_strings, check_vlog_arguments, check_invalid_increment,
}
use moohoorama.HeaderGuard.{check_for_header_guard}
use moohoorama.Functions.State.{FunctionState}
use moohoorama.Functions.Lengths.{check_for_function_lengths}
use moohoorama.Includes.State.{IncludeState}
use moohoorama.Includes.Required.{check_for_include_what_you_use}
use moohoorama.Nesting.Blocks.{Block, Asm, no_asm, inside_asm, end_asm, block_asm}
use moohoorama.Nesting.Preprocessor.{NestingState}
use moohoorama.Nesting.Update.{update, check_completed_blocks}
use moohoorama.Style.Lines.{Unicode, check_style}
use moohoorama.Language.Functions.{check_posix_threading, check_make_pair_uses_deduction}
use moohoorama.Language.Constructs.{check_for_non_standard_constructs}
use moohoorama.Language.Types.Include.{check_language}
use moohoorama.Language.References.{check_for_non_const_reference}

-- What Python and the operating system say, and `_line_length`.
pub record Environment : Type 0 where
  pub unicode : Unicode
  pub isalnum : ℕ → Bool
  pub lower : Text → Text
  pub read_lines : Text → Option (List Text)
  pub line_length : ℕ

-- The names of a file: as it is given, its extension, its full name, its name in the repository, and
-- the variable of its header guard.
pub record Names : Type 0 where
  pub filename : Text
  pub file_extension : Text
  pub full : Text
  pub repository : Text
  pub cppvar : Text

pub record FileState : Type 0 where
  pub include_state : IncludeState
  pub function_state : FunctionState
  pub nesting_state : NestingState

abbrev is_assembly : Asm → Bool
is_assembly no_asm = false
is_assembly _ = true

-- `nesting_state.stack and nesting_state.stack[-1].inline_asm != _NO_ASM`
unfoldable pub in_assembly : List Block → Bool
in_assembly [] = false
in_assembly (b ∷ bs) = is_assembly b.inline_asm

-- The checks of a line behind the update of the nesting state; `none` is a failed assertion.
unfoldable pub check_line :
    Environment → ℕ → Names → CleansedLines → ℕ → FileState → Option (FileState × List Effect)
check_line env verbose_level names clean_lines line s =
    let stack = s.nesting_state.stack in
    let (function_state, too_long) =
      check_for_function_lengths verbose_level clean_lines line s.function_state in
    Option.map
      (λ (checked : IncludeState × List Effect).
        let (include_state, language) = checked in
        (
          record s { function_state = function_state; include_state = include_state },
          too_long
              ++ check_for_multiline_comments_and_strings clean_lines line
              ++ check_style env.unicode env.line_length names.cppvar clean_lines line
                  names.file_extension stack
              ++ language
              ++ check_for_non_const_reference clean_lines line stack
              ++ check_for_non_standard_constructs clean_lines line stack
              ++ check_vlog_arguments clean_lines line
              ++ check_posix_threading env.isalnum clean_lines line
              ++ check_invalid_increment clean_lines line
              ++ check_make_pair_uses_deduction clean_lines line,
        ))
      (check_language env.lower names.repository names.filename clean_lines line
        names.file_extension s.include_state)

-- `ProcessLine(filename, file_extension, clean_lines, line, include_state, function_state,
-- nesting_state, error)`; `none` is a failed assertion
unfoldable pub process_line :
    Environment → ℕ → Names → CleansedLines → ℕ → FileState → Option (FileState × List Effect)
unfolding in_assembly check_line
process_line env verbose_level names clean_lines line s =
    let suppressions = parse_nolint_suppressions (get_or clean_lines.raw_lines line []) line in
    let (nesting_state, nesting) = update clean_lines line s.nesting_state in
    let s' = record s { nesting_state = nesting_state } in
    if in_assembly nesting_state.stack
    then some (s', suppressions ++ nesting)
    else Option.map
        (λ (checked : FileState × List Effect). (checked.0, suppressions ++ (nesting ++ checked.1)))
        (check_line env verbose_level names clean_lines line s')

-- The loop over `k` lines from line `n` on.
unfoldable pub process_lines :
    Environment → ℕ → Names → CleansedLines → ℕ → ℕ → FileState → Option (FileState × List Effect)
process_lines env verbose_level names clean_lines n zero s = some (s, [])
process_lines env verbose_level names clean_lines n (suc k) s =
    Option.bind (process_line env verbose_level names clean_lines n s)
      (λ (r : FileState × List Effect).
        Option.map (λ (later : FileState × List Effect). (later.0, r.1 ++ later.1))
          (process_lines env verbose_level names clean_lines (suc n) k r.0))

abbrev initial : FileState
initial = record {
  include_state = moohoorama.Includes.State.init;
  function_state = moohoorama.Functions.State.init;
  nesting_state = moohoorama.Nesting.Preprocessor.init;
}

unfoldable pub marked : List Text → List Text
marked lines =
    codes "// marker so line numbers and indices both start at 1" ∷ lines
    ++ codes "// marker so line numbers end in a known way" ∷ []

-- The calls of `ProcessFileData` behind `ResetNolintSuppressions`; `none` is a failed assertion.
unfoldable pub file_effects : Environment → ℕ → Names → List Text → Option (List Effect)
unfolding eq marked
file_effects env verbose_level names file_lines =
    let all_lines = marked file_lines in
    let (lines, unterminated) = remove_multi_line_comments all_lines in
    let clean_lines = cleansed_lines lines in
    Option.map
      (λ (r : FileState × List Effect).
        let (s, errors) = r in
        check_for_copyright all_lines
        ++ (if eq names.file_extension (codes "h")
            then check_for_header_guard names.cppvar all_lines
            else [])
        ++ unterminated
        ++ errors
        ++ check_completed_blocks s.nesting_state
        ++ check_for_include_what_you_use env.read_lines names.full names.filename clean_lines
            (map (λ (entry : Text × ℕ). entry.0) s.include_state.included)
        ++ check_for_bad_characters lines
        ++ check_for_newline_at_eof lines)
      (process_lines env verbose_level names clean_lines 0 clean_lines.num_lines initial)

-- `ProcessFileData(filename, file_extension, lines, error)`
unfoldable pub process_file_data : Environment → ℕ → Names → List Text → Linter → Option Linter
unfolding reset_nolint_suppressions run_effects
process_file_data env verbose_level names lines l =
    Option.bind (file_effects env verbose_level names lines)
      (λ (effects : List Effect). run_effects names.filename effects (reset_nolint_suppressions l))
