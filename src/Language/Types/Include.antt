-- ===== src/Language/Types/Include.antt =====
-- `CheckLanguage`
use mathlib.Core.Option
use moohoorama.Base.{ℕ, Option, some, List, [], ◌∷◌, get_or, if◌then◌else◌}
use moohoorama.Text.{Text}
use moohoorama.Regex.Syntax.{re}
use moohoorama.Lint.Suppressions.{Effect}
use moohoorama.Cleanse.Lines.{CleansedLines, include_pattern}
use moohoorama.Includes.State.{IncludeState, reset_section}
use moohoorama.Includes.Lines.{check_include_line}
use moohoorama.Style.Report.{matches, found}
use moohoorama.Language.Types.{check_code}

-- Directives for conditional includes start the sections of includes again.
unfoldable pub at_conditional : Text → IncludeState → IncludeState
unfolding matches reset_section
at_conditional line s =
    if matches (re "^\\s*#\\s*(?:ifdef|elif|else|endif)\\b") line then reset_section s else s

abbrev pub by_line :
    (Text → Text)
    → Text
    → Text
    → CleansedLines
    → ℕ
    → Text
    → IncludeState
    → Text
    → Option (IncludeState × List Effect)
by_line lower repository filename clean_lines linenum file_extension s [] = some (s, [])
by_line lower repository filename clean_lines linenum file_extension s (c ∷ line) =
    if found include_pattern (c ∷ line)
    then some (check_include_line lower repository filename clean_lines linenum s)
    else Option.map (λ (errors : List Effect). (at_conditional (c ∷ line) s, errors))
        (check_code clean_lines linenum file_extension (c ∷ line))

-- `CheckLanguage(filename, clean_lines, linenum, file_extension, include_state, nesting_state, error)`;
-- `none` is a failed assertion
unfoldable pub check_language :
    (Text → Text)
    → Text
    → Text
    → CleansedLines
    → ℕ
    → Text
    → IncludeState
    → Option (IncludeState × List Effect)
unfolding at_conditional found
check_language lower repository filename clean_lines linenum file_extension s =
    by_line lower repository filename clean_lines linenum file_extension s
      (get_or clean_lines.elided linenum [])
