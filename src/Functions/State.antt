-- ===== src/Functions/State.antt =====
-- `_FunctionState`. `_VerboseLevel()` is an argument of `check`.
use moohoorama.Base.{
  ℕ, ◌+◌, ◌*◌, ◌/◌, ◌^◌, Bool, true, false, List, [], ◌∷◌, ltb, pos, is_some, if◌then◌else◌,
}
use moohoorama.Text.{Text, codes, concat, decimal}
use moohoorama.Regex.{Re, match}
use moohoorama.Regex.Syntax.{re}
use moohoorama.Lint.Suppressions.{Report, Effect, report}
use moohoorama.Functions.Log.{log2}

abbrev pub normal_trigger : ℕ
normal_trigger = 250

abbrev pub test_trigger : ℕ
test_trigger = 400

pub record FunctionState : Type 0 where
  pub in_a_function : Bool
  pub lines_in_function : ℕ
  pub current_function : Text

-- `_FunctionState()`
unfoldable pub init : FunctionState
init = record { in_a_function = false; lines_in_function = 0; current_function = [] }

-- `Begin(function_name)`
unfoldable pub begin : Text → FunctionState → FunctionState
begin name s = record { in_a_function = true; lines_in_function = 0; current_function = name }

-- `Count()`
unfoldable pub count_line : FunctionState → FunctionState
count_line s =
    if s.in_a_function then record s { lines_in_function = s.lines_in_function + 1 } else s

unfoldable pub test_pattern : Re
unfolding re
test_pattern = re "T(EST|est)"

unfoldable pub base_trigger : FunctionState → ℕ
base_trigger s =
    if is_some (match test_pattern s.current_function) then test_trigger else normal_trigger

abbrev pub at_most_5 : ℕ → ℕ
at_most_5 n = if ltb 5 n then 5 else n

-- The error that `Check` reports.
unfoldable pub long_report : ℕ → FunctionState → ℕ → Report
unfolding decimal
long_report verbose_level s linenum = record {
  linenum = pos linenum;
  category = codes "readability/fn_size";
  confidence = at_most_5 (log2 (s.lines_in_function / base_trigger s));
  message = concat (
      codes "Small and focused functions are preferred: "
      ∷ s.current_function
      ∷ codes " has "
      ∷ decimal s.lines_in_function
      ∷ codes " non-comment lines (error triggered by exceeding "
      ∷ decimal (base_trigger s * 2 ^ verbose_level)
      ∷ codes " lines)."
      ∷ []);
}

-- `Check(error, filename, linenum)`
unfoldable pub check : ℕ → FunctionState → ℕ → List Effect
unfolding long_report
check verbose_level s linenum =
    if ltb (base_trigger s * 2 ^ verbose_level) s.lines_in_function
    then report (long_report verbose_level s linenum) ∷ []
    else []

-- `End()`
unfoldable pub end : FunctionState → FunctionState
end s = record s { in_a_function = false }
