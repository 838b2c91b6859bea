-- ===== src/Style/Report.antt =====
-- How the checks of style read patterns and report.
use moohoorama.Base.{ℕ, String, Bool, true, false, List, [], pos, is_some}
use moohoorama.Text.{Text, codes}
use moohoorama.Regex.{Re, match, search_re}
use moohoorama.Lint.Suppressions.{Effect, reports}

-- `Match(pattern, s)` and `Search(pattern, s)` as tests
unfoldable pub matches : Re → Text → Bool
unfolding match
matches r s = is_some (match r s)

unfoldable pub found : Re → Text → Bool
unfolding search_re
found r s = is_some (search_re r s)

-- `error(filename, linenum, category, level, message)`
abbrev pub say : ℕ → String → ℕ → Text → List Effect
say linenum category level message = reports (pos linenum) (codes category) level message

abbrev pub when : Bool → List Effect → List Effect
when true es = es
when false es = []
