-- ===== src/Lint/Suppressions.antt =====
-- `ParseNolintSuppressions` and `IsErrorSuppressedByNolint`.
use moohoorama.Base.{
  ℕ, Bool, false, ◌&&◌, ◌||◌, Option, none, some, List, [], ◌∷◌, ◌++◌, drop, ℤ, pos, eq_ℤ,
  if◌then◌else◌,
}
use moohoorama.Text.{Text, codes, eq, contains, starts_with, ends_with, drop_last}
use moohoorama.Regex.{Re, Found, search_re, group?}
use moohoorama.Regex.Syntax.{re}
use moohoorama.Lint.Tables.{error_categories}

-- A call `error(filename, linenum, category, confidence, message)`. Every check passes on its own
-- `filename`, so a report does not repeat it.
pub record Report : Type 0 where
  pub linenum : ℤ
  pub category : Text
  pub confidence : ℕ
  pub message : Text

-- What a check does to the module-wide state: it adds a line to the suppressions of a category
-- (`none` is Python's None, for all categories), or it calls `error`.
pub data Effect : Type 0 where
  suppress : Option Text → ℕ → Effect
  report : Report → Effect

abbrev pub reports : ℤ → Text → ℕ → Text → List Effect
reports n cat conf msg =
    report (record { linenum = n; category = cat; confidence = conf; message = msg }) ∷ []

unfoldable pub suppression_pattern : Re
unfolding re
suppression_pattern = re "\\bNOLINT\\b(\\([^)]*\\))?"

-- What the text in parentheses behind NOLINT does.
unfoldable pub nolint_category : Text → ℕ → List Effect
unfolding contains starts_with ends_with error_categories
nolint_category category linenum =
    if eq category (codes "(*)")
    then suppress none linenum ∷ []
    else if starts_with category (codes "(") && ends_with category (codes ")")
    then (let name = drop_last 1 (drop 1 category) in
        if contains error_categories name
        then suppress (some name) linenum ∷ []
        else reports (pos linenum) (codes "readability/nolint") 5
            (codes "Unknown NOLINT error category: " ++ name))
    else []

unfoldable pub nolint_found : Option Found → ℕ → List Effect
unfolding nolint_category
nolint_found none linenum = []
nolint_found (some m) linenum = elim (group? 1 m) [
  | none ↦ suppress none linenum ∷ []
  | some category ↦ nolint_category category linenum
]

-- `ParseNolintSuppressions(filename, raw_line, linenum, error)`
unfoldable pub parse_nolint_suppressions : Text → ℕ → List Effect
unfolding nolint_found
parse_nolint_suppressions raw_line linenum =
    nolint_found (search_re suppression_pattern raw_line) linenum

-- `_error_suppressions`: the pairs of a category and a line in it.
abbrev pub Suppressions : Type 0
Suppressions = List (Option Text × ℕ)

abbrev pub same_category : Option Text → Option Text → Bool
same_category none d = elim d [ none ↦ Bool.true | some _ ↦ false ]
same_category (some c) d = elim d [ none ↦ false | some e ↦ eq c e ]

-- `linenum in _error_suppressions.get(category, set())`
unfoldable pub suppressed_in : Option Text → ℤ → Suppressions → Bool
unfolding eq
suppressed_in category linenum [] = false
suppressed_in category linenum ((c, n) ∷ s) =
    same_category c category && eq_ℤ linenum (pos n) || suppressed_in category linenum s

-- `IsErrorSuppressedByNolint(category, linenum)`
unfoldable pub is_error_suppressed_by_nolint : Text → ℤ → Suppressions → Bool
unfolding suppressed_in
is_error_suppressed_by_nolint category linenum s =
    suppressed_in (some category) linenum s || suppressed_in none linenum s
