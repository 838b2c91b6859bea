-- ===== src/Lint/State.antt =====
-- `_CppLintState`, `_ShouldPrintError` and `Error`.
use moohoorama.Base.{
  ℕ, ◌+◌, Bool, false, not, ◌||◌, Option, none, some, List, [], ◌∷◌, ◌++◌, drop, ltb, ◌==◌, length,
  if◌then◌else◌,
}
use moohoorama.Text.{
  Text, codes, eq, contains, starts_with, strip_bytes, split_at, split_at_onto, concat, decimal,
  decimal_ℤ,
}
use moohoorama.Lint.Tables.{default_filters}
use moohoorama.Lint.Suppressions.{
  Report, Effect, suppress, report, Suppressions, is_error_suppressed_by_nolint,
}

pub record LintState : Type 0 where
  pub verbose_level : ℕ
  pub error_count : ℕ
  pub filters : List Text
  pub counting : Text
  pub errors_by_category : List (Text × ℕ)
  pub output_format : Text

-- `_CppLintState()`
unfoldable pub init : LintState
unfolding default_filters
init = record {
  verbose_level = 1;
  error_count = 0;
  filters = default_filters;
  counting = codes "total";
  errors_by_category = [];
  output_format = codes "emacs";
}

unfoldable pub set_output_format : Text → LintState → LintState
set_output_format format s = record s { output_format = format }

-- The previous level comes back too.
unfoldable pub set_verbose_level : ℕ → LintState → LintState × ℕ
set_verbose_level level s = (record s { verbose_level = level }, s.verbose_level)

unfoldable pub set_counting_style : Text → LintState → LintState
set_counting_style style s = record s { counting = style }

unfoldable pub is_signed : Text → Bool
unfolding starts_with
is_signed filt = starts_with filt (codes "+") || starts_with filt (codes "-")

-- The filters of the flag, a byte string, stripped, without the empty ones.
clean_filters : List Text → List Text
clean_filters [] = []
clean_filters (f ∷ fs) =
    let rest = clean_filters fs in
    let clean_filt = strip_bytes f in if length clean_filt == 0 then rest else clean_filt ∷ rest

-- The first filter with no sign, for which `SetFilters` raises ValueError.
unfoldable pub first_unsigned : List Text → Option Text
unfolding is_signed
first_unsigned [] = none
first_unsigned (f ∷ fs) = let rest = first_unsigned fs in if is_signed f then rest else some f

-- `SetFilters(filters)`: the new state, in which the filters stand also if it raises, and the
-- filter that the ValueError names.
unfoldable pub set_filters : Text → LintState → LintState × Option Text
unfolding default_filters clean_filters first_unsigned strip_bytes split_at_onto
set_filters flag s =
    let filters = default_filters ++ clean_filters (split_at b',' flag) in
    (record s { filters = filters }, first_unsigned filters)

unfoldable pub reset_error_counts : LintState → LintState
reset_error_counts s = record s { error_count = 0; errors_by_category = [] }

-- `if category not in d: d[category] = 0`, then `d[category] += 1`
unfoldable pub bump : Text → List (Text × ℕ) → List (Text × ℕ)
unfolding eq
bump category [] = (category, 1) ∷ []
bump category ((c, n) ∷ d) =
    let rest = bump category d in if eq c category then (c, n + 1) ∷ d else (c, n) ∷ rest

abbrev head_or_empty : List Text → Text
head_or_empty [] = []
head_or_empty (t ∷ ts) = t

-- The key under which an error of a category is counted.
unfoldable pub counted_as : Text → Text → Text
unfolding eq split_at_onto
counted_as counting category =
    if eq counting (codes "detailed") then category else head_or_empty (split_at b'/' category)

unfoldable pub increment_error_count : Text → LintState → LintState
unfolding contains bump counted_as
increment_error_count category s = record s {
  error_count = s.error_count + 1;
  errors_by_category =
      if contains (codes "toplevel" ∷ codes "detailed" ∷ []) s.counting
      then bump (counted_as s.counting category) s.errors_by_category
      else s.errors_by_category;
}

category_lines : List (Text × ℕ) → List Text
unfolding decimal
category_lines [] = []
category_lines ((c, n) ∷ d) =
    concat (codes "Category '" ∷ c ∷ codes "' errors found: " ∷ decimal n ∷ codes "\n" ∷ [])
    ∷ category_lines d

-- What `PrintErrorCounts` writes; the order of the categories is that of their first errors.
unfoldable pub print_error_counts : LintState → List Text
unfolding category_lines
print_error_counts s =
    category_lines s.errors_by_category
    ++ concat (codes "Total errors found: " ∷ decimal s.error_count ∷ codes "\n" ∷ []) ∷ []

-- The loop over the filters. `none` is the failure of `assert False`.
unfoldable pub filter_out : List Text → Text → Bool → Option Bool
unfolding starts_with
filter_out [] category is_filtered = some is_filtered
filter_out (f ∷ fs) category is_filtered =
    let hit = starts_with category (drop 1 f) in
    let minus = starts_with f (codes "-") in
    let rest = filter_out fs category (if hit then minus else is_filtered) in
    if minus || starts_with f (codes "+") then rest else none

-- `_ShouldPrintError(category, confidence, linenum)`
unfoldable pub should_print_error : Suppressions → LintState → Report → Option Bool
unfolding is_error_suppressed_by_nolint filter_out
should_print_error sup s r =
    if is_error_suppressed_by_nolint r.category r.linenum sup
    then some false
    else if ltb r.confidence s.verbose_level
    then some false
    else elim (filter_out s.filters r.category false) [
      | none ↦ none
      | some is_filtered ↦ some (not is_filtered)
    ]

-- The line that `Error` writes to stderr.
unfoldable pub format_error : Text → Text → Report → Text
unfolding eq decimal decimal_ℤ
format_error format filename r =
    let tail = codes "  [" ∷ r.category ∷ codes "] [" ∷ decimal r.confidence ∷ codes "]\n" ∷ [] in
    if eq format (codes "vs7")
    then concat (filename ∷ codes "(" ∷ decimal_ℤ r.linenum ∷ codes "):  " ∷ r.message ∷ tail)
    else if eq format (codes "eclipse")
    then concat
        (filename ∷ codes ":" ∷ decimal_ℤ r.linenum ∷ codes ": warning: " ∷ r.message ∷ tail)
    else concat (filename ∷ codes ":" ∷ decimal_ℤ r.linenum ∷ codes ":  " ∷ r.message ∷ tail)

-- The module-wide state, with the lines written to stderr so far.
pub record Linter : Type 0 where
  pub suppressions : Suppressions
  pub lint : LintState
  pub stderr : List Text

-- `ResetNolintSuppressions()`
unfoldable pub reset_nolint_suppressions : Linter → Linter
reset_nolint_suppressions l = record l { suppressions = [] }

unfoldable pub write_error : Text → Report → Linter → Linter
unfolding increment_error_count format_error
write_error filename r l = record l {
  lint = increment_error_count r.category l.lint;
  stderr = l.stderr ++ format_error l.lint.output_format filename r ∷ [];
}

-- `Error(filename, linenum, category, confidence, message)`
unfoldable pub error : Text → Report → Linter → Option Linter
unfolding should_print_error write_error
error filename r l = elim (should_print_error l.suppressions l.lint r) [
  | none ↦ none
  | some printed ↦ some (if printed then write_error filename r l else l)
]

-- The effects of a check, in order.
unfoldable pub perform : Text → Effect → Linter → Option Linter
unfolding error
perform filename (suppress category n) l =
    some (record l { suppressions = (category, n) ∷ l.suppressions })
perform filename (report r) l = error filename r l

unfoldable pub run_effects : Text → List Effect → Linter → Option Linter
unfolding perform
run_effects filename [] l = some l
run_effects filename (e ∷ es) l = elim (perform filename e l) [
  | none ↦ none
  | some l' ↦ run_effects filename es l'
]
