-- ===== src/Tests/Lint.antt =====
-- The module-wide state, function lengths and the order of includes.
use moohoorama.Base.{
  ◌*◌, ◌^◌, ◌≤◌, ◌≡◌, refl, ◌⊎◌, inl, true, false, not, ◌&&◌, none, some, List, [], ◌∷◌, ◌++◌, pos,
  ltb, ◌||◌, eq_ℤ,
}
use moohoorama.Text.{Text, codes, contains, eq, find}
use moohoorama.Regex.{Found, search_re, group?}
use moohoorama.Lint.Suppressions.{
  Report, suppress, report, suppression_pattern, parse_nolint_suppressions,
  is_error_suppressed_by_nolint,
}
use moohoorama.Lint.State.{
  LintState, init, set_filters, set_counting_style, increment_error_count, Linter,
  should_print_error, run_effects,
}
use moohoorama.Lint.Filters.{
  set_filters-AllSigned, last_match, default_to, should_print_error-last_match,
  set_filters-run_effects,
}
use moohoorama.Lint.Run.{skip_line, nolint_silences}
use moohoorama.Lint.Counts.{IsTallied, run_effects-IsTallied, total}
use moohoorama.Functions.State.{FunctionState, base_trigger, check}
use moohoorama.Functions.Confidence.{LongFunction, check-LongFunction}
use moohoorama.Includes
use moohoorama.Includes.State.{
  HeaderType, c_sys, cpp_sys, likely_my, other, check_next_include_order,
}
use moohoorama.Includes.Order.{
  Ordered, check_next_include_order-Ordered, accepts, ascending, places, accepts-ascending,
}
use moohoorama.Lint.{error_categories}
use moohoorama.Lint.RoundTrip.{nolint_comment, parse_nolint_suppressions-nolint_comment}

abbrev flag : Text
flag = codes "-whitespace, +whitespace/braces,"

abbrev strict : LintState
strict = (set_filters flag init).0

flag_accepted : (set_filters flag init).1 ≡ none
unfolding set_filters
flag_accepted = refl

-- A filter with no sign is refused.
unsigned_flag : (set_filters (codes "-build,whitespace") init).1 ≡ some (codes "whitespace")
unfolding set_filters
unsigned_flag = refl

abbrev quiet : Linter
quiet = record { suppressions = []; lint = strict; stderr = [] }

abbrev braces : Report
braces = record {
  linenum = pos 3;
  category = codes "whitespace/braces";
  confidence = 4;
  message = codes "m";
}

abbrev tabs : Report
tabs = record {
  linenum = pos 3;
  category = codes "whitespace/tab";
  confidence = 1;
  message = codes "m";
}

set_filters-run_effects_example :
    (l' : Linter) × (run_effects (codes "a.cc") (report braces ∷ report tabs ∷ []) quiet ≡ some l')
    × (l'.lint.filters ≡ strict.filters)
set_filters-run_effects_example =
    set_filters-run_effects flag init (codes "a.cc") (report braces ∷ report tabs ∷ []) quiet
      flag_accepted refl

should_print_error-last_match_example :
    should_print_error [] strict braces
    ≡ some (
        not (is_error_suppressed_by_nolint braces.category braces.linenum [])
        && not (ltb braces.confidence strict.verbose_level)
        && not (default_to false (last_match strict.filters braces.category)))
should_print_error-last_match_example =
    should_print_error-last_match [] strict braces (set_filters-AllSigned flag init flag_accepted)

printed_and_not :
    (should_print_error [] strict braces ≡ some true)
    × (should_print_error [] strict tabs ≡ some false)
unfolding should_print_error set_filters init
printed_and_not = (refl, refl)

abbrev nolint_line : Text
nolint_line = codes "x = 1;  // NOLINT"

abbrev nolint_found : Found
nolint_found = record { start = 11; matched = codes "NOLINT"; after = []; groups = [] }

nolint_line_found : search_re suppression_pattern nolint_line ≡ some nolint_found
unfolding search_re suppression_pattern
nolint_line_found = refl

no_category : group? 1 nolint_found ≡ none
unfolding group?
no_category = refl

nolint_silences_example :
    run_effects
      (codes "a.cc")
      (parse_nolint_suppressions nolint_line 3 ++ (report braces ∷ []))
      quiet
    ≡ run_effects
        (codes "a.cc")
        (parse_nolint_suppressions nolint_line 3 ++ skip_line (pos 3) (report braces ∷ []))
        quiet
nolint_silences_example =
    nolint_silences (codes "a.cc") nolint_line 3 (report braces ∷ []) quiet nolint_found
      nolint_line_found (inl no_category)

nolint_named :
    parse_nolint_suppressions (codes "x;  // NOLINT(build/include)") 7
    ≡ suppress (some (codes "build/include")) 7 ∷ []
unfolding parse_nolint_suppressions search_re suppression_pattern group?
nolint_named = refl

abbrev counting : Linter
counting = record quiet { lint = set_counting_style (codes "toplevel") strict }

abbrev counted : Linter
counted = record {
  suppressions = [];
  lint = increment_error_count (codes "whitespace/braces") counting.lint;
  stderr = codes "a.cc:3:  m  [whitespace/braces] [4]\n" ∷ [];
}

counted_run : run_effects (codes "a.cc") (report braces ∷ report tabs ∷ []) counting ≡ some counted
unfolding run_effects set_filters set_counting_style init
counted_run = refl

counting-IsTallied : IsTallied counting
unfolding set_counting_style set_filters init total
counting-IsTallied = record { lines = refl; categories = λ h. refl }

run_effects-IsTallied_example : IsTallied counted
run_effects-IsTallied_example =
    run_effects-IsTallied (codes "a.cc") (report braces ∷ report tabs ∷ []) counting counted
      counting-IsTallied counted_run

abbrev long : FunctionState
long = record { in_a_function = true; lines_in_function = 1100; current_function = codes "f()" }

check-LongFunction_example :
    (long.lines_in_function ≤ base_trigger long * 2 ^ 1 × (check 1 long 40 ≡ []))
    ⊎ ((r : Report) × (check 1 long 40 ≡ report r ∷ []) × LongFunction 1 long 40 r)
check-LongFunction_example = check-LongFunction 1 long 40

check_next_include_order-Ordered_example :
    Ordered cpp_sys Includes.State.init (check_next_include_order cpp_sys Includes.State.init)
check_next_include_order-Ordered_example =
    check_next_include_order-Ordered cpp_sys Includes.State.init

abbrev usual : List HeaderType
usual = likely_my ∷ c_sys ∷ cpp_sys ∷ other ∷ []

accepts-ascending_example : accepts Includes.State.init usual ≡ ascending 0 (places true usual)
accepts-ascending_example = accepts-ascending usual

known_category : contains error_categories (codes "build/include") ≡ true
unfolding contains error_categories
known_category = refl

abbrev included_line : Text
included_line = codes "#include <a.h>  "

no_other_nolint : find included_line (codes "NOLINT") ≡ none
unfolding find
no_other_nolint = refl

parse_nolint_suppressions-nolint_comment_example :
    (parse_nolint_suppressions (included_line ++ nolint_comment (codes "build/include")) 7
      ≡ suppress (some (codes "build/include")) 7 ∷ [])
    × (is_error_suppressed_by_nolint
          (codes "build/include")
          (pos 7)
          ((some (codes "build/include"), 7) ∷ [])
        ≡ (eq (codes "build/include") (codes "build/include") && eq_ℤ (pos 7) (pos 7))
          || is_error_suppressed_by_nolint (codes "build/include") (pos 7) [])
parse_nolint_suppressions-nolint_comment_example =
    parse_nolint_suppressions-nolint_comment included_line (codes "build/include") 7
      (codes "build/include") (pos 7) [] known_category no_other_nolint
