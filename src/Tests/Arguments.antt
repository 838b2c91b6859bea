-- ===== src/Tests/Arguments.antt =====
-- Options of the command line.
use moohoorama.Base.{
  ℕ, true, ◌≡◌, refl, Option, none, some, List, [], ◌∷◌, if◌then◌else◌, ltb, false,
}
use moohoorama.Text.{Text, codes, eq, contains}
use moohoorama.Lint.State.{init, set_filters, Linter, LintState}
use moohoorama.CommandLine.{
  exits, usage, categories, value_error, output_formats, parse_arguments, Options, initial_options,
  runs,
}
use moohoorama.CommandLine.Laws.{IsParsed, parse_arguments-IsParsed}
use moohoorama.Processing.Files.{run_main}
use moohoorama.Processing.Program.{parse_arguments-run_main}
use moohoorama.Tests.Language.{environment, file}

abbrev ten : Text → Option ℕ
ten val = if eq val (codes "10") then some 10 else none

unknown_format :
    parse_arguments ten (some ((codes "--output", codes "xml") ∷ [], codes "a.cc" ∷ [])) init
    ≡ exits (usage (some (codes "The only allowed output formats are emacs, vs7 and eclipse.")))
unfolding parse_arguments
unknown_format = refl

no_files :
    parse_arguments ten (some ((codes "--verbose", codes "10") ∷ [], [])) init
    ≡ exits (usage (some (codes "No files were specified.")))
unfolding parse_arguments eq
no_files = refl

no_number :
    parse_arguments ten (some ((codes "--verbose", codes "x") ∷ [], [])) init ≡ exits value_error
unfolding parse_arguments eq
no_number = refl

empty_filter :
    parse_arguments ten (some ((codes "--filter", []) ∷ [], codes "a.cc" ∷ [])) init
    ≡ exits categories
unfolding parse_arguments
empty_filter = refl

unsigned_filter :
    parse_arguments ten (some ((codes "--filter", codes "build") ∷ [], codes "a.cc" ∷ [])) init
    ≡ exits value_error
unfolding parse_arguments set_filters
unsigned_filter = refl

emacs_at_first : contains output_formats init.output_format ≡ true
unfolding contains init
emacs_at_first = refl

abbrev arguments : Option (List (Text × Text) × List Text)
arguments = some (
  (codes "--counting", codes "detailed") ∷ (codes "--filter", codes "-build,+build/class") ∷ [],
  codes "a.cc" ∷ [],
)

parse_arguments-IsParsed_example : IsParsed (parse_arguments ten arguments init)
parse_arguments-IsParsed_example = parse_arguments-IsParsed ten arguments init emacs_at_first

-- What these arguments are read as.
abbrev options : Options
options = record (initial_options init) {
  filters = codes "-build,+build/class";
  counting_style = codes "detailed";
}

abbrev state : LintState
state = record (set_filters options.filters init).0 { counting = codes "detailed" }

arguments_read : parse_arguments ten arguments init ≡ runs options state (codes "a.cc" ∷ [])
unfolding parse_arguments set_filters init eq contains
arguments_read = refl

parse_arguments-run_main_example :
    (l' : Linter) × (run_main environment false options.valid_extensions
        (file ∷ [])
        (record { suppressions = []; lint = state; stderr = [] })
      ≡ some (l', ltb 0 l'.lint.error_count))
    × (l'.lint.filters ≡ state.filters)
parse_arguments-run_main_example =
    parse_arguments-run_main ten arguments init options state (codes "a.cc" ∷ []) environment false
      (file ∷ []) (record { suppressions = []; lint = state; stderr = [] }) emacs_at_first
      arguments_read refl
