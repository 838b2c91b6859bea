-- ===== src/CommandLine.antt =====
-- cpplint.py, `ParseArguments`. What `getopt` makes of the arguments, and `int` of a text, are arguments
-- of the definitions; numbers below zero are not modelled.
pub mod Laws
use moohoorama.Base.{
  ℕ, Bool, true, false, not, Option, none, some, List, [], ◌∷◌, ◌++◌, if◌then◌else◌,
}
use moohoorama.Text.{Text, codes, eq, contains, split_at}
use moohoorama.Lint.State.{
  LintState, set_output_format, set_verbose_level, set_filters, set_counting_style,
}

-- How the program ends early: `PrintUsage(message)`, `PrintCategories()`, or a ValueError.
pub data Exit : Type 0 where
  usage : Option Text → Exit
  categories value_error : Exit

-- The local variables of the loop, and the flags that it sets.
pub record Options : Type 0 where
  pub verbosity : ℕ
  pub output_format : Text
  pub filters : Text
  pub counting_style : Text
  pub root : Option Text
  pub line_length : ℕ
  pub valid_extensions : List Text

pub data Step : Type 0 where
  go_on : Options → Step
  leave : Exit → Step

abbrev pub output_formats : List Text
output_formats = codes "emacs" ∷ codes "vs7" ∷ codes "eclipse" ∷ []

abbrev pub counting_styles : List Text
counting_styles = codes "total" ∷ codes "toplevel" ∷ codes "detailed" ∷ []

abbrev pub with_verbosity : Options → Option ℕ → Step
with_verbosity o none = leave value_error
with_verbosity o (some n) = go_on (record o { verbosity = n })

abbrev pub with_line_length : Options → Option ℕ → Step
with_line_length o none = leave (usage (some (codes "Line length must be digits.")))
with_line_length o (some n) = go_on (record o { line_length = n })

abbrev pub with_filters : Options → Text → Step
with_filters o [] = leave categories
with_filters o (c ∷ val) = go_on (record o { filters = c ∷ val })

-- One option with its value.
unfoldable pub take_option : (Text → Option ℕ) → Options → Text → Text → Step
unfolding eq contains
take_option int o opt val =
    if eq opt (codes "--help")
    then leave (usage none)
    else if eq opt (codes "--output")
    then (if not (contains output_formats val)
        then leave
            (usage (some (codes "The only allowed output formats are emacs, vs7 and eclipse.")))
        else go_on (record o { output_format = val }))
    else if eq opt (codes "--verbose")
    then with_verbosity o (int val)
    else if eq opt (codes "--filter")
    then with_filters o val
    else if eq opt (codes "--counting")
    then (if not (contains counting_styles val)
        then leave (usage (some (codes "Valid counting options are total, toplevel, and detailed")))
        else go_on (record o { counting_style = val }))
    else if eq opt (codes "--root")
    then go_on (record o { root = some val })
    else if eq opt (codes "--linelength")
    then with_line_length o (int val)
    else if eq opt (codes "--extensions")
    then go_on (record o { valid_extensions = split_at b',' val })
    else go_on o

abbrev pub resume : (Options → Step) → Step → Step
resume f (go_on o) = f o
resume f (leave e) = leave e

-- The loop over the options.
unfoldable pub take_options : (Text → Option ℕ) → List (Text × Text) → Options → Step
unfolding take_option
take_options int [] o = go_on o
take_options int ((opt, val) ∷ opts) o = resume (take_options int opts) (take_option int o opt val)

-- What the program starts with.
unfoldable pub initial_options : LintState → Options
initial_options s = record {
  verbosity = s.verbose_level;
  output_format = s.output_format;
  filters = [];
  counting_style = [];
  root = none;
  line_length = 80;
  valid_extensions = codes "cc" ∷ codes "h" ∷ codes "cpp" ∷ codes "cu" ∷ codes "cuh" ∷ [];
}

-- The files to check, with the flags and the module-wide state, or an early end.
pub data Parsed : Type 0 where
  exits : Exit → Parsed
  runs : Options → LintState → List Text → Parsed

abbrev pub when_signed : Options → List Text → LintState × Option Text → Parsed
when_signed o filenames (s, some f) = exits value_error
when_signed o filenames (s, none) = runs o (set_counting_style o.counting_style s) filenames

-- The calls behind the loop.
unfoldable pub set_options : Options → LintState → List Text → Parsed
unfolding set_output_format set_verbose_level set_counting_style
set_options o s [] = exits (usage (some (codes "No files were specified.")))
set_options o s (filename ∷ filenames) =
    when_signed o (filename ∷ filenames) (
      set_filters o.filters (set_verbose_level o.verbosity (set_output_format o.output_format s)).0)

abbrev pub after_loop : LintState → List Text → Step → Parsed
after_loop s filenames (leave e) = exits e
after_loop s filenames (go_on o) = set_options o s filenames

-- `ParseArguments(args)`, where `none` is a GetoptError.
unfoldable pub parse_arguments :
    (Text → Option ℕ) → Option (List (Text × Text) × List Text) → LintState → Parsed
unfolding take_options set_options initial_options
parse_arguments int none s = exits (usage (some (codes "Invalid arguments.")))
parse_arguments int (some (opts, filenames)) s =
    after_loop s filenames (take_options int opts (initial_options s))
