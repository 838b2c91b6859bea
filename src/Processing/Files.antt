-- ===== src/Processing/Files.antt =====
-- `ProcessFile`, and what `main` does with the files that it gets from `ParseArguments`.
use moohoorama.Base.{
  ℕ, Bool, false, not, ◌&&◌, ◌||◌, Option, none, some, List, [], ◌∷◌, ◌++◌, map, pos, ◌==◌,
  if◌then◌else◌, ltb,
}
use moohoorama.Text.{Text, codes, eq, concat, contains, ends_with}
use moohoorama.Lint.Suppressions.{Report}
use moohoorama.Lint.State.{Linter, error, set_verbose_level, print_error_counts, reset_error_counts}
use moohoorama.FilePath.{last_split, join_with}
use moohoorama.Processing.{Environment, Names, process_file_data}

-- `line.rstrip('\r')`
unfoldable pub rstrip_returns : Text → Text
rstrip_returns [] = []
rstrip_returns (c ∷ line) =
    let rest = rstrip_returns line in
    elim rest [ [] ↦ (if c == 13 then [] else c ∷ []) | d ∷ more ↦ c ∷ d ∷ more ]

-- `carriage_return_found`
unfoldable pub has_return : List Text → Bool
unfolding ends_with
has_return [] = false
has_return (line ∷ lines) = ends_with line (13 ∷ []) || has_return lines

-- `filename[filename.rfind('.') + 1:]`
unfoldable pub extension_of : Text → Text
unfolding last_split
extension_of filename = elim (last_split b'.' filename) [ none ↦ filename | some parts ↦ parts.1 ]

abbrev printed : Text → Linter → Linter
printed message l = record l { stderr = l.stderr ++ message ∷ [] }

abbrev pub done : Text → Option Linter → Option Linter
done filename none = none
done filename (some l) =
    some (printed (concat (codes "Done processing " ∷ filename ∷ codes "\n" ∷ [])) l)

-- The error about carriage returns, reported for the whole file.
abbrev pub return_error : Report
return_error = record {
  linenum = pos 0;
  category = codes "whitespace/newline";
  confidence = 1;
  message = codes "One or more unexpected \\r (^M) found;better to use only a \\n";
}

abbrev pub with_returns : Bool → Text → Option Linter → Option Linter
with_returns report filename none = none
with_returns report filename (some l) = if report then error filename return_error l else some l

-- A file that was read. `crlf` says that lines end in `\r\n` on this system.
unfoldable pub process_lines_of :
    Environment → Bool → List Text → ℕ → Names → List Text → Linter → Option Linter
unfolding rstrip_returns has_return extension_of eq contains
process_lines_of env crlf valid_extensions vlevel names lines l =
    let file_extension = extension_of names.filename in
    if not (eq names.filename (codes "-")) && not (contains valid_extensions file_extension)
    then done names.filename (
        some (
          printed
            (concat (
              codes "Ignoring "
              ∷ names.filename
              ∷ codes "; not a valid file name ("
              ∷ join_with (codes ", ") valid_extensions
              ∷ codes ")\n"
              ∷ []))
            l))
    else done names.filename (
        with_returns (has_return lines && not crlf) names.filename (
          process_file_data env vlevel (record names { file_extension = file_extension })
            (map rstrip_returns lines) l))

abbrev by_content :
    Environment → Bool → List Text → ℕ → Names → Option (List Text) → Linter → Option Linter
by_content env crlf valid_extensions vlevel names none l = some (
    printed
      (concat
        (codes "Skipping input '" ∷ names.filename ∷ codes "': Can't open for reading\n" ∷ []))
      l)
by_content env crlf valid_extensions vlevel names (some lines) l =
    process_lines_of env crlf valid_extensions vlevel names lines l

-- `ProcessFile(filename, vlevel)`; `content` has the lines that were read, or `none` for an IOError.
-- The result is `none` if an assertion fails.
unfoldable pub process_file :
    Environment → Bool → List Text → ℕ → Names → Option (List Text) → Linter → Option Linter
unfolding process_lines_of set_verbose_level
process_file env crlf valid_extensions vlevel names content l =
    by_content env crlf valid_extensions vlevel names content
      (record l { lint = (set_verbose_level vlevel l.lint).0 })

-- A file of the command line: its names, and its lines if it can be read.
abbrev pub Input : Type 0
Input = Names × Option (List Text)

abbrev pub and_then : Option Linter → (Linter → Option Linter) → Option Linter
and_then none f = none
and_then (some l) f = f l

-- `for filename in filenames: ProcessFile(filename, _cpplint_state.verbose_level)`
unfoldable pub process_files : Environment → Bool → List Text → List Input → Linter → Option Linter
process_files env crlf valid_extensions [] l = some l
process_files env crlf valid_extensions ((names, content) ∷ inputs) l =
    and_then (process_file env crlf valid_extensions l.lint.verbose_level names content l)
      (process_files env crlf valid_extensions inputs)

-- What `main` does with the files: the state at the end, which has what was printed, and whether it
-- exits with an error.
unfoldable pub finished : Option Linter → Option (Linter × Bool)
finished none = none
finished (some l) =
    some (record l { stderr = l.stderr ++ print_error_counts l.lint }, ltb 0 l.lint.error_count)

unfoldable pub run_main :
    Environment → Bool → List Text → List Input → Linter → Option (Linter × Bool)
unfolding reset_error_counts process_files finished
run_main env crlf valid_extensions inputs l =
    finished (
      process_files env crlf valid_extensions inputs
        (record l { lint = reset_error_counts l.lint }))
