-- ===== src/Processing/Run.antt =====
-- A whole run of the program meets no failed assertion.
use mathlib.Core.Option
use moohoorama.Base.{
  ℕ, Bool, true, false, not, ◌&&◌, ◌≡◌, refl, ◌∙◌, inl, inr, Bool-cases, Option, none, some, List,
  [], ◌∷◌, ◌++◌, map, ap, some-inj, none-ne-some, ltb,
}
use moohoorama.Text.{Text, codes, eq, contains}
use moohoorama.Lint.Suppressions.{report}
use moohoorama.Lint.State.{
  Linter, error, set_verbose_level, reset_error_counts, reset_nolint_suppressions, perform,
  print_error_counts,
}
use moohoorama.Lint.Filters.{AllSigned, Keeps, perform-Keeps, run_effects-Keeps}
use moohoorama.Processing.{Environment, Names, process_file_data}
use moohoorama.Processing.Assertions.{file_effects-Returns}
use moohoorama.Processing.Files.{
  Input, process_file, process_lines_of, process_files, run_main, extension_of, done, with_returns,
  return_error, rstrip_returns,
}

module _ (env : Environment) where
  process_file_data-Keeps :
      (level : ℕ) (names : Names) (lines : List Text) (l : Linter)
      → AllSigned l.lint.filters
      → Keeps l (process_file_data env level names lines l)
  unfolding process_file_data Option.bind
  process_file_data-Keeps level names lines l h =
      let (effects, e) = file_effects-Returns env level names lines in
      rw e (run_effects-Keeps names.filename effects (reset_nolint_suppressions l) h)

  done-Keeps :
      (filename : Text) (l : Linter) (o : Option Linter) → Keeps l o → Keeps l (done filename o)
  done-Keeps filename l none (l', p, k) = absurd (none-ne-some p)
  done-Keeps filename l (some m) (l', p, k) =
      (_, refl, ap (λ (n : Linter). n.lint.filters) (some-inj p) ∙ k)

  with_returns-Keeps :
      (b : Bool) (filename : Text) (l : Linter) (o : Option Linter)
      → AllSigned l.lint.filters
      → Keeps l o
      → Keeps l (with_returns b filename o)
  unfolding perform error
  with_returns-Keeps b filename l none h (l', p, k) = absurd (none-ne-some p)
  with_returns-Keeps false filename l (some m) h (l', p, k) =
      (m, refl, ap (λ (n : Linter). n.lint.filters) (some-inj p) ∙ k)
  with_returns-Keeps true filename l (some m) h (l', p, k) =
      let same : m.lint.filters ≡ l.lint.filters =
        ap (λ (n : Linter). n.lint.filters) (some-inj p) ∙ k in
      let (n, q, j) = perform-Keeps filename (report return_error) m (rw same h) in (n, q, j ∙ same)

  module _ (crlf : Bool) (valid : List Text) where
    process_lines_of-Keeps :
        (level : ℕ) (names : Names) (lines : List Text) (l : Linter)
        → AllSigned l.lint.filters
        → Keeps l (process_lines_of env crlf valid level names lines l)
    unfolding process_lines_of
    process_lines_of-Keeps level names lines l h =
        let unknown =
          not (eq names.filename (codes "-"))
          && not (contains valid (extension_of names.filename)) in
        elim (Bool-cases unknown) [
          | inl e ↦ rw e (_, refl, refl)
          | inr e ↦ rw e (
              done-Keeps names.filename l _ (
                with_returns-Keeps _ names.filename l _ h (
                  process_file_data-Keeps level
                    (record names { file_extension = extension_of names.filename })
                    (map rstrip_returns lines) l h)))
        ]

    process_file-Keeps :
        (level : ℕ) (names : Names) (content : Option (List Text)) (l : Linter)
        → AllSigned l.lint.filters
        → Keeps l (process_file env crlf valid level names content l)
    unfolding process_file set_verbose_level
    process_file-Keeps level names none l h = (_, refl, refl)
    process_file-Keeps level names (some lines) l h =
        process_lines_of-Keeps level names lines
          (record l { lint = (set_verbose_level level l.lint).0 }) h

    process_files-Keeps :
        (inputs : List Input) (l : Linter)
        → AllSigned l.lint.filters
        → Keeps l (process_files env crlf valid inputs l)
    unfolding process_files
    process_files-Keeps [] l h = (l, refl, refl)
    process_files-Keeps ((names, content) ∷ inputs) l h =
        let (m, p, k) = process_file-Keeps l.lint.verbose_level names content l h in
        let (n, q, j) = process_files-Keeps inputs m (rw k h) in (n, rw p q, j ∙ k)

    -- Signed filters are enough for a whole run.
    pub run_main-AllSigned :
        (inputs : List Input) (l : Linter)
        → AllSigned l.lint.filters
        → (l' : Linter) × (run_main env crlf valid inputs l ≡ some (l', ltb 0 l'.lint.error_count))
          × (l'.lint.filters ≡ l.lint.filters)
    unfolding run_main reset_error_counts
    run_main-AllSigned inputs l h =
        let (m, p, k) =
          process_files-Keeps inputs (record l { lint = reset_error_counts l.lint }) h in
        (record m { stderr = m.stderr ++ print_error_counts m.lint }, rw p refl, k)
