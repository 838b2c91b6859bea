-- ===== src/Processing/Program.antt =====
-- The whole program: `ParseArguments`, and then the files.
use moohoorama.Base.{ℕ, Bool, true, ◌≡◌, Option, some, List, ltb, ap, ◌∙◌, subst}
use moohoorama.Text.{Text, contains}
use moohoorama.Lint.State.{LintState, Linter}
use moohoorama.CommandLine.{Options, runs, output_formats, parse_arguments}
use moohoorama.CommandLine.Laws.{IsParsed, parse_arguments-IsParsed}
use moohoorama.Processing.{Environment}
use moohoorama.Processing.Files.{Input, run_main}
use moohoorama.Processing.Run.{run_main-AllSigned}

-- If `ParseArguments` returns, the rest of the program meets no failed assertion, neither that of
-- `_ShouldPrintError` nor one of the two of `_GetTextInside`, whatever the files hold, keeps the
-- filters, and exits with an error exactly if the count of errors is not zero. The names that
-- `FileInfo` and `GetHeaderGuardCPPVariable` find for each file are given, so whether `RepositoryName`
-- finds one is not stated. The output format before the arguments were read has to be one of the
-- three.
pub parse_arguments-run_main :
    (int : Text → Option ℕ) (args : Option (List (Text × Text) × List Text)) (before : LintState)
    (o : Options) (s : LintState) (filenames : List Text) (env : Environment) (crlf : Bool)
    (inputs : List Input) (l : Linter)
    → contains output_formats before.output_format ≡ true
    → parse_arguments int args before ≡ runs o s filenames
    → l.lint ≡ s
    → (l' : Linter) × (run_main env crlf o.valid_extensions inputs l
        ≡ some (l', ltb 0 l'.lint.error_count))
      × (l'.lint.filters ≡ s.filters)
parse_arguments-run_main int args before o s filenames env crlf inputs l h p e =
    let (_, _, signed, _) = subst IsParsed p (parse_arguments-IsParsed int args before h) in
    let (l', q, k) = run_main-AllSigned env crlf o.valid_extensions inputs l (rw e signed) in
    (l', q, k ∙ ap (λ (t : LintState). t.filters) e)
