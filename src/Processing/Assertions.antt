-- ===== src/Processing/Assertions.antt =====
-- No assertion of `_GetTextInside` fails in `ProcessFileData`, whatever the lines hold.
use mathlib.Core.Option
use moohoorama.Base.{
  ℕ, zero, suc, ◌≡◌, refl, inl, inr, Bool-cases, Option, some, List, [], ◌∷◌, get_or,
}
use moohoorama.Text.{Text}
use moohoorama.Cleanse.Lines.{CleansedLines, include_pattern, cleansed_lines}
use moohoorama.Cleanse.MultiLine.{remove_multi_line_comments}
use moohoorama.Includes.State.{IncludeState}
use moohoorama.Nesting.Update.{update}
use moohoorama.Style.Report.{found}
use moohoorama.Language.Printf.Assertion.{check_format-some}
use moohoorama.Language.Types.{check_code}
use moohoorama.Language.Types.Include.{by_line, check_language}
use moohoorama.Processing.{
  Environment, Names, FileState, in_assembly, check_line, process_line, process_lines, initial,
  marked, file_effects,
}

-- A result without a failed assertion.
abbrev pub Returns : {A : Type 0} → Option A → Type 0
Returns {A} o = (a : A) × (o ≡ some a)

map-Returns : {A B : Type 0} (f : A → B) (o : Option A) → Returns o → Returns (Option.map f o)
map-Returns f o (a, e) = (f a, rw e refl)

bind-Returns :
    {A B : Type 0} (o : Option A) (f : A → Option B)
    → Returns o
    → ((a : A) → Returns (f a))
    → Returns (Option.bind o f)
unfolding Option.bind
bind-Returns o f (a, e) h = rw e (h a)

check_code-Returns :
    (c : CleansedLines) (n : ℕ) (extension line : Text) → Returns (check_code c n extension line)
unfolding check_code
check_code-Returns c n extension line = map-Returns _ _ (check_format-some line n)

module _ (lower : Text → Text) (repository filename : Text) where
  by_line-Returns :
      (c : CleansedLines) (n : ℕ) (extension : Text) (s : IncludeState) (line : Text)
      → Returns (by_line lower repository filename c n extension s line)
  by_line-Returns c n extension s [] = (_, refl)
  by_line-Returns c n extension s (x ∷ line) =
      elim (Bool-cases (found include_pattern (x ∷ line))) [
        | inl e ↦ rw e (_, refl)
        | inr e ↦ rw e (map-Returns _ _ (check_code-Returns c n extension (x ∷ line)))
      ]

  check_language-Returns :
      (c : CleansedLines) (n : ℕ) (extension : Text) (s : IncludeState)
      → Returns (check_language lower repository filename c n extension s)
  unfolding check_language
  check_language-Returns c n extension s = by_line-Returns c n extension s (get_or c.elided n [])

module _ (env : Environment) (level : ℕ) (names : Names) where
  check_line-Returns :
      (c : CleansedLines) (n : ℕ) (s : FileState) → Returns (check_line env level names c n s)
  unfolding check_line
  check_line-Returns c n s = map-Returns _ _ (
      check_language-Returns env.lower names.repository names.filename c n names.file_extension
        s.include_state)

  process_line-Returns :
      (c : CleansedLines) (n : ℕ) (s : FileState) → Returns (process_line env level names c n s)
  unfolding process_line
  process_line-Returns c n s =
      elim (Bool-cases (in_assembly (update c n s.nesting_state).0.stack)) [
        | inl e ↦ rw e (_, refl)
        | inr e ↦ rw e (map-Returns _ _ (check_line-Returns c n _))
      ]

  process_lines-Returns :
      (c : CleansedLines) (n k : ℕ) (s : FileState)
      → Returns (process_lines env level names c n k s)
  unfolding process_lines
  process_lines-Returns c n zero s = (_, refl)
  process_lines-Returns c n (suc k) s =
      bind-Returns _ _ (process_line-Returns c n s)
        (λ r. map-Returns _ _ (process_lines-Returns c (suc n) k r.0))

  pub file_effects-Returns : (lines : List Text) → Returns (file_effects env level names lines)
  unfolding file_effects
  file_effects-Returns lines = map-Returns _ _ (
      process_lines-Returns (cleansed_lines (remove_multi_line_comments (marked lines)).0) 0 _
        initial)
