-- ===== src/Lint/Run.antt =====
-- What a NOLINT comment does to the errors that come after it.
use moohoorama.Base.{
  ℕ, Bool, true, false, ◌≡◌, refl, none, some, List, [], ◌∷◌, ◌++◌, ◌∙◌, sym, Option-cases, ◌⊎◌, ℤ,
  pos, eq_ℤ, arith, Bool-cases, inl, inr, if◌then◌else◌,
}
use moohoorama.Text.{Text, eq, codes}
use moohoorama.Lint.Suppressions.{
  Report, Effect, suppress, report, is_error_suppressed_by_nolint, suppressed_in,
  parse_nolint_suppressions, nolint_found, suppression_pattern,
}
use moohoorama.Lint.State.{should_print_error, Linter, error, write_error, perform, run_effects}
use moohoorama.Regex.{Found, search_re, group?}
use moohoorama.Lint.Steps.{run_effects-cons, run_effects_stop}

eq_ℤ_refl : (n : ℤ) → eq_ℤ n n ≡ true
eq_ℤ_refl (pos n) = ground arith
eq_ℤ_refl (ℤ.negsuc n) = ground arith

-- Drops the reports on a line.
pub skip_line : ℤ → List Effect → List Effect
skip_line n [] = []
skip_line n (suppress c m ∷ es) = suppress c m ∷ skip_line n es
skip_line n (report r ∷ es) =
    let rest = skip_line n es in if eq_ℤ r.linenum n then rest else report r ∷ rest

abbrev IsSilent : ℤ → Linter → Type 0
IsSilent n l = suppressed_in none n l.suppressions ≡ true

error_silent :
    (filename : Text) (r : Report) (l : Linter)
    → suppressed_in none r.linenum l.suppressions ≡ true
    → error filename r l ≡ some l
unfolding error should_print_error is_error_suppressed_by_nolint
error_silent filename r l h = ground arith

suppressions-write_error :
    (b : Bool) (filename : Text) (r : Report) (l : Linter)
    → (if b then write_error filename r l else l).suppressions ≡ l.suppressions
unfolding write_error
suppressions-write_error true filename r l = refl
suppressions-write_error false filename r l = refl

perform-IsSilent :
    (n : ℤ) (filename : Text) (e : Effect) (l l' : Linter)
    → IsSilent n l
    → perform filename e l ≡ some l'
    → IsSilent n l'
unfolding perform suppressed_in error write_error
perform-IsSilent n filename (suppress c m) l l' h p = ground arith
perform-IsSilent n filename (report r) l l' h p = ground arith

-- The same first effect on both sides.
run_effects_both :
    (filename : Text) (n : ℤ) (e : Effect) (es fs : List Effect) (l : Linter)
    → IsSilent n l
    → ((l' : Linter) → IsSilent n l' → run_effects filename es l' ≡ run_effects filename fs l')
    → run_effects filename (e ∷ es) l ≡ run_effects filename (e ∷ fs) l
run_effects_both filename n e es fs l h ih = elim (Option-cases (perform filename e l)) [
  | inl p ↦ run_effects_stop filename e es l p ∙ sym (run_effects_stop filename e fs l p)
  | inr (l', p) ↦
      run_effects-cons filename e es l p
      ∙ ih l' (perform-IsSilent n filename e l l' h p)
      ∙ sym (run_effects-cons filename e fs l p)
]

eq_ℤ-eq : (a b : ℤ) → eq_ℤ a b ≡ true → a ≡ b
eq_ℤ-eq (pos a) (pos b) h = ground arith
eq_ℤ-eq (ℤ.negsuc a) (ℤ.negsuc b) h = ground arith
eq_ℤ-eq _ _ h = cc

perform_silent :
    (filename : Text) (n : ℤ) (r : Report) (l : Linter)
    → IsSilent n l
    → r.linenum ≡ n
    → perform filename (report r) l ≡ some l
unfolding perform
perform_silent filename n r l h e = error_silent filename r l (rw e h)

run_effects_silent :
    (filename : Text) (n : ℤ) (es : List Effect) (l : Linter)
    → IsSilent n l
    → run_effects filename es l ≡ run_effects filename (skip_line n es) l
unfolding skip_line
run_effects_silent filename n [] l h = refl
run_effects_silent filename n (suppress c m ∷ es) l h =
    run_effects_both filename n _ es _ l h (λ l' h'. run_effects_silent filename n es l' h')
run_effects_silent filename n (report r ∷ es) l h = elim (Bool-cases (eq_ℤ r.linenum n)) [
  | inl e ↦ rw e (
      run_effects-cons filename (report r) es l
        (perform_silent filename n r l h (eq_ℤ-eq r.linenum n e))
      ∙ run_effects_silent filename n es l h)
  | inr e ↦ rw e (
      run_effects_both filename n (report r) es _ l h
        (λ l' h'. run_effects_silent filename n es l' h'))
]

IsSilent-suppressed :
    (n : ℕ) (l : Linter) → IsSilent (pos n) (record l { suppressions = (none, n) ∷ l.suppressions })
unfolding suppressed_in
IsSilent-suppressed n l = rw (eq_ℤ_refl (pos n))

nolint_found-all :
    (m : Found) (n : ℕ)
    → (group? 1 m ≡ none) ⊎ (group? 1 m ≡ some (codes "(*)"))
    → nolint_found (some m) n ≡ suppress none n ∷ []
unfolding nolint_found eq
nolint_found-all m n (inl g) = rw (g, nolint_found)
nolint_found-all m n (inr g) = rw (g, nolint_found)

pub parse_nolint_suppressions-all :
    (raw_line : Text) (n : ℕ) (m : Found)
    → search_re suppression_pattern raw_line ≡ some m
    → (group? 1 m ≡ none) ⊎ (group? 1 m ≡ some (codes "(*)"))
    → parse_nolint_suppressions raw_line n ≡ suppress none n ∷ []
unfolding parse_nolint_suppressions
parse_nolint_suppressions-all raw_line n m found g =
    rw (found, parse_nolint_suppressions) (nolint_found-all m n g)

-- A NOLINT with no parentheses, or with `(*)`, on a line silences every error that is reported on
-- that line from then on, whatever its category and confidence: the rest of the run goes as if
-- those errors were not reported.
pub nolint_silences :
    (filename : Text) (raw_line : Text) (n : ℕ) (es : List Effect) (l : Linter) (m : Found)
    → search_re suppression_pattern raw_line ≡ some m
    → (group? 1 m ≡ none) ⊎ (group? 1 m ≡ some (codes "(*)"))
    → run_effects filename (parse_nolint_suppressions raw_line n ++ es) l
      ≡ run_effects filename (parse_nolint_suppressions raw_line n ++ skip_line (pos n) es) l
unfolding perform
nolint_silences filename raw_line n es l m found g =
    rw (parse_nolint_suppressions-all raw_line n m found g) (
      run_effects-cons filename (suppress none n) es l refl
      ∙ run_effects_silent filename (pos n) es _ (IsSilent-suppressed n l)
      ∙ sym (run_effects-cons filename (suppress none n) (skip_line (pos n) es) l refl))
