-- ===== src/Lint/Counts.antt =====
-- The totals that `PrintErrorCounts` writes, against the errors that were printed.
use moohoorama.Base.{
  ℕ, ◌+◌, some-inj, none-ne-some, Option-cases, subst, sym, ◌∙◌, Bool, true, false, ◌≡◌, refl, some,
  List, [], ◌∷◌, arith, inl, inr, if◌then◌else◌, length, length-append,
}
use moohoorama.Text.{Text, codes, contains}
use moohoorama.Lint.Suppressions.{Effect, suppress, report, Report}
use moohoorama.Lint.State.{
  LintState, bump, counted_as, increment_error_count, should_print_error, Linter, error,
  write_error, perform, run_effects,
}
use moohoorama.Lint.Steps.{error-eq-some, run_effects-cons, run_effects_stop}

unfoldable pub total : List (Text × ℕ) → ℕ
total [] = 0
total ((c, n) ∷ d) = n + total d

total-bump : (category : Text) (d : List (Text × ℕ)) → total (bump category d) ≡ total d + 1
unfolding total bump
total-bump category [] = refl
total-bump category ((c, n) ∷ d) = ground (arith, total-bump category d)

abbrev pub by_category : LintState → Bool
by_category s = contains (codes "toplevel" ∷ codes "detailed" ∷ []) s.counting

-- Since the last reset: as many lines were written as errors counted, and with a counting style
-- that counts by category the categories add up to the same number.
pub record IsTallied (l : Linter) : Type 0 where
  pub lines : length l.stderr ≡ l.lint.error_count
  pub categories : by_category l.lint ≡ true → total l.lint.errors_by_category ≡ l.lint.error_count

write_error-IsTallied :
    (filename : Text) (r : Report) (l : Linter) → IsTallied l → IsTallied (write_error filename r l)
unfolding write_error increment_error_count
write_error-IsTallied filename r l t = record {
  lines = omega (arith, length-append {0} l.stderr, t.lines);
  categories = λ h. rw h (
      omega (
        arith,
        total-bump (counted_as l.lint.counting r.category) l.lint.errors_by_category,
        t.categories h,
      ));
}

if-IsTallied :
    (b : Bool) (filename : Text) (r : Report) (l : Linter)
    → IsTallied l
    → IsTallied (if b then write_error filename r l else l)
if-IsTallied true filename r l t = write_error-IsTallied filename r l t
if-IsTallied false filename r l t = t

error-IsTallied :
    (filename : Text) (r : Report) (l l' : Linter)
    → IsTallied l
    → error filename r l ≡ some l'
    → IsTallied l'
unfolding error
error-IsTallied filename r l l' t e =
    elim (Option-cases (should_print_error l.suppressions l.lint r)) [
      | inl p ↦ absurd (ground arith)
      | inr (b, p) ↦
          subst IsTallied (some-inj (sym (error-eq-some filename r l p) ∙ e))
            (if-IsTallied b filename r l t)
    ]

perform-IsTallied :
    (filename : Text) (e : Effect) (l l' : Linter)
    → IsTallied l
    → perform filename e l ≡ some l'
    → IsTallied l'
unfolding perform
perform-IsTallied filename (suppress c n) l l' t e =
    subst IsTallied (some-inj e) (record { lines = t.lines; categories = t.categories })
perform-IsTallied filename (report r) l l' t e = error-IsTallied filename r l l' t e

-- Counting stays exact through any run of effects that meets no failed assertion: if as many lines
-- were written as errors counted, and the counts by category add up to the count of errors where
-- they are kept, then so it is after the run.
pub run_effects-IsTallied :
    (filename : Text) (es : List Effect) (l l' : Linter)
    → IsTallied l
    → run_effects filename es l ≡ some l'
    → IsTallied l'
unfolding run_effects
run_effects-IsTallied filename [] l l' t e = subst IsTallied (some-inj e) t
run_effects-IsTallied filename (x ∷ es) l l' t e = elim (Option-cases (perform filename x l)) [
  | inl p ↦ absurd (none-ne-some (sym (run_effects_stop filename x es l p) ∙ e))
  | inr (k, p) ↦
      run_effects-IsTallied filename es k l' (perform-IsTallied filename x l k t p)
        (sym (run_effects-cons filename x es l p) ∙ e)
]
