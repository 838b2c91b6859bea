-- ===== src/Lint/Steps.antt =====
-- One step of a run of effects, for proofs that keep the run shut.
use moohoorama.Base.{Bool, true, false, ◌≡◌, refl, none, some, List, ◌∷◌, if◌then◌else◌}
use moohoorama.Text.{Text}
use moohoorama.Lint.Suppressions.{Report, Effect}
use moohoorama.Lint.State.{
  should_print_error, Linter, error, write_error, increment_error_count, perform, run_effects,
}

module _ (filename : Text) where
  pub error-eq-some :
      (r : Report) (l : Linter) {printed : Bool}
      → should_print_error l.suppressions l.lint r ≡ some printed
      → error filename r l ≡ some (if printed then write_error filename r l else l)
  unfolding error
  error-eq-some r l h = rw (h, error)

  pub run_effects-cons :
      (e : Effect) (es : List Effect) (l : Linter) {l' : Linter}
      → perform filename e l ≡ some l'
      → run_effects filename (e ∷ es) l ≡ run_effects filename es l'
  unfolding run_effects
  run_effects-cons e es l h = rw (h, run_effects)

  pub run_effects_stop :
      (e : Effect) (es : List Effect) (l : Linter)
      → perform filename e l ≡ none
      → run_effects filename (e ∷ es) l ≡ none
  unfolding run_effects
  run_effects_stop e es l h = rw (h, run_effects)

  -- What `Error` leaves alone.
  pub write_if-filters :
      (b : Bool) (r : Report) (l : Linter)
      → (if b then write_error filename r l else l).lint.filters ≡ l.lint.filters
  unfolding write_error increment_error_count
  write_if-filters true r l = refl
  write_if-filters false r l = refl
