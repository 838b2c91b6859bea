-- ===== src/Lint/Filters.antt =====
-- `SetFilters` against the loop over the filters in `_ShouldPrintError`.
use moohoorama.Base.{
  Bool, true, false, not, ◌&&◌, ◌≡◌, refl, ◌∙◌, Option, none, some, List, [], ◌∷◌, drop, ltb, arith,
  All, Bool-cases, inl, inr, if◌then◌else◌,
}
use moohoorama.Text.{Text, codes, starts_with}
use moohoorama.Lint.Suppressions.{
  Report, Effect, suppress, report, Suppressions, is_error_suppressed_by_nolint,
}
use moohoorama.Lint.State.{
  LintState, is_signed, first_unsigned, set_filters, filter_out, should_print_error, Linter,
  perform, run_effects,
}
use moohoorama.Lint.Steps.{error-eq-some, run_effects-cons, write_if-filters}

abbrev pub AllSigned : List Text → Type 0
AllSigned = All (λ f. is_signed f ≡ true)

first_unsigned-AllSigned : (fs : List Text) → first_unsigned fs ≡ none → AllSigned fs
unfolding first_unsigned
first_unsigned-AllSigned [] h = tt
first_unsigned-AllSigned (f ∷ fs) h = elim (Bool-cases (is_signed f)) [
  | inl e ↦ (e, first_unsigned-AllSigned fs (ground arith))
  | inr e ↦ absurd (ground arith)
]

-- Filters that `SetFilters` accepts all have a sign.
pub set_filters-AllSigned :
    (flag : Text) (s : LintState)
    → (set_filters flag s).1 ≡ none
    → AllSigned (set_filters flag s).0.filters
unfolding set_filters
set_filters-AllSigned flag s h = first_unsigned-AllSigned (set_filters flag s).0.filters h

abbrev hits : Text → Text → Bool
hits f category = starts_with category (drop 1 f)

abbrev or_later : Option Bool → Option Bool → Option Bool
or_later none b = b
or_later (some a) b = some a

-- The last filter that a category matches: whether it is a `-` filter.
pub last_match : List Text → Text → Option Bool
last_match [] category = none
last_match (f ∷ fs) category =
    or_later (last_match fs category)
      (if hits f category then some (starts_with f (codes "-")) else none)

abbrev pub default_to : Bool → Option Bool → Bool
default_to b none = b
default_to b (some a) = a

default_to-or_later :
    (b : Bool) (o p : Option Bool) → default_to b (or_later o p) ≡ default_to (default_to b p) o
default_to-or_later b none p = refl
default_to-or_later b (some a) p = refl

filter_out-last_match :
    (fs : List Text) (category : Text) (b : Bool)
    → AllSigned fs
    → filter_out fs category b ≡ some (default_to b (last_match fs category))
unfolding filter_out last_match is_signed
filter_out-last_match [] category b h = refl
filter_out-last_match (f ∷ fs) category b (e, h) = ground (
  arith,
  default_to-or_later b (last_match fs category)
      (if hits f category then some (starts_with f (codes "-")) else none),
  filter_out-last_match fs category (if hits f category then starts_with f (codes "-") else b) h,
)

-- With signed filters an error is printed exactly if no NOLINT covers it, its confidence reaches
-- the level, and the last filter that its category matches, if any, is not a `-` filter.
pub should_print_error-last_match :
    (sup : Suppressions) (s : LintState) (r : Report)
    → AllSigned s.filters
    → should_print_error sup s r
      ≡ some (
          not (is_error_suppressed_by_nolint r.category r.linenum sup)
          && not (ltb r.confidence s.verbose_level)
          && not (default_to false (last_match s.filters r.category)))
unfolding should_print_error
should_print_error-last_match sup s r h =
    ground (arith, filter_out-last_match s.filters r.category false h)

-- The filters stay as they are.
abbrev pub Keeps : Linter → Option Linter → Type 0
Keeps l o = (l' : Linter) × (o ≡ some l') × (l'.lint.filters ≡ l.lint.filters)

pub perform-Keeps :
    (filename : Text) (e : Effect) (l : Linter)
    → AllSigned l.lint.filters
    → Keeps l (perform filename e l)
unfolding perform
perform-Keeps filename (suppress c n) l h = (_, refl, refl)
perform-Keeps filename (report r) l h = (
  _,
  error-eq-some filename r l (should_print_error-last_match l.suppressions l.lint r h),
  write_if-filters filename _ r l,
)

pub run_effects-Keeps :
    (filename : Text) (es : List Effect) (l : Linter)
    → AllSigned l.lint.filters
    → Keeps l (run_effects filename es l)
unfolding run_effects
run_effects-Keeps filename [] l h = (l, refl, refl)
run_effects-Keeps filename (e ∷ es) l h =
    let (l', p, k) = perform-Keeps filename e l h in
    let (m, q, k') = run_effects-Keeps filename es l' (rw k h) in
    (m, run_effects-cons filename e es l p ∙ q, k' ∙ k)

-- After a `SetFilters` that raises nothing, the assertion in `_ShouldPrintError` never fails,
-- whatever errors and suppressions the checks produce, and the filters stay as they were set.
pub set_filters-run_effects :
    (flag : Text) (s : LintState) (filename : Text) (es : List Effect) (l : Linter)
    → (set_filters flag s).1 ≡ none
    → l.lint.filters ≡ (set_filters flag s).0.filters
    → (l' : Linter) × (run_effects filename es l ≡ some l')
      × (l'.lint.filters ≡ (set_filters flag s).0.filters)
set_filters-run_effects flag s filename es l h e =
    let (l', p, k) = run_effects-Keeps filename es l (rw e (set_filters-AllSigned flag s h)) in
    (l', p, k ∙ e)
