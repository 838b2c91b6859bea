-- ===== src/Lint/RoundTrip.antt =====
-- A category that is written into a NOLINT comment behind code is read back.
use moohoorama.Base.{
  ℕ, suc, Bool, true, false, ◌≡◌, refl, inl, inr, Bool-cases, Option, none, some, List, [], ◌∷◌,
  ◌++◌, map, ap, true-ne-false, sym, ◌∙◌, ◌||◌, ◌&&◌, ℤ, pos, eq_ℤ,
}
use moohoorama.Text.{Text, codes, eq, contains, find, starts_with}
use moohoorama.Text.Laws.{eq_iff}
use moohoorama.Regex.{search_re, search_from, match_at, group?}
use moohoorama.Regex.Begins.{Begins, anywhere, item, test, search_from-step, search_from-skip}
use moohoorama.Lint.Tables.{error_categories}
use moohoorama.Lint.Suppressions.{
  Effect, suppress, nolint_found, parse_nolint_suppressions, suppression_pattern, Suppressions,
  suppressed_in, is_error_suppressed_by_nolint,
}

-- The comment that suppresses a category.
abbrev pub nolint_comment : Text → Text
nolint_comment category = codes "// NOLINT(" ++ (category ++ codes ")")

-- What the search from NOLINT on, at position `i`, makes of a category.
abbrev read_back : ℕ → ℕ → Text → List Effect
read_back i linenum category =
    nolint_found
      (search_from suppression_pattern i (some b' ') (codes "NOLINT(" ++ (category ++ codes ")")))
      linenum

read_all :
    (i linenum : ℕ)
    → map (read_back i linenum) error_categories
      ≡ map (λ (c : Text). suppress (some c) linenum ∷ []) error_categories
unfolding nolint_found search_from match_at suppression_pattern group? eq error_categories
read_all i linenum = refl

head_or : List (List Effect) → List Effect
head_or [] = []
head_or (x ∷ xs) = x

rest_of : List (List Effect) → List (List Effect)
rest_of [] = []
rest_of (x ∷ xs) = xs

map-eq-at :
    (f g : Text → List Effect) (xs : List Text) (t : Text)
    → contains xs t ≡ true
    → map f xs ≡ map g xs
    → f t ≡ g t
unfolding contains head_or rest_of
map-eq-at f g [] t h e = absurd (true-ne-false (sym h))
map-eq-at f g (x ∷ xs) t h e = elim (Bool-cases (eq x t)) [
  | inl q ↦ rw ((eq_iff x t).0 q) at (ap head_or e)
  | inr q ↦ map-eq-at f g xs t (rw q at h) (ap rest_of e)
]

suppression_pattern-Begins : Begins (codes "NOLINT") suppression_pattern
unfolding suppression_pattern
suppression_pattern-Begins = test (item (item (item (item (item (item anywhere))))))

comment_found :
    (i linenum : ℕ) (b : Option ℕ) (category : Text)
    → contains error_categories category ≡ true
    → nolint_found (search_from suppression_pattern i b (nolint_comment category)) linenum
      ≡ suppress (some category) linenum ∷ []
unfolding starts_with
comment_found i linenum b category h =
    let z = suppression_pattern-Begins in
    let name = codes "NOLINT(" ++ (category ++ codes ")") in
    ap (λ m. nolint_found m linenum)
      (search_from-step z i b b'/' (b'/' ∷ b' ' ∷ name) refl
        ∙ search_from-step z (suc i) (some b'/') b'/' (b' ' ∷ name) refl
        ∙ search_from-step z (suc (suc i)) (some b'/') b' ' name refl)
    ∙ map-eq-at (read_back _ linenum) (λ c. suppress (some c) linenum ∷ []) error_categories
        category h (read_all _ linenum)

||_assoc : (a b c : Bool) → (a || b) || c ≡ a || (b || c)
||_assoc true b c = refl
||_assoc false b c = refl

-- A NOLINT comment with a category of the table that ends a line, behind any code that does not
-- contain NOLINT, adds this line to the suppressions of that category and has no other effect. With
-- it added, `IsErrorSuppressedByNolint` holds of a category and a line exactly if they are this
-- category and this line, or if it held of them before.
pub parse_nolint_suppressions-nolint_comment :
    (code category : Text) (linenum : ℕ) (other : Text) (line : ℤ) (s : Suppressions)
    → contains error_categories category ≡ true
    → find code (codes "NOLINT") ≡ none
    → (parse_nolint_suppressions (code ++ nolint_comment category) linenum
        ≡ suppress (some category) linenum ∷ [])
      × (is_error_suppressed_by_nolint other line ((some category, linenum) ∷ s)
          ≡ (eq category other && eq_ℤ line (pos linenum))
            || is_error_suppressed_by_nolint other line s)
unfolding parse_nolint_suppressions search_re is_error_suppressed_by_nolint suppressed_in
parse_nolint_suppressions-nolint_comment code category linenum other line s h f =
    let (i, b, e) =
      search_from-skip suppression_pattern-Begins code b'/' _ 0 none
        (refl, (refl, (refl, (refl, (refl, (refl, tt)))))) f in
    (
      ap (λ m. nolint_found m linenum) e ∙ comment_found i linenum b category h,
      ||_assoc (eq category other && eq_ℤ line (pos linenum)) _ _,
    )
