-- ===== src/Includes/Dictionary.antt =====
-- The dictionary of includes: it maps a header to the first line that includes it.
use moohoorama.Base.{
  ℕ, zero, suc, Bool, true, false, ◌≡◌, refl, sym, ◌∙◌, inl, inr, Option, none, some, Option-cases,
  Bool-cases, List, [], ◌∷◌, ◌++◌, get_or, if◌then◌else◌,
}
use moohoorama.Text.{Text, codes, eq}
use moohoorama.Text.Laws.{eq_iff}
use moohoorama.Regex.{Found, search_re, group_text}
use moohoorama.Cleanse.Lines.{CleansedLines, include_pattern}
use moohoorama.Includes.State.{IncludeState, set_last_header}
use moohoorama.Includes.Order.{check_next_include_order-Ordered}
use moohoorama.Includes.Lines.{
  included_at, classify_include, new_include, check_include_line, by_entry,
}

-- What the first of two lookups finds.
abbrev pub or_else : Option ℕ → Option ℕ → Option ℕ
or_else none o = o
or_else (some n) o = some n

abbrev pub found_include : Text → Option Found → Bool
found_include header none = false
found_include header (some m) = eq (group_text 2 m) header

-- A line that includes a header.
unfoldable pub includes : Text → Text → Bool
includes header line = found_include header (search_re include_pattern line)

-- The first of `k` lines from line `n` on that includes a header.
pub first_including : Text → CleansedLines → ℕ → ℕ → Option ℕ
first_including header cl n zero = none
first_including header cl n (suc k) =
    if includes header (get_or cl.lines n []) then some n else first_including header cl (suc n) k

-- `CheckIncludeLine` on `k` lines from line `n` on.
pub check_includes :
    (Text → Text) → Text → Text → CleansedLines → ℕ → ℕ → IncludeState → IncludeState
check_includes lower repository filename cl n zero s = s
check_includes lower repository filename cl n (suc k) s =
    check_includes lower repository filename cl (suc n) k
      (check_include_line lower repository filename cl n s).0

included_at-append :
    (g h : Text) (n : ℕ) (d : List (Text × ℕ))
    → included_at g (d ++ (h, n) ∷ []) ≡ or_else (included_at g d) (if eq h g then some n else none)
unfolding included_at
included_at-append g h n [] = refl
included_at-append g h n ((j, k) ∷ d) = elim (Bool-cases (eq j g)) [
  | inl e ↦ rw e refl
  | inr e ↦ rw e (included_at-append g h n d)
]

or_else-none : (o : Option ℕ) → o ≡ or_else o none
or_else-none none = refl
or_else-none (some n) = refl

or_else_if :
    (o : Option ℕ) (b : Bool) (n : ℕ) (rest : Option ℕ)
    → or_else (or_else o (if b then some n else none)) rest ≡ or_else o (if b then some n else rest)
or_else_if none true n rest = refl
or_else_if none false n rest = refl
or_else_if (some k) b n rest = refl

module _ (lower : Text → Text) (repository filename : Text) (cl : CleansedLines) where
  new_include-included :
      (n : ℕ) (h : Text) (system : Bool) (s : IncludeState)
      → (new_include lower repository cl n h system s).0.included ≡ s.included ++ (h, n) ∷ []
  unfolding new_include set_last_header
  new_include-included n h system s =
      (check_next_include_order-Ordered (classify_include repository h system)
        (record s { included = s.included ++ (h, n) ∷ [] })).dictionary

  by_entry-included :
      (g : Text) (n : ℕ) (h : Text) (system : Bool) (s : IncludeState) (o : Option ℕ)
      → included_at h s.included ≡ o
      → included_at g (by_entry lower repository filename cl n h system s o).0.included
        ≡ or_else (included_at g s.included) (if eq h g then some n else none)
  by_entry-included g n h system s none e =
      rw (new_include-included n h system s) (included_at-append g h n s.included)
  by_entry-included g n h system s (some k) e = elim (Bool-cases (eq h g)) [
    | inr q ↦ rw q (or_else-none (included_at g s.included))
    | inl q ↦ rw (q, sym ((eq_iff h g).0 q), e) refl
  ]

  check_include_line-included :
      (g : Text) (n : ℕ) (s : IncludeState)
      → included_at g (check_include_line lower repository filename cl n s).0.included
        ≡ or_else
            (included_at g s.included)
            (if includes g (get_or cl.lines n []) then some n else none)
  unfolding check_include_line includes
  check_include_line-included g n s =
      elim (Option-cases (search_re include_pattern (get_or cl.lines n []))) [
        | inl e ↦ rw e (or_else-none (included_at g s.included))
        | inr (m, e) ↦ rw e (
            by_entry-included g n (group_text 2 m) (eq (group_text 1 m) (codes "<")) s
              (included_at (group_text 2 m) s.included) refl)
      ]

  -- After any run of lines, a header stands in the dictionary with the line that it had there before,
  -- or else with the first of the lines that includes it; it stands there in no other case.
  pub check_includes-included :
      (g : Text) (n k : ℕ) (s : IncludeState)
      → included_at g (check_includes lower repository filename cl n k s).included
        ≡ or_else (included_at g s.included) (first_including g cl n k)
  unfolding check_includes first_including
  check_includes-included g n zero s = or_else-none (included_at g s.included)
  check_includes-included g n (suc k) s =
      check_includes-included g (suc n) k (check_include_line lower repository filename cl n s).0
      ∙ rw (check_include_line-included g n s) (or_else_if (included_at g s.included) _ n _)
