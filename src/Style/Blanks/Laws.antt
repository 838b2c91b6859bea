-- ===== src/Style/Blanks/Laws.antt =====
-- What `GetPreviousNonBlankLine` returns.
use moohoorama.Base.{
  ℕ, zero, suc, ◌<◌, true, false, ◌≡◌, refl, ◌∙◌, ap, ◌⊎◌, inl, inr, Bool-cases, Option, none, some,
  [], get_or, arith,
}
use moohoorama.Text.{Text}
use moohoorama.Cleanse.Lines.{CleansedLines}
use moohoorama.Style.Blanks.{is_blank_line, get_previous_non_blank_line}
use native.Mathlib.Decide.{dec_lt}

module _ (clean_lines : CleansedLines) where
  abbrev pub line_at : ℕ → Text
  line_at n = get_or clean_lines.elided n []

  -- The last line before `linenum` that is not blank, or none if all of them are.
  abbrev pub IsPrevious : ℕ → Text × Option ℕ → Type 0
  IsPrevious linenum r =
      ((n : ℕ) × (n < linenum)
        × (r ≡ (line_at n, some n))
        × (is_blank_line (line_at n) ≡ false)
        × ((k : ℕ) → n < k → k < linenum → is_blank_line (line_at k) ≡ true))
      ⊎ ((r ≡ ([], none)) × ((k : ℕ) → k < linenum → is_blank_line (line_at k) ≡ true))

  last_blank :
      (n k : ℕ)
      → is_blank_line (line_at n) ≡ true
      → k < suc n
      → (k < n → is_blank_line (line_at k) ≡ true)
      → is_blank_line (line_at k) ≡ true
  last_blank n k e h f = elim (dec_lt k n) [
    | yes l ↦ f l
    | no l ↦ ap (λ (j : ℕ). is_blank_line (line_at j)) (omega arith) ∙ e
  ]

  IsPrevious-suc :
      (n : ℕ) (r : Text × Option ℕ)
      → is_blank_line (line_at n) ≡ true
      → IsPrevious n r
      → IsPrevious (suc n) r
  IsPrevious-suc n r e (inl (i, h, q, b, f)) =
      inl (i, omega arith, q, b, λ k l m. last_blank n k e m (f k l))
  IsPrevious-suc n r e (inr (q, f)) = inr (q, λ k m. last_blank n k e m (f k))

  -- `GetPreviousNonBlankLine` returns the last line before the given one that is not blank, with its
  -- number: all lines between the two are blank. Otherwise it returns the empty text and -1, and then
  -- all lines before are blank.
  pub get_previous_non_blank_line-IsPrevious :
      (linenum : ℕ) → IsPrevious linenum (get_previous_non_blank_line clean_lines linenum)
  unfolding get_previous_non_blank_line
  get_previous_non_blank_line-IsPrevious zero = inr (refl, λ k h. absurd (omega arith))
  get_previous_non_blank_line-IsPrevious (suc n) = elim (Bool-cases (is_blank_line (line_at n))) [
    | inl e ↦ rw e (IsPrevious-suc n _ e (get_previous_non_blank_line-IsPrevious n))
    | inr e ↦ rw e (inl (n, omega arith, refl, e, λ k l m. absurd (omega arith)))
  ]
