-- ===== src/Expression/Balance.antt =====
-- Balanced text, by counting: the specification of the scans.
use moohoorama.Base.{
  ℕ, zero, suc, ◌+◌, ◌-◌, ◌≤◌, ◌<◌, ◌≡◌, ◌≢◌, ==_iff, false, true, refl, ap, ◌∙◌, ◌⊎◌, inl, inr,
  Option, none, some, [], ◌∷◌, take, length, ℤ, pos, ◌==◌, if◌then◌else◌, arith, Bool-cases,
}
use moohoorama.Text.{Text}
use moohoorama.Expression.Scan.{is_zero, scan_end}

-- How often a character occurs.
unfoldable pub occurrences : ℕ → Text → ℕ
occurrences x [] = 0
occurrences x (c ∷ t) = (if c == x then 1 else 0) + occurrences x t

-- In the prefixes shorter than `n`, with `d` brackets open before the text, some are still open.
abbrev pub OpenBelow : ℕ → ℕ → ℕ → ℕ → Text → Type 0
OpenBelow s e d n t = (m : ℕ) → m < n → occurrences e (take m t) < d + occurrences s (take m t)

-- With `d` brackets open before it, the text closes the last of them with its last character:
-- there are as many closing ones as open ones, and fewer in every shorter prefix.
pub record Closes (s e d : ℕ) (t : Text) : Type 0 where
  pub balanced : occurrences e t ≡ d + occurrences s t
  pub before : OpenBelow s e d (length t) t

-- In no prefix are the brackets closed, and `d'` of them are open behind the text.
pub record StaysOpen (s e d d' : ℕ) (t : Text) : Type 0 where
  pub left : occurrences e t + d' ≡ d + occurrences s t
  pub never : OpenBelow s e d (suc (length t)) t

-- The brackets that are open behind one more character.
abbrev pub step : ℕ → ℕ → ℕ → ℕ → ℕ
step s e d c = if c == s then suc d else if c == e then d - 1 else d

one_less : (d : ℕ) → suc (suc d) - 1 ≡ suc d
one_less d = omega arith

nonzero : (d : ℕ) → is_zero (pos (suc d)) ≡ false
nonzero d = ground arith

module _ (s e : ℕ) (ne : s ≢ e) where
  OpenBelow-nil : (d n : ℕ) → 0 < d → OpenBelow s e d n []
  unfolding occurrences
  OpenBelow-nil d n h zero k = omega arith
  OpenBelow-nil d n h (suc m) k = omega arith

  OpenBelow-cons :
      (d n c : ℕ) (t : Text)
      → 0 < d
      → OpenBelow s e (step s e d c) n t
      → OpenBelow s e d (suc n) (c ∷ t)
  unfolding occurrences
  OpenBelow-cons d n c t h o zero k = omega arith
  OpenBelow-cons d n c t h o (suc m) k = ground (arith, o m (omega arith), ne)

  pub StaysOpen-nil : (d : ℕ) → 0 < d → StaysOpen s e d d []
  unfolding occurrences
  StaysOpen-nil d h = record { left = omega arith; never = OpenBelow-nil d 1 h }

  pub StaysOpen-cons :
      (d d' c : ℕ) (t : Text)
      → 0 < d
      → StaysOpen s e (step s e d c) d' t
      → StaysOpen s e d d' (c ∷ t)
  unfolding occurrences
  StaysOpen-cons d d' c t h o = record {
    left = ground (arith, o.left, ne);
    never = OpenBelow-cons d _ c t h o.never;
  }

  pub Closes-cons :
      (d c : ℕ) (t : Text) → 0 < d → Closes s e (step s e d c) t → Closes s e d (c ∷ t)
  unfolding occurrences
  Closes-cons d c t h o = record {
    balanced = ground (arith, o.balanced, ne);
    before = OpenBelow-cons d _ c t h o.before;
  }

  pub Closes-here : (c : ℕ) (t : Text) → c ≡ e → Closes s e 1 (c ∷ [])
  unfolding occurrences
  Closes-here c t h = record {
    balanced = ground (arith, ne);
    before = OpenBelow-cons 1 0 c [] (omega arith) (λ m k. absurd (omega arith));
  }

  -- What a scan from position `i` returns, by the text that it reads.
  abbrev pub Outcome : ℕ → ℕ → Text → Option ℕ × ℤ → Type 0
  Outcome i d t r =
      ((k : ℕ) × (r ≡ (some (i + k), pos 0)) × (k ≤ length t) × Closes s e d (take k t))
      ⊎ ((d' : ℕ) × (r ≡ (none, pos d')) × (0 < d') × StaysOpen s e d d' t)

  Outcome-cons :
      (i d c : ℕ) (t : Text) {r : Option ℕ × ℤ}
      → 0 < d
      → Outcome (suc i) (step s e d c) t r
      → Outcome i d (c ∷ t) r
  Outcome-cons i d c t h (inl (k, p, b, o)) = inl (
    suc k,
    p ∙ ap (λ (n : ℕ). (some n, pos 0)) (omega arith),
    omega arith,
    Closes-cons d c (take k t) h o,
  )
  Outcome-cons i d c t h (inr (d', p, q, o)) = inr (d', p, q, StaysOpen-cons d d' c t h o)

  -- At a closing bracket the scan ends, or goes on with one bracket less.
  closer :
      (i d c : ℕ) (t : Text) {r : Option ℕ × ℤ}
      → (c == s) ≡ false
      → (c == e) ≡ true
      → (0 < d → Outcome (suc i) d t r)
      → Outcome i (suc d) (c ∷ t) (if is_zero (pos d) then (some (i + 1), pos 0) else r)
  closer i zero c t ncs ce rest = inl (1, refl, omega arith, Closes-here c t ((==_iff c e).0 ce))
  closer i (suc d) c t ncs ce rest =
      Outcome-cons i (suc (suc d)) c t (omega arith)
        (rw (ncs, ce, one_less d, nonzero d) (rest (omega arith)))

  pub scan_end-Outcome : (i d : ℕ) (t : Text) → 0 < d → Outcome i d t (scan_end i (pos d) s e t)
  unfolding scan_end
  scan_end-Outcome i d [] h = inr (d, refl, h, StaysOpen-nil d h)
  scan_end-Outcome i zero (c ∷ t) h = absurd (omega arith)
  scan_end-Outcome i (suc d) (c ∷ t) h = elim (Bool-cases (c == s)) [
    | inl cs ↦
        Outcome-cons i (suc d) c t h
          (rw cs (scan_end-Outcome (suc i) (suc (suc d)) t (omega arith)))
    | inr ncs ↦ elim (Bool-cases (c == e)) [
      | inl ce ↦ rw (ncs, ce) (closer i d c t ncs ce (λ k. scan_end-Outcome (suc i) d t k))
      | inr nce ↦
          Outcome-cons i (suc d) c t h
            (rw (ncs, nce) (scan_end-Outcome (suc i) (suc d) t (omega arith)))
    ]
  ]
