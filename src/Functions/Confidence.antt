-- ===== src/Functions/Confidence.antt =====
-- The confidence of a report on a long function.
use moohoorama.Base.{
  ℕ, suc, ◌*◌, ◌/◌, ◌^◌, ◌≤◌, ◌<◌, ◌≡◌, refl, [], ◌∷◌, arith, pos, ◌⊎◌, inl, inr, Bool-cases,
  is_some,
}
use moohoorama.Text.{codes}
use moohoorama.Lint.Suppressions.{Report, report}
use moohoorama.Functions.Log.{log2, pow_pos, pow-log2, pow_mono}
use moohoorama.Functions.State.{
  FunctionState, base_trigger, check, test_pattern, at_most_5, long_report,
}
use moohoorama.Regex.{match}
use native.Mathlib.Decide.{dec_le, dec_lt}

abbrev IsBase : ℕ → Type 0
IsBase b = (b ≡ 250) ⊎ (b ≡ 400)

base_trigger-IsBase : (s : FunctionState) → IsBase (base_trigger s)
unfolding base_trigger
base_trigger-IsBase s = elim (Bool-cases (is_some (match test_pattern s.current_function))) [
  | inl e ↦ rw e (inr refl)
  | inr e ↦ rw e (inl refl)
]

-- The level of `n` lines over a base, for a verbosity `v` whose trigger they exceed.
record Level (b n v level : ℕ) : Type 0 where
  low : b * 2 ^ level ≤ n
  high : n < b * 2 ^ suc level
  above : v ≤ level

above_of : (v level q : ℕ) → 2 ^ v ≤ q → q < 2 ^ suc level → v ≤ level
above_of v level q h k = elim (dec_le v level) [
  | yes p ↦ p
  | no p ↦ absurd (omega (arith, pow_mono (suc level) v (omega arith)))
]

exceeds : (b n v : ℕ) → IsBase b → b * 2 ^ v < n → (1 ≤ n / b) × (2 ^ v ≤ n / b)
exceeds b n v (inl e) h = rw e (omega (arith, pow_pos v, rw e at h))
exceeds b n v (inr e) h = rw e (omega (arith, pow_pos v, rw e at h))

between_powers : (b n p r : ℕ) → IsBase b → p ≤ n / b → n / b < r → (b * p ≤ n) × (n < b * r)
between_powers b n p r (inl e) h k = rw e (omega (arith, rw e at h, rw e at k))
between_powers b n p r (inr e) h k = rw e (omega (arith, rw e at h, rw e at k))

level_lem : (b n v : ℕ) → IsBase b → b * 2 ^ v < n → Level b n v (log2 (n / b))
level_lem b n v i h =
    let (positive, reach) = exceeds b n v i h in
    let (low, high) = pow-log2 (n / b) positive in
    let (below, above) =
      between_powers b n (2 ^ log2 (n / b)) (2 ^ suc (log2 (n / b))) i low high in
    record { low = below; high = above; above = above_of v (log2 (n / b)) (n / b) reach high }

-- The report on a function that has more lines than its trigger. Its confidence is the largest level up to 5 whose
-- trigger the function reaches, so it is never dropped for a verbosity level up to 5.
pub record LongFunction (verbose_level : ℕ) (s : FunctionState) (linenum : ℕ) (r : Report)
    : Type 0 where
  pub exceeds_trigger : base_trigger s * 2 ^ verbose_level < s.lines_in_function
  pub at_line : r.linenum ≡ pos linenum
  pub category_is : r.category ≡ codes "readability/fn_size"
  pub at_most : r.confidence ≤ 5
  pub reaches : verbose_level ≤ 5 → verbose_level ≤ r.confidence
  pub lower : base_trigger s * 2 ^ r.confidence ≤ s.lines_in_function
  pub upper : r.confidence < 5 → s.lines_in_function < base_trigger s * 2 ^ suc r.confidence

at_most_5_cases : (n : ℕ) → ((5 < n) × (at_most_5 n ≡ 5)) ⊎ ((n ≤ 5) × (at_most_5 n ≡ n))
at_most_5_cases n = elim (dec_lt 5 n) [
  | yes p ↦ inl (p, ground arith)
  | no p ↦ inr (omega arith, ground arith)
]

capped_lower : (b n level : ℕ) → IsBase b → 5 < level → b * 2 ^ level ≤ n → b * 2 ^ 5 ≤ n
capped_lower b n level (inl e) h k = rw e (omega (arith, pow_mono 5 level (omega arith), rw e at k))
capped_lower b n level (inr e) h k = rw e (omega (arith, pow_mono 5 level (omega arith), rw e at k))

at_most_5-Level :
    (b n v level : ℕ)
    → IsBase b
    → Level b n v level
    → (at_most_5 level ≤ 5)
      × (v ≤ 5 → v ≤ at_most_5 level)
      × (b * 2 ^ at_most_5 level ≤ n)
      × (at_most_5 level < 5 → n < b * 2 ^ suc (at_most_5 level))
at_most_5-Level b n v level i l = elim (at_most_5_cases level) [
  | inl (big, e) ↦
      rw e (omega arith, λ h. h, capped_lower b n level i big l.low, λ h. absurd (omega arith))
  | inr (small, e) ↦ rw e (small, λ h. l.above, l.low, λ h. l.high)
]

long_report-LongFunction :
    (v : ℕ) (s : FunctionState) (linenum : ℕ)
    → base_trigger s * 2 ^ v < s.lines_in_function
    → LongFunction v s linenum (long_report v s linenum)
unfolding long_report
long_report-LongFunction v s linenum p =
    let base = base_trigger-IsBase s in
    let level = level_lem (base_trigger s) s.lines_in_function v base p in
    let (most, reach, low, up) = at_most_5-Level _ _ v _ base level in
    record {
      exceeds_trigger = p;
      at_line = refl;
      category_is = refl;
      at_most = most;
      reaches = reach;
      lower = low;
      upper = up;
    }

-- `Check` reports one error for a function with more lines than the trigger, base * 2^verbosity, and
-- nothing for any other. With confidence c, the function has at least base * 2^c lines, and fewer
-- than base * 2^(c + 1) if c is below 5; c is at most 5, and at least the verbosity level if that is
-- at most 5.
pub check-LongFunction :
    (verbose_level : ℕ) (s : FunctionState) (linenum : ℕ)
    → (s.lines_in_function ≤ base_trigger s * 2 ^ verbose_level
        × (check verbose_level s linenum ≡ []))
      ⊎ ((r : Report) × (check verbose_level s linenum ≡ report r ∷ [])
          × LongFunction verbose_level s linenum r)
unfolding check
check-LongFunction v s linenum = elim (dec_lt (base_trigger s * 2 ^ v) s.lines_in_function) [
  | no p ↦ inl (omega arith, ground arith)
  | yes p ↦ inr (long_report v s linenum, ground arith, long_report-LongFunction v s linenum p)
]
