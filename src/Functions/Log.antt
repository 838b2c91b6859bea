-- ===== src/Functions/Log.antt =====
-- `int(math.log(n, 2))` for a positive integer.
use native.Mathlib.Nat.{pow-suc}
use moohoorama.Base.{
  ℕ, zero, suc, ◌/◌, ◌^◌, ◌≤◌, ◌<◌, arith, leb, if◌then◌else◌, Bool-cases, inl, inr,
}

log2_fuel : ℕ → ℕ → ℕ
log2_fuel zero n = 0
log2_fuel (suc fuel) n = let half = log2_fuel fuel (n / 2) in if leb n 1 then 0 else suc half

unfoldable pub log2 : ℕ → ℕ
unfolding log2_fuel
log2 n = log2_fuel n n

log2_fuel-pow_le : (fuel n : ℕ) → 1 ≤ n → 2 ^ log2_fuel fuel n ≤ n
unfolding log2_fuel
log2_fuel-pow_le zero n h = omega arith
log2_fuel-pow_le (suc fuel) n h = elim (Bool-cases (leb n 1)) [
  | inl e ↦ rw e (omega arith)
  | inr e ↦ rw (e, pow-suc) (ground (arith, log2_fuel-pow_le fuel (n / 2)))
]

log2_fuel-lt_pow : (fuel n : ℕ) → n ≤ fuel → n < 2 ^ suc (log2_fuel fuel n)
unfolding log2_fuel
log2_fuel-lt_pow zero n h = ground arith
log2_fuel-lt_pow (suc fuel) n h = elim (Bool-cases (leb n 1)) [
  | inl e ↦ rw e (ground arith)
  | inr e ↦ rw (e, pow-suc) (ground (arith, log2_fuel-lt_pow fuel (n / 2)))
]

pub pow-log2 : (n : ℕ) → 1 ≤ n → (2 ^ log2 n ≤ n) × (n < 2 ^ suc (log2 n))
unfolding log2
pow-log2 n h = (log2_fuel-pow_le n n h, log2_fuel-lt_pow n n (omega arith))

pub pow_pos : (k : ℕ) → 1 ≤ 2 ^ k
pow_pos zero = omega arith
pow_pos (suc k) = rw pow-suc (omega (arith, pow_pos k))

pub pow_mono : (j k : ℕ) → j ≤ k → 2 ^ j ≤ 2 ^ k
pow_mono zero k h = pow_pos k
pow_mono (suc j) zero h = absurd (omega arith)
pow_mono (suc j) (suc k) h = simp pow-suc (omega (arith, pow_mono j k (omega arith)))
