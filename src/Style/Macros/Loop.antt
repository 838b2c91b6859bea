-- ===== src/Style/Macros/Loop.antt =====
-- The loop of `CheckCheck` ends.
use moohoorama.Base.{
  ℕ, zero, suc, ◌<◌, true, ◌||◌, ◌≡◌, refl, inl, inr, Option, none, some, Option-cases, Bool-cases,
  [], ◌∷◌, length, length-drop, arith,
}
use moohoorama.Text.{Text, codes, eq, contains}
use moohoorama.Regex.{match, group_text}
use moohoorama.Regex.Laws.{late, late-group_text}
use moohoorama.Style.Macros.Operands.{
  operator_token_pattern, operand_pattern, one_character_pattern, Parsed, operands, Round, stop,
  go_on, parenthesized, at_token, next_round, other_operators, proceed, read_operands,
  find_operands,
}

-- What a round leaves is shorter than `n`.
abbrev Shrinks : ℕ → Round → Type 0
Shrinks n (stop p) = Unit
Shrinks n (go_on lhs expression) = length expression < n

parenthesized-Shrinks :
    (n : ℕ) (lhs rest : Text) (o : Option ℕ)
    → length rest < n
    → Shrinks n (parenthesized lhs rest o)
parenthesized-Shrinks n lhs rest none h = tt
parenthesized-Shrinks n lhs rest (some k) h = omega (arith, length-drop k rest)

at_token-Shrinks :
    (n : ℕ) (lhs token rest : Text) → length rest < n → Shrinks n (at_token lhs token rest)
unfolding at_token
at_token-Shrinks n lhs token rest h = elim (Bool-cases (eq token (codes "("))) [
  | inl e ↦ rw e (parenthesized-Shrinks n lhs rest _ h)
  | inr e ↦ elim (Bool-cases (eq token (codes "&&") || eq token (codes "||"))) [
    | inl f ↦ rw (e, f) tt
    | inr f ↦ elim (Bool-cases (contains other_operators token)) [
      | inl g ↦ rw (e, f, g) h
      | inr g ↦ rw (e, f, g) tt
    ]
  ]
]

operator_token_pattern-late : late 2 operator_token_pattern ≡ true
unfolding operator_token_pattern
operator_token_pattern-late = refl

operand_pattern-late : late 2 operand_pattern ≡ true
unfolding operand_pattern
operand_pattern-late = refl

one_character_pattern-late : late 2 one_character_pattern ≡ true
unfolding one_character_pattern
one_character_pattern-late = refl

next_round-Shrinks :
    (expression lhs : Text) → Shrinks (length expression) (next_round expression lhs)
unfolding next_round
next_round-Shrinks e lhs = elim (Option-cases (match operator_token_pattern e)) [
  | inr (m, q) ↦ rw q (
      at_token-Shrinks (length e) lhs (group_text 1 m) (group_text 2 m)
        (omega (arith, late-group_text 2 operator_token_pattern e operator_token_pattern-late q)))
  | inl q ↦ elim (Option-cases (match operand_pattern e)) [
    | inr (m, p) ↦
        rw (q, p) (omega (arith, late-group_text 2 operand_pattern e operand_pattern-late p))
    | inl p ↦ elim (Option-cases (match one_character_pattern e)) [
      | inr (m, o) ↦
          rw (q, p, o)
            (omega (arith, late-group_text 2 one_character_pattern e one_character_pattern-late o))
      | inl o ↦ rw (q, p, o) tt
    ]
  ]
]

proceed-some :
    (n : ℕ) (f : Text → Text → Option Parsed) (r : Round)
    → Shrinks n r
    → ((lhs e : Text) → length e < n → (p : Parsed) × (f lhs e ≡ some p))
    → (p : Parsed) × (proceed f r ≡ some p)
proceed-some n f (stop p) s h = (p, refl)
proceed-some n f (go_on lhs e) s h = h lhs e s

read_operands-some :
    (fuel : ℕ) (lhs expression : Text)
    → length expression < fuel
    → (p : Parsed) × (read_operands fuel lhs expression ≡ some p)
unfolding read_operands
read_operands-some zero lhs e h = absurd (omega arith)
read_operands-some (suc fuel) lhs [] h = (operands lhs none, refl)
read_operands-some (suc fuel) lhs (c ∷ e) h =
    proceed-some (length (c ∷ e)) (read_operands fuel) (next_round (c ∷ e) lhs)
      (next_round-Shrinks (c ∷ e) lhs) (λ l e' k. read_operands-some fuel l e' (omega arith))

-- The loop of `CheckCheck` ends on every expression: each of its rounds leaves a shorter expression,
-- so that the fuel given, one more than the expression's length, is enough.
pub find_operands-some : (expression : Text) → (p : Parsed) × (find_operands expression ≡ some p)
unfolding find_operands
find_operands-some expression =
    read_operands-some (suc (length expression)) [] expression (omega arith)
