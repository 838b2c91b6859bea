-- ===== src/Nesting/Loops.antt =====
-- The two loops of `Update` end: each round leaves a shorter line, so that the fuel they are given
-- is enough, and they satisfy the equations of the loops without fuel.
use moohoorama.Base.{
  ℕ, zero, suc, ◌+◌, ◌≤◌, ◌<◌, true, ◌≡◌, refl, ap, ◌∙◌, sym, none, some, List, [], length,
  length-drop, arith, ◌⊎◌, inl, inr, Option-cases,
}
use moohoorama.Text.{Text, codes, find}
use moohoorama.Regex.{Found, match, group_text}
use moohoorama.Regex.Laws.{late, late-group_text}
use moohoorama.Lint.Suppressions.{Effect}
use moohoorama.Cleanse.Lines.{CleansedLines}
use moohoorama.Nesting.Blocks.{Block}
use moohoorama.Nesting.Update.{
  token_pattern, namespace_pattern, token_round, with_effects, consume_tokens, namespace_round,
  consume_namespaces, push_namespace,
}

token_pattern-late : late 2 token_pattern ≡ true
unfolding token_pattern
token_pattern-late = refl

namespace_pattern-late : late 2 namespace_pattern ≡ true
unfolding namespace_pattern
namespace_pattern-late = refl

module _ (cl : CleansedLines) (n : ℕ) (line : Text) (stack : List Block) where
  tokens_end :
      (f : ℕ)
      → match token_pattern line ≡ none
      → consume_tokens (suc f) cl n line stack ≡ (stack, [])
  unfolding consume_tokens
  tokens_end f e = rw (e, consume_tokens)

  tokens_more :
      (f : ℕ) {m : Found}
      → match token_pattern line ≡ some m
      → consume_tokens (suc f) cl n line stack
        ≡ with_effects (token_round cl n (group_text 1 m) line stack).1 (
            consume_tokens f cl n (group_text 2 m) (token_round cl n (group_text 1 m) line stack).0)
  unfolding consume_tokens
  tokens_more f e = rw (e, consume_tokens)

-- Fuel beyond the length of the line changes nothing.
consume_tokens-fuel :
    (f g : ℕ) (cl : CleansedLines) (n : ℕ) (line : Text) (stack : List Block)
    → length line < f
    → length line < g
    → consume_tokens f cl n line stack ≡ consume_tokens g cl n line stack
consume_tokens-fuel zero g cl n line stack h k = absurd (omega arith)
consume_tokens-fuel (suc f) zero cl n line stack h k = absurd (omega arith)
consume_tokens-fuel (suc f) (suc g) cl n line stack h k =
    elim (Option-cases (match token_pattern line)) [
      | inl e ↦ tokens_end cl n line stack f e ∙ sym (tokens_end cl n line stack g e)
      | inr (m, e) ↦
          tokens_more cl n line stack f e
          ∙ ap (with_effects _) (
              consume_tokens-fuel f g cl n (group_text 2 m) _
                (omega (arith, late-group_text 2 token_pattern line token_pattern-late e))
                (omega (arith, late-group_text 2 token_pattern line token_pattern-late e)))
          ∙ sym (tokens_more cl n line stack g e)
    ]

-- The loop over tokens, with the fuel that `Update` gives it.
abbrev pub tokens_loop : CleansedLines → ℕ → Text → List Block → List Block × List Effect
tokens_loop cl n line stack = consume_tokens (suc (length line)) cl n line stack

-- The loop over the braces and semicolons of a line is the loop of the source: it stops where no
-- token is left, and otherwise goes on behind the token with the stack that the token leaves. The
-- fuel never runs out.
pub tokens_loop_unroll :
    (cl : CleansedLines) (n : ℕ) (line : Text) (stack : List Block)
    → ((match token_pattern line ≡ none) × (tokens_loop cl n line stack ≡ (stack, [])))
      ⊎ ((m : Found) × (match token_pattern line ≡ some m)
          × (length (group_text 2 m) < length line)
          × (tokens_loop cl n line stack
              ≡ with_effects (token_round cl n (group_text 1 m) line stack).1 (
                  tokens_loop cl n
                    (group_text 2 m)
                    (token_round cl n (group_text 1 m) line stack).0)))
tokens_loop_unroll cl n line stack = elim (Option-cases (match token_pattern line)) [
  | inl e ↦ inl (e, tokens_end cl n line stack (length line) e)
  | inr (m, e) ↦
      let less = late-group_text 2 token_pattern line token_pattern-late e in
      inr (
        m,
        e,
        omega arith,
        tokens_more cl n line stack (length line) e
            ∙ ap (with_effects _) (
                consume_tokens-fuel (length line) (suc (length (group_text 2 m))) cl n
                  (group_text 2 m) _ (omega arith) (omega arith)),
      )
]

module _ (n : ℕ) (line : Text) (stack : List Block) where
  namespaces_end :
      (f : ℕ)
      → match namespace_pattern line ≡ none
      → consume_namespaces (suc f) n line stack ≡ (stack, line)
  unfolding consume_namespaces
  namespaces_end f e = rw (e, consume_namespaces)

  namespaces_more :
      (f : ℕ) {m : Found}
      → match namespace_pattern line ≡ some m
      → consume_namespaces (suc f) n line stack
        ≡ consume_namespaces f n (namespace_round n m stack).1 (namespace_round n m stack).0
  unfolding consume_namespaces
  namespaces_more f e = rw (e, consume_namespaces)

-- A round over a namespace leaves no more than the second group of the match.
namespace_round-length :
    (n : ℕ) (m : Found) (stack : List Block)
    → length (namespace_round n m stack).1 ≤ length (group_text 2 m)
unfolding namespace_round
namespace_round-length n m stack = elim (Option-cases (find (group_text 2 m) (codes "{"))) [
  | inl e ↦ rw (e, push_namespace) (omega arith)
  | inr (i, e) ↦ rw (e, push_namespace) (omega (arith, length-drop {0} (i + 1) (group_text 2 m)))
]

consume_namespaces-fuel :
    (f g n : ℕ) (line : Text) (stack : List Block)
    → length line < f
    → length line < g
    → consume_namespaces f n line stack ≡ consume_namespaces g n line stack
consume_namespaces-fuel zero g n line stack h k = absurd (omega arith)
consume_namespaces-fuel (suc f) zero n line stack h k = absurd (omega arith)
consume_namespaces-fuel (suc f) (suc g) n line stack h k =
    elim (Option-cases (match namespace_pattern line)) [
      | inl e ↦ namespaces_end n line stack f e ∙ sym (namespaces_end n line stack g e)
      | inr (m, e) ↦
          let less = late-group_text 2 namespace_pattern line namespace_pattern-late e in
          let rest = namespace_round-length n m stack in
          namespaces_more n line stack f e
          ∙ consume_namespaces-fuel f g n _ _ (omega arith) (omega arith)
          ∙ sym (namespaces_more n line stack g e)
    ]

abbrev pub namespaces_loop : ℕ → Text → List Block → List Block × Text
namespaces_loop n line stack = consume_namespaces (suc (length line)) n line stack

-- The loop over the namespace declarations at the start of a line is the loop of the source: it
-- stops where no declaration is left, and otherwise goes on behind the declaration with the
-- namespace on the stack. The fuel never runs out.
pub namespaces_loop_unroll :
    (n : ℕ) (line : Text) (stack : List Block)
    → ((match namespace_pattern line ≡ none) × (namespaces_loop n line stack ≡ (stack, line)))
      ⊎ ((m : Found) × (match namespace_pattern line ≡ some m)
          × (length (namespace_round n m stack).1 < length line)
          × (namespaces_loop n line stack
              ≡ namespaces_loop n (namespace_round n m stack).1 (namespace_round n m stack).0))
namespaces_loop_unroll n line stack = elim (Option-cases (match namespace_pattern line)) [
  | inl e ↦ inl (e, namespaces_end n line stack (length line) e)
  | inr (m, e) ↦
      let less = late-group_text 2 namespace_pattern line namespace_pattern-late e in
      let rest = namespace_round-length n m stack in
      inr (
        m,
        e,
        omega arith,
        namespaces_more n line stack (length line) e
            ∙ consume_namespaces-fuel (length line) (suc (length (namespace_round n m stack).1)) n _
                _ (omega arith) (omega arith),
      )
]
