-- ===== src/Tests/Nesting.antt =====
-- The stack of blocks.
use moohoorama.Base.{
  ℕ, suc, ◌<◌, ◌≡◌, refl, ◌⊎◌, true, none, some, List, [], ◌∷◌, ◌++◌, length, ◌↔◌, All,
}
use moohoorama.Text.{Text, codes}
use moohoorama.Regex.{Found, match, group_text, group?, search_re}
use moohoorama.Cleanse.Lines.{CleansedLines}
use moohoorama.Nesting.Blocks.{
  new_namespace, Block, new_block, plain, indent_pattern, bare_colon_pattern, closing_brace_pattern,
  namespace_comment_pattern, anonymous_comment_pattern, named_comment_pattern,
}
use moohoorama.Nesting.Preprocessor.{NestingState, init, if_pattern, else_pattern, endif_pattern}
use moohoorama.Nesting.Update.{
  update, asm_pattern, namespace_pattern, class_pattern, access_pattern, blank_pattern,
  token_pattern, token_round, with_effects, namespace_round, check_completed_blocks,
}
use moohoorama.Nesting.Loops.{
  tokens_loop, tokens_loop_unroll, namespaces_loop, namespaces_loop_unroll,
}
use moohoorama.Nesting.Conditionals.{
  line, blocks, run_events, Nested, nil, edit, conditional, no_branch, branch, first_branches,
  run_events-Nested, IsIf, IsElse, IsEndif,
}
use moohoorama.Nesting.Completed.{IsPlain, check_completed_blocks_iff}

abbrev text : List Text
text =
    codes "namespace a {"
    ∷ codes "class B : public C {"
    ∷ codes " public:"
    ∷ codes "  int f() { return 1; }"
    ∷ codes "};"
    ∷ codes "}"
    ∷ []

abbrev text_lines : CleansedLines
text_lines = record {
  elided = text;
  lines = text;
  raw_lines = text;
  num_lines = 6;
  lines_without_raw_strings = text;
}

abbrev after : ℕ → NestingState
after ℕ.zero = (update text_lines 0 init).0
after (suc n) = (update text_lines (suc n) (after n)).0

depth_after_each_line :
    (length (after 0).stack ≡ 1)
    × (length (after 1).stack ≡ 2)
    × (length (after 2).stack ≡ 2)
    × (length (after 3).stack ≡ 2)
    × (length (after 4).stack ≡ 1)
    × (length (after 5).stack ≡ 0)
unfolding new_namespace update init match search_re group_text group? asm_pattern namespace_pattern
    class_pattern access_pattern blank_pattern token_pattern if_pattern else_pattern endif_pattern
    indent_pattern bare_colon_pattern closing_brace_pattern namespace_comment_pattern
    anonymous_comment_pattern named_comment_pattern
depth_after_each_line = (refl, refl, refl, refl, refl, refl)

tokens_loop_unroll_example :
    ((match token_pattern (codes "{ }") ≡ none)
      × (tokens_loop text_lines 0 (codes "{ }") [] ≡ ([], [])))
    ⊎ ((m : Found) × (match token_pattern (codes "{ }") ≡ some m)
        × (length (group_text 2 m) < 3)
        × (tokens_loop text_lines 0 (codes "{ }") []
            ≡ with_effects (token_round text_lines 0 (group_text 1 m) (codes "{ }") []).1 (
                tokens_loop text_lines 0
                  (group_text 2 m)
                  (token_round text_lines 0 (group_text 1 m) (codes "{ }") []).0)))
tokens_loop_unroll_example = tokens_loop_unroll text_lines 0 (codes "{ }") []

abbrev two_namespaces : Text
two_namespaces = codes "namespace a { namespace b {"

namespaces_loop_unroll_example :
    ((match namespace_pattern two_namespaces ≡ none)
      × (namespaces_loop 0 two_namespaces [] ≡ ([], two_namespaces)))
    ⊎ ((m : Found) × (match namespace_pattern two_namespaces ≡ some m)
        × (length (namespace_round 0 m []).1 < length two_namespaces)
        × (namespaces_loop 0 two_namespaces []
            ≡ namespaces_loop 0 (namespace_round 0 m []).1 (namespace_round 0 m []).0))
namespaces_loop_unroll_example = namespaces_loop_unroll 0 two_namespaces []

abbrev push_block : List Block → List Block
push_block bs = new_block true plain ∷ bs

abbrev if_line : Text
if_line = codes "#ifdef A"

abbrev else_line : Text
else_line = codes "#else"

abbrev endif_line : Text
endif_line = codes "# endif"

directives : IsIf if_line × IsElse else_line × IsEndif endif_line
unfolding match if_pattern else_pattern endif_pattern
directives = (refl, (refl, refl), (refl, refl, refl))

-- Both branches open a block, and one block is open behind the conditional.
abbrev both_open : Nested (
    line if_line ∷ (blocks push_block ∷ [])
    ++ ((line else_line ∷ (blocks push_block ∷ []) ++ []) ++ (line endif_line ∷ [])))
both_open =
    conditional if_line endif_line directives.0 (edit push_block nil)
      (branch else_line directives.1 (edit push_block nil) no_branch) directives.2 nil

run_events-Nested_example :
    run_events
      (line if_line ∷ blocks push_block ∷ line else_line ∷ blocks push_block ∷ line endif_line ∷ [])
      init
    ≡ record init { stack = first_branches both_open init.stack }
run_events-Nested_example = run_events-Nested both_open init

one_open : first_branches both_open [] ≡ new_block true plain ∷ []
one_open = refl

check_completed_blocks_iff_example :
    (check_completed_blocks (after 1) ≡ []) ↔ All IsPlain (after 1).stack
check_completed_blocks_iff_example = check_completed_blocks_iff (after 1)
