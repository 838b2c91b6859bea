-- ===== src/Nesting/Preprocessor.antt =====
-- `_PreprocessorInfo`, `_NestingState` and `UpdatePreprocessor`. Both stacks have their top in
-- front. The source copies a stack wherever it keeps one, so stacks are values here.
use moohoorama.Base.{Bool, true, false, List, [], ◌∷◌, is_some, if◌then◌else◌}
use moohoorama.Text.{Text}
use moohoorama.Regex.{Re, match}
use moohoorama.Regex.Syntax.{re}
use moohoorama.Nesting.Blocks.{Block}

pub record PreprocessorInfo : Type 0 where
  pub stack_before_if : List Block
  pub stack_before_else : List Block
  pub seen_else : Bool

pub record NestingState : Type 0 where
  pub stack : List Block
  pub pp_stack : List PreprocessorInfo

-- `_NestingState()`
unfoldable pub init : NestingState
init = record { stack = []; pp_stack = [] }

unfoldable pub if_pattern : Re
unfolding re
if_pattern = re "^\\s*#\\s*(if|ifdef|ifndef)\\b"

unfoldable pub else_pattern : Re
unfolding re
else_pattern = re "^\\s*#\\s*(else|elif)\\b"

unfoldable pub endif_pattern : Re
unfolding re
endif_pattern = re "^\\s*#\\s*endif\\b"

-- `_PreprocessorInfo(stack_before_if)`
abbrev pub before_if : List Block → PreprocessorInfo
before_if stack = record { stack_before_if = stack; stack_before_else = []; seen_else = false }

unfoldable pub open_if : NestingState → NestingState
open_if s = record s { pp_stack = before_if s.stack ∷ s.pp_stack }

unfoldable pub at_else : List Block → List PreprocessorInfo → NestingState
at_else stack [] = record { stack = stack; pp_stack = [] }
at_else stack (p ∷ ps) = record {
  stack = p.stack_before_if;
  pp_stack =
      (if p.seen_else then p else record p { seen_else = true; stack_before_else = stack }) ∷ ps;
}

unfoldable pub at_endif : List Block → List PreprocessorInfo → NestingState
at_endif stack [] = record { stack = stack; pp_stack = [] }
at_endif stack (p ∷ ps) = record {
  stack = if p.seen_else then p.stack_before_else else stack;
  pp_stack = ps;
}

-- `UpdatePreprocessor(line)`
unfoldable pub update_preprocessor : Text → NestingState → NestingState
unfolding open_if at_else at_endif
update_preprocessor line s =
    if is_some (match if_pattern line)
    then open_if s
    else if is_some (match else_pattern line)
    then at_else s.stack s.pp_stack
    else if is_some (match endif_pattern line)
    then at_endif s.stack s.pp_stack
    else s
