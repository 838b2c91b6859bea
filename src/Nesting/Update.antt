-- ===== src/Nesting/Update.antt =====
-- `_NestingState.Update` and the queries on the stack.
use mathlib.Core.List.{reverse}
use moohoorama.Base.{
  ℕ, zero, suc, ◌+◌, Bool, true, false, not, ◌&&◌, ◌||◌, Option, none, some, List, [], ◌∷◌, ◌++◌,
  drop, length, get_or, ℤ, pos, sub_ℕ, eq_ℤ, ◌+ℤ◌, ◌==◌, is_some, if◌then◌else◌,
}
use moohoorama.Text.{Text, codes, eq, count, count_from, find}
use moohoorama.Regex.{Re, Found, match, group?, group_text}
use moohoorama.Regex.Syntax.{re}
use moohoorama.Lint.Suppressions.{Effect, reports}
use moohoorama.Cleanse.Lines.{CleansedLines}
use moohoorama.Nesting.Blocks.{
  Asm, no_asm, inside_asm, end_asm, block_asm, ClassInfo, Kind, plain, class_info, namespace_info,
  Block, new_block, new_class, new_namespace, check_begin, check_end, parent_name,
}
use moohoorama.Nesting.Preprocessor.{NestingState, update_preprocessor}

unfoldable pub asm_pattern : Re
unfolding re
asm_pattern = re "^\\s*(?:asm|_asm|__asm|__asm__)(?:\\s+(volatile|__volatile__))?\\s*[{(]"

unfoldable pub namespace_pattern : Re
unfolding re
namespace_pattern = re "^\\s*namespace\\b\\s*([:\\w]+)?(.*)$"

unfoldable pub class_pattern : Re
unfolding re
class_pattern =
    re
      "\\s*(template\\s*<[\\w\\s<>,:]*>\\s*)?(class|struct)\\s+([A-Z_]+\\s+)*(\\w+(?:::\\w+)*)(([^=>]|<[^<>]*>|<[^<>]*<[^<>]*>\\s*>)*)$"

unfoldable pub access_pattern : Re
unfolding re
access_pattern = re "^(.*)\\b(public|private|protected|signals)(\\s+(?:slots\\s*)?)?:(?:[^:]|$)"

unfoldable pub blank_pattern : Re
unfolding re
blank_pattern = re "^\\s*$"

unfoldable pub token_pattern : Re
unfolding re
token_pattern = re "^[^{;)}]*([{;)}])(.*)$"

-- `SeenOpenBrace()`
abbrev pub seen_open_brace : List Block → Bool
seen_open_brace [] = true
seen_open_brace (b ∷ bs) = b.seen_open_brace

-- `InNamespaceBody()`
abbrev is_namespace : Kind → Bool
is_namespace (namespace_info n) = true
is_namespace _ = false

unfoldable pub in_namespace_body : List Block → Bool
in_namespace_body [] = false
in_namespace_body (b ∷ bs) = is_namespace b.kind

-- `inline_asm` behind a line, from its value, the change in depth, the new depth, and whether the
-- line starts an assembly block.
unfoldable pub next_asm : Asm → Bool → ℤ → Bool → Asm
next_asm no_asm changed opened starts =
    if changed && eq_ℤ opened (pos 1) && starts then inside_asm else no_asm
next_asm end_asm changed opened starts =
    if changed && eq_ℤ opened (pos 1) && starts then inside_asm else no_asm
next_asm inside_asm changed opened starts = if eq_ℤ opened (pos 0) then end_asm else inside_asm
next_asm block_asm changed opened starts = block_asm

-- The parentheses of a line are counted in the innermost block.
unfoldable pub count_parentheses : Text → List Block → List Block
unfolding next_asm ◌+ℤ◌ count_from
count_parentheses line [] = []
count_parentheses line (b ∷ bs) =
    let depth_change = sub_ℕ (count line (codes "(")) (count line (codes ")")) in
    let opened = b.open_parentheses +ℤ depth_change in
    record b {
      open_parentheses = opened;
      inline_asm =
          next_asm b.inline_asm (not (eq_ℤ depth_change (pos 0))) opened
            (is_some (match asm_pattern line));
    }
    ∷ bs

-- One round of the loop over namespace declarations: the stack and what is left of the line.
abbrev pub push_namespace : ℕ → Option Text → Text → Option ℕ → List Block → List Block × Text
push_namespace linenum name rest none stack = (new_namespace name linenum ∷ stack, rest)
push_namespace linenum name rest (some brace) stack =
    (record (new_namespace name linenum) { seen_open_brace = true } ∷ stack, drop (brace + 1) rest)

unfoldable pub namespace_round : ℕ → Found → List Block → List Block × Text
unfolding find
namespace_round linenum m stack =
    push_namespace linenum (group? 1 m) (group_text 2 m) (find (group_text 2 m) (codes "{")) stack

-- `while True` over namespace declarations. A round shortens the line, so that the length of the
-- line is fuel enough.
unfoldable pub consume_namespaces : ℕ → ℕ → Text → List Block → List Block × Text
unfolding namespace_round
consume_namespaces zero linenum line stack = (stack, line)
consume_namespaces (suc fuel) linenum line stack = elim (match namespace_pattern line) [
  | none ↦ (stack, line)
  | some m ↦
      consume_namespaces fuel linenum (namespace_round linenum m stack).1
        (namespace_round linenum m stack).0
]

abbrev no_open_parentheses : List Block → Bool
no_open_parentheses [] = true
no_open_parentheses (b ∷ bs) = eq_ℤ b.open_parentheses (pos 0)

abbrev class_declared : CleansedLines → ℕ → Text → List Block → Option Found → List Block × Text
class_declared clean_lines linenum line stack none = (stack, line)
class_declared clean_lines linenum line stack (some m) =
    if no_open_parentheses stack
    then (new_class (group_text 4 m) (group_text 2 m) clean_lines linenum ∷ stack, group_text 5 m)
    else (stack, line)

-- A class declaration in what is left of the line.
unfoldable pub consume_class : CleansedLines → ℕ → Text → List Block → List Block × Text
unfolding new_class
consume_class clean_lines linenum line stack =
    class_declared clean_lines linenum line stack (match class_pattern line)

-- The checks on the innermost block, if it still has no brace.
unfoldable pub begin_innermost : CleansedLines → ℕ → List Block → List Block
unfolding check_begin
begin_innermost clean_lines linenum [] = []
begin_innermost clean_lines linenum (b ∷ bs) =
    if b.seen_open_brace then b ∷ bs else check_begin clean_lines linenum b ∷ bs

abbrev or_empty : Option Text → Text
or_empty none = []
or_empty (some t) = t

access_report : ℕ → ClassInfo → Found → List Effect
access_report linenum c m =
    let indent = group_text 1 m in
    if not (length indent == c.class_indent + 1) && is_some (match blank_pattern indent)
    then reports (pos linenum) (codes "whitespace/indent") 3 (
        group_text 2 m
        ++ (or_empty (group? 3 m)
            ++ (codes ": should be indented +1 space inside " ++ parent_name c)))
    else []

access_matched : ℕ → Block → List Block → ClassInfo → Option Found → List Block × List Effect
unfolding access_report
access_matched linenum b bs c none = (b ∷ bs, [])
access_matched linenum b bs c (some m) = (
  record b { kind = class_info (record c { access = group_text 2 m }) } ∷ bs,
  access_report linenum c m,
)

access_in : ℕ → Text → Block → List Block → Kind → List Block × List Effect
unfolding access_matched
access_in linenum line b bs (class_info c) =
    access_matched linenum b bs c (match access_pattern line)
access_in linenum line b bs _ = (b ∷ bs, [])

-- The access control of the innermost block, if it is a class.
unfoldable pub update_access : ℕ → Text → List Block → List Block × List Effect
unfolding access_in
update_access linenum line [] = ([], [])
update_access linenum line (b ∷ bs) = access_in linenum line b bs b.kind

-- `{`: the head of the innermost block is complete, or a new block begins.
unfoldable pub at_open_brace : Text → List Block → List Block
at_open_brace line stack =
    let pushed =
      record (new_block true plain) {
        inline_asm = if is_some (match asm_pattern line) then block_asm else no_asm;
      }
      ∷ stack in
    elim stack [
      | [] ↦ pushed
      | b ∷ bs ↦ if b.seen_open_brace then pushed else record b { seen_open_brace = true } ∷ bs
    ]

-- `;` and `)`: a head without a brace was a declaration only.
unfoldable pub at_semicolon : List Block → List Block
at_semicolon [] = []
at_semicolon (b ∷ bs) = if b.seen_open_brace then b ∷ bs else bs

-- `}`: the checks at the end of a block.
unfoldable pub at_close_brace : CleansedLines → ℕ → List Block → List Block × List Effect
unfolding check_end
at_close_brace clean_lines linenum [] = ([], [])
at_close_brace clean_lines linenum (b ∷ bs) = (bs, check_end clean_lines linenum b)

-- What one token does to the stack. `line` is what was left of the line before the token.
unfoldable pub token_round : CleansedLines → ℕ → Text → Text → List Block → List Block × List Effect
unfolding eq at_open_brace at_semicolon at_close_brace
token_round clean_lines linenum token line stack =
    if eq token (codes "{")
    then (at_open_brace line stack, [])
    else if eq token (codes ";") || eq token (codes ")")
    then (at_semicolon stack, [])
    else at_close_brace clean_lines linenum stack

abbrev pub with_effects : List Effect → List Block × List Effect → List Block × List Effect
with_effects es r = (r.0, es ++ r.1)

-- `while True` over the braces and semicolons of what is left of the line.
unfoldable pub consume_tokens : ℕ → CleansedLines → ℕ → Text → List Block → List Block × List Effect
unfolding token_round
consume_tokens zero clean_lines linenum line stack = (stack, [])
consume_tokens (suc fuel) clean_lines linenum line stack = elim (match token_pattern line) [
  | none ↦ (stack, [])
  | some m ↦ with_effects (token_round clean_lines linenum (group_text 1 m) line stack).1 (
      consume_tokens fuel clean_lines linenum (group_text 2 m)
        (token_round clean_lines linenum (group_text 1 m) line stack).0)
]

-- `Update(filename, clean_lines, linenum, error)`
unfoldable pub update : CleansedLines → ℕ → NestingState → NestingState × List Effect
unfolding update_preprocessor count_parentheses consume_namespaces consume_class begin_innermost
    update_access consume_tokens
update clean_lines linenum s =
    let line = get_or clean_lines.elided linenum [] in
    let s1 = update_preprocessor line s in
    let stack2 = count_parentheses line s1.stack in
    let (stack3, line3) = consume_namespaces (suc (length line)) linenum line stack2 in
    let (stack4, line4) = consume_class clean_lines linenum line3 stack3 in
    let stack5 = begin_innermost clean_lines linenum stack4 in
    let (stack6, errors6) = update_access linenum line4 stack5 in
    let (stack7, errors7) = consume_tokens (suc (length line4)) clean_lines linenum line4 stack6 in
    (record s1 { stack = stack7 }, errors6 ++ errors7)

abbrev class_of : Kind → Option ClassInfo
class_of (class_info c) = some c
class_of _ = none

-- `InnermostClass()`
unfoldable pub innermost_class : List Block → Option ClassInfo
innermost_class [] = none
innermost_class (b ∷ bs) =
    let outer = innermost_class bs in elim (class_of b.kind) [ none ↦ outer | some c ↦ some c ]

abbrev pub incomplete : Kind → List Effect
incomplete plain = []
incomplete (class_info c) =
    reports (pos c.starting_linenum) (codes "build/class") 5
      (codes "Failed to find complete declaration of class " ++ c.name)
incomplete (namespace_info n) =
    reports (pos n.starting_linenum) (codes "build/namespaces") 5
      (codes "Failed to find complete declaration of namespace " ++ n.name)

-- The loop of `CheckCompletedBlocks` goes from the bottom of the stack.
unfoldable pub completed_from : List Block → List Effect
completed_from [] = []
completed_from (b ∷ bs) = incomplete b.kind ++ completed_from bs

-- `CheckCompletedBlocks(filename, error)`
unfoldable pub check_completed_blocks : NestingState → List Effect
unfolding completed_from
check_completed_blocks s = completed_from (reverse s.stack)
