-- ===== src/Nesting/Blocks.antt =====
-- The blocks on the stack. A subclass is a kind of block with its own fields.
use moohoorama.Base.{
  ℕ, suc, ◌-◌, Bool, true, false, not, ◌&&◌, ◌||◌, Option, none, some, List, [], ◌∷◌, ◌++◌, drop,
  length, get_or, ℤ, pos, sub_ℕ, eq_ℤ, ◌+ℤ◌, ltb, leb, ◌==◌, is_some, if◌then◌else◌,
}
use moohoorama.Text.{Text, codes, eq, count, count_from}
use moohoorama.Regex.{Re, Found, match, search_re, group_text}
use moohoorama.Regex.Syntax.{re, compile}
use moohoorama.Lint.Suppressions.{Effect, reports}
use moohoorama.Cleanse.Lines.{CleansedLines}

-- `_NO_ASM`, `_INSIDE_ASM`, `_END_ASM`, `_BLOCK_ASM`
pub data Asm : Type 0 where
  no_asm inside_asm end_asm block_asm : Asm

pub record ClassInfo : Type 0 where
  pub name : Text
  pub starting_linenum : ℕ
  pub is_derived : Bool
  pub access : Text
  pub is_struct : Bool
  pub class_indent : ℕ
  pub last_line : ℕ

pub record NamespaceInfo : Type 0 where
  pub name : Text
  pub starting_linenum : ℕ

pub data Kind : Type 0 where
  plain : Kind
  class_info : ClassInfo → Kind
  namespace_info : NamespaceInfo → Kind

-- `_BlockInfo` and its subclasses
pub record Block : Type 0 where
  pub seen_open_brace : Bool
  pub open_parentheses : ℤ
  pub inline_asm : Asm
  pub kind : Kind

-- `_BlockInfo.__init__`
abbrev pub new_block : Bool → Kind → Block
new_block seen k = record {
  seen_open_brace = seen;
  open_parentheses = pos 0;
  inline_asm = no_asm;
  kind = k;
}

unfoldable pub indent_pattern : Re
unfolding re
indent_pattern = re "^( *)\\S"

unfoldable pub closing_brace_pattern : Re
unfolding re
closing_brace_pattern = re "^( *)\\}"

unfoldable pub bare_colon_pattern : Re
unfolding re
bare_colon_pattern = re "(^|[^:]):($|[^:])"

abbrev group1_length : Option Found → ℕ
group1_length none = 0
group1_length (some m) = length (group_text 1 m)

-- The loop that looks for the line where the braces of a class are closed.
unfoldable pub find_last_line : ℤ → ℕ → List Text → ℕ
unfolding ◌+ℤ◌ count_from
find_last_line depth i [] = 0
find_last_line depth i (line ∷ lines) =
    let depth' = depth +ℤ sub_ℕ (count line (codes "{")) (count line (codes "}")) in
    let later = find_last_line depth' (suc i) lines in if eq_ℤ depth' (pos 0) then i else later

-- `_ClassInfo(name, class_or_struct, clean_lines, linenum)`
unfoldable pub new_class : Text → Text → CleansedLines → ℕ → Block
unfolding eq find_last_line
new_class name class_or_struct clean_lines linenum =
    let is_struct = eq class_or_struct (codes "struct") in
    new_block false (
      class_info (record {
        name = name;
        starting_linenum = linenum;
        is_derived = false;
        access = if is_struct then codes "public" else codes "private";
        is_struct = is_struct;
        class_indent =
            group1_length (match indent_pattern (get_or clean_lines.raw_lines linenum []));
        last_line = find_last_line (pos 0) linenum (drop linenum clean_lines.elided);
      }))

-- `_NamespaceInfo(name, linenum)`, with `''` for None
unfoldable pub new_namespace : Option Text → ℕ → Block
new_namespace name linenum = new_block false (
    namespace_info
      (record { name = elim name [ none ↦ [] | some n ↦ n ]; starting_linenum = linenum }))

set_derived : Bool → ClassInfo → ClassInfo
set_derived bare c = if bare then record c { is_derived = true } else c

begin_kind : CleansedLines → ℕ → Kind → Kind
unfolding set_derived
begin_kind clean_lines linenum (class_info c) =
    class_info (
      set_derived (is_some (search_re bare_colon_pattern (get_or clean_lines.elided linenum []))) c)
begin_kind clean_lines linenum k = k

-- `CheckBegin(filename, clean_lines, linenum, error)`, which reports nothing
unfoldable pub check_begin : CleansedLines → ℕ → Block → Block
unfolding begin_kind
check_begin clean_lines linenum b = record b { kind = begin_kind clean_lines linenum b.kind }

abbrev pub parent_name : ClassInfo → Text
parent_name c = (if c.is_struct then codes "struct " else codes "class ") ++ c.name

abbrev misaligned : ClassInfo → ℕ → Option Found → List Effect
misaligned c linenum none = []
misaligned c linenum (some indent) =
    if length (group_text 1 indent) == c.class_indent
    then []
    else reports (pos linenum) (codes "whitespace/indent") 3
        (codes "Closing brace should be aligned with beginning of " ++ parent_name c)

unfoldable pub namespace_comment_pattern : Re
unfolding re
namespace_comment_pattern = re "};*\\s*(//|/\\*).*\\bnamespace\\b"

unfoldable pub anonymous_comment_pattern : Re
unfolding re
anonymous_comment_pattern = re "};*\\s*(//|/\\*).*\\bnamespace[\\*/\\.\\\\\\s]*$"

-- `re.escape(s)`
unfoldable pub escape : Text → Text
escape [] = []
escape (c ∷ s) =
    let rest = escape s in
    if (leb b'a' c && leb c b'z') || (leb b'A' c && leb c b'Z') || (leb b'0' c && leb c b'9')
    then c ∷ rest
    else b'\\' ∷ c ∷ rest

unfoldable pub named_comment_pattern : Text → Re
unfolding compile escape
named_comment_pattern name =
    compile
      (codes "};*\\s*(//|/\\*).*\\bnamespace\\s+" ++ (escape name ++ codes "[\\*/\\.\\\\\\s]*$"))

namespace_end : NamespaceInfo → Text → ℕ → List Effect
namespace_end n line linenum =
    if ltb (linenum - n.starting_linenum) 10 && not (is_some (match namespace_comment_pattern line))
    then []
    else if not (length n.name == 0)
    then (if is_some (match (named_comment_pattern n.name) line)
        then []
        else reports (pos linenum) (codes "readability/namespace") 5
            (codes "Namespace should be terminated with \"// namespace " ++ (n.name ++ codes "\"")))
    else if is_some (match anonymous_comment_pattern line)
    then []
    else reports (pos linenum) (codes "readability/namespace") 5
        (codes "Namespace should be terminated with \"// namespace\"")

check_end_kind : CleansedLines → ℕ → Kind → List Effect
unfolding namespace_end
check_end_kind clean_lines linenum plain = []
check_end_kind clean_lines linenum (class_info c) =
    misaligned c linenum (match closing_brace_pattern (get_or clean_lines.elided linenum []))
check_end_kind clean_lines linenum (namespace_info n) =
    namespace_end n (get_or clean_lines.raw_lines linenum []) linenum

-- `CheckEnd(filename, clean_lines, linenum, error)`
unfoldable pub check_end : CleansedLines → ℕ → Block → List Effect
unfolding check_end_kind
check_end clean_lines linenum b = check_end_kind clean_lines linenum b.kind
