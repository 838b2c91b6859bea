-- ===== src/Language/Constructs.antt =====
-- `CheckForNonStandardConstructs`.
use moohoorama.Base.{
  ℕ, zero, suc, Bool, false, not, ◌&&◌, Option, none, some, List, [], ◌∷◌, ◌++◌, get_or,
  if◌then◌else◌,
}
use moohoorama.Text.{Text, codes, eq, starts_with, replace, strip}
use moohoorama.Regex.{Found, match, group_text}
use moohoorama.Regex.Syntax.{re, compile}
use moohoorama.Lint.Suppressions.{Effect}
use moohoorama.Cleanse.Lines.{CleansedLines}
use moohoorama.Nesting.Blocks.{Block, ClassInfo, Kind, class_info, escape}
use moohoorama.Style.Report.{matches, found, say, when}

-- Formats and escapes, in the line with its strings.
unfoldable pub check_formats : Text → ℕ → List Effect
unfolding found
check_formats line linenum =
    when (found (re "printf\\s*\\(.*\".*%[-+ ]?\\d*q") line) (
      say linenum "runtime/printf_format" 3
        (codes "%q in format strings is deprecated.  Use %ll instead."))
    ++ when (found (re "printf\\s*\\(.*\".*%\\d+\\$") line) (
        say linenum "runtime/printf_format" 2
          (codes "%N$ formats are unconventional.  Try rewriting to avoid them."))
    ++ when (found (re "(\"|').*\\\\(%|\\[|\\(|{)") (replace line (codes "\\\\") [])) (
        say linenum "build/printf_format" 3
          (codes "%, [, (, and { are undefined character escapes.  Unescape them."))

-- Declarations and operators, in the line without comments and strings.
unfoldable pub check_declarations : Text → ℕ → List Effect
unfolding found matches
check_declarations line linenum =
    when
      (found
        (re
          "\\b(const|volatile|void|char|short|int|long|float|double|signed|unsigned|schar|u?int8|u?int16|u?int32|u?int64)\\s+(register|static|extern|typedef)\\b")
        line)
      (say linenum "build/storage_class" 5
        (codes "Storage class (static, extern, typedef, etc) should be first."))
    ++ when (matches (re "\\s*#\\s*endif\\s*[^/\\s]+") line) (
        say linenum "build/endif_comment" 5
          (codes "Uncommented text after #endif is non-standard.  Use a comment."))
    ++ when (matches (re "\\s*class\\s+(\\w+\\s*::\\s*)+\\w+\\s*;") line) (
        say linenum "build/forward_decl" 5
          (codes "Inner-style forward declarations are invalid.  Remove this line."))
    ++ when
        (found (re "(\\w+|[+-]?\\d+(\\.\\d*)?)\\s*(<|>)\\?=?\\s*(\\w+|[+-]?\\d+)(\\.\\d*)?") line)
        (say linenum "build/deprecated" 3
          (codes ">? and <? (max and min) operators are non-standard and deprecated."))
    ++ when (found (re "^\\s*const\\s*string\\s*&\\s*\\w+\\s*;") line) (
        say linenum "runtime/member_string_references" 2 (
          codes
            "const string& members are dangerous. It is much better to use alternatives, such as pointers or simple constants."))

-- `name.split('::')[-1]`: the text behind the last two colons. `part` is the part read so far.
unfoldable pub last_part : ℕ → Text → Text → Text
unfolding starts_with
last_part skip part [] = part
last_part (suc skip) part (c ∷ name) = last_part skip part name
last_part zero part (c ∷ name) =
    let hit = starts_with (c ∷ name) (codes "::") in
    last_part (if hit then 1 else 0) (if hit then [] else part ++ c ∷ []) name

abbrev is_explicit_error : Text → Option Found → Bool
is_explicit_error base none = false
is_explicit_error base (some args) =
    not (eq (group_text 1 args) (codes "void"))
    && not (
        matches
          (compile (codes "(const\\s+)?" ++ (base ++ codes "(\\s+const)?\\s*(?:<\\w+>\\s*)?&")))
          (strip (group_text 1 args)))

-- A constructor with one argument, of the class with this name; `base` is the name as an expression.
unfoldable pub check_constructor : Text → Text → ℕ → List Effect
unfolding eq matches match compile
check_constructor base line linenum =
    when
      (is_explicit_error base (
        match (compile (codes "\\s+(?:inline\\s+)?" ++ (base ++ codes "\\s*\\(([^,()]+)\\)")))
          line))
      (say linenum "runtime/explicit" 5
        (codes "Single-argument constructors should be marked explicit."))

-- `InnermostClass()`, with its `seen_open_brace`
abbrev class_with_brace : Bool → Kind → Option (Bool × ClassInfo)
class_with_brace seen (class_info c) = some (seen, c)
class_with_brace seen _ = none

unfoldable pub innermost_class_head : List Block → Option (Bool × ClassInfo)
innermost_class_head [] = none
innermost_class_head (b ∷ bs) =
    let outer = innermost_class_head bs in
    elim (class_with_brace b.seen_open_brace b.kind) [ none ↦ outer | some c ↦ some c ]

abbrev constructor_errors : Text → ℕ → Option (Bool × ClassInfo) → List Effect
constructor_errors line linenum none = []
constructor_errors line linenum (some (seen, c)) =
    when seen (check_constructor (escape (last_part 0 [] c.name)) line linenum)

-- `CheckForNonStandardConstructs(filename, clean_lines, linenum, nesting_state, error)`
unfoldable pub check_for_non_standard_constructs : CleansedLines → ℕ → List Block → List Effect
unfolding check_formats check_declarations innermost_class_head check_constructor last_part
check_for_non_standard_constructs clean_lines linenum stack =
    let line = get_or clean_lines.elided linenum [] in
    check_formats (get_or clean_lines.lines linenum []) linenum
    ++ check_declarations line linenum
    ++ constructor_errors line linenum (innermost_class_head stack)
