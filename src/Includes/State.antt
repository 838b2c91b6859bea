-- ===== src/Includes/State.antt =====
-- The class `_IncludeState`. Lower case of a unicode string is an argument.
use moohoorama.Base.{
  ℕ, zero, suc, Bool, true, false, not, ◌&&◌, ◌||◌, Option, none, some, List, [], ◌∷◌, ◌++◌, get_or,
  leb, ltb, ◌==◌, is_some, if◌then◌else◌,
}
use moohoorama.Text.{Text, codes, replace, replace_from}
use moohoorama.Regex.{Re, match}
use moohoorama.Regex.Syntax.{re}
use moohoorama.Cleanse.Lines.{CleansedLines}

-- `_C_SYS_HEADER` to `_OTHER_HEADER`
pub data HeaderType : Type 0 where
  c_sys cpp_sys likely_my possible_my other : HeaderType

-- `_INITIAL_SECTION` to `_OTHER_H_SECTION`, and the numbers by which they are compared
pub data Section : Type 0 where
  initial my_h c_section cpp_section other_h : Section

abbrev pub rank : Section → ℕ
rank initial = 0
rank my_h = 1
rank c_section = 2
rank cpp_section = 3
rank other_h = 4

-- `_TYPE_NAMES`
unfoldable pub type_name : HeaderType → Text
type_name c_sys = codes "C system header"
type_name cpp_sys = codes "C++ system header"
type_name likely_my = codes "header this file implements"
type_name possible_my = codes "header this file may implement"
type_name other = codes "other header"

-- `_SECTION_NAMES`
unfoldable pub section_name : Section → Text
section_name initial = codes "... nothing. (This can't be an error.)"
section_name my_h = codes "a header this file implements"
section_name c_section = codes "C system header"
section_name cpp_section = codes "C++ system header"
section_name other_h = codes "other header"

-- The dictionary part maps a header to the line that includes it.
pub record IncludeState : Type 0 where
  pub included : List (Text × ℕ)
  pub section : Section
  pub last_header : Text

-- `ResetSection()`
unfoldable pub reset_section : IncludeState → IncludeState
reset_section s = record s { section = initial; last_header = [] }

-- `_IncludeState()`
unfoldable pub init : IncludeState
unfolding reset_section
init = reset_section (record { included = []; section = initial; last_header = [] })

-- `SetLastHeader(header_path)`
unfoldable pub set_last_header : Text → IncludeState → IncludeState
set_last_header path s = record s { last_header = path }

-- `CanonicalizeAlphabeticalOrder(header_path)`
unfoldable pub canonicalize_alphabetical_order : (Text → Text) → Text → Text
unfolding replace_from
canonicalize_alphabetical_order lower path =
    lower (replace (replace path (codes "-inl.h") (codes ".h")) (codes "-") (codes "_"))

-- `a > b` on strings
unfoldable pub greater : Text → Text → Bool
greater [] b = false
greater (x ∷ a) [] = true
greater (x ∷ a) (y ∷ b) = let rest = greater a b in ltb y x || (x == y && rest)

unfoldable pub blank_pattern : Re
unfolding re
blank_pattern = re "^\\s*$"

abbrev last_line : List Text → Text
last_line [] = []
last_line (t ∷ []) = t
last_line (t ∷ u ∷ ts) = last_line (u ∷ ts)

-- `lines[linenum - 1]`; index -1 is the last line
abbrev line_before : List Text → ℕ → Text
line_before lines zero = last_line lines
line_before lines (suc n) = get_or lines n []

-- `IsInAlphabeticalOrder(clean_lines, linenum, header_path)`
unfoldable pub is_in_alphabetical_order : CleansedLines → ℕ → Text → IncludeState → Bool
unfolding greater
is_in_alphabetical_order clean_lines linenum path s = not (
    greater s.last_header path
    && not (is_some (match blank_pattern (line_before clean_lines.elided linenum))))

-- The section after a header, or `none` for a header out of order.
unfoldable pub next_section : HeaderType → Section → Option Section
next_section c_sys s = if leb (rank s) (rank c_section) then some c_section else none
next_section cpp_sys s = if leb (rank s) (rank cpp_section) then some cpp_section else none
next_section likely_my s = some (if leb (rank s) (rank my_h) then my_h else other_h)
next_section possible_my s = some (if leb (rank s) (rank my_h) then my_h else other_h)
next_section other s = some other_h

abbrev pub enter : Section → IncludeState → IncludeState
enter new s = record s {
  section = new;
  last_header = if rank s.section == rank new then s.last_header else [];
}

abbrev pub refuse : HeaderType → IncludeState → IncludeState × Text
refuse t s = (
  record s { last_header = [] },
  codes "Found " ++ (type_name t ++ (codes " after " ++ section_name s.section)),
)

abbrev pub checked : HeaderType → IncludeState → Option Section → IncludeState × Text
checked t s none = refuse t s
checked t s (some new) = (enter new s, [])

-- `CheckNextIncludeOrder(header_type)`: the new state and the error message
unfoldable pub check_next_include_order : HeaderType → IncludeState → IncludeState × Text
unfolding next_section
check_next_include_order t s = checked t s (next_section t s.section)
