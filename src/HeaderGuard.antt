-- ===== src/HeaderGuard.antt =====
-- cpplint.py, `CheckForHeaderGuard`. The CPP variable that `GetHeaderGuardCPPVariable` computes from
-- the file's name and the file system is an argument.
pub mod Laws
use moohoorama.Base.{
  ℕ, zero, suc, ◌+◌, ◌<◌, Bool, true, false, not, ◌&&◌, ◌||◌, Option, none, some, List, [], ◌∷◌,
  ◌++◌, get_or, pos, ltb, length, is_some, if◌then◌else◌,
}
use moohoorama.Text.{Text, codes, eq, split, split_onto, starts_with}
use moohoorama.Lint.Suppressions.{Effect, reports, parse_nolint_suppressions}

-- What the loop over the lines finds: the argument and the line of the first #ifndef, the argument
-- of the first #define, and the last line that starts with #endif. An argument is a word, which is
-- never empty, so that `not ifndef` is a test for None.
pub record Guard : Type 0 where
  pub ifndef : Option Text
  pub ifndef_linenum : ℕ
  pub define : Option Text
  pub endif : Option Text
  pub endif_linenum : ℕ

unfoldable pub no_guard : Guard
no_guard = record {
  ifndef = none;
  ifndef_linenum = 0;
  define = none;
  endif = none;
  endif_linenum = 0;
}

-- A line of at least two words, by the first two of them.
abbrev see_ifndef : ℕ → List Text → Guard → Guard
see_ifndef linenum (w ∷ arg ∷ ws) g =
    if not (is_some g.ifndef) && eq w (codes "#ifndef")
    then record g { ifndef = some arg; ifndef_linenum = linenum }
    else g
see_ifndef linenum _ g = g

abbrev see_define : List Text → Guard → Guard
see_define (w ∷ arg ∷ ws) g =
    if not (is_some g.define) && eq w (codes "#define") then record g { define = some arg } else g
see_define _ g = g

abbrev see_endif : ℕ → Text → Guard → Guard
see_endif linenum line g =
    if starts_with line (codes "#endif")
    then record g { endif = some line; endif_linenum = linenum }
    else g

unfoldable pub scan_words : ℕ → Text → List Text → Guard → Guard
unfolding eq starts_with
scan_words linenum line linesplit g =
    see_endif linenum line (see_define linesplit (see_ifndef linenum linesplit g))

unfoldable pub scan_line : ℕ → Text → Guard → Guard
unfolding scan_words split_onto
scan_line linenum line g = scan_words linenum line (split line) g

-- `for linenum, line in enumerate(lines)`
unfoldable pub scan_lines : ℕ → List Text → Guard → Guard
unfolding scan_line
scan_lines linenum [] g = g
scan_lines linenum (line ∷ lines) g = scan_lines (suc linenum) lines (scan_line linenum line g)

abbrev pub guard_report : ℕ → ℕ → Text → Text → List Effect
guard_report linenum level message cppvar =
    reports (pos linenum) (codes "build/header_guard") level (message ++ cppvar)

-- `#ifndef` with another word than the variable: level 0 if only an underscore is added.
unfoldable pub check_ifndef : Text → List Text → ℕ → Text → List Effect
unfolding eq
check_ifndef cppvar lines linenum ifndef =
    if eq ifndef cppvar
    then []
    else parse_nolint_suppressions (get_or lines linenum []) linenum
      ++ guard_report linenum (if eq ifndef (cppvar ++ codes "_") then 0 else 5)
          (codes "#ifndef header guard has wrong style, please use: ") cppvar

abbrev pub endif_line : Text → Text
endif_line cppvar = codes "#endif  // " ++ cppvar

-- `endif != '…'`, where None differs from every string
unfoldable pub is_line : Option Text → Text → Bool
unfolding eq
is_line none t = false
is_line (some s) t = eq s t

unfoldable pub check_endif : Text → List Text → ℕ → Option Text → List Effect
unfolding is_line
check_endif cppvar lines linenum endif =
    if is_line endif (endif_line cppvar)
    then []
    else parse_nolint_suppressions (get_or lines linenum []) linenum
      ++ reports (pos linenum) (codes "build/header_guard")
          (if is_line endif (endif_line (cppvar ++ codes "_")) then 0 else 5)
          (codes "#endif line should be \"" ++ (endif_line cppvar ++ codes "\""))

unfoldable pub check_pair : Text → List Text → Guard → Text → Text → List Effect
unfolding eq check_ifndef check_endif
check_pair cppvar lines g ifndef define =
    check_ifndef cppvar lines g.ifndef_linenum ifndef
    ++ (if not (eq define ifndef)
        then guard_report 0 5 (codes "#ifndef and #define don't match, suggested CPP variable is: ")
            cppvar
        else check_endif cppvar lines g.endif_linenum g.endif)

unfoldable pub check_guard : Text → List Text → Guard → Option Text → Option Text → List Effect
unfolding check_pair
check_guard cppvar lines g none define =
    guard_report 0 5 (codes "No #ifndef header guard found, suggested CPP variable is: ") cppvar
check_guard cppvar lines g (some ifndef) none =
    guard_report 0 5 (codes "No #define header guard found, suggested CPP variable is: ") cppvar
check_guard cppvar lines g (some ifndef) (some define) = check_pair cppvar lines g ifndef define

-- `CheckForHeaderGuard(filename, lines, error)`
unfoldable pub check_for_header_guard : Text → List Text → List Effect
unfolding check_guard no_guard scan_lines
check_for_header_guard cppvar lines =
    let g = scan_lines 0 lines no_guard in check_guard cppvar lines g g.ifndef g.define
