-- ===== src/Language/Types.antt =====
-- `CheckLanguage`: the other parts, and their composition.
pub mod Include
use mathlib.Core.Option
use moohoorama.Base.{
  ℕ, zero, suc, ◌+◌, ◌-◌, Bool, true, false, not, ◌&&◌, ◌||◌, Option, none, some, List, [], ◌∷◌,
  ◌++◌, get_or, length, ltb, is_some, ◌==◌, if◌then◌else◌,
}
use moohoorama.Text.{Text, codes, eq, concat}
use moohoorama.Regex.{Found, match, search_re, group_text}
use moohoorama.Regex.Syntax.{re}
use moohoorama.Lint.Suppressions.{Effect}
use moohoorama.Cleanse.Lines.{CleansedLines}
use moohoorama.Style.Report.{matches, found, say, when}
use moohoorama.Style.Operators.{naming}
use moohoorama.Language.Casts.{check_casts}
use moohoorama.Language.Arrays.{check_arrays}
use moohoorama.Language.Printf.{check_buffers, check_format, check_memset}

-- `'… "%schar %s[]".' % (match.group(1), match.group(2))`
abbrev string_error : Text → ℕ → Option Found → List Effect
string_error line linenum none = []
string_error line linenum (some m) =
    when
      (not (found (re "\\boperator\\W") line)
        && not (matches (re "\\s*(<.*>)?(::[a-zA-Z0-9_]+)?\\s*\\(([^\"]|$)") (group_text 3 m)))
      (say linenum "runtime/string" 4 (
        concat (
          codes "For a static/global string constant, use a C style string instead: \""
          ∷ group_text 1 m
          ∷ codes "char "
          ∷ group_text 2 m
          ∷ codes "[]\"."
          ∷ [])))

-- Strings at the top level, members initialized with themselves, and integer types.
unfoldable pub check_types : Text → ℕ → List Effect
unfolding match found matches search_re
check_types line linenum =
    string_error line linenum
      (match (re "((?:|static +)(?:|const +))string +([a-zA-Z0-9_:]+)\\b(.*)") line)
    ++ when (found (re "\\b([A-Za-z0-9_]*_)\\(\\1\\)") line) (
        say linenum "runtime/init" 4
          (codes "You seem to be initializing a member variable with itself."))
    ++ (if found (re "\\bshort port\\b") line
        then when (not (found (re "\\bunsigned short port\\b") line))
            (say linenum "runtime/int" 4 (codes "Use \"unsigned short\" for ports, not \"short\""))
        else naming linenum "runtime/int" 4 (codes "Use int16/int64/etc, rather than the C type ")
            (search_re (re "\\b(short|long(?! +double)|long long)\\b") line))

-- An address operator, and an if behind a block.
unfoldable pub check_operator_and_if : Text → ℕ → List Effect
unfolding found
check_operator_and_if line linenum =
    when (found (re "\\boperator\\s*&\\s*\\(\\s*\\)") line)
      (say linenum "runtime/operator" 4 (codes "Unary operator& is dangerous.  Do not use it."))
    ++ when (found (re "\\}\\s*if\\s*\\(") line) (
        say linenum "readability/braces" 4
          (codes "Did you mean \"else if\"? If not, start a new line for \"if\"."))

unfoldable pub check_using : Text → ℕ → List Effect
unfolding found
check_using line linenum = when (found (re "\\busing namespace\\b") line) (
    say linenum "build/namespaces" 5
      (codes "Do not use namespace using-directives.  Use using-declarations instead."))

abbrev disallow_error : CleansedLines → ℕ → Option Found → List Effect
disallow_error clean_lines linenum none = []
disallow_error clean_lines linenum (some m) =
    when
      (ltb (linenum + 1) clean_lines.num_lines
        && not (found (re "^\\s*}[\\w\\*,\\s]*;") (get_or clean_lines.elided (linenum + 1) [])))
      (say linenum "readability/constructors" 3
        (group_text 1 m ++ codes " should be the last thing in the class"))

-- The last statement of a class, and unnamed namespaces in header files.
unfoldable pub check_class_end : CleansedLines → ℕ → Text → Text → List Effect
unfolding match found eq
check_class_end clean_lines linenum file_extension line =
    disallow_error clean_lines linenum (
      match
        (re "\\s*(DISALLOW_(EVIL_CONSTRUCTORS|COPY_AND_ASSIGN|IMPLICIT_CONSTRUCTORS))\\(.*\\);$")
        line)
    ++ when
        (eq file_extension (codes "h")
          && found (re "\\bnamespace\\s*{") line
          && not (get_or line (length line - 1) 0 == b'\\'))
        (say linenum "build/namespaces" 4 (
          codes
            "Do not use unnamed namespaces in header files.  See http://google-styleguide.googlecode.com/svn/trunk/cppguide.xml#Namespaces for more information."))

-- The checks of a line that includes nothing; `none` is a failed assertion.
unfoldable pub check_code : CleansedLines → ℕ → Text → Text → Option (List Effect)
unfolding check_casts check_types check_buffers check_operator_and_if check_format check_memset
    check_using check_arrays check_class_end
check_code clean_lines linenum file_extension line =
    Option.map
      (λ (format : List Effect).
        check_casts clean_lines linenum line
        ++ check_types line linenum
        ++ check_buffers line linenum
        ++ check_operator_and_if line linenum
        ++ format
        ++ check_memset line linenum
        ++ check_using line linenum
        ++ check_arrays line linenum
        ++ check_class_end clean_lines linenum file_extension line)
      (check_format line linenum)
