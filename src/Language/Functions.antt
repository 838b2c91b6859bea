-- ===== src/Language/Functions.antt =====
-- `CheckPosixThreading` and `CheckMakePairUsesDeduction`.
use moohoorama.Base.{
  ℕ, zero, suc, Bool, true, false, not, ◌&&◌, ◌||◌, Option, none, some, List, [], ◌∷◌, ◌++◌, get_or,
  ◌==◌,
}
use moohoorama.Text.{Text, codes, concat, find}
use moohoorama.Regex.{Re}
use moohoorama.Regex.Syntax.{re}
use moohoorama.Lint.Suppressions.{Effect}
use moohoorama.Cleanse.Lines.{CleansedLines}
use moohoorama.Style.Report.{found, say, when}

-- `threading_list`, by the names of the functions: the other function has `_r` behind its name.
unfoldable pub threading_list : List Text
threading_list =
    codes "asctime"
    ∷ codes "ctime"
    ∷ codes "getgrgid"
    ∷ codes "getgrnam"
    ∷ codes "getlogin"
    ∷ codes "getpwnam"
    ∷ codes "getpwuid"
    ∷ codes "gmtime"
    ∷ codes "localtime"
    ∷ codes "rand"
    ∷ codes "strtok"
    ∷ codes "ttyname"
    ∷ []

-- The name that starts at a position is no part of another one, nor of a member; `isalnum` is the
-- method of unicode strings, for one character.
unfoldable pub starts_name : (ℕ → Bool) → Text → Option ℕ → Bool
starts_name isalnum line none = false
starts_name isalnum line (some zero) = true
starts_name isalnum line (some (suc i)) =
    let c = get_or line i 0 in not (isalnum c) && not (c == b'_' || c == b'.' || c == b'>')

unfoldable pub threading_errors : (ℕ → Bool) → Text → ℕ → List Text → List Effect
unfolding starts_name find
threading_errors isalnum line linenum [] = []
threading_errors isalnum line linenum (name ∷ names) =
    when (starts_name isalnum line (find line (name ++ codes "("))) (
      say linenum "runtime/threadsafe_fn" 2 (
        concat (
          codes "Consider using "
          ∷ name
          ∷ codes "_r(...) instead of "
          ∷ name
          ∷ codes "(...) for improved thread safety."
          ∷ [])))
    ++ threading_errors isalnum line linenum names

-- `CheckPosixThreading(filename, clean_lines, linenum, error)`
unfoldable pub check_posix_threading : (ℕ → Bool) → CleansedLines → ℕ → List Effect
unfolding threading_errors threading_list
check_posix_threading isalnum clean_lines linenum =
    threading_errors isalnum (get_or clean_lines.elided linenum []) linenum threading_list

-- `_RE_PATTERN_EXPLICIT_MAKEPAIR`
unfoldable pub make_pair_pattern : Re
unfolding re
make_pair_pattern = re "\\bmake_pair\\s*<"

-- `CheckMakePairUsesDeduction(filename, clean_lines, linenum, error)`
unfoldable pub check_make_pair_uses_deduction : CleansedLines → ℕ → List Effect
unfolding found
check_make_pair_uses_deduction clean_lines linenum =
    when (found make_pair_pattern (get_or clean_lines.elided linenum [])) (
      say linenum "build/explicit_make_pair" 4 (
        codes
          "For C++11-compatibility, omit template arguments from make_pair OR use pair directly OR if appropriate, construct a pair directly"))
