-- ===== src/Language/Arrays.antt =====
-- The part of `CheckLanguage` about variable-length arrays.
use mathlib.Core.List.{reverse}
use moohoorama.Base.{
  ℕ, zero, suc, ◌-◌, Bool, true, false, not, ◌&&◌, ◌||◌, Option, none, some, List, [], ◌∷◌, ◌++◌,
  length, is_some, ◌==◌, if◌then◌else◌,
}
use moohoorama.Text.{Text, codes, eq, starts_with, find}
use moohoorama.Regex.{Re, Found, match, match_at, group_text}
use moohoorama.Regex.Syntax.{re}
use moohoorama.Lint.Suppressions.{Effect}
use moohoorama.Style.Report.{matches, found, say, when}

-- The pieces between matches: `here` is the piece read so far.
abbrev cut {ℓ} : {A : Type ℓ} → Option A → Text → List Text
cut none here = []
cut (some m) here = here ∷ []

abbrev rest_of_match : Option Found → ℕ
rest_of_match none = 0
rest_of_match (some m) = length m.matched - 1

abbrev here_behind : Option Found → ℕ → Text → Text
here_behind none c here = here ++ c ∷ []
here_behind (some m) c here = []

-- `re.split(pattern, s)`, for a pattern without groups that never matches the empty text
unfoldable pub split_by : Re → ℕ → Option ℕ → Text → Text → List Text
unfolding match_at
split_by r skip b here [] = here ∷ []
split_by r (suc skip) b here (c ∷ s) = split_by r skip (some c) here s
split_by r zero b here (c ∷ s) =
    let m = match_at r 0 b (c ∷ s) in
    cut m here ++ split_by r (rest_of_match m) (some c) (here_behind m c here) s

-- The pattern has a bracket behind its last alternative, as in the source.
unfoldable pub size_separator_pattern : Re
unfolding re
size_separator_pattern = re "\\s|\\+|\\-|\\*|\\/|<<|>>]"

-- `s.lstrip(chars)` for one character
unfoldable pub lstrip_char : ℕ → Text → Text
lstrip_char x [] = []
lstrip_char x (c ∷ s) = let rest = lstrip_char x s in if c == x then rest else c ∷ s

abbrev without_parentheses : Text → Text
without_parentheses tok = reverse (lstrip_char b')' (reverse (lstrip_char b'(' tok)))

-- A token that is a constant at compile time.
unfoldable pub is_constant : Text → Bool
unfolding matches
is_constant tok =
    length tok == 0
    || matches (re "\\d+") tok
    || matches (re "0[xX][0-9a-fA-F]+") tok
    || matches (re "k[A-Z0-9]\\w*") tok
    || matches (re "(.+::)?k[A-Z0-9]\\w*") tok
    || matches (re "(.+::)?[A-Z][A-Z0-9_]*") tok

-- The loop over the tokens, with its `skip_next`.
unfoldable pub all_constant : Bool → List Text → Bool
unfolding found is_constant starts_with lstrip_char
all_constant skip_next [] = true
all_constant true (tok ∷ toks) = all_constant false toks
all_constant false (tok ∷ toks) =
    let rest = all_constant false toks in
    let skipping = all_constant true toks in
    if found (re "sizeof\\(.+\\)") tok || found (re "arraysize\\(\\w+\\)") tok
    then rest
    else if is_constant (without_parentheses tok)
    then rest
    else if starts_with (without_parentheses tok) (codes "sizeof")
    then skipping
    else false

abbrev array_errors : ℕ → Option Found → List Effect
array_errors linenum none = []
array_errors linenum (some m) =
    when
      (not (eq (group_text 2 m) (codes "return"))
        && not (eq (group_text 2 m) (codes "delete"))
        && not (is_some (find (group_text 3 m) (codes "]")))
        && not (all_constant false (split_by size_separator_pattern 0 none [] (group_text 3 m))))
      (say linenum "runtime/arrays" 1 (
        codes
          "Do not use variable-length arrays.  Use an appropriately named ('k' followed by CamelCase) compile-time constant for the size."))

unfoldable pub check_arrays : Text → ℕ → List Effect
unfolding split_by all_constant match eq find
check_arrays line linenum =
    array_errors linenum (match (re "\\s*(.+::)?(\\w+) [a-z]\\w*\\[(.+)];") line)
