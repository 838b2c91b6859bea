-- ===== src/Language/Casts.antt =====
-- `CheckCStyleCast`, and the parts of `CheckLanguage` about casts.
use moohoorama.Base.{
  ℕ, ◌-◌, Bool, true, false, not, ◌&&◌, ◌||◌, Option, none, some, List, [], ◌∷◌, ◌++◌, get_or, take,
  ltb, is_some, if◌then◌else◌,
}
use moohoorama.Text.{Text, codes, eq, concat, ends_with, find}
use moohoorama.Regex.{Re, Found, match, search_re, group?, group_text}
use moohoorama.Regex.Syntax.{re}
use moohoorama.Lint.Suppressions.{Effect}
use moohoorama.Cleanse.Lines.{CleansedLines}
use moohoorama.Style.Report.{matches, found, say, when}

-- `matched_zero`: an assignment of something else than 0.
abbrev assigns_pointer : Option Found → Bool
assigns_pointer none = false
assigns_pointer (some m) = not (eq (group_text 1 m) (codes "0"))

-- An argument without a name that is not reported.
unfoldable pub is_tolerated : Text → Text → Text → Bool
unfolding matches match eq find
is_tolerated before remainder raw_line =
    matches (re "^\\s*>") remainder
    || assigns_pointer (match (re "^\\s=\\s*(\\S+)\\s*;") remainder)
    || matches (re ".*\\)\\s*$") before
    || is_some (find raw_line (codes "/*"))

-- What is found in a line: whether an error was emitted, and the errors. The group of each pattern
-- starts one character behind the match, so `line[0:match.start(1) - 1]` and `line[0:match.start(0)]`
-- are the same text.
unfoldable pub cast_found : ℕ → Text → Text → Text → Found → Bool × List Effect
unfolding is_tolerated matches ends_with
cast_found linenum line raw_line cast_type m =
    let before = take m.start line in
    if matches (re ".*sizeof\\s*$") before
      || ends_with before (codes " operator++")
      || ends_with before (codes " operator--")
    then (false, [])
    else if matches (re "^\\s*(?:;|const\\b|throw\\b|=|>|\\{|\\))") m.after
    then (if is_tolerated before m.after raw_line then (false, []) else (
      true,
      say linenum "readability/function" 3 (codes "All parameters should be named in a function"),
    ))
    else (
      true,
      say linenum "readability/casting" 4 (
          concat (
            codes "Using C-style cast.  Use "
            ∷ cast_type
            ∷ codes "<"
            ∷ group_text 1 m
            ∷ codes ">(...) instead"
            ∷ [])),
    )

abbrev cast_result : ℕ → Text → Text → Text → Option Found → Bool × List Effect
cast_result linenum line raw_line cast_type none = (false, [])
cast_result linenum line raw_line cast_type (some m) = cast_found linenum line raw_line cast_type m

-- `CheckCStyleCast(filename, linenum, line, raw_line, cast_type, pattern, error)`
unfoldable pub check_c_style_cast : ℕ → Text → Text → Text → Re → Bool × List Effect
unfolding cast_found
check_c_style_cast linenum line raw_line cast_type pattern =
    cast_result linenum line raw_line cast_type (search_re pattern line)

-- A line of a mock method, or the two lines above.
unfoldable pub is_mock : CleansedLines → ℕ → Bool
unfolding matches
is_mock clean_lines linenum =
    not (ltb linenum 2)
    && (matches (re "^\\s*MOCK_(?:CONST_)?METHOD\\d+(?:_T)?\\((?:\\S+,)?\\s*$")
          (get_or clean_lines.elided (linenum - 1) [])
        || matches (re "^\\s*MOCK_(?:CONST_)?METHOD\\d+(?:_T)?\\(\\s*$")
            (get_or clean_lines.elided (linenum - 2) []))

abbrev conversion_error : CleansedLines → ℕ → Text → Option Found → List Effect
conversion_error clean_lines linenum line none = []
conversion_error clean_lines linenum line (some m) =
    when
      (not (is_some (group? 1 m))
        && not (
            matches (re "^\\s*MOCK_(CONST_)?METHOD\\d+(_T)?\\(") line
            || found (re "\\bMockCallback<.*>") line
            || found (re "\\bstd::function<.*>") line)
        && not (matches (re "\\((?:[^() ]+::\\s*\\*\\s*)?[^() ]+\\)\\s*\\(") (group_text 3 m))
        && not (is_mock clean_lines linenum))
      (say linenum "readability/casting" 4 (
        concat (
          codes "Using deprecated casting style.  Use static_cast<"
          ∷ group_text 2 m
          ∷ codes ">(...) instead"
          ∷ [])))

abbrev address_error : ℕ → Option Found → List Effect
address_error linenum none = []
address_error linenum (some m) =
    when (elim (group? 1 m) [ none ↦ true | some t ↦ not (eq t (codes "*")) ])
      (say linenum "runtime/casting" 4 (
        codes
          "Are you taking an address of a cast?  This is dangerous: could be a temp var.  Take the address before doing the cast, rather than after"))

-- Pointer casts: of string constants, or else of others.
abbrev pointer_casts : Bool × List Effect → Bool × List Effect → List Effect
pointer_casts (emitted, errors) (_, others) = if emitted then errors else errors ++ others

-- The casts of a line.
unfoldable pub check_casts : CleansedLines → ℕ → Text → List Effect
unfolding search_re check_c_style_cast is_mock matches found eq
check_casts clean_lines linenum line =
    let raw_line = get_or clean_lines.raw_lines linenum [] in
    conversion_error clean_lines linenum line (
      search_re
        (re "(\\bnew\\s+)?\\b(int|float|double|bool|char|int32|uint32|int64|uint64)(\\([^)].*)")
        line)
    ++ (check_c_style_cast linenum line raw_line (codes "static_cast")
        (re "\\((int|float|double|bool|char|u?int(16|32|64))\\)")).1
    ++ pointer_casts
        (check_c_style_cast linenum line raw_line (codes "const_cast")
          (re "\\((char\\s?\\*+\\s?)\\)\\s*\""))
        (check_c_style_cast linenum line raw_line (codes "reinterpret_cast")
          (re "\\((\\w+\\s?\\*+\\s?)\\)"))
    ++ address_error linenum (
        search_re (re "(?:&\\(([^)]+)\\)[\\w(])|(?:&(static|dynamic|down|reinterpret)_cast\\b)")
          line)
