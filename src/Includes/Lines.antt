-- ===== src/Includes/Lines.antt =====
-- `_DropCommonSuffixes`, `_IsTestFilename`, `_ClassifyInclude` and `CheckIncludeLine`. The name of
-- the checked file in the repository is an argument of the ones that make a FileInfo of it.
use moohoorama.Base.{
  ℕ, ◌-◌, Bool, false, not, ◌&&◌, ◌||◌, Option, none, some, List, [], ◌∷◌, ◌++◌, get_or, ltb, pos,
  ◌==◌, length, take, is_some, if◌then◌else◌,
}
use moohoorama.Text.{Text, codes, eq, contains, concat, decimal, ends_with}
use moohoorama.Regex.{Re, Found, match, search_re, group_text}
use moohoorama.Regex.Syntax.{re}
use moohoorama.Lint.{cpp_headers}
use moohoorama.Lint.Suppressions.{Effect, reports}
use moohoorama.Cleanse.Lines.{CleansedLines, include_pattern}
use moohoorama.FilePath.{split_path, split_ext, normpath}
use moohoorama.FileInfo.{split_name}
use moohoorama.Includes.State.{
  HeaderType, c_sys, cpp_sys, likely_my, possible_my, other, IncludeState, check_next_include_order,
  canonicalize_alphabetical_order, is_in_alphabetical_order, set_last_header,
}

abbrev common_suffixes : List Text
common_suffixes =
    codes "test.cc"
    ∷ codes "regtest.cc"
    ∷ codes "unittest.cc"
    ∷ codes "inl.h"
    ∷ codes "impl.h"
    ∷ codes "internal.h"
    ∷ []

-- `filename.endswith(suffix)` with a dash or an underscore in front
unfoldable pub has_suffix : Text → Text → Bool
unfolding ends_with
has_suffix filename suffix =
    let before = get_or filename (length filename - length suffix - 1) 0 in
    ends_with filename suffix
    && (ltb (length suffix) (length filename) && (before == b'-' || before == b'_'))

abbrev drop_first_of : List Text → Text → Text
drop_first_of [] filename = (split_ext filename).0
drop_first_of (suffix ∷ suffixes) filename =
    if has_suffix filename suffix
    then take (length filename - length suffix - 1) filename
    else drop_first_of suffixes filename

-- `_DropCommonSuffixes(filename)`
unfoldable pub drop_common_suffixes : Text → Text
unfolding has_suffix split_ext
drop_common_suffixes filename = drop_first_of common_suffixes filename

-- `_IsTestFilename(filename)`
unfoldable pub is_test_filename : Text → Bool
unfolding ends_with
is_test_filename filename =
    ends_with filename (codes "_test.cc")
    || ends_with filename (codes "_unittest.cc")
    || ends_with filename (codes "_regtest.cc")

unfoldable pub first_component_pattern : Re
unfolding re
first_component_pattern = re "^[^-_.]+"

abbrev same_component : Option Found → Option Found → Bool
same_component none m = false
same_component (some m) none = false
same_component (some m) (some n) = eq m.matched n.matched

-- The last part of `_ClassifyInclude`, by the directory and the base name of both files.
unfoldable pub classify_local : Text × Text → Text × Text → HeaderType
unfolding eq normpath match
classify_local (target_dir, target_base) (include_dir, include_base) =
    if eq target_base include_base
      && (eq include_dir target_dir || eq include_dir (normpath (target_dir ++ codes "/../public")))
    then likely_my
    else if same_component (match first_component_pattern target_base)
        (match first_component_pattern include_base)
    then possible_my
    else other

-- `_ClassifyInclude(fileinfo, include, is_system)`
unfoldable pub classify_include : Text → Text → Bool → HeaderType
unfolding cpp_headers contains classify_local split_path drop_common_suffixes
classify_include repository include is_system =
    if is_system
    then (if contains cpp_headers include then cpp_sys else c_sys)
    else classify_local (split_path (drop_common_suffixes repository))
        (split_path (drop_common_suffixes include))

-- `include_state[include]`
unfoldable pub included_at : Text → List (Text × ℕ) → Option ℕ
unfolding eq
included_at include [] = none
included_at include ((header, n) ∷ d) = if eq header include then some n else included_at include d

unfoldable pub order_error : ℕ → Text → Text → List Effect
unfolding split_name
order_error linenum repository [] = []
order_error linenum repository (c ∷ message) =
    reports (pos linenum) (codes "build/include_order") 4 (
      concat (
        (c ∷ message)
        ∷ codes ". Should be: "
        ∷ (split_name repository).basename
        ∷ codes ".h, c system, c++ system, other."
        ∷ []))

-- An include that is in the dictionary already.
unfoldable pub included_again : Text → ℕ → Text → ℕ → List Effect
unfolding decimal
included_again filename linenum include n = reports (pos linenum) (codes "build/include") 4 (
    concat (
      codes "\""
      ∷ include
      ∷ codes "\" already included at "
      ∷ filename
      ∷ codes ":"
      ∷ decimal n
      ∷ []))

unfoldable pub new_include :
    (Text → Text)
    → Text
    → CleansedLines
    → ℕ
    → Text
    → Bool
    → IncludeState
    → IncludeState × List Effect
new_include lower repository clean_lines linenum include is_system s =
    let recorded = record s { included = s.included ++ (include, linenum) ∷ [] } in
    let (ordered, message) =
      check_next_include_order (classify_include repository include is_system) recorded in
    let canonical = canonicalize_alphabetical_order lower include in
    (
      set_last_header canonical ordered,
      order_error linenum repository message
          ++ (if is_in_alphabetical_order clean_lines linenum canonical ordered
              then []
              else reports (pos linenum) (codes "build/include_alpha") 4 (
                  concat
                    (codes "Include \"" ∷ include ∷ codes "\" not in alphabetical order" ∷ []))),
    )

abbrev pub by_entry :
    (Text → Text)
    → Text
    → Text
    → CleansedLines
    → ℕ
    → Text
    → Bool
    → IncludeState
    → Option ℕ
    → IncludeState × List Effect
by_entry lower repository filename clean_lines linenum include is_system s (some n) =
    (s, included_again filename linenum include n)
by_entry lower repository filename clean_lines linenum include is_system s none =
    new_include lower repository clean_lines linenum include is_system s

abbrev pub by_match :
    (Text → Text)
    → Text
    → Text
    → CleansedLines
    → ℕ
    → IncludeState
    → Option Found
    → IncludeState × List Effect
by_match lower repository filename clean_lines linenum s none = (s, [])
by_match lower repository filename clean_lines linenum s (some m) =
    by_entry lower repository filename clean_lines linenum (group_text 2 m)
      (eq (group_text 1 m) (codes "<")) s (included_at (group_text 2 m) s.included)

unfoldable pub new_style_pattern : Re
unfolding re
new_style_pattern = re "#include +\"[^/]+\\.h\""

unfoldable pub stream_pattern : Re
unfolding re
stream_pattern = re "(f|ind|io|i|o|parse|pf|stdio|str|)?stream$"

abbrev stream_error : Text → ℕ → Option Found → List Effect
stream_error filename linenum none = []
stream_error filename linenum (some m) =
    if is_some (match stream_pattern (group_text 2 m)) && not (is_test_filename filename)
    then reports (pos linenum) (codes "readability/streams") 3
        (codes "Streams are highly discouraged.")
    else []

-- `CheckIncludeLine(filename, clean_lines, linenum, include_state, error)`
unfoldable pub check_include_line :
    (Text → Text) → Text → Text → CleansedLines → ℕ → IncludeState → IncludeState × List Effect
check_include_line lower repository filename clean_lines linenum s =
    let line = get_or clean_lines.lines linenum [] in
    let (s', errors) =
      by_match lower repository filename clean_lines linenum s (search_re include_pattern line) in
    (
      s',
      (if is_some (search_re new_style_pattern line)
            then reports (pos linenum) (codes "build/include") 4
                (codes "Include the directory when naming .h files")
            else [])
          ++ (errors ++ stream_error filename linenum (match include_pattern line)),
    )
