-- ===== src/Includes/Required.antt =====
-- `UpdateIncludeState` and `CheckForIncludeWhatYouUse`. Reading a file is an argument: its lines, or
-- `none` for an IOError. Of the dictionaries of includes only the keys matter here.
pub mod Tables
pub mod Laws
use moohoorama.Base.{
  ℕ, zero, suc, ◌+◌, Bool, true, false, not, ◌&&◌, ◌||◌, Option, none, some, List, [], ◌∷◌, ◌++◌,
  take, map, is_some, ◌==◌, if◌then◌else◌,
}
use moohoorama.Text.{Text, codes, eq, concat, contains, starts_with, ends_with, find, drop_last}
use moohoorama.Regex.{Re, Found, search_re, replace_all, group_text}
use moohoorama.Regex.Syntax.{re}
use moohoorama.Lint.Suppressions.{Effect}
use moohoorama.Cleanse.Lines.{CleansedLines, include_pattern, cleanse_comments}
use moohoorama.SameModule.{files_belong_to_same_module}
use moohoorama.Style.Report.{found, say, when}
use moohoorama.Includes.Required.Tables.{
  Entity, string_pattern, algorithm_entities, template_entities,
}

-- `include_state.setdefault(include, …)`
abbrev pub add_key : Text → List Text → List Text
add_key key keys = if contains keys key then keys else keys ++ key ∷ []

abbrev pub add_found : Option Found → List Text → List Text
add_found none keys = keys
add_found (some m) keys = add_key (group_text 2 m) keys

-- The includes of the lines of a header.
unfoldable pub add_includes : List Text → List Text → List Text
unfolding contains
add_includes [] keys = keys
add_includes (line ∷ lines) keys =
    add_includes lines (add_found (search_re include_pattern (cleanse_comments line)) keys)

abbrev with_lines : List Text → Option (List Text) → List Text × Bool
with_lines keys none = (keys, false)
with_lines keys (some lines) = (add_includes lines keys, true)

-- `UpdateIncludeState(filename, include_state, io)`
unfoldable pub update_include_state :
    (Text → Option (List Text)) → Text → List Text → List Text × Bool
unfolding add_includes
update_include_state read filename keys = with_lines keys (read filename)

-- `required`: a header, with the last line that needs it and what is used there.
abbrev pub Required : Type 0
Required = List (Text × (ℕ × Text))

unfoldable pub require : Text → ℕ → Text → Required → Required
unfolding eq
require header linenum template [] = (header, (linenum, template)) ∷ []
require header linenum template ((h, v) ∷ d) =
    let rest = require header linenum template d in
    if eq h header then (header, (linenum, template)) ∷ d else (h, v) ∷ rest

abbrev string_used : Text → Option Found → Bool
string_used line none = false
string_used line (some m) =
    let prefix = take m.start line in
    ends_with prefix (codes "std::") || not (ends_with prefix (codes "::"))

unfoldable pub require_entities : List Entity → ℕ → Text → Required → Required
unfolding found require
require_entities [] linenum line d = d
require_entities (e ∷ es) linenum line d =
    require_entities es linenum line
      (if found e.pattern line then require e.header linenum e.template d else d)

-- What one line needs.
unfoldable pub require_line : ℕ → Text → Required → Required
unfolding search_re ends_with require_entities find
require_line linenum line d =
    let with_string =
      if string_used line (search_re string_pattern line)
      then require (codes "<string>") linenum (codes "string") d
      else d in
    let with_algorithms = require_entities algorithm_entities linenum line with_string in
    let with_templates = require_entities template_entities linenum line with_algorithms in
    if is_some (find line (codes "<")) then with_templates else with_algorithms

abbrev is_skipped : Text → Bool
is_skipped [] = true
is_skipped (c ∷ line) = c == b'#'

unfoldable pub required_from : ℕ → List Text → Required → Required
unfolding require_line
required_from linenum [] d = d
required_from linenum (line ∷ lines) d =
    required_from (suc linenum) lines (if is_skipped line then d else require_line linenum line d)

abbrev update_if : (Text → Option (List Text)) → Bool × Text → Text → List Text → List Text × Bool
update_if read (same, common_path) header keys =
    if same then update_include_state read (common_path ++ header) keys else (keys, false)

-- The loop over the headers that are included: the keys, and `header_found`.
unfoldable pub read_headers :
    (Text → Option (List Text)) → Text → List Text → List Text → List Text × Bool
unfolding files_belong_to_same_module update_include_state
read_headers read abs_filename [] keys = (keys, false)
read_headers read abs_filename (header ∷ headers) keys =
    let (keys', here) =
      update_if read (files_belong_to_same_module abs_filename header) header keys in
    let (all, later) = read_headers read abs_filename headers keys' in (all, here || later)

-- `header.strip('<>"')` for a header in angle brackets
abbrev stripped : Text → Text
stripped [] = []
stripped (c ∷ header) = drop_last 1 header

abbrev missing : List Text → Required → List Effect
missing keys [] = []
missing keys ((header, (linenum, template)) ∷ d) =
    when (not (contains keys (stripped header))) (
      say linenum "build/include_what_you_use" 4
        (concat (codes "Add #include " ∷ header ∷ codes " for " ∷ template ∷ [])))
    ++ missing keys d

unfoldable pub flymake_cc_pattern : Re
unfolding re
flymake_cc_pattern = re "_flymake\\.cc$"

-- `CheckForIncludeWhatYouUse(filename, clean_lines, include_state, error, io)`, where `full_name` is
-- the full name of the file and `included` has the keys of the dictionary.
unfoldable pub check_for_include_what_you_use :
    (Text → Option (List Text)) → Text → Text → CleansedLines → List Text → List Effect
unfolding required_from read_headers ends_with contains replace_all
check_for_include_what_you_use read full_name filename clean_lines included =
    let required = required_from 0 clean_lines.elided [] in
    let abs_filename = replace_all flymake_cc_pattern (λ m. codes ".cc") full_name in
    let (keys, header_found) = read_headers read abs_filename included included in
    when (not (ends_with filename (codes ".cc") && not header_found)) (missing keys required)
