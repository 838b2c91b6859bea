-- ===== src/FileInfo.antt =====
-- cpplint.py, `FileInfo` and `GetHeaderGuardCPPVariable`.
pub mod Laws
pub mod Variable
use moohoorama.Base.{
  ℕ, zero, suc, ◌+◌, Bool, true, false, not, ◌&&◌, ◌||◌, Option, none, some, List, [], ◌∷◌, ◌++◌,
  map, length, drop, if◌then◌else◌,
}
use moohoorama.Text.{Text, codes, eq, contains, replace, replace_from}
use moohoorama.Regex.{Re, replace_all, group_text}
use moohoorama.Regex.Syntax.{re, compile}
use moohoorama.FilePath.{dirname, join_path, split_path, split_ext, common_prefix}

-- What the operating system says: `os.path.abspath`, which depends on the working directory, and
-- `os.path.exists`.
pub record FileSystem : Type 0 where
  pub abspath : Text → Text
  pub exists : Text → Bool

-- `os.path.exists(os.path.join(d, name))`
unfoldable pub holds : FileSystem → Text → Text → Bool
holds fs name d = fs.exists (join_path d name)

-- `FullName()`
unfoldable pub full_name : FileSystem → Text → Text
unfolding replace_from
full_name fs filename = replace (fs.abspath filename) (codes "\\") (codes "/")

-- The loop for a checkout by SVN: `none` if the fuel ran out. It looks at the directory above
-- `root_dir` in each round.
unfoldable pub svn_root : ℕ → FileSystem → Text → Text → Option Text
unfolding dirname holds
svn_root zero fs root_dir one_up_dir = none
svn_root (suc fuel) fs root_dir one_up_dir =
    let rest = svn_root fuel fs (dirname root_dir) (dirname one_up_dir) in
    if holds fs (codes ".svn") one_up_dir then rest else some root_dir

-- A directory that holds .git, .hg or .svn.
unfoldable pub has_marker : FileSystem → Text → Bool
unfolding holds
has_marker fs d = holds fs (codes ".git") d || holds fs (codes ".hg") d || holds fs (codes ".svn") d

-- The loop up to such a directory, or to one that is its own directory.
unfoldable pub marked_root : ℕ → FileSystem → Text → Option Text
unfolding dirname eq has_marker
marked_root zero fs root_dir = none
marked_root (suc fuel) fs root_dir =
    let rest = marked_root fuel fs (dirname root_dir) in
    if not (eq root_dir (dirname root_dir)) && not (has_marker fs root_dir)
    then rest
    else some root_dir

-- `fullname[len(prefix) + 1:]`
unfoldable pub below : Text → Text → Text
unfolding common_prefix dirname
below fullname root_dir = drop (length (common_prefix root_dir (dirname fullname)) + 1) fullname

abbrev pub below_svn : Text → Option Text → Option Text
below_svn fullname none = none
below_svn fullname (some root_dir) = some (below fullname root_dir)

abbrev pub below_marked : FileSystem → Text → Option Text → Option Text
below_marked fs fullname none = none
below_marked fs fullname (some root_dir) =
    some (if has_marker fs root_dir then below fullname root_dir else fullname)

-- `RepositoryName()`, given the full name
unfoldable pub repository_of : FileSystem → Text → Option Text
repository_of fs fullname =
    let project_dir = dirname fullname in
    let by_svn =
      below_svn fullname (svn_root (suc (length fullname)) fs project_dir (dirname project_dir)) in
    let by_marker = below_marked fs fullname (marked_root (suc (length fullname)) fs project_dir) in
    if not (fs.exists fullname)
    then some fullname
    else if holds fs (codes ".svn") project_dir
    then by_svn
    else by_marker

-- `RepositoryName()`
unfoldable pub repository_name : FileSystem → Text → Option Text
unfolding repository_of full_name
repository_name fs filename = repository_of fs (full_name fs filename)

pub record Split : Type 0 where
  pub directory : Text
  pub basename : Text
  pub extension : Text

-- `Split()`, given the name in the repository; `BaseName()`, `Extension()`, `NoExtension()` and
-- `IsSource()` are taken from it.
unfoldable pub split_name : Text → Split
unfolding split_path split_ext
split_name googlename = record {
  directory = (split_path googlename).0;
  basename = (split_ext (split_path googlename).1).0;
  extension = (split_ext (split_path googlename).1).1;
}

unfoldable pub no_extension : Split → Text
no_extension s = s.directory ++ (b'/' ∷ s.basename)

unfoldable pub is_source : Split → Bool
unfolding contains
is_source s =
    contains (codes "c" ∷ codes "cc" ∷ codes "cpp" ∷ codes "cxx" ∷ []) (drop 1 s.extension)

unfoldable pub flymake_suffix_pattern : Re
unfolding re
flymake_suffix_pattern = re "_flymake\\.h$"

unfoldable pub flymake_dir_pattern : Re
unfolding re
flymake_dir_pattern = re "/\\.flymake/([^/]*)$"

unfoldable pub separator_pattern : Re
unfolding re
separator_pattern = re "[-./\\s]"

-- The name that the file has outside of Emacs's flymake.
unfoldable pub original_name : Text → Text
unfolding replace_all flymake_suffix_pattern flymake_dir_pattern group_text
original_name filename =
    replace_all flymake_dir_pattern (λ m. b'/' ∷ group_text 1 m)
      (replace_all flymake_suffix_pattern (λ m. codes ".h") filename)

-- `re.sub('^' + _root + os.sep, '', file_path_from_root)`, where `_root` is the expression that it is
-- used as; it is left out if the flag was not given, or is empty.
unfoldable pub without_root : Option Text → Text → Text
unfolding replace_all compile
without_root none path = path
without_root (some []) path = path
without_root (some (c ∷ root)) path =
    replace_all (compile ((b'^' ∷ c ∷ root) ++ codes "/")) (λ m. []) path

-- The variable of a path; upper case of a unicode string is an argument.
unfoldable pub variable_of : (Text → Text) → Text → Text
variable_of upper path = upper (replace_all separator_pattern (λ m. codes "_") path) ++ codes "_"

abbrev variable_below : (Text → Text) → Option Text → Option Text → Option Text
variable_below upper root none = none
variable_below upper root (some path) = some (variable_of upper (without_root root path))

-- `GetHeaderGuardCPPVariable(filename)`
unfoldable pub get_header_guard_cpp_variable :
    FileSystem → (Text → Text) → Option Text → Text → Option Text
unfolding repository_name original_name without_root variable_of
get_header_guard_cpp_variable fs upper root filename =
    variable_below upper root (repository_name fs (original_name filename))
