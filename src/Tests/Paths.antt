-- ===== src/Tests/Paths.antt =====
-- File names, the directory of a checkout and header guards.
use moohoorama.Base.{ℕ, true, false, ◌||◌, ◌≡◌, refl, none, some, [], ◌∷◌, ◌++◌, map, All, arith}
use moohoorama.Text.{Text, codes, eq, ascii_upper}
use moohoorama.Regex.{search_re}
use moohoorama.FilePath.{all_slashes, dirname, join_path, split_ext, normpath}
use moohoorama.FileInfo.{
  FileSystem, holds, svn_root, marked_root, below, repository_of, repository_name,
  get_header_guard_cpp_variable, original_name, variable_of, separator_pattern, split_name,
  no_extension, is_source,
}
use moohoorama.FileInfo.Laws.{Located, repository_of-Located, levels_up, svn_root_never}
use moohoorama.FileInfo.Variable.{is_separator, underscored, variable_of-map}

extension_split : split_ext (codes "a.b/c.d.h") ≡ (codes "a.b/c.d", codes ".h")
unfolding split_ext
extension_split = refl

hidden_file : split_ext (codes "a/.bashrc") ≡ (codes "a/.bashrc", [])
unfolding split_ext
hidden_file = refl

path_normalized : normpath (codes "a/b/../public/./c") ≡ codes "a/public/c"
unfolding normpath
path_normalized = refl

source_split : is_source (split_name (codes "a/b.cc")) ≡ true
unfolding is_source split_name
source_split = refl

without_extension : no_extension (split_name (codes "a/b.cc")) ≡ codes "a/b"
unfolding no_extension split_name
without_extension = refl

-- A checkout by git at /r.
abbrev checkout : FileSystem
checkout = record {
  abspath = λ f. codes "/r/" ++ f;
  exists = λ p. eq p (codes "/r/.git") || eq p (codes "/r/a/b-c.h");
}

below_checkout : repository_name checkout (codes "a/b-c.h") ≡ some (codes "a/b-c.h")
unfolding repository_name eq holds join_path dirname marked_root below
below_checkout = refl

guard_of_header :
    get_header_guard_cpp_variable checkout (map ascii_upper) none (codes "a/b-c.h")
    ≡ some (codes "A_B_C_H_")
unfolding get_header_guard_cpp_variable separator_pattern search_re eq holds join_path dirname
    marked_root below ascii_upper
guard_of_header = refl

guard_below_root :
    get_header_guard_cpp_variable checkout (map ascii_upper) (some (codes "a")) (codes "a/b-c.h")
    ≡ some (codes "B_C_H_")
unfolding get_header_guard_cpp_variable separator_pattern search_re eq holds join_path dirname
    marked_root below ascii_upper
guard_below_root = refl

flymake_name : original_name (codes "a/.flymake/b_flymake.h") ≡ codes "a/b.h"
unfolding original_name
flymake_name = refl

no_svn : (d : Text) → all_slashes d ≡ true → holds checkout (codes ".svn") d ≡ false
unfolding holds join_path all_slashes eq
no_svn [] h = refl
no_svn (x ∷ []) h = ground arith
no_svn (x ∷ y ∷ d) h = ground arith

repository_of-Located_example :
    (name : Text) × (repository_of checkout (codes "/r/a/b-c.h") ≡ some name)
    × Located checkout (codes "/r/a/b-c.h") name
repository_of-Located_example =
    repository_of-Located checkout (codes "/r/a/b-c.h")
      (λ k. no_svn (levels_up k (dirname (dirname (codes "/r/a/b-c.h")))))

-- A disk whose directories all hold .svn.
abbrev all_svn : FileSystem
all_svn = record { abspath = λ f. f; exists = λ p. true }

all_svn-holds : (k : ℕ) → holds all_svn (codes ".svn") (levels_up k (codes "/")) ≡ true
unfolding holds
all_svn-holds k = refl

svn_root_never_example : svn_root 7 all_svn (codes "/a") (codes "/") ≡ none
svn_root_never_example = svn_root_never all_svn 7 (codes "/a") (codes "/") all_svn-holds

upper_keeps :
    (s : Text)
    → All (λ c. is_separator c ≡ false) s
    → All (λ c. is_separator c ≡ false) (map ascii_upper s)
unfolding ascii_upper
upper_keeps [] h = tt
upper_keeps (c ∷ s) (h, k) = (ground arith, upper_keeps s k)

variable_of-map_example :
    (variable_of (map ascii_upper) (codes "a/b-c.h")
      ≡ map ascii_upper (map underscored (codes "a/b-c.h")) ++ codes "_")
    × All (λ c. is_separator c ≡ false) (variable_of (map ascii_upper) (codes "a/b-c.h"))
variable_of-map_example = variable_of-map (map ascii_upper) (codes "a/b-c.h") upper_keeps
