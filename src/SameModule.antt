-- ===== src/SameModule.antt =====
-- cpplint.py, `FilesBelongToSameModule`.
pub mod Paths
pub mod Laws
use moohoorama.Base.{
  ℕ, ◌+◌, ◌-◌, Bool, true, false, ◌&&◌, Option, none, some, List, [], ◌∷◌, length, leb, ◌==◌,
  if◌then◌else◌,
}
use moohoorama.Text.{Text, codes, ends_with, drop_last, replace, replace_from}

-- Both directories that hold the parts of a module are left out of a path.
unfoldable pub without_public_internal : Text → Text
unfolding replace_from
without_public_internal f =
    replace (replace f (codes "/public/") (codes "/")) (codes "/internal/") (codes "/")

unfoldable pub without_test : Text → Text
unfolding ends_with
without_test f =
    if ends_with f (codes "_unittest")
    then drop_last 9 f
    else if ends_with f (codes "_test")
    then drop_last 5 f
    else f

unfoldable pub without_inl : Text → Text
unfolding ends_with
without_inl f = if ends_with f (codes "-inl") then drop_last 4 f else f

-- What is left of `filename_cc`, or `none` if it does not end in `.cc`.
unfoldable pub module_of_cc : Text → Option Text
unfolding ends_with without_test without_public_internal
module_of_cc f =
    if ends_with f (codes ".cc")
    then some (without_public_internal (without_test (drop_last 3 f)))
    else none

-- What is left of `filename_h`, or `none` if it does not end in `.h`.
unfoldable pub module_of_h : Text → Option Text
unfolding ends_with without_inl without_public_internal
module_of_h f =
    if ends_with f (codes ".h")
    then some (without_public_internal (without_inl (drop_last 2 f)))
    else none

-- `filename_cc[:-len(filename_h)]`, which is empty if `filename_h` is
abbrev pub common_path : Text → Text → Text
common_path cc h = if length h == 0 then [] else drop_last (length h) cc

unfoldable pub same_module : Option Text → Option Text → Bool × Text
unfolding ends_with
same_module none h = (false, [])
same_module (some cc) none = (false, [])
same_module (some cc) (some h) = if ends_with cc h then (true, common_path cc h) else (false, [])

-- `FilesBelongToSameModule(filename_cc, filename_h)`
unfoldable pub files_belong_to_same_module : Text → Text → Bool × Text
unfolding same_module module_of_cc module_of_h
files_belong_to_same_module filename_cc filename_h =
    same_module (module_of_cc filename_cc) (module_of_h filename_h)
