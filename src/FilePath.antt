-- ===== src/FilePath.antt =====
-- The functions of Python's os.path that cpplint.py calls, as they are on a POSIX system. The ones
-- that look at the file system are not here.
pub mod Laws
use mathlib.Core.List.{reverse}
use moohoorama.Base.{
  ℕ, zero, suc, Bool, true, false, not, ◌&&◌, ◌||◌, Option, none, some, List, [], ◌∷◌, ◌++◌, length,
  ◌==◌, if◌then◌else◌,
}
use moohoorama.Text.{Text, codes, eq, starts_with, ends_with, contains, split_at, split_at_onto}

-- What stands before and behind the last occurrence of a character.
abbrev at_first : ℕ → ℕ → Text → Option (Text × Text) → Option (Text × Text)
at_first c x s none = if x == c then some ([], s) else none
at_first c x s (some (a, b)) = some (x ∷ a, b)

unfoldable pub last_split : ℕ → Text → Option (Text × Text)
last_split c [] = none
last_split c (x ∷ s) = at_first c x s (last_split c s)

unfoldable pub all_slashes : Text → Bool
all_slashes [] = true
all_slashes (c ∷ s) = c == b'/' && all_slashes s

-- `head.rstrip('/')`
unfoldable pub rstrip_slashes : Text → Text
unfolding all_slashes
rstrip_slashes [] = []
rstrip_slashes (c ∷ s) = let rest = c ∷ rstrip_slashes s in if all_slashes (c ∷ s) then [] else rest

-- The part in front of the last slash, with that slash.
unfoldable pub trim_head : Text → Text
unfolding all_slashes rstrip_slashes
trim_head head = if all_slashes head then head else rstrip_slashes head

abbrev head_of : Option (Text × Text) → Text
head_of none = []
head_of (some (a, b)) = a ++ (b'/' ∷ [])

abbrev tail_of : Text → Option (Text × Text) → Text
tail_of p none = p
tail_of p (some (a, b)) = b

-- `os.path.dirname(p)` and `os.path.split(p)`
unfoldable pub dirname : Text → Text
unfolding last_split trim_head
dirname p = trim_head (head_of (last_split b'/' p))

unfoldable pub split_path : Text → Text × Text
unfolding dirname last_split
split_path p = (dirname p, tail_of p (last_split b'/' p))

-- `os.path.join(a, b)`
unfoldable pub join_path : Text → Text → Text
unfolding starts_with ends_with eq
join_path a b =
    if starts_with b (codes "/")
    then b
    else if eq a [] || ends_with a (codes "/")
    then a ++ b
    else a ++ (b'/' ∷ b)

-- `os.path.splitext(p)`: the last dot counts if it stands behind the last slash, and some character
-- of the name before it is no dot.
unfoldable pub all_dots : Text → Bool
all_dots [] = true
all_dots (c ∷ s) = c == b'.' && all_dots s

abbrev ext_of : Text → Text → Option (Text × Text) → Text × Text
ext_of dir name none = (dir ++ name, [])
ext_of dir name (some (root, ext)) =
    if all_dots root then (dir ++ name, []) else (dir ++ root, b'.' ∷ ext)

unfoldable pub split_ext : Text → Text × Text
unfolding last_split all_dots
split_ext p =
    ext_of (head_of (last_split b'/' p)) (tail_of p (last_split b'/' p))
      (last_split b'.' (tail_of p (last_split b'/' p)))

-- `os.path.commonprefix([a, b])`
unfoldable pub common_prefix : Text → Text → Text
common_prefix [] b = []
common_prefix (x ∷ a) [] = []
common_prefix (x ∷ a) (y ∷ b) = let rest = x ∷ common_prefix a b in if x == y then rest else []

-- `os.path.normpath(p)`; the components are kept backwards
abbrev dot_dot_stays : Bool → List Text → Bool
dot_dot_stays absolute [] = not absolute
dot_dot_stays absolute (c ∷ cs) = eq c (codes "..")

abbrev tail : List Text → List Text
tail [] = []
tail (c ∷ cs) = cs

unfoldable pub normal_parts : Bool → List Text → List Text → List Text
unfolding eq
normal_parts absolute done [] = reverse done
normal_parts absolute done (c ∷ cs) =
    normal_parts absolute
      (if eq c [] || eq c (codes ".")
        then done
        else if not (eq c (codes "..")) || dot_dot_stays absolute done
        then c ∷ done
        else tail done)
      cs

abbrev pub join_with : Text → List Text → Text
join_with sep [] = []
join_with sep (t ∷ []) = t
join_with sep (t ∷ u ∷ ts) = t ++ (sep ++ join_with sep (u ∷ ts))

unfoldable pub initial_slashes : Text → Text
unfolding starts_with
initial_slashes p =
    if not (starts_with p (codes "/"))
    then []
    else if starts_with p (codes "//") && not (starts_with p (codes "///"))
    then codes "//"
    else codes "/"

abbrev or_dot : Text → Text
or_dot [] = codes "."
or_dot (c ∷ s) = c ∷ s

unfoldable pub normpath : Text → Text
unfolding normal_parts initial_slashes split_at_onto
normpath p = or_dot (
    initial_slashes p
    ++ join_with (codes "/") (normal_parts (starts_with p (codes "/")) [] (split_at b'/' p)))
