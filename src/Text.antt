-- ===== src/Text.antt =====
-- Python's string operations that cpplint.py uses, over lists of code points.
pub mod Laws
use Prim.Native.Char.{code}
use mathlib.Core.List.{reverse}
use moohoorama.Base.{
  ℕ, zero, suc, ◌+◌, ◌-◌, ◌/◌, ◌%◌, String, Bool, true, false, ◌&&◌, ◌||◌, Option, none, some, List,
  [], ◌∷◌, ◌++◌, map, leb, ◌==◌, if◌then◌else◌, length, take, drop, ℤ, pos, negsuc,
}

abbrev pub Text : Type 0
Text = List ℕ

abbrev pub codes : String → Text
codes String.[] = []
codes (String.◌∷◌ c s) = code c ∷ codes s

unfoldable pub eq : Text → Text → Bool
eq [] [] = true
eq (x ∷ xs) (y ∷ ys) = x == y && eq xs ys
eq _ _ = false

-- `x in (a, b, …)`
unfoldable pub contains : List Text → Text → Bool
unfolding eq
contains [] t = false
contains (x ∷ xs) t = eq x t || contains xs t

-- `s.startswith(p)`
unfoldable pub starts_with : Text → Text → Bool
starts_with s [] = true
starts_with [] (p ∷ ps) = false
starts_with (c ∷ s) (p ∷ ps) = c == p && starts_with s ps

-- `s.endswith(p)`
unfoldable pub ends_with : Text → Text → Bool
unfolding eq
ends_with s p = leb (length p) (length s) && eq (drop (length s - length p) s) p

-- `s[:-n]` for n > 0
abbrev pub drop_last : ℕ → Text → Text
drop_last n s = take (length s - n) s

-- `s.find(p)`, with `none` for -1
unfoldable pub find : Text → Text → Option ℕ
unfolding starts_with
find [] p = if starts_with [] p then some 0 else none
find (c ∷ s) p =
    if starts_with (c ∷ s) p
    then some 0
    else elim (find s p) [ none ↦ none | some i ↦ some (suc i) ]

-- `s.count(p)` and `s.replace(p, q)` for a non-empty p; the number says how many characters of
-- the last occurrence are still to be passed over.
unfoldable pub count_from : ℕ → Text → Text → ℕ
unfolding starts_with
count_from k [] p = 0
count_from (suc k) (c ∷ s) p = count_from k s p
count_from zero (c ∷ s) p =
    let hit = starts_with (c ∷ s) p in
    (if hit then 1 else 0) + count_from (if hit then length p - 1 else 0) s p

abbrev pub count : Text → Text → ℕ
count = count_from 0

unfoldable pub replace_from : ℕ → Text → Text → Text → Text
unfolding starts_with
replace_from k [] p q = []
replace_from (suc k) (c ∷ s) p q = replace_from k s p q
replace_from zero (c ∷ s) p q =
    let hit = starts_with (c ∷ s) p in
    (if hit then q else c ∷ []) ++ replace_from (if hit then length p - 1 else 0) s p q

abbrev pub replace : Text → Text → Text → Text
replace = replace_from 0

-- The white space of a Python 2 unicode string.
unfoldable pub is_space : ℕ → Bool
is_space c =
    (leb 9 c && leb c 13)
    || (leb 28 c && leb c 32)
    || c == 0x85
    || c == 0xa0
    || c == 0x1680
    || c == 0x180e
    || (leb 0x2000 c && leb c 0x200a)
    || (leb 0x2028 c && leb c 0x2029)
    || c == 0x202f
    || c == 0x205f
    || c == 0x3000

unfoldable pub lstrip : Text → Text
unfolding is_space
lstrip [] = []
lstrip (c ∷ s) = let rest = lstrip s in if is_space c then rest else c ∷ s

unfoldable pub rstrip : Text → Text
unfolding lstrip
rstrip s = reverse (lstrip (reverse s))

unfoldable pub strip : Text → Text
unfolding lstrip rstrip
strip s = rstrip (lstrip s)

-- The white space of a Python 2 byte string.
unfoldable pub is_byte_space : ℕ → Bool
is_byte_space c = (leb 9 c && leb c 13) || c == 32

unfoldable lstrip_bytes : Text → Text
unfolding is_byte_space
lstrip_bytes [] = []
lstrip_bytes (c ∷ s) = let rest = lstrip_bytes s in if is_byte_space c then rest else c ∷ s

-- `s.strip()` of a byte string
unfoldable pub strip_bytes : Text → Text
unfolding lstrip_bytes
strip_bytes s = reverse (lstrip_bytes (reverse (lstrip_bytes s)))

-- `s.split()`: `word` is the word read so far, backwards
abbrev flush : Text → List Text → List Text
flush [] ws = ws
flush (c ∷ w) ws = reverse (c ∷ w) ∷ ws

unfoldable pub split_onto : Text → Text → List Text
unfolding is_space
split_onto word [] = flush word []
split_onto word (c ∷ s) =
    let blank = is_space c in
    let rest = split_onto (if blank then [] else c ∷ word) s in
    if blank then flush word rest else rest

abbrev pub split : Text → List Text
split = split_onto []

-- `s.split(sep)` for a separator of one character
unfoldable pub split_at_onto : ℕ → Text → Text → List Text
split_at_onto sep word [] = reverse word ∷ []
split_at_onto sep word (c ∷ s) =
    let hit = c == sep in
    let rest = split_at_onto sep (if hit then [] else c ∷ word) s in
    if hit then reverse word ∷ rest else rest

abbrev pub split_at : ℕ → Text → List Text
split_at sep = split_at_onto sep []

-- `'%d' % n`
decimal_onto : ℕ → ℕ → Text → Text
decimal_onto zero n out = out
decimal_onto (suc fuel) n out =
    let digits = (b'0' + n % 10) ∷ out in
    let rest = decimal_onto fuel (n / 10) digits in if leb n 9 then digits else rest

unfoldable pub decimal : ℕ → Text
unfolding decimal_onto
decimal n = decimal_onto (suc n) n []

unfoldable pub decimal_ℤ : ℤ → Text
unfolding decimal
decimal_ℤ (pos n) = decimal n
decimal_ℤ (negsuc n) = b'-' ∷ decimal (suc n)

abbrev pub concat : List Text → Text
concat [] = []
concat (t ∷ ts) = t ++ concat ts

-- Lower and upper case of an ASCII letter.
unfoldable pub ascii_lower : ℕ → ℕ
ascii_lower c = if leb b'A' c && leb c b'Z' then c + 32 else c

unfoldable pub ascii_upper : ℕ → ℕ
ascii_upper c = if leb b'a' c && leb c b'z' then c - 32 else c
