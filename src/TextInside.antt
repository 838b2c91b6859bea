-- ===== src/TextInside.antt =====
-- cpplint.py, `_GetTextInside`. `re.search` with `re.M` is an argument: what it says is where the match
-- ends, or `none` if there is no match.
pub mod Laws
use moohoorama.Base.{
  ℕ, zero, suc, ◌+◌, ◌-◌, Bool, true, false, ◌&&◌, Option, none, some, List, [], ◌∷◌, drop, take,
  get_or, is_some, ◌==◌, if◌then◌else◌,
}
use moohoorama.Text.{Text}

-- `matching_punctuation`
abbrev pub matching_punctuation : ℕ → Option ℕ
matching_punctuation c =
    if c == b'('
    then some b')'
    else if c == b'{'
    then some b'}'
    else if c == b'['
    then some b']'
    else none

-- `closing_punctuation`
abbrev pub is_closing : ℕ → Bool
is_closing c = if c == b')' then true else if c == b'}' then true else c == b']'

-- What an open bracket, or another character, does to the stack.
abbrev pub pushed : Option ℕ → List ℕ → List ℕ
pushed none stack = stack
pushed (some close) stack = close ∷ stack

abbrev pub one_more : Option ℕ → Option ℕ
one_more none = none
one_more (some n) = some (suc n)

-- The loop: the number of characters up to the one that empties `punctuation_stack`, that one
-- included, or `none` where the source returns None.
unfoldable pub scan : List ℕ → Text → Option ℕ
scan [] text = some 0
scan (top ∷ stack) [] = none
scan (top ∷ stack) (c ∷ text) =
    let popped = scan stack text in
    let deeper = scan (pushed (matching_punctuation c) (top ∷ stack)) text in
    if c == top then one_more popped else if is_closing c then none else one_more deeper

-- `text[start_position:position - 1]`
abbrev pub inside : Text → Option ℕ → Option Text
inside text none = none
inside text (some n) = some (take (n - 1) text)

-- `_GetTextInside(text, start_pattern)`; the outer `none` is a failed assertion
unfoldable pub get_text_inside : Option ℕ → Text → Option (Option Text)
unfolding scan
get_text_inside none text = some none
get_text_inside (some zero) text = none
get_text_inside (some (suc p)) text = elim (matching_punctuation (get_or text p 0)) [
  | none ↦ none
  | some close ↦ some (inside (drop (suc p) text) (scan (close ∷ []) (drop (suc p) text)))
]
