-- ===== src/Style/Angles.antt =====
-- `FindNextMatchingAngleBracket` and `FindPreviousMatchingAngleBracket`. Their patterns cut a line at
-- its first, or last, operator of those in `is_operator`; a line has no newline in it.
pub mod Laws
use mathlib.Core.List.{reverse}
use moohoorama.Base.{
  ℕ, zero, suc, ◌+◌, Bool, true, false, ◌||◌, Option, none, some, List, [], ◌∷◌, ◌++◌, drop, take,
  ◌==◌, if◌then◌else◌,
}
use moohoorama.Text.{Text}
use moohoorama.Cleanse.Lines.{CleansedLines}

-- `[<>(),;\[\]]`
unfoldable pub is_operator : ℕ → Bool
is_operator c =
    c == b'<'
    || c == b'>'
    || c == b'('
    || c == b')'
    || c == b','
    || c == b';'
    || c == b'['
    || c == b']'

-- What a search knows behind some text: the stack, or the answer.
pub data Search : Type 0 where
  going : List ℕ → Search
  answer : Bool → Search

-- A bracket was closed: the search ends with the last one.
abbrev pub closed : List ℕ → Search
closed [] = answer true
closed (below ∷ rest) = going (below ∷ rest)

-- An operator where a closing angle bracket is expected. The stack below is `rest`.
unfoldable pub in_angle : ℕ → List ℕ → Search
in_angle c rest =
    if c == b'<' || c == b'(' || c == b'['
    then going (c ∷ b'<' ∷ rest)
    else if c == b'>'
    then closed rest
    else if c == b','
    then answer true
    else answer false

-- An operator where another closing bracket is expected.
unfoldable pub in_bracket : ℕ → ℕ → List ℕ → Search
in_bracket top c rest =
    if c == b'<' || c == b'(' || c == b'['
    then going (c ∷ top ∷ rest)
    else if c == b')' || c == b']'
    then going rest
    else going (top ∷ rest)

-- The stack always has its first `<` at the bottom, so it is never empty.
abbrev pub next_step : ℕ → List ℕ → Search
next_step c [] = going []
next_step c (top ∷ rest) = if top == b'<' then in_angle c rest else in_bracket top c rest

abbrev pub resume : (List ℕ → Search) → Search → Search
resume f (going stack) = f stack
resume f (answer b) = answer b

-- The operators of one line.
unfoldable pub next_in_line : List ℕ → Text → Search
unfolding is_operator in_angle in_bracket
next_in_line stack [] = going stack
next_in_line stack (c ∷ line) =
    let step = if is_operator c then next_step c stack else going stack in
    resume (λ s. next_in_line s line) step

abbrev next_or : (List ℕ → Bool) → Search → Bool
next_or f (going stack) = f stack
next_or f (answer b) = b

unfoldable pub next_in_lines : List Text → List ℕ → Text → Bool
unfolding next_in_line
next_in_lines [] stack line = next_or (λ s. true) (next_in_line stack line)
next_in_lines (next ∷ lines) stack line =
    next_or (λ s. next_in_lines lines s next) (next_in_line stack line)

-- `FindNextMatchingAngleBracket(clean_lines, linenum, init_suffix)`
unfoldable pub find_next_matching_angle_bracket : CleansedLines → ℕ → Text → Bool
unfolding next_in_lines
find_next_matching_angle_bracket clean_lines linenum init_suffix =
    next_in_lines (drop (suc linenum) clean_lines.elided) (b'<' ∷ []) init_suffix

-- The mirror image, from the end of a line: `>` opens and `<` closes.
unfoldable pub out_angle : ℕ → List ℕ → Search
out_angle c rest =
    if c == b'>' || c == b')' || c == b']'
    then going (c ∷ b'>' ∷ rest)
    else if c == b'<'
    then closed rest
    else if c == b','
    then answer true
    else answer false

unfoldable pub out_bracket : ℕ → ℕ → List ℕ → Search
out_bracket top c rest =
    if c == b'>' || c == b')' || c == b']'
    then going (c ∷ top ∷ rest)
    else if c == b'(' || c == b'['
    then going rest
    else going (top ∷ rest)

abbrev pub previous_step : ℕ → List ℕ → Search
previous_step c [] = going []
previous_step c (top ∷ rest) = if top == b'>' then out_angle c rest else out_bracket top c rest

-- The operators of one line, given backwards.
unfoldable pub previous_in_line : List ℕ → Text → Search
unfolding is_operator out_angle out_bracket
previous_in_line stack [] = going stack
previous_in_line stack (c ∷ line) =
    let step = if is_operator c then previous_step c stack else going stack in
    resume (λ s. previous_in_line s line) step

-- The lines above, the nearest first.
unfoldable pub previous_in_lines : List Text → List ℕ → Text → Bool
unfolding previous_in_line
previous_in_lines [] stack line = next_or (λ s. false) (previous_in_line stack (reverse line))
previous_in_lines (above ∷ lines) stack line =
    next_or (λ s. previous_in_lines lines s above) (previous_in_line stack (reverse line))

-- `FindPreviousMatchingAngleBracket(clean_lines, linenum, init_prefix)`
unfoldable pub find_previous_matching_angle_bracket : CleansedLines → ℕ → Text → Bool
unfolding previous_in_lines
find_previous_matching_angle_bracket clean_lines linenum init_prefix =
    previous_in_lines (reverse (take linenum clean_lines.elided)) (b'>' ∷ []) init_prefix
