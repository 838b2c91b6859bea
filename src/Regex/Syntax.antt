-- ===== src/Regex/Syntax.antt =====
-- The syntax of `re`: `re "…"` reads a pattern as Python does, so that every expression of the
-- model is spelled as in the source.
use moohoorama.Base.{
  ℕ, zero, suc, ◌+◌, ◌-◌, ◌*◌, String, Bool, true, false, not, ◌&&◌, ◌||◌, Option, none, some, List,
  [], ◌∷◌, leb, ◌==◌, if◌then◌else◌,
}
use moohoorama.Text.{Text, codes, ascii_lower, ascii_upper}
use moohoorama.Regex.{Re, eps, set, seq, alt, star, group, ahead, ahead_not, assertion, same}

abbrev pub Class : Type 0
Class = ℕ → Bool

-- `\d`, `\s`, `\w` without the UNICODE flag
abbrev pub digit : Class
digit c = leb b'0' c && leb c b'9'

abbrev pub space : Class
space c = c == 32 || (leb 9 c && leb c 13)

abbrev pub word : Class
word c = leb b'a' c && leb c b'z' || leb b'A' c && leb c b'Z' || digit c || c == b'_'

abbrev complement : Class → Class
complement p c = not (p c)

abbrev union : Class → Class → Class
union p q c = p c || q c

abbrev range : ℕ → ℕ → Class
range lo hi c = leb lo c && leb c hi

abbrev pub only : ℕ → Class
only x c = c == x

-- The character or the class that an escape stands for.
abbrev control : ℕ → ℕ
control c = if c == b'n' then 10 else if c == b't' then 9 else if c == b'r' then 13 else c

abbrev escape_class : ℕ → Class
escape_class c =
    if c == b'd'
    then digit
    else if c == b's'
    then space
    else if c == b'w'
    then word
    else if c == b'D'
    then complement digit
    else if c == b'S'
    then complement space
    else if c == b'W'
    then complement word
    else only (control c)

abbrev word_before : Option ℕ → Bool
word_before none = false
word_before (some c) = word c

abbrev word_after : Text → Bool
word_after [] = false
word_after (c ∷ s) = word c

abbrev at_boundary : Option ℕ → Text → Bool
at_boundary b s = if word_before b then not (word_after s) else word_after s

abbrev at_start : Option ℕ → Text → Bool
at_start none s = true
at_start (some c) s = false

-- `$`: the end of the string, or the newline that ends it
abbrev at_end : Option ℕ → Text → Bool
at_end b [] = true
at_end b (c ∷ []) = c == 10
at_end b (c ∷ d ∷ s) = false

abbrev escape_re : ℕ → Re
escape_re c =
    if c == b'b'
    then assertion at_boundary
    else if leb b'1' c && leb c b'9'
    then same (c - b'0')
    else set (escape_class c)

abbrev dot : Class
dot c = not (c == 10)

-- An open parenthesis: which kind it is, the alternatives read so far, and the items of the
-- alternative that is being read, the last first.
pub data Kind : Type 0 where
  plain : Kind
  capture : ℕ → Kind
  looking looking_not : Kind

pub record Frame : Type 0 where
  pub kind : Kind
  pub alternatives : Option Re
  pub items : List Re

pub data Mode : Type 0 where
  -- between items, and behind a quantifier
  normal quantified : Mode
  escaped : Mode
  -- behind `{`, behind `{m` and behind `{m,n`
  counted : Mode
  count_low : ℕ → Mode
  count_high : ℕ → Option ℕ → Mode
  -- behind `(` and behind `(?`
  opened asked : Mode
  -- inside `[…]`: at its start, behind `[^`, between members, behind `\`, and behind `a-`
  class_start class_first class_body class_escaped : Mode
  class_range : ℕ → Mode

pub record Reader : Type 0 where
  pub mode : Mode
  pub next_group : ℕ
  pub top : Frame
  pub outer : List Frame
  -- the class that is being read
  pub negated : Bool
  pub members : Class
  pub last : Option ℕ

abbrev fresh : Kind → Frame
fresh k = record { kind = k; alternatives = none; items = [] }

join_items : Re → List Re → Re
join_items r [] = r
join_items r (x ∷ xs) = join_items (seq x r) xs

joined : List Re → Re
unfolding join_items
joined [] = eps
joined (x ∷ xs) = join_items x xs

add_alternative : Option Re → Re → Re
add_alternative none r = r
add_alternative (some l) r = alt l r

frame_re : Frame → Re
unfolding joined add_alternative
frame_re f = add_alternative f.alternatives (joined f.items)

wrap : Kind → Re → Re
wrap plain r = r
wrap (capture n) r = group n r
wrap looking r = ahead r
wrap looking_not r = ahead_not r

add_item : Re → Frame → Frame
add_item r f = record f { items = r ∷ f.items }

push : Re → Reader → Reader
unfolding add_item
push r p = record p { top = add_item r p.top; mode = normal }

bar : Reader → Reader
unfolding frame_re
bar p = record p { top = record p.top { alternatives = some (frame_re p.top); items = [] } }

open_frame : Kind → Reader → Reader
open_frame k p = record p { outer = p.top ∷ p.outer; top = fresh k; mode = normal }

close_onto : Re → List Frame → Reader → Reader
unfolding add_item
close_onto r [] p = p
close_onto r (f ∷ fs) p = record p { top = add_item r f; outer = fs; mode = normal }

close_frame : Reader → Reader
unfolding close_onto wrap frame_re
close_frame p = close_onto (wrap p.top.kind (frame_re p.top)) p.outer p

quantify_items : (Re → Re) → List Re → List Re
quantify_items q [] = []
quantify_items q (x ∷ xs) = q x ∷ xs

quantify : (Re → Re) → Reader → Reader
unfolding quantify_items
quantify q p = record p {
  top = record p.top { items = quantify_items q p.top.items };
  mode = quantified;
}

-- A `?` behind a quantifier makes it lazy.
lazy : Re → Re
lazy (star g r) = star false r
lazy (seq a (star g r)) = seq a (star false r)
lazy (alt a b) = alt b a
lazy r = r

-- `{m}`, `{m,}` and `{m,n}`: the number of rounds that may be left out, or `none` for no end
at_most : ℕ → Re → Re
at_most zero r = eps
at_most (suc n) r = alt (seq r (at_most n r)) eps

times : ℕ → Re → Re → Re
times zero r tail = tail
times (suc n) r tail = seq r (times n r tail)

counted_re : ℕ → Option ℕ → Re → Re
unfolding at_most times
counted_re low none r = times low r (star true r)
counted_re low (some high) r = times low r (at_most (high - low) r)

add_digit : ℕ → ℕ → ℕ
add_digit n c = n * 10 + (c - b'0')

digit_of : Option ℕ → ℕ
digit_of none = 0
digit_of (some n) = n

read_normal : ℕ → Reader → Reader
unfolding push bar close_frame quantify
read_normal c p =
    if c == b'\\'
    then record p { mode = escaped }
    else if c == b'('
    then record p { mode = opened }
    else if c == b')'
    then close_frame p
    else if c == b'['
    then record p { mode = class_start; negated = false; members = (λ _. false); last = none }
    else if c == b'|'
    then record (bar p) { mode = normal }
    else if c == b'*'
    then quantify (star true) p
    else if c == b'+'
    then quantify (λ r. seq r (star true r)) p
    else if c == b'?'
    then quantify (λ r. alt r eps) p
    else if c == b'{'
    then record p { mode = counted }
    else if c == b'^'
    then push (assertion at_start) p
    else if c == b'$'
    then push (assertion at_end) p
    else if c == b'.'
    then push (set dot) p
    else push (set (only c)) p

close_class : Reader → Reader
unfolding push
close_class p = push (set (if p.negated then complement p.members else p.members)) p

member : ℕ → Reader → Reader
member c p = record p { members = union p.members (only c); last = some c; mode = class_body }

dash : Option ℕ → Reader → Reader
unfolding member
dash none p = member b'-' p
dash (some lo) p = record p { mode = class_range lo }

read_class : ℕ → Reader → Reader
unfolding close_class member dash
read_class c p =
    if c == b']'
    then close_class p
    else if c == b'\\'
    then record p { mode = class_escaped }
    else if c == b'-'
    then dash p.last p
    else member c p

read_char : Mode → ℕ → Reader → Reader
unfolding quantify counted_re add_digit digit_of read_normal push open_frame read_class close_class
    member quantify_items
read_char normal c p = read_normal c p
read_char quantified c p =
    if c == b'?'
    then record p { top = record p.top { items = quantify_items lazy p.top.items }; mode = normal }
    else read_normal c p
read_char counted c p =
    if digit c
    then record p { mode = count_low (c - b'0') }
    else read_normal c (push (set (only b'{')) p)
read_char (count_low n) c p =
    if c == b'}'
    then quantify (counted_re n (some n)) p
    else if c == b','
    then record p { mode = count_high n none }
    else record p { mode = count_low (add_digit n c) }
read_char (count_high n high) c p =
    if c == b'}'
    then quantify (counted_re n high) p
    else record p { mode = count_high n (some (add_digit (digit_of high) c)) }
read_char escaped c p = push (escape_re c) p
read_char opened c p =
    if c == b'?'
    then record p { mode = asked }
    else read_normal c
        (open_frame (capture p.next_group) (record p { next_group = suc p.next_group }))
read_char asked c p =
    open_frame (if c == b'=' then looking else if c == b'!' then looking_not else plain) p
read_char class_start c p =
    if c == b'^' then record p { negated = true; mode = class_first } else read_class c p
read_char class_first c p = read_class c p
read_char class_body c p = read_class c p
read_char class_escaped c p = record p {
  members = union p.members (escape_class c);
  last = none;
  mode = class_body;
}
read_char (class_range lo) c p =
    if c == b']'
    then close_class (member b'-' p)
    else record p { members = union p.members (range lo c); last = none; mode = class_body }

read_all : Text → Reader → Reader
unfolding read_char
read_all [] p = p
read_all (c ∷ s) p = read_all s (read_char p.mode c p)

abbrev start : Reader
start = record {
  mode = normal;
  next_group = 1;
  top = fresh plain;
  outer = [];
  negated = false;
  members = λ _. false;
  last = none;
}

-- A brace at the end of a pattern stands for itself.
finish : Mode → Reader → Reader
unfolding push
finish counted p = push (set (only b'{')) p
finish _ p = p

-- The expression of a pattern given as code points.
unfoldable pub compile : Text → Re
unfolding read_all frame_re lazy finish
compile s = let p = read_all s start in frame_re (finish p.mode p).top

unfoldable pub re : String → Re
unfolding compile
re s = compile (codes s)

-- The flag re.I for ASCII letters, for expressions without negated sets.
unfoldable pub ignore_case : Re → Re
unfolding ascii_lower ascii_upper
ignore_case (set p) = set (λ c. p c || (p (ascii_lower c) || p (ascii_upper c)))
ignore_case (seq a b) = seq (ignore_case a) (ignore_case b)
ignore_case (alt a b) = alt (ignore_case a) (ignore_case b)
ignore_case (star greedy r) = star greedy (ignore_case r)
ignore_case (group n r) = group n (ignore_case r)
ignore_case (ahead r) = ahead (ignore_case r)
ignore_case (ahead_not r) = ahead_not (ignore_case r)
ignore_case r = r
