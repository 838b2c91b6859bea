-- ===== src/Regex.antt =====
-- `Match`, `Search` and `ReplaceAll` of cpplint.py over the regular expressions of Python's `re`,
-- as far as cpplint.py uses them. `outcomes` lists every way in which an expression matches at a
-- cursor, in the order in which a backtracking matcher tries them, so `re` takes the first.
pub mod Syntax
pub mod Laws
pub mod Ends
pub mod Begins
use moohoorama.Base.{
  ℕ, zero, suc, ◌+◌, ◌-◌, Bool, true, false, not, ◌&&◌, ◌||◌, Option, none, some, List, [], ◌∷◌,
  ◌++◌, map, leb, ltb, ◌==◌, if◌then◌else◌, length, take, flat_map, drop,
}
use moohoorama.Text.{Text, starts_with}

-- The character before the cursor (`none` at the start of the string), the text behind it, and the
-- groups that have been closed, the latest first.
pub record Cursor : Type 0 where
  pub before : Option ℕ
  pub rest : Text
  pub groups : List (ℕ × Text)

pub data Re : Type 0 where
  eps : Re
  set : (ℕ → Bool) → Re
  seq : Re → Re → Re
  alt : Re → Re → Re
  -- `true` for a greedy repetition
  star : Bool → Re → Re
  group : ℕ → Re → Re
  ahead ahead_not : Re → Re
  -- `\1`: the text of a group once more
  same : ℕ → Re
  assertion : (Option ℕ → Text → Bool) → Re

abbrev advance : (ℕ → Bool) → Cursor → Text → List Cursor
advance p k [] = []
advance p k (c ∷ s) =
    if p c then (record { before = some c; rest = s; groups = k.groups }) ∷ [] else []

-- A further round of a repetition has to consume something.
abbrev shorter : Cursor → List Cursor → List Cursor
shorter k [] = []
shorter k (l ∷ ls) =
    let more = shorter k ls in if ltb (length l.rest) (length k.rest) then l ∷ more else more

pub repeat : Bool → (Cursor → List Cursor) → ℕ → Cursor → List Cursor
repeat greedy body zero k = k ∷ []
repeat greedy body (suc n) k =
    let longer = flat_map (repeat greedy body n) (shorter k (body k)) in
    if greedy then longer ++ k ∷ [] else k ∷ longer

-- The text of a group: what stands between two cursors.
abbrev pub between : Cursor → Cursor → Text
between k l = take (length k.rest - length l.rest) k.rest

abbrev close : ℕ → Cursor → Cursor → Cursor
close n k l = record l { groups = (n, between k l) ∷ l.groups }

abbrev peek : Cursor → List Cursor → List Cursor
peek k [] = []
peek k (l ∷ ls) = (record k { groups = l.groups }) ∷ []

abbrev pub deny : Cursor → List Cursor → List Cursor
deny k [] = k ∷ []
deny k (l ∷ ls) = []

abbrev lookup : ℕ → List (ℕ × Text) → Option Text
lookup n [] = none
lookup n ((i, t) ∷ gs) = if i == n then some t else lookup n gs

abbrev last_of : Option ℕ → Text → Option ℕ
last_of b [] = b
last_of b (c ∷ s) = last_of (some c) s

abbrev pub recall : Cursor → Option Text → List Cursor
recall k none = []
recall k (some t) =
    if starts_with k.rest t
    then (record k { before = last_of k.before t; rest = drop (length t) k.rest }) ∷ []
    else []

unfoldable pub outcomes : Re → Cursor → List Cursor
unfolding repeat starts_with
outcomes eps k = k ∷ []
outcomes (set p) k = advance p k k.rest
outcomes (seq a b) k = flat_map (outcomes b) (outcomes a k)
outcomes (alt a b) k = outcomes a k ++ outcomes b k
outcomes (star greedy r) k = repeat greedy (outcomes r) (length k.rest) k
outcomes (group n r) k = map (close n k) (outcomes r k)
outcomes (ahead r) k = peek k (outcomes r k)
outcomes (ahead_not r) k = deny k (outcomes r k)
outcomes (same n) k = recall k (lookup n k.groups)
outcomes (assertion p) k = if p k.before k.rest then k ∷ [] else []

-- A match object: where the match starts, the text matched, what follows it, and its groups.
pub record Found : Type 0 where
  pub start : ℕ
  pub matched : Text
  pub after : Text
  pub groups : List (ℕ × Text)

abbrev pub at_cursor : Option ℕ → Text → Cursor
at_cursor b s = record { before = b; rest = s; groups = [] }

abbrev to_found : ℕ → Cursor → List Cursor → Option Found
to_found i k [] = none
to_found i k (l ∷ ls) =
    some (record { start = i; matched = between k l; after = l.rest; groups = l.groups })

unfoldable pub match_at : Re → ℕ → Option ℕ → Text → Option Found
unfolding outcomes
match_at r i b s = to_found i (at_cursor b s) (outcomes r (at_cursor b s))

-- `Match(pattern, s)`
unfoldable pub match : Re → Text → Option Found
unfolding match_at
match r s = match_at r 0 none s

unfoldable pub search_from : Re → ℕ → Option ℕ → Text → Option Found
unfolding match_at
search_from r i b [] = match_at r i b []
search_from r i b (c ∷ s) = elim (match_at r i b (c ∷ s)) [
  | some m ↦ some m
  | none ↦ search_from r (suc i) (some c) s
]

-- `Search(pattern, s)`
unfoldable pub search_re : Re → Text → Option Found
unfolding search_from
search_re r s = search_from r 0 none s

-- What `ReplaceAll(pattern, rep, s)` writes at one position, and how many characters after this one
-- it has then passed over. The expressions of cpplint.py that are replaced match no empty text.
abbrev emit : (Found → Text) → ℕ → Option Found → Text × ℕ
emit rep c none = (c ∷ [], 0)
emit rep c (some m) = if length m.matched == 0 then (c ∷ [], 0) else (rep m, length m.matched - 1)

unfoldable pub replace_all_from : Re → (Found → Text) → ℕ → Option ℕ → Text → Text
unfolding match_at
replace_all_from r rep skip b [] = []
replace_all_from r rep (suc skip) b (c ∷ s) = replace_all_from r rep skip (some c) s
replace_all_from r rep zero b (c ∷ s) =
    let step = emit rep c (match_at r 0 b (c ∷ s)) in
    step.0 ++ replace_all_from r rep step.1 (some c) s

-- `ReplaceAll(pattern, rep, s)`
unfoldable pub replace_all : Re → (Found → Text) → Text → Text
unfolding replace_all_from
replace_all r rep s = replace_all_from r rep 0 none s

-- `m.group(n)`, with `none` for a group that took no part in the match
unfoldable pub group? : ℕ → Found → Option Text
group? n m = lookup n m.groups

abbrev or_empty : Option Text → Text
or_empty none = []
or_empty (some t) = t

-- `m.group(n)` for a group that takes part in every match
unfoldable pub group_text : ℕ → Found → Text
unfolding group?
group_text n m = or_empty (group? n m)

-- `m.end(0)`
abbrev pub end_pos : Found → ℕ
end_pos m = m.start + length m.matched
