-- ===== src/Cleanse/Blanking.antt =====
-- A single pass over the lines that blanks comments, for comparison with `RemoveMultiLineComments`.
use Prim.Native.Nat.add
use moohoorama.Base.{
  ℕ, suc, ◌+◌, Bool, true, false, not, ◌&&◌, ◌||◌, ◌≡◌, refl, sym, ap, ◌∙◌, ◌⊎◌, inl, inr, List, [],
  ◌∷◌, ◌++◌, append_assoc, map, drop, length, length-append, length-map, arith, Bool-cases,
  if◌then◌else◌,
}
use moohoorama.Text.{Text}
use moohoorama.Lint.Suppressions.{Effect}
use moohoorama.Cleanse.MultiLine.{
  opens_comment, ends_comment, find_line, dummy, remove_multi_line_comments_from_range, no_end,
}
use moohoorama.Cleanse.MultiLineLaws.{Without}

-- One pass over the lines, with a flag for a line inside a comment: a line becomes a dummy if it is
-- inside, or opens a comment that goes on beyond it.
unfoldable pub blanked : Bool → List Text → List Text
blanked inside [] = []
blanked inside (x ∷ xs) =
    let hidden = inside || opens_comment x in
    (if hidden then dummy else x) ∷ blanked (hidden && not (ends_comment x)) xs

-- Whether the pass is inside a comment behind the lines.
unfoldable pub inside_after : Bool → List Text → Bool
inside_after inside [] = inside
inside_after inside (x ∷ xs) = inside_after ((inside || opens_comment x) && not (ends_comment x)) xs

abbrev pub dummies : List Text → List Text
dummies = map (λ _. dummy)

-- The lines split at the first one with a property.
abbrev pub SplitAt : (Text → Bool) → List Text → ℕ → Type 0
SplitAt p ls k =
    ((k ≡ length ls) × Without p ls)
    ⊎ ((front : List Text) × (y : Text) × (back : List Text) × (ls ≡ front ++ (y ∷ back))
        × (k ≡ length front)
        × Without p front
        × (p y ≡ true))

SplitAt-cons :
    (p : Text → Bool) (l : Text) (ls : List Text) (k : ℕ)
    → p l ≡ false
    → SplitAt p ls k
    → SplitAt p (l ∷ ls) (suc k)
SplitAt-cons p l ls k e (inl (h, w)) = inl (ap suc h, (e, w))
SplitAt-cons p l ls k e (inr (front, y, back, s, h, w, t)) =
    inr (l ∷ front, y, back, ap (λ (xs : List Text). l ∷ xs) s, ap suc h, (e, w), t)

pub find_line-SplitAt :
    (p : Text → Bool) (i : ℕ) (ls : List Text)
    → (k : ℕ) × (find_line p i ls ≡ i + k) × SplitAt p ls k
unfolding find_line
find_line-SplitAt p i [] = (0, omega arith, inl (refl, tt))
find_line-SplitAt p i (l ∷ ls) = elim (Bool-cases (p l)) [
  | inl e ↦ (0, rw e (omega arith), inr ([], l, ls, refl, refl, tt, e))
  | inr e ↦
      let (k, q, split) = find_line-SplitAt p (suc i) ls in
      (suc k, rw e (omega (arith, q)), SplitAt-cons p l ls k e split)
]

pub drop_append : (xs ys : List Text) → drop (length xs) (xs ++ ys) ≡ ys
drop_append [] ys = refl
drop_append (x ∷ xs) ys = drop_append xs ys

remove_front :
    (ys zs : List Text)
    → remove_multi_line_comments_from_range (ys ++ zs) 0 (length ys) ≡ dummies ys ++ zs
unfolding remove_multi_line_comments_from_range
remove_front [] [] = refl
remove_front [] (z ∷ zs) = refl
remove_front (y ∷ ys) zs = ap (λ (l : List Text). dummy ∷ l) (remove_front ys zs)

-- A cleared range: what stands before and behind it is kept.
pub remove-append :
    (xs ys zs : List Text)
    → remove_multi_line_comments_from_range (xs ++ (ys ++ zs)) (length xs) (length xs + length ys)
      ≡ xs ++ (dummies ys ++ zs)
unfolding remove_multi_line_comments_from_range
remove-append [] ys zs = rw add.zero (remove_front ys zs)
remove-append (x ∷ xs) ys zs = rw add.suc (ap (λ (l : List Text). x ∷ l) (remove-append xs ys zs))

-- Lines that the pass takes from outside to outside, and what it makes of them.
pub record Segment (a b : List Text) : Type 0 where
  output : (ls : List Text) → blanked false (a ++ ls) ≡ b ++ blanked false ls
  state : (ls : List Text) → inside_after false (a ++ ls) ≡ inside_after false ls
  same_length : length a ≡ length b

pub code-Segment : (front : List Text) → Without opens_comment front → Segment front front
unfolding blanked inside_after
code-Segment [] w = record { output = λ ls. refl; state = λ ls. refl; same_length = refl }
code-Segment (x ∷ front) (e, w) =
    let later = code-Segment front w in
    record {
      output = λ ls. rw e (ap (λ (l : List Text). x ∷ l) (later.output ls));
      state = λ ls. rw (inside_after, e) (later.state ls);
      same_length = refl;
    }

blanked-inside :
    (body : List Text) (e : Text) (ls : List Text)
    → Without ends_comment body
    → ends_comment e ≡ true
    → (blanked true ((body ++ (e ∷ [])) ++ ls) ≡ dummies (body ++ (e ∷ [])) ++ blanked false ls)
      × (inside_after true ((body ++ (e ∷ [])) ++ ls) ≡ inside_after false ls)
unfolding blanked inside_after
blanked-inside [] e ls w h = (rw h refl, rw h refl)
blanked-inside (x ∷ body) e ls (k, w) h =
    let (o, s) = blanked-inside body e ls w h in
    (rw k (ap (λ (l : List Text). dummy ∷ l) o), rw (inside_after, k) s)

abbrev pub HeadOpens : List Text → Type 0
HeadOpens [] = ⊥
HeadOpens (y ∷ ys) = opens_comment y ≡ true

pub HeadOpens-cut :
    (body : List Text) (e : Text) (ls : List Text)
    → HeadOpens (body ++ (e ∷ ls))
    → HeadOpens (body ++ (e ∷ []))
HeadOpens-cut [] e ls h = h
HeadOpens-cut (x ∷ body) e ls h = h

pub comment-Segment :
    (body : List Text) (e : Text)
    → HeadOpens (body ++ (e ∷ []))
    → Without ends_comment body
    → ends_comment e ≡ true
    → Segment (body ++ (e ∷ [])) (dummies (body ++ (e ∷ [])))
unfolding blanked inside_after
comment-Segment [] e o w h = record {
  output = λ ls. rw (o, h) refl;
  state = λ ls. rw (o, h) refl;
  same_length = refl;
}
comment-Segment (x ∷ body) e o (k, w) h = record {
  output = λ ls. rw (o, k) (ap (λ (l : List Text). dummy ∷ l) (blanked-inside body e ls w h).0);
  state = λ ls. rw (inside_after, o, k) (blanked-inside body e ls w h).1;
  same_length = sym (length-map (x ∷ (body ++ (e ∷ []))) (λ _. dummy));
}

-- The lines `rest` behind the lines `before`, which are done: either the pass ends outside, and the
-- result is what it makes of the lines; or a line outside opens a comment that no line from there on
-- ends, the lines from there on are kept, and that line is reported.
abbrev pub Blanks : List Text → List Text → List Text × List Effect → Type 0
Blanks before rest r =
    ((inside_after false rest ≡ false) × (r ≡ (before ++ blanked false rest, [])))
    ⊎ ((front : List Text) × (first : Text) × (back : List Text) × (rest ≡ front ++ (first ∷ back))
        × (inside_after false front ≡ false)
        × (opens_comment first ≡ true)
        × Without ends_comment (first ∷ back)
        × (r ≡ (
          before ++ (blanked false front ++ (first ∷ back)),
          no_end (length before + length front),
        )))

count_behind :
    (before a b front : List Text)
    → length a ≡ length b
    → length before + length (a ++ front) ≡ length (before ++ b) + length front
count_behind before a b front h =
    omega (arith, h, length-append {0} a front, length-append {0} before b)

pub Blanks-append :
    (before a b rest : List Text) (r : List Text × List Effect)
    → Segment a b
    → Blanks (before ++ b) rest r
    → Blanks before (a ++ rest) r
Blanks-append before a b rest r g (inl (s, q)) =
    inl (g.state rest ∙ s, rw (g.output rest, sym (append_assoc before b (blanked false rest))) q)
Blanks-append before a b rest r g (inr (front, first, back, p, i, o, w, q)) =
    let count = count_behind before a b front g.same_length in
    inr (
      a ++ front,
      first,
      back,
      ap (λ (l : List Text). a ++ l) p ∙ sym (append_assoc a front (first ∷ back)),
      g.state front ∙ i,
      o,
      w,
      rw
          (
            g.output front,
            append_assoc b (blanked false front) (first ∷ back),
            sym (append_assoc before b (blanked false front ++ (first ∷ back))),
            count,
          )
          q,
    )

pub outside :
    (rest : List Text)
    → Without opens_comment rest
    → (blanked false rest ≡ rest) × (inside_after false rest ≡ false)
unfolding blanked inside_after
outside [] w = (refl, refl)
outside (x ∷ rest) (e, w) =
    let (o, s) = outside rest w in (rw e (ap (λ (l : List Text). x ∷ l) o), rw (inside_after, e) s)
