-- ===== src/Expression/Closing.antt =====
-- `CloseExpression` finds the bracket that closes an expression, over several lines.
use moohoorama.Base.{
  ℕ, zero, suc, ◌+◌, ◌-◌, ◌≤◌, ◌<◌, ◌≡◌, ◌≢◌, refl, ap, ◌∙◌, ◌⊎◌, inl, inr, none, some, List, [],
  ◌∷◌, ◌++◌, take, drop, length, length-append, get_or, pos, ==_iff, arith, append_assoc,
  append-nil,
}
use native.Mathlib.Decide.{dec_le}
use moohoorama.Text.{Text, concat}
use moohoorama.Cleanse.Lines.{CleansedLines}
use moohoorama.Expression.Scan.{
  Position, closing, close_forward, close_with, close_expression, scan_end,
}
use moohoorama.Expression.Balance.{occurrences, Closes, StaysOpen, OpenBelow, scan_end-Outcome}

occurrences-append :
    (x : ℕ) (a b : Text) → occurrences x (a ++ b) ≡ occurrences x a + occurrences x b
unfolding occurrences
occurrences-append x [] b = omega arith
occurrences-append x (c ∷ a) b = omega (arith, occurrences-append x a b)

take-append_left : (m : ℕ) (a b : Text) → m ≤ length a → take m (a ++ b) ≡ take m a
take-append_left zero a b h = refl
take-append_left (suc m) [] b h = absurd (omega arith)
take-append_left (suc m) (c ∷ a) b h = ap (◌∷◌ c) (take-append_left m a b (omega arith))

take-append_right :
    (m : ℕ) (a b : Text) → length a ≤ m → take m (a ++ b) ≡ a ++ take (m - length a) b
take-append_right m [] b h = ap (λ (n : ℕ). take n b) (omega arith)
take-append_right zero (c ∷ a) b h = absurd (omega arith)
take-append_right (suc m) (c ∷ a) b h =
    ap (◌∷◌ c) (take-append_right m a b (omega arith) ∙ ap (λ (n : ℕ). a ++ take n b) (omega arith))

module _ (s e : ℕ) where
  -- Text that leaves brackets open, and more text behind it.
  OpenBelow-append :
      (d d' n : ℕ) (a b : Text)
      → StaysOpen s e d d' a
      → OpenBelow s e d' n b
      → OpenBelow s e d (length a + n) (a ++ b)
  OpenBelow-append d d' n a b o p m h = elim (dec_le m (length a)) [
    | yes q ↦ rw (take-append_left m a b q) (o.never m (omega arith))
    | no q ↦ rw (take-append_right m a b (omega arith)) (
        omega (
          arith,
          occurrences-append e a (take (m - length a) b),
          occurrences-append s a (take (m - length a) b),
          p (m - length a) (omega arith),
          o.left,
        ))
  ]

  pub Closes-append :
      (d d' : ℕ) (a b : Text) → StaysOpen s e d d' a → Closes s e d' b → Closes s e d (a ++ b)
  Closes-append d d' a b o c = record {
    balanced =
        omega (arith, occurrences-append e a b, occurrences-append s a b, o.left, c.balanced);
    before = rw (length-append a b) (OpenBelow-append d d' (length b) a b o c.before);
  }

  pub StaysOpen-append :
      (d d' d'' : ℕ) (a b : Text)
      → StaysOpen s e d d' a
      → StaysOpen s e d' d'' b
      → StaysOpen s e d d'' (a ++ b)
  StaysOpen-append d d' d'' a b o c = record {
    left = omega (arith, occurrences-append e a b, occurrences-append s a b, o.left, c.left);
    never = λ m h.
        OpenBelow-append d d' (suc (length b)) a b o c.never m
          (omega (arith, length-append {0} a b));
  }

  -- Where a search over `lines`, the lines behind line `n`, ends, if `read` is the text between the
  -- opening bracket and these lines: behind a closing bracket in line `n + 1 + k`, or nowhere.
  abbrev pub Found : ℕ → ℕ → Text → List Text → Position → Type 0
  Found n num_lines read lines r =
      ((k : ℕ) × (q : ℕ) × (k < length lines)
        × (r.linenum ≡ suc n + k)
        × (r.line ≡ get_or lines k [])
        × (r.pos_in_line ≡ some q)
        × (q ≤ length r.line)
        × Closes s e 1 (read ++ (concat (take k lines) ++ take q r.line)))
      ⊎ ((d : ℕ) × (r.linenum ≡ num_lines)
          × (r.pos_in_line ≡ none)
          × (0 < d)
          × StaysOpen s e 1 d (read ++ concat lines))

  Found-cons :
      (n num_lines : ℕ) (read next : Text) (lines : List Text) (r : Position)
      → Found (suc n) num_lines (read ++ next) lines r
      → Found n num_lines read (next ∷ lines) r
  Found-cons n num_lines read next lines r (inl (k, q, h, l, t, p, b, c)) =
      inl (suc k, q, omega arith, omega arith, t, p, b, simp append_assoc (simp append_assoc at c))
  Found-cons n num_lines read next lines r (inr (d, l, p, h, o)) =
      inr (d, l, p, h, rw append_assoc at o)

  module _ (ne : s ≢ e) where
    close_forward-Found :
        (lines : List Text) (line read : Text) (n num_lines d : ℕ)
        → 0 < d
        → StaysOpen s e 1 d read
        → Found n num_lines read lines (close_forward line n num_lines (pos d) s e lines)
    unfolding close_forward
    close_forward-Found [] line read n num_lines d h o = inr (d, refl, refl, h, rw append-nil o)
    close_forward-Found (next ∷ lines) line read n num_lines d h o =
        elim (scan_end-Outcome s e ne 0 d next h) [
          | inl (k, p, b, c) ↦ rw p (
              inl (
                0,
                k,
                omega arith,
                omega arith,
                refl,
                ap some (omega arith),
                b,
                Closes-append 1 d read (take k next) o c,
              ))
          | inr (d', p, h', o') ↦ rw p (
              Found-cons n num_lines read next lines _ (
                close_forward-Found lines next (read ++ next) (suc n) num_lines d' h'
                  (StaysOpen-append 1 d d' read next o o')))
        ]

drop-get_or : (p : ℕ) (t : Text) → p < length t → drop p t ≡ get_or t p 0 ∷ drop (suc p) t
drop-get_or p [] h = absurd (omega arith)
drop-get_or zero (c ∷ t) h = refl
drop-get_or (suc p) (c ∷ t) h = drop-get_or p t (omega arith)

scan_open : (s e p : ℕ) (t : Text) → scan_end p (pos 0) s e (s ∷ t) ≡ scan_end (suc p) (pos 1) s e t
unfolding scan_end
scan_open s e p t = rw ((==_iff s s).1 refl)

closing-ne : (c e : ℕ) → closing c ≡ some e → c ≢ e
closing-ne c e h = ground arith

-- Where the bracket at position `p` of line `linenum` is closed: behind position `p + 1 + k` of its
-- own line, further down, or nowhere.
abbrev pub ClosedAt : CleansedLines → ℕ → ℕ → ℕ → ℕ → Position → Type 0
ClosedAt clean_lines linenum p s e r =
    let rest = drop (suc p) (get_or clean_lines.elided linenum []) in
    ((k : ℕ) × (r.linenum ≡ linenum)
      × (r.line ≡ get_or clean_lines.elided linenum [])
      × (r.pos_in_line ≡ some (suc p + k))
      × (k ≤ length rest)
      × Closes s e 1 (take k rest))
    ⊎ Found s e linenum clean_lines.num_lines rest (drop (suc linenum) clean_lines.elided) r

close_with-ClosedAt :
    (clean_lines : CleansedLines) (linenum p s e : ℕ)
    → s ≢ e
    → p < length (get_or clean_lines.elided linenum [])
    → get_or (get_or clean_lines.elided linenum []) p 0 ≡ s
    → ClosedAt clean_lines linenum p s e (close_with clean_lines linenum p s e)
unfolding close_with
close_with-ClosedAt cl linenum p s e ne h at_p =
    let line = get_or cl.elided linenum [] in
    let start = drop-get_or p line h ∙ ap (λ (c : ℕ). c ∷ drop (suc p) line) at_p in
    elim (scan_end-Outcome s e ne (suc p) 1 (drop (suc p) line) (omega arith)) [
      | inl (k, q, b, c) ↦
          rw (start, scan_open s e p (drop (suc p) line), q) (inl (k, refl, refl, refl, b, c))
      | inr (d, q, h', o) ↦
          rw (start, scan_open s e p (drop (suc p) line), q)
            (inr (
              close_forward-Found s e ne (drop (suc linenum) cl.elided) line (drop (suc p) line)
                linenum cl.num_lines d h' o))
    ]

-- `CloseExpression` at an opening bracket returns the position behind the bracket that closes it:
-- counting this kind of bracket only, the text up to there is balanced and no shorter part of it
-- is. It returns the number of lines and -1 only if the brackets stay open to the end of the file.
pub close_expression-ClosedAt :
    (clean_lines : CleansedLines) (linenum p : ℕ) {endchar : ℕ}
    → p < length (get_or clean_lines.elided linenum [])
    → closing (get_or (get_or clean_lines.elided linenum []) p 0) ≡ some endchar
    → ClosedAt clean_lines linenum p
        (get_or (get_or clean_lines.elided linenum []) p 0)
        endchar
        (close_expression clean_lines linenum p)
unfolding close_expression
close_expression-ClosedAt cl linenum p h e =
    rw (e, close_expression) (close_with-ClosedAt cl linenum p _ _ (closing-ne _ _ e) h refl)
