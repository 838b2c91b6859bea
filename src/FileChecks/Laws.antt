-- ===== src/FileChecks/Laws.antt =====
-- Which files pass the checks on characters and on the end of the file.
use moohoorama.Base.{
  ℕ, suc, ◌+◌, ◌-◌, ◌≤◌, ◌<◌, true, false, ◌≡◌, refl, ap, ◌∙◌, sym, ◌↔◌, List, [], ◌∷◌, ◌++◌,
  get_or, ltb, length, length-append, arith, All, ◌≢◌,
}
use moohoorama.Text.{Text}
use moohoorama.Expression.Balance.{occurrences}
use moohoorama.Lint.Suppressions.{Effect}
use moohoorama.FileChecks.{
  has_char, bad_characters, bad_characters_from, check_for_bad_characters, is_empty,
  check_for_newline_at_eof,
}

has_char-occurrences : (x : ℕ) (line : Text) → (has_char x line ≡ false) ↔ (occurrences x line ≡ 0)
unfolding has_char occurrences
has_char-occurrences x [] = (λ h. refl, λ h. refl)
has_char-occurrences x (c ∷ line) = ground (arith, has_char-occurrences x line)

-- No Unicode replacement character and no NUL.
abbrev pub IsClean : Text → Type 0
IsClean line = (occurrences 0xfffd line ≡ 0) × (occurrences 0 line ≡ 0)

bad_characters_iff : (n : ℕ) (line : Text) → (bad_characters n line ≡ []) ↔ IsClean line
unfolding bad_characters
bad_characters_iff n line =
    ground (arith, has_char-occurrences 0xfffd line, has_char-occurrences 0 line)

append_nil_iff : (es fs : List Effect) → (es ++ fs ≡ []) ↔ (es ≡ []) × (fs ≡ [])
append_nil_iff [] fs = (λ h. (refl, h), λ h. h.1)
append_nil_iff (e ∷ es) fs = (λ h. cc, λ h. cc (h.0))

bad_characters_from_iff :
    (n : ℕ) (lines : List Text) → (bad_characters_from n lines ≡ []) ↔ All IsClean lines
unfolding bad_characters_from
bad_characters_from_iff n [] = (λ h. tt, λ h. refl)
bad_characters_from_iff n (line ∷ lines) =
    let split = append_nil_iff (bad_characters n line) (bad_characters_from (suc n) lines) in
    (
      λ h. (
        (bad_characters_iff n line).0 (split.0 h).0,
        (bad_characters_from_iff (suc n) lines).0 (split.0 h).1,
      ),
      λ h.
          split.1
            ((bad_characters_iff n line).1 h.0, (bad_characters_from_iff (suc n) lines).1 h.1),
    )

-- `CheckForBadCharacters` passes a file exactly if no line has a Unicode replacement character or a
-- NUL.
pub check_for_bad_characters_iff :
    (lines : List Text) → (check_for_bad_characters lines ≡ []) ↔ All IsClean lines
unfolding check_for_bad_characters
check_for_bad_characters_iff = bad_characters_from_iff 0

-- The file's last line but one is empty, and there is a line before it.
abbrev pub EndsInNewline : List Text → Type 0
EndsInNewline lines =
    (front : List Text) × (final : Text) × (lines ≡ front ++ ([] ∷ final ∷ [])) × (1 ≤ length front)

last_two :
    (a b : Text) (lines : List Text)
    → (front : List Text) × (x : Text) × (y : Text) × (a ∷ b ∷ lines ≡ front ++ (x ∷ y ∷ []))
      × (get_or (a ∷ b ∷ lines) (length lines) [] ≡ x)
      × (length front ≡ length lines)
last_two a b [] = ([], a, b, refl, refl, refl)
last_two a b (c ∷ lines) =
    let (front, x, y, p, q, r) = last_two b c lines in (a ∷ front, x, y, ap (◌∷◌ a) p, q, ap suc r)

get_or-append :
    (front : List Text) (x y : Text) → get_or (front ++ (x ∷ y ∷ [])) (length front) [] ≡ x
get_or-append [] x y = refl
get_or-append (a ∷ front) x y = get_or-append front x y

is_empty-eq : (t : Text) → is_empty t ≡ true → t ≡ []
is_empty-eq [] h = refl
is_empty-eq (c ∷ t) h = cc

-- The check on a file of three lines or more.
newline_at_eof_iff :
    (a b c : Text) (lines : List Text)
    → (check_for_newline_at_eof (a ∷ b ∷ c ∷ lines) ≡ [])
      ↔ (is_empty (get_or (b ∷ c ∷ lines) (length lines) []) ≡ true)
unfolding check_for_newline_at_eof
newline_at_eof_iff a b c lines =
    let e : suc (suc (suc (length lines))) - 2 ≡ suc (length lines) = omega arith in
    rw e (ground arith)

short_fails : (lines : List Text) → length lines < 3 → check_for_newline_at_eof lines ≢ []
unfolding check_for_newline_at_eof
short_fails lines h e = ground arith

passes_lem :
    (lines : List Text)
    → ltb (length lines) 3 ≡ false
    → get_or lines (length lines - 2) [] ≡ []
    → check_for_newline_at_eof lines ≡ []
unfolding check_for_newline_at_eof
passes_lem lines h e = rw (h, e)

EndsInNewline-passes :
    (front : List Text) (final : Text)
    → 1 ≤ length front
    → check_for_newline_at_eof (front ++ ([] ∷ final ∷ [])) ≡ []
EndsInNewline-passes front final h =
    let len : length (front ++ ([] ∷ final ∷ [])) ≡ length front + 2 = length-append front _ in
    let less : length front + 2 - 2 ≡ length front = omega arith in
    passes_lem (front ++ ([] ∷ final ∷ [])) (rw len (ground arith))
      (rw (len, less) (get_or-append front [] final))

long_EndsInNewline :
    (a b c : Text) (lines : List Text)
    → check_for_newline_at_eof (a ∷ b ∷ c ∷ lines) ≡ []
    → EndsInNewline (a ∷ b ∷ c ∷ lines)
long_EndsInNewline a b c lines h =
    let (front, x, y, p, q, r) = last_two a b (c ∷ lines) in
    let blank = is_empty-eq _ ((newline_at_eof_iff a b c lines).0 h) in
    (front, y, p ∙ ap (λ (t : Text). front ++ (t ∷ y ∷ [])) (sym q ∙ blank), omega arith)

passes-EndsInNewline :
    (lines : List Text) → check_for_newline_at_eof lines ≡ [] → EndsInNewline lines
passes-EndsInNewline [] h = absurd (short_fails [] (omega arith) h)
passes-EndsInNewline (a ∷ []) h = absurd (short_fails (a ∷ []) (omega arith) h)
passes-EndsInNewline (a ∷ b ∷ []) h = absurd (short_fails (a ∷ b ∷ []) (omega arith) h)
passes-EndsInNewline (a ∷ b ∷ c ∷ lines) h = long_EndsInNewline a b c lines h

-- `CheckForNewlineAtEOF` passes the lines of a file exactly if the last but one is empty and is not
-- the first.
pub check_for_newline_at_eof_iff :
    (lines : List Text) → (check_for_newline_at_eof lines ≡ []) ↔ EndsInNewline lines
check_for_newline_at_eof_iff lines =
    (passes-EndsInNewline lines, λ (front, final, p, h). rw p (EndsInNewline-passes front final h))
