-- ===== src/Language/Printf/Assertion.antt =====
-- The assertions of `_GetTextInside` hold where `CheckLanguage` calls it.
use moohoorama.Base.{
  ℕ, suc, true, ◌||◌, ◌==◌, ◌≡◌, refl, Option, none, some, List, [], ◌∷◌, ◌++◌, get_or, drop,
  length, arith, inl, inr, Option-cases,
}
use moohoorama.Text.{Text, ascii_lower, ascii_upper}
use moohoorama.Regex.{search_re, end_pos}
use moohoorama.Regex.Syntax.{re, ignore_case}
use moohoorama.Regex.Ends.{EndsBy, last, behind, Behind, search_re-Behind}
use moohoorama.TextInside.{matching_punctuation, get_text_inside, inside, scan}
use moohoorama.Lint.Suppressions.{Effect}
use moohoorama.Language.Printf.{printf_pattern, format_errors, check_format}

IsParenthesis : ℕ → Type 0
IsParenthesis c = c ≡ b'('

only_parenthesis :
    (c : ℕ) → (c == b'(') || ((ascii_lower c == b'(') || (ascii_upper c == b'(')) ≡ true → c ≡ b'('
unfolding ascii_lower ascii_upper
only_parenthesis c h = ground arith

printf_pattern-EndsBy : EndsBy IsParenthesis printf_pattern
unfolding printf_pattern re ignore_case IsParenthesis ascii_lower ascii_upper
printf_pattern-EndsBy = behind (
    behind (
      behind
        (behind (behind (behind (behind (behind (behind (last (λ c h. only_parenthesis c h))))))))))

get_or-append :
    (front : Text) (c : ℕ) (back : Text) → get_or (front ++ (c ∷ back)) (length front) 0 ≡ c
get_or-append [] c back = refl
get_or-append (x ∷ front) c back = get_or-append front c back

get_text_inside_open :
    (text : Text) (p close : ℕ)
    → matching_punctuation (get_or text p 0) ≡ some close
    → (o : Option Text) × (get_text_inside (some (suc p)) text ≡ some o)
unfolding get_text_inside
get_text_inside_open text p close h = (
  inside (drop (suc p) text) (scan (close ∷ []) (drop (suc p) text)),
  rw (h, get_text_inside) refl,
)

-- Behind an open parenthesis, `_GetTextInside` returns.
get_text_inside-some :
    (text : Text) (e : ℕ)
    → Behind IsParenthesis text e
    → (o : Option Text) × (get_text_inside (some e) text ≡ some o)
unfolding IsParenthesis
get_text_inside-some text e (front, c, back, s, p, l) = rw l (
    get_text_inside_open text (length front) b')'
      (rw s (rw (get_or-append front c back) (rw p refl))))

format_errors-some :
    (linenum : ℕ) (line : Text) (o : Option Text)
    → (es : List Effect) × (format_errors linenum line (some o) ≡ some es)
format_errors-some linenum line none = ([], refl)
format_errors-some linenum line (some []) = ([], refl)
format_errors-some linenum line (some (c ∷ t)) = (_, refl)

pub check_format-some :
    (line : Text) (linenum : ℕ) → (es : List Effect) × (check_format line linenum ≡ some es)
unfolding check_format
check_format-some line linenum = elim (Option-cases (search_re printf_pattern line)) [
  | inl q ↦ rw (q, check_format) (format_errors-some linenum line none)
  | inr (m, q) ↦
      let (o, e) =
        get_text_inside-some line (end_pos m)
          (search_re-Behind IsParenthesis line m printf_pattern-EndsBy q) in
      let (es, f) = format_errors-some linenum line o in (es, rw (q, e, check_format) f)
]
