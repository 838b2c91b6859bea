-- ===== src/Style/Angles/Laws.antt =====
-- Template brackets that belong together.
use moohoorama.Base.{
  ℕ, suc, Bool, false, ◌||◌, ◌≡◌, refl, ap, ◌∙◌, ◌⊎◌, inl, inr, List, [], ◌∷◌, ◌++◌, append_assoc,
  arith, drop, ◌==◌,
}
use moohoorama.Text.{Text}
use moohoorama.Cleanse.Lines.{CleansedLines}
use moohoorama.Style.Angles.{
  is_operator, answer, next_in_line, next_in_lines, find_next_matching_angle_bracket,
}

-- Text between angle brackets, with no comma but in other brackets, and text between round or
-- square brackets. Round and square brackets may close one another, as they do in the source.
mutual
  pub data Template : Text → Type 0 where
    done : Template []
    char : {c : ℕ} {t : Text} → is_operator c ≡ false → Template t → Template (c ∷ t)
    angle : {s t : Text} → Template s → Template t → Template (b'<' ∷ (s ++ (b'>' ∷ t)))
    bracket :
        {o c : ℕ} {s t : Text}
        → (o ≡ b'(') ⊎ (o ≡ b'[')
        → (c ≡ b')') ⊎ (c ≡ b']')
        → Inside s
        → Template t
        → Template (o ∷ (s ++ (c ∷ t)))

  pub data Inside : Text → Type 0 where
    empty : Inside []
    other :
        {c : ℕ} {t : Text}
        → (is_operator c ≡ false) ⊎ (c ≡ b',') ⊎ (c ≡ b';') ⊎ (c ≡ b'>')
        → Inside t
        → Inside (c ∷ t)
    template : {s t : Text} → Template s → Inside t → Inside (b'<' ∷ (s ++ (b'>' ∷ t)))
    nested :
        {o c : ℕ} {s t : Text}
        → (o ≡ b'(') ⊎ (o ≡ b'[')
        → (c ≡ b')') ⊎ (c ≡ b']')
        → Inside s
        → Inside t
        → Inside (o ∷ (s ++ (c ∷ t)))

abbrev IsOpen : ℕ → Type 0
IsOpen o = (o ≡ b'(') ⊎ (o ≡ b'[')

module _ (rest : List ℕ) (u : Text) where
  skip_char :
      (top c : ℕ)
      → is_operator c ≡ false
      → next_in_line (top ∷ rest) (c ∷ u) ≡ next_in_line (top ∷ rest) u
  unfolding next_in_line
  skip_char top c e = rw (next_in_line, e) refl

  open_angle :
      (top : ℕ)
      → (top ≡ b'<') ⊎ IsOpen top
      → next_in_line (top ∷ rest) (b'<' ∷ u) ≡ next_in_line (b'<' ∷ top ∷ rest) u
  unfolding next_in_line
  open_angle top h = ground arith

  open_bracket :
      (top o : ℕ)
      → (top ≡ b'<') ⊎ IsOpen top
      → IsOpen o
      → next_in_line (top ∷ rest) (o ∷ u) ≡ next_in_line (o ∷ top ∷ rest) u
  unfolding next_in_line
  open_bracket top o h k = ground arith

  close_angle :
      (top : ℕ) → next_in_line (b'<' ∷ top ∷ rest) (b'>' ∷ u) ≡ next_in_line (top ∷ rest) u
  unfolding next_in_line
  close_angle top = refl

  close_bracket :
      (o top c : ℕ)
      → IsOpen o
      → (c ≡ b')') ⊎ (c ≡ b']')
      → next_in_line (o ∷ top ∷ rest) (c ∷ u) ≡ next_in_line (top ∷ rest) u
  unfolding next_in_line
  close_bracket o top c h k = ground arith

  pass_other :
      (top c : ℕ)
      → IsOpen top
      → (is_operator c ≡ false) ⊎ (c ≡ b',') ⊎ (c ≡ b';') ⊎ (c ≡ b'>')
      → next_in_line (top ∷ rest) (c ∷ u) ≡ next_in_line (top ∷ rest) u
  unfolding next_in_line
  pass_other top c h k = ground arith

-- Such text leaves the stack as it was.
mutual
  next_in_line-Template :
      {t : Text}
      → Template t
      → (rest : List ℕ) (u : Text)
      → next_in_line (b'<' ∷ rest) (t ++ u) ≡ next_in_line (b'<' ∷ rest) u
  next_in_line-Template done rest u = refl
  next_in_line-Template (char {c} {t} e k) rest u =
      skip_char rest (t ++ u) b'<' c e ∙ next_in_line-Template k rest u
  next_in_line-Template (angle {s} {t} j k) rest u =
      ap (λ (l : Text). next_in_line (b'<' ∷ rest) (b'<' ∷ l)) (append_assoc s (b'>' ∷ t) u)
      ∙ open_angle rest (s ++ (b'>' ∷ (t ++ u))) b'<' (inl refl)
      ∙ next_in_line-Template j (b'<' ∷ rest) (b'>' ∷ (t ++ u))
      ∙ close_angle rest (t ++ u) b'<'
      ∙ next_in_line-Template k rest u
  next_in_line-Template (bracket {o} {c} {s} {t} h h' j k) rest u =
      ap (λ (l : Text). next_in_line (b'<' ∷ rest) (o ∷ l)) (append_assoc s (c ∷ t) u)
      ∙ open_bracket rest (s ++ (c ∷ (t ++ u))) b'<' o (inl refl) h
      ∙ next_in_line-Inside j o (b'<' ∷ rest) (c ∷ (t ++ u)) h
      ∙ close_bracket rest (t ++ u) o b'<' c h h'
      ∙ next_in_line-Template k rest u

  next_in_line-Inside :
      {t : Text}
      → Inside t
      → (top : ℕ) (rest : List ℕ) (u : Text) → IsOpen top
      → next_in_line (top ∷ rest) (t ++ u) ≡ next_in_line (top ∷ rest) u
  next_in_line-Inside empty top rest u p = refl
  next_in_line-Inside (other {c} {t} e k) top rest u p =
      pass_other rest (t ++ u) top c p e ∙ next_in_line-Inside k top rest u p
  next_in_line-Inside (template {s} {t} j k) top rest u p =
      ap (λ (l : Text). next_in_line (top ∷ rest) (b'<' ∷ l)) (append_assoc s (b'>' ∷ t) u)
      ∙ open_angle rest (s ++ (b'>' ∷ (t ++ u))) top (inr p)
      ∙ next_in_line-Template j (top ∷ rest) (b'>' ∷ (t ++ u))
      ∙ close_angle rest (t ++ u) top
      ∙ next_in_line-Inside k top rest u p
  next_in_line-Inside (nested {o} {c} {s} {t} h h' j k) top rest u p =
      ap (λ (l : Text). next_in_line (top ∷ rest) (o ∷ l)) (append_assoc s (c ∷ t) u)
      ∙ open_bracket rest (s ++ (c ∷ (t ++ u))) top o (inr p) h
      ∙ next_in_line-Inside j o (top ∷ rest) (c ∷ (t ++ u)) h
      ∙ close_bracket rest (t ++ u) o top c h h'
      ∙ next_in_line-Inside k top rest u p

abbrev IsStop : ℕ → Type 0
IsStop c = (c ≡ b'>') ⊎ (c ≡ b',') ⊎ (c ≡ b';') ⊎ (c ≡ b')') ⊎ (c ≡ b']')

stop_here :
    (c : ℕ) (u : Text)
    → IsStop c
    → next_in_line (b'<' ∷ []) (c ∷ u) ≡ answer (c == b'>' || c == b',')
unfolding next_in_line
stop_here c u h = ground arith

in_lines-answer :
    (lines : List Text) (stack : List ℕ) (line : Text) (b : Bool)
    → next_in_line stack line ≡ answer b
    → next_in_lines lines stack line ≡ b
unfolding next_in_lines
in_lines-answer [] stack line b e = rw e refl
in_lines-answer (next ∷ lines) stack line b e = rw e refl

-- `FindNextMatchingAngleBracket`, on text whose brackets are closed in order up to the first comma,
-- semicolon or unmatched closing bracket behind it, says yes exactly if that is a comma or `>`.
pub find_next-Template :
    (clean_lines : CleansedLines) (linenum : ℕ) {t : Text} (c : ℕ) (u : Text)
    → Template t
    → IsStop c
    → find_next_matching_angle_bracket clean_lines linenum (t ++ (c ∷ u)) ≡ c == b'>' || c == b','
unfolding find_next_matching_angle_bracket
find_next-Template clean_lines linenum {t} c u k h =
    in_lines-answer (drop (suc linenum) clean_lines.elided) (b'<' ∷ []) (t ++ (c ∷ u)) _
      (next_in_line-Template k [] (c ∷ u) ∙ stop_here c u h)
