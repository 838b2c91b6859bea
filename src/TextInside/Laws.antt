-- ===== src/TextInside/Laws.antt =====
-- What `_GetTextInside` extracts.
use moohoorama.Base.{
  subst, length-append, length-take, take-append-drop, ◌≤◌, ℕ, suc, ◌+◌, ◌-◌, true, false, ◌≡◌,
  refl, sym, ap, ◌∙◌, ◌↔◌, inl, inr, Option, none, some, List, [], ◌∷◌, ◌++◌, append_assoc, length,
  take, drop, get_or, arith, Bool-cases, Option-cases, some-inj, none-ne-some, ◌==◌, ==_iff,
}
use moohoorama.Text.{Text}
use moohoorama.TextInside.{
  matching_punctuation, is_closing, pushed, one_more, scan, inside, get_text_inside,
}

-- Text in which brackets of the three kinds are closed in order.
pub data Balanced : Text → Type 0 where
  empty : Balanced []
  other :
      {c : ℕ} {t : Text}
      → matching_punctuation c ≡ none
      → is_closing c ≡ false
      → Balanced t
      → Balanced (c ∷ t)
  nested :
      {c close : ℕ} {s t : Text}
      → matching_punctuation c ≡ some close
      → Balanced s
      → Balanced t
      → Balanced (c ∷ (s ++ (close ∷ t)))

-- Text that closes the brackets of a stack one by one, with balanced text before each.
abbrev Unwinds : List ℕ → Text → Type 0
Unwinds [] u = u ≡ []
Unwinds (top ∷ stack) u =
    (b : Text) × (v : Text) × Balanced b × (u ≡ b ++ (top ∷ v)) × Unwinds stack v

Unwinds-push :
    (c : ℕ) (top : ℕ) (stack : List ℕ) (u : Text)
    → is_closing c ≡ false
    → Unwinds (pushed (matching_punctuation c) (top ∷ stack)) u
    → Unwinds (top ∷ stack) (c ∷ u)
Unwinds-push c top stack u k h = elim (Option-cases (matching_punctuation c)) [
  | inl e ↦
      let (b, v, bal, q, w) = rw e at h in (c ∷ b, v, other e k bal, ap (λ (l : Text). c ∷ l) q, w)
  | inr (close, e) ↦
      let (b, v, bal, q, (b', v', bal', q', w)) = rw e at h in
      (
        c ∷ (b ++ (close ∷ b')),
        v',
        nested e bal bal',
        ap (λ (l : Text). c ∷ l)
            (q
              ∙ ap (λ (l : Text). b ++ (close ∷ l)) q'
              ∙ sym (append_assoc b (close ∷ b') (top ∷ v'))),
        w,
      )
]

one_more-some : (o : Option ℕ) (n : ℕ) → one_more o ≡ some n → (m : ℕ) × (o ≡ some m) × (n ≡ suc m)
one_more-some none n h = absurd (none-ne-some h)
one_more-some (some m) n h = (m, refl, sym (some-inj h))

scan-Unwinds :
    (stack : List ℕ) (text : Text) (n : ℕ) → scan stack text ≡ some n → Unwinds stack (take n text)
unfolding scan
scan-Unwinds [] text n h = rw (sym (some-inj h)) refl
scan-Unwinds (top ∷ stack) [] n h = absurd (none-ne-some h)
scan-Unwinds (top ∷ stack) (c ∷ text) n h = elim (Bool-cases (c == top)) [
  | inl e ↦
      let (m, p, q) = one_more-some (scan stack text) n (rw e at h) in
      rw q (
        [],
        take m text,
        empty,
        ap (λ (x : ℕ). x ∷ take m text) ((==_iff c top).0 e),
        scan-Unwinds stack text m p,
      )
  | inr e ↦ elim (Bool-cases (is_closing c)) [
    | inl k ↦ absurd (none-ne-some (rw (e, k) at h))
    | inr k ↦
        let (m, p, q) =
          one_more-some (scan (pushed (matching_punctuation c) (top ∷ stack)) text) n
            (rw (e, k) at h) in
        rw q (
          Unwinds-push c top stack (take m text) k
            (scan-Unwinds (pushed (matching_punctuation c) (top ∷ stack)) text m p))
  ]
]

scan-le : (stack : List ℕ) (text : Text) (n : ℕ) → scan stack text ≡ some n → n ≤ length text
unfolding scan
scan-le [] text n h = rw (sym (some-inj h)) (omega arith)
scan-le (top ∷ stack) [] n h = absurd (none-ne-some h)
scan-le (top ∷ stack) (c ∷ text) n h = elim (Bool-cases (c == top)) [
  | inl e ↦
      let (m, p, q) = one_more-some (scan stack text) n (rw e at h) in
      omega (arith, q, scan-le stack text m p)
  | inr e ↦ elim (Bool-cases (is_closing c)) [
    | inl k ↦ absurd (none-ne-some (rw (e, k) at h))
    | inr k ↦
        let deeper = pushed (matching_punctuation c) (top ∷ stack) in
        let (m, p, q) = one_more-some (scan deeper text) n (rw (e, k) at h) in
        omega (arith, q, scan-le deeper text m p)
  ]
]

closing-ne : (c top : ℕ) → is_closing c ≡ false → is_closing top ≡ true → (c == top) ≡ false
closing-ne c top k h = ground arith

opening-closing :
    (c close : ℕ)
    → matching_punctuation c ≡ some close
    → (is_closing c ≡ false) × (is_closing close ≡ true)
opening-closing c close h = ground arith

scan_pop :
    (c : ℕ) (stack : List ℕ) (text : Text)
    → scan (c ∷ stack) (c ∷ text) ≡ one_more (scan stack text)
unfolding scan
scan_pop c stack text = rw ((==_iff c c).1 refl)

-- Balanced text is passed over.
scan-Balanced :
    {b : Text}
    → Balanced b
    → (top : ℕ) (stack : List ℕ) (text : Text) (m : ℕ) → is_closing top ≡ true
    → scan (top ∷ stack) text ≡ some m
    → scan (top ∷ stack) (b ++ text) ≡ some (length b + m)
unfolding scan
scan-Balanced empty top stack text m k h = h ∙ ap some (omega arith)
scan-Balanced (other {c} {t} e n bal) top stack text m k h =
    rw (closing-ne c top n k, n, e, scan-Balanced bal top stack text m k h) (ap some (omega arith))
scan-Balanced (nested {c} {close} {s} {t} e bal bal') top stack text m k h =
    let (n, k') = opening-closing c close e in
    let popped : scan (close ∷ top ∷ stack) (close ∷ (t ++ text)) ≡ some (suc (length t + m)) =
      rw (scan_pop close (top ∷ stack) (t ++ text), scan-Balanced bal' top stack text m k h) refl in
    rw
      (
        closing-ne c top n k,
        n,
        e,
        append_assoc s (close ∷ t) text,
        scan-Balanced bal close (top ∷ stack) (close ∷ (t ++ text)) (suc (length t + m)) k' popped,
      )
      (ap some (omega (arith, length-append {0} s (close ∷ t))))

take-append : (b ys : Text) → take (length b) (b ++ ys) ≡ b
take-append [] ys = refl
take-append (x ∷ b) ys = ap (λ (l : Text). x ∷ l) (take-append b ys)

-- The text inside is found if it is there.
inside_complete :
    {t : Text} (close : ℕ) (rest : Text)
    → is_closing close ≡ true
    → Balanced t
    → inside (t ++ (close ∷ rest)) (scan (close ∷ []) (t ++ (close ∷ rest))) ≡ some t
unfolding scan
inside_complete {t} close rest k bal =
    let n : length t + 1 - 1 ≡ length t = omega arith in
    rw
      (
        scan-Balanced bal close [] (close ∷ rest) 1 k (scan_pop close [] rest),
        n,
        take-append t (close ∷ rest),
      )
      refl

-- A text whose first n characters are `b` and one more.
cut_before_last :
    (text b : Text) (close n : ℕ)
    → n ≤ length text
    → take n text ≡ b ++ (close ∷ [])
    → (take (n - 1) text ≡ b) × (text ≡ b ++ (close ∷ drop n text))
cut_before_last text b close n h e =
    let whole : text ≡ b ++ (close ∷ drop n text) =
      sym (take-append-drop n text)
      ∙ ap (λ (l : Text). l ++ drop n text) e
      ∙ append_assoc b (close ∷ []) (drop n text) in
    let size : n - 1 ≡ length b = omega (
      arith,
      h,
      length-take {0} n text,
      ap (λ (l : Text). length l) e,
      length-append {0} b (close ∷ []),
    ) in
    (
      ap (λ (k : ℕ). take k text) size
          ∙ ap (take (length b)) whole
          ∙ take-append b (close ∷ drop n text),
      whole,
    )

-- What is extracted is balanced, and the closing bracket is behind it.
inside_sound :
    (close : ℕ) (text t : Text)
    → inside text (scan (close ∷ []) text) ≡ some t
    → Balanced t × ((rest : Text) × (text ≡ t ++ (close ∷ rest)))
inside_sound close text t h = elim (Option-cases (scan (close ∷ []) text)) [
  | inl e ↦ absurd (none-ne-some (rw e at h))
  | inr (n, e) ↦
      let (b, v, bal, q, w) = scan-Unwinds (close ∷ []) text n e in
      let (cut, whole) =
        cut_before_last text b close n (scan-le (close ∷ []) text n e)
          (q ∙ ap (λ (l : Text). b ++ (close ∷ l)) w) in
      let same : b ≡ t = sym cut ∙ some-inj (rw e at h) in
      (subst Balanced same bal, (drop n text, rw (sym same) whole))
]

-- With a pattern that ends at an opening bracket, `_GetTextInside` returns a text exactly if the text
-- is balanced in brackets of the three kinds and stands between that bracket and a closing bracket
-- of the same kind.
pub get_text_inside_iff :
    (text : Text) (p : ℕ) (t : Text) {close : ℕ}
    → matching_punctuation (get_or text p 0) ≡ some close
    → (get_text_inside (some (suc p)) text ≡ some (some t))
      ↔ (Balanced t × ((rest : Text) × (drop (suc p) text ≡ t ++ (close ∷ rest))))
unfolding get_text_inside
get_text_inside_iff text p t {close} h =
    let k = (opening-closing (get_or text p 0) close h).1 in
    rw (get_text_inside, h)
      (
        (λ e. inside_sound close (drop (suc p) text) t (some-inj e)),
        (λ (bal, (rest, q)). rw q (ap some (inside_complete close rest k bal))),
      )
