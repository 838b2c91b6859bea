-- ===== src/HeaderGuard/Laws.antt =====
-- Which files pass `CheckForHeaderGuard`.
use moohoorama.Base.{
  ℕ, suc, true, ◌≡◌, ◌↔◌, refl, ◌∙◌, sym, ap, inl, inr, Option, none, some, List, [], ◌∷◌, ◌++◌,
  arith, Bool-cases, if◌then◌else◌, get_or, some-inj,
}
use moohoorama.Text.{Text, codes, eq, split, starts_with}
use moohoorama.Text.Laws.{eq_iff}
use moohoorama.Lint.Suppressions.{Effect, report, parse_nolint_suppressions, Report}
use moohoorama.HeaderGuard.{
  Guard, no_guard, scan_lines, check_ifndef, check_endif, check_guard, check_for_header_guard,
  is_line, endif_line, check_pair, scan_words,
}

-- The second word of a line that has one, if the first is `word`.
abbrev argument_of : Text → List Text → Option Text
argument_of word (w ∷ arg ∷ ws) = if eq w word then some arg else none
argument_of word _ = none

abbrev or_else : Option Text → Option Text → Option Text
or_else none y = y
or_else (some x) y = some x

-- The argument of the first line whose first word is `word`.
pub first_argument : Text → List Text → Option Text
first_argument word [] = none
first_argument word (line ∷ lines) =
    or_else (argument_of word (split line)) (first_argument word lines)

-- The last line that starts with `prefix`.
pub last_starting : Text → List Text → Option Text
last_starting prefix [] = none
last_starting prefix (line ∷ lines) =
    or_else (last_starting prefix lines) (if starts_with line prefix then some line else none)

or_else_assoc : (a b c : Option Text) → or_else (or_else a b) c ≡ or_else a (or_else b c)
or_else_assoc none b c = refl
or_else_assoc (some a) b c = refl

or_else-none : (a : Option Text) → or_else a none ≡ a
or_else-none none = refl
or_else-none (some a) = refl

scan_words-ifndef :
    (n : ℕ) (line : Text) (ws : List Text) (g : Guard)
    → (scan_words n line ws g).ifndef ≡ or_else g.ifndef (argument_of (codes "#ifndef") ws)
unfolding scan_words
scan_words-ifndef n line [] g = ground arith
scan_words-ifndef n line (w ∷ []) g = ground arith
scan_words-ifndef n line (w ∷ arg ∷ ws) g = ground arith

scan_words-define :
    (n : ℕ) (line : Text) (ws : List Text) (g : Guard)
    → (scan_words n line ws g).define ≡ or_else g.define (argument_of (codes "#define") ws)
unfolding scan_words
scan_words-define n line [] g = ground arith
scan_words-define n line (w ∷ []) g = ground arith
scan_words-define n line (w ∷ arg ∷ ws) g = ground arith

scan_words-endif :
    (n : ℕ) (line : Text) (ws : List Text) (g : Guard)
    → (scan_words n line ws g).endif
      ≡ or_else (if starts_with line (codes "#endif") then some line else none) g.endif
unfolding scan_words
scan_words-endif n line [] g = ground arith
scan_words-endif n line (w ∷ []) g = ground arith
scan_words-endif n line (w ∷ arg ∷ ws) g = ground arith

scan_lines-ifndef :
    (n : ℕ) (ls : List Text) (g : Guard)
    → (scan_lines n ls g).ifndef ≡ or_else g.ifndef (first_argument (codes "#ifndef") ls)
unfolding scan_lines first_argument
scan_lines-ifndef n [] g = sym (or_else-none g.ifndef)
scan_lines-ifndef n (l ∷ ls) g =
    scan_lines-ifndef (suc n) ls (scan_words n l (split l) g)
    ∙ ap (λ (o : Option Text). or_else o (first_argument (codes "#ifndef") ls))
        (scan_words-ifndef n l (split l) g)
    ∙ or_else_assoc g.ifndef (argument_of (codes "#ifndef") (split l))
        (first_argument (codes "#ifndef") ls)

scan_lines-define :
    (n : ℕ) (ls : List Text) (g : Guard)
    → (scan_lines n ls g).define ≡ or_else g.define (first_argument (codes "#define") ls)
unfolding scan_lines first_argument
scan_lines-define n [] g = sym (or_else-none g.define)
scan_lines-define n (l ∷ ls) g =
    scan_lines-define (suc n) ls (scan_words n l (split l) g)
    ∙ ap (λ (o : Option Text). or_else o (first_argument (codes "#define") ls))
        (scan_words-define n l (split l) g)
    ∙ or_else_assoc g.define (argument_of (codes "#define") (split l))
        (first_argument (codes "#define") ls)

scan_lines-endif :
    (n : ℕ) (ls : List Text) (g : Guard)
    → (scan_lines n ls g).endif ≡ or_else (last_starting (codes "#endif") ls) g.endif
unfolding scan_lines last_starting
scan_lines-endif n [] g = refl
scan_lines-endif n (l ∷ ls) g =
    scan_lines-endif (suc n) ls (scan_words n l (split l) g)
    ∙ ap (or_else (last_starting (codes "#endif") ls)) (scan_words-endif n l (split l) g)
    ∙ sym (or_else_assoc (last_starting (codes "#endif") ls) _ g.endif)

append-eq-nil : (es fs : List Effect) → es ++ fs ≡ [] → (es ≡ []) × (fs ≡ [])
append-eq-nil [] fs h = (refl, h)
append-eq-nil (e ∷ es) fs h = cc

append_report : (es : List Effect) (r : Report) → es ++ (report r ∷ []) ≡ [] → ⊥
append_report [] r h = cc
append_report (e ∷ es) r h = cc

check_ifndef_iff :
    (cppvar : Text) (lines : List Text) (n : ℕ) (ifndef : Text)
    → (check_ifndef cppvar lines n ifndef ≡ []) ↔ (ifndef ≡ cppvar)
unfolding check_ifndef
check_ifndef_iff cppvar lines n ifndef = elim (Bool-cases (eq ifndef cppvar)) [
  | inl e ↦ (λ h. (eq_iff ifndef cppvar).0 e, λ h. rw e)
  | inr e ↦ (
    λ h. absurd (append_report (parse_nolint_suppressions (get_or lines n []) n) _ (rw e at h)),
    λ h. cc (e, (eq_iff ifndef cppvar).1 h),
  )
]

is_line_iff : (o : Option Text) (t : Text) → (is_line o t ≡ true) ↔ (o ≡ some t)
unfolding is_line
is_line_iff none t = (λ h. cc, λ h. cc)
is_line_iff (some s) t = (λ h. ap some ((eq_iff s t).0 h), λ h. (eq_iff s t).1 (some-inj h))

check_endif_iff :
    (cppvar : Text) (lines : List Text) (n : ℕ) (endif : Option Text)
    → (check_endif cppvar lines n endif ≡ []) ↔ (endif ≡ some (endif_line cppvar))
unfolding check_endif
check_endif_iff cppvar lines n endif = elim (Bool-cases (is_line endif (endif_line cppvar))) [
  | inl e ↦ (λ h. (is_line_iff endif (endif_line cppvar)).0 e, λ h. rw e)
  | inr e ↦ (
    λ h. absurd (append_report (parse_nolint_suppressions (get_or lines n []) n) _ (rw e at h)),
    λ h. cc (e, (is_line_iff endif (endif_line cppvar)).1 h),
  )
]

abbrev Passes : Text → Option Text → Option Text → Option Text → Type 0
Passes cppvar ifndef define endif =
    (ifndef ≡ some cppvar) × (define ≡ some cppvar) × (endif ≡ some (endif_line cppvar))

check_pair_iff :
    (cppvar : Text) (lines : List Text) (g : Guard) (ifndef define : Text)
    → (check_pair cppvar lines g ifndef define ≡ [])
      ↔ Passes cppvar (some ifndef) (some define) g.endif
unfolding check_pair
check_pair_iff cppvar lines g ifndef define = elim (Bool-cases (eq define ifndef)) [
  | inl e ↦ (
    λ h.
        let (a, b) =
          append-eq-nil (check_ifndef cppvar lines g.ifndef_linenum ifndef) _ (rw e at h) in
        let same = (check_ifndef_iff cppvar lines g.ifndef_linenum ifndef).0 a in
        (
          ap some same,
          ap some ((eq_iff define ifndef).0 e ∙ same),
          (check_endif_iff cppvar lines g.endif_linenum g.endif).0 b,
        ),
    λ (p, q, r). rw (
      e,
      (check_ifndef_iff cppvar lines g.ifndef_linenum ifndef).1 (some-inj p),
      (check_endif_iff cppvar lines g.endif_linenum g.endif).1 r,
    ),
  )
  | inr e ↦ (
    λ h. absurd (append_report (check_ifndef cppvar lines g.ifndef_linenum ifndef) _ (rw e at h)),
    λ (p, q, r). cc (e, (eq_iff define ifndef).1 (some-inj q ∙ sym (some-inj p))),
  )
]

check_guard_iff :
    (cppvar : Text) (lines : List Text) (g : Guard) (ifndef define : Option Text)
    → (check_guard cppvar lines g ifndef define ≡ []) ↔ Passes cppvar ifndef define g.endif
unfolding check_guard
check_guard_iff cppvar lines g none define = (λ h. cc, λ h. cc (h.0))
check_guard_iff cppvar lines g (some ifndef) none = (λ h. cc, λ h. cc (h.1))
check_guard_iff cppvar lines g (some ifndef) (some define) =
    check_pair_iff cppvar lines g ifndef define

-- `CheckForHeaderGuard` reports nothing, and suppresses nothing, exactly if the first #ifndef and
-- the first #define of the file both name the CPP variable, and the last line that starts with
-- #endif is `#endif  // ` with the variable.
pub check_for_header_guard_iff :
    (cppvar : Text) (lines : List Text)
    → (check_for_header_guard cppvar lines ≡ [])
      ↔ (first_argument (codes "#ifndef") lines ≡ some cppvar)
        × (first_argument (codes "#define") lines ≡ some cppvar)
        × (last_starting (codes "#endif") lines ≡ some (endif_line cppvar))
unfolding check_for_header_guard
check_for_header_guard_iff cppvar lines =
    let g = scan_lines 0 lines no_guard in
    let i = scan_lines-ifndef 0 lines no_guard in
    let d = scan_lines-define 0 lines no_guard in
    let e =
      scan_lines-endif 0 lines no_guard ∙ or_else-none (last_starting (codes "#endif") lines) in
    let (to, from) = check_guard_iff cppvar lines g g.ifndef g.define in
    (
      λ h. let (p, q, r) = to h in (sym i ∙ p, sym d ∙ q, sym e ∙ r),
      λ (p, q, r). from (i ∙ p, d ∙ q, e ∙ r),
    )
