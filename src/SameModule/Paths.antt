-- ===== src/SameModule/Paths.antt =====
-- The paths that `FilesBelongToSameModule` makes of its two names.
use moohoorama.Base.{
  ℕ, zero, suc, ◌-◌, ◌≤◌, true, false, ◌≡◌, refl, sym, ap, ◌∙◌, subst, ◌⊎◌, inl, inr, some, [], ◌∷◌,
  ◌++◌, length, leb, drop, take, take-append-drop, length-append, length-drop, arith, Bool-cases,
  &&-eq-true, some-inj, none-ne-some, true-ne-false, ◌==◌,
}
use moohoorama.Text.{Text, codes, eq, ends_with, starts_with, drop_last, replace, replace_from}
use moohoorama.Text.Laws.{eq_iff, eq_refl, starts_with-append}
use moohoorama.SameModule.{
  without_test, without_inl, without_public_internal, module_of_cc, module_of_h,
}

drop_append : (xs ys : Text) → drop (length xs) (xs ++ ys) ≡ ys
drop_append [] ys = refl
drop_append (x ∷ xs) ys = drop_append xs ys

take_append : (xs ys : Text) → take (length xs) (xs ++ ys) ≡ xs
take_append [] ys = refl
take_append (x ∷ xs) ys = ap (λ (t : Text). x ∷ t) (take_append xs ys)

-- A path that ends with another one is some path in front of it.
pub ends_with_sound : (s p : Text) → ends_with s p ≡ true → drop_last (length p) s ++ p ≡ s
unfolding ends_with
ends_with_sound s p h =
    let (_, e) = &&-eq-true (leb (length p) (length s)) (eq (drop (length s - length p) s) p) h in
    ap (λ (t : Text). drop_last (length p) s ++ t) (sym ((eq_iff _ p).0 e))
    ∙ take-append-drop (length s - length p) s

pub ends_with_complete : (q p : Text) → ends_with (q ++ p) p ≡ true
unfolding ends_with
ends_with_complete q p =
    let front : length (q ++ p) - length p ≡ length q = omega (arith, length-append {0} q p) in
    let fits : leb (length p) (length (q ++ p)) ≡ true = ground (arith, length-append {0} q p) in
    rw (fits, front, drop_append q p, eq_refl p) refl

drop_last_append : (q p : Text) → drop_last (length p) (q ++ p) ≡ q
drop_last_append q p =
    let front : length (q ++ p) - length p ≡ length q = omega (arith, length-append {0} q p) in
    rw front (take_append q p)

-- `t` is `s` with every occurrence of `p`, from left to right, replaced by `q`.
pub data Replaced (p q : Text) : Text → Text → Type 0 where
  over : Replaced p q [] []
  hit : {s t : Text} → Replaced p q s t → Replaced p q (p ++ s) (q ++ t)
  kept :
      {c : ℕ} {s t : Text}
      → starts_with (c ∷ s) p ≡ false
      → Replaced p q s t
      → Replaced p q (c ∷ s) (c ∷ t)

replace_from_skip : (u s p q : Text) → replace_from (length u) (u ++ s) p q ≡ replace s p q
unfolding replace_from
replace_from_skip [] s p q = refl
replace_from_skip (y ∷ u) s p q = replace_from_skip u s p q

starts_with_sound : (s p : Text) → starts_with s p ≡ true → s ≡ p ++ drop (length p) s
unfolding starts_with
starts_with_sound s [] h = refl
starts_with_sound [] (x ∷ p) h = absurd (true-ne-false (sym h))
starts_with_sound (c ∷ s) (x ∷ p) h =
    let (e, k) = &&-eq-true (c == x) (starts_with s p) h in
    let same : c ≡ x = ground arith in rw same (ap (λ (t : Text). x ∷ t) (starts_with_sound s p k))

module _ (x : ℕ) (p q : Text) where
  replace_hit : (s : Text) → replace ((x ∷ p) ++ s) (x ∷ p) q ≡ q ++ replace s (x ∷ p) q
  unfolding replace_from
  replace_hit s =
      let passed : suc (length p) - 1 ≡ length p = omega arith in
      rw (starts_with-append (x ∷ p) s) (
        ap (λ (n : ℕ). q ++ replace_from n (p ++ s) (x ∷ p) q) passed
        ∙ ap (λ (u : Text). q ++ u) (replace_from_skip p s (x ∷ p) q))

  replace_kept :
      (c : ℕ) (s : Text)
      → starts_with (c ∷ s) (x ∷ p) ≡ false
      → replace (c ∷ s) (x ∷ p) q ≡ c ∷ replace s (x ∷ p) q
  unfolding replace_from
  replace_kept c s h = rw h refl

  pub Replaced-eq : {s t : Text} → Replaced (x ∷ p) q s t → replace s (x ∷ p) q ≡ t
  unfolding replace_from
  Replaced-eq over = refl
  Replaced-eq (hit {s} {t} r) = replace_hit s ∙ ap (λ (u : Text). q ++ u) (Replaced-eq r)
  Replaced-eq (kept {c} {s} {t} h r) = replace_kept c s h ∙ ap (λ (u : Text). c ∷ u) (Replaced-eq r)

  replace_fuel : (n : ℕ) (s : Text) → length s ≤ n → Replaced (x ∷ p) q s (replace s (x ∷ p) q)
  unfolding replace_from
  replace_fuel n [] h = over
  replace_fuel zero (c ∷ s) h = absurd (omega arith)
  replace_fuel (suc n) (c ∷ s) h = elim (Bool-cases (starts_with (c ∷ s) (x ∷ p))) [
    | inr e ↦ rw (replace_kept c s e) (kept e (replace_fuel n s (omega arith)))
    | inl e ↦
        subst (λ u. Replaced (x ∷ p) q u (replace u (x ∷ p) q))
          (sym (starts_with_sound (c ∷ s) (x ∷ p) e))
          (rw (replace_hit (drop (length p) s)) (
            hit (replace_fuel n (drop (length p) s) (omega (arith, length-drop {0} (length p) s)))))
  ]

  pub replace-Replaced : (s : Text) → Replaced (x ∷ p) q s (replace s (x ∷ p) q)
  replace-Replaced s = replace_fuel (length s) s (omega arith)

-- `y` is `x` without a test suffix.
abbrev pub TestStem : Text → Text → Type 0
TestStem x y =
    (x ≡ y ++ codes "_unittest")
    ⊎ ((x ≡ y ++ codes "_test") × (ends_with x (codes "_unittest") ≡ false))
    ⊎ ((x ≡ y) × (ends_with x (codes "_unittest") ≡ false) × (ends_with x (codes "_test") ≡ false))

-- `y` is `x` without `-inl`.
abbrev pub InlStem : Text → Text → Type 0
InlStem x y = (x ≡ y ++ codes "-inl") ⊎ ((x ≡ y) × (ends_with x (codes "-inl") ≡ false))

-- `y` is `x` without the directories public and internal.
abbrev pub Shared : Text → Text → Type 0
Shared x y =
    (middle : Text) × Replaced (codes "/public/") (codes "/") x middle
    × Replaced (codes "/internal/") (codes "/") middle y

-- The path of a source file, and that of a header, within their module.
abbrev pub SourcePath : Text → Text → Type 0
SourcePath f m =
    (x : Text) × (name : Text) × (f ≡ x ++ codes ".cc") × TestStem x name × Shared name m

abbrev pub HeaderPath : Text → Text → Type 0
HeaderPath f m = (x : Text) × (name : Text) × (f ≡ x ++ codes ".h") × InlStem x name × Shared name m

without_test-TestStem : (x : Text) → TestStem x (without_test x)
unfolding without_test
without_test-TestStem x = elim (Bool-cases (ends_with x (codes "_unittest"))) [
  | inl e ↦ rw e (inl (sym (ends_with_sound x (codes "_unittest") e)))
  | inr e ↦ elim (Bool-cases (ends_with x (codes "_test"))) [
    | inl f ↦ rw (e, f) (inr (inl (sym (ends_with_sound x (codes "_test") f), refl)))
    | inr f ↦ rw (e, f) (inr (inr (refl, refl, refl)))
  ]
]

without_inl-InlStem : (x : Text) → InlStem x (without_inl x)
unfolding without_inl
without_inl-InlStem x = elim (Bool-cases (ends_with x (codes "-inl"))) [
  | inl e ↦ rw e (inl (sym (ends_with_sound x (codes "-inl") e)))
  | inr e ↦ rw e (inr (refl, refl))
]

TestStem-eq : (x y : Text) → TestStem x y → without_test x ≡ y
unfolding without_test
TestStem-eq x y (inl e) =
    rw (e, ends_with_complete y (codes "_unittest")) (drop_last_append y (codes "_unittest"))
TestStem-eq x y (inr (inl (e, n))) =
    let yes : ends_with x (codes "_test") ≡ true = rw e (ends_with_complete y (codes "_test")) in
    rw (n, yes) (rw e (drop_last_append y (codes "_test")))
TestStem-eq x y (inr (inr (e, n, k))) = rw (n, k) e

InlStem-eq : (x y : Text) → InlStem x y → without_inl x ≡ y
unfolding without_inl
InlStem-eq x y (inl e) =
    rw (e, ends_with_complete y (codes "-inl")) (drop_last_append y (codes "-inl"))
InlStem-eq x y (inr (e, n)) = rw n e

without_public_internal-Shared : (x : Text) → Shared x (without_public_internal x)
unfolding without_public_internal
without_public_internal-Shared x =
    (_, replace-Replaced _ _ _ x, replace-Replaced _ _ _ (replace x (codes "/public/") (codes "/")))

Shared-eq : (x y : Text) → Shared x y → without_public_internal x ≡ y
unfolding without_public_internal
Shared-eq x y (middle, r, k) =
    ap (λ (t : Text). replace t (codes "/internal/") (codes "/")) (Replaced-eq _ _ _ r)
    ∙ Replaced-eq _ _ _ k

pub module_of_cc-SourcePath : (f m : Text) → module_of_cc f ≡ some m → SourcePath f m
unfolding module_of_cc
module_of_cc-SourcePath f m h = elim (Bool-cases (ends_with f (codes ".cc"))) [
  | inr e ↦ absurd (none-ne-some (rw (e, module_of_cc) at h))
  | inl e ↦ (
    drop_last 3 f,
    without_test (drop_last 3 f),
    sym (ends_with_sound f (codes ".cc") e),
    without_test-TestStem (drop_last 3 f),
    subst (Shared (without_test (drop_last 3 f))) (some-inj (rw (e, module_of_cc) at h))
        (without_public_internal-Shared (without_test (drop_last 3 f))),
  )
]

pub SourcePath-module_of_cc : (f m : Text) → SourcePath f m → module_of_cc f ≡ some m
unfolding module_of_cc
SourcePath-module_of_cc f m (x, name, e, t, s) =
    rw (e, ends_with_complete x (codes ".cc"))
      (rw (drop_last_append x (codes ".cc"), TestStem-eq x name t, Shared-eq name m s) refl)

pub module_of_h-HeaderPath : (f m : Text) → module_of_h f ≡ some m → HeaderPath f m
unfolding module_of_h
module_of_h-HeaderPath f m h = elim (Bool-cases (ends_with f (codes ".h"))) [
  | inr e ↦ absurd (none-ne-some (rw (e, module_of_h) at h))
  | inl e ↦ (
    drop_last 2 f,
    without_inl (drop_last 2 f),
    sym (ends_with_sound f (codes ".h") e),
    without_inl-InlStem (drop_last 2 f),
    subst (Shared (without_inl (drop_last 2 f))) (some-inj (rw (e, module_of_h) at h))
        (without_public_internal-Shared (without_inl (drop_last 2 f))),
  )
]

pub HeaderPath-module_of_h : (f m : Text) → HeaderPath f m → module_of_h f ≡ some m
unfolding module_of_h
HeaderPath-module_of_h f m (x, name, e, t, s) =
    rw (e, ends_with_complete x (codes ".h"))
      (rw (drop_last_append x (codes ".h"), InlStem-eq x name t, Shared-eq name m s) refl)
