-- ===== src/FilePath/Laws.antt =====
-- The directory of a path.
use moohoorama.Base.{
  ℕ, ◌≤◌, false, ◌≡◌, refl, sym, ap, ◌∙◌, inl, inr, Option, some, [], ◌∷◌, ◌++◌, append_assoc,
  append-nil, length, length-append, arith, Bool-cases, Option-cases, none-ne-some, &&-eq-true,
  true-ne-false, ==_iff, ◌==◌,
}
use moohoorama.Text.{Text}
use moohoorama.FilePath.{last_split, all_slashes, rstrip_slashes, trim_head, dirname}

some-pair :
    {a a' b b' : Text}
    → ◌≡◌ {A = Option (Text × Text)} (some (a, b)) (some (a', b'))
    → (a ≡ a') × (b ≡ b')
some-pair h = ground arith

last_split-eq : (c : ℕ) (s a b : Text) → last_split c s ≡ some (a, b) → s ≡ a ++ (c ∷ b)
unfolding last_split
last_split-eq c [] a b h = ground arith
last_split-eq c (x ∷ s) a b h = elim (Option-cases (last_split c s)) [
  | inl e ↦ elim (Bool-cases (x == c)) [
    | inl q ↦
        let (p, r) = some-pair (rw (e, q) at h) in
        rw (sym p, sym r) (ap (λ (k : ℕ). k ∷ s) ((==_iff x c).0 q))
    | inr q ↦ absurd (none-ne-some (rw (e, q) at h))
  ]
  | inr ((a', b'), e) ↦
      let (p, r) = some-pair (rw e at h) in
      rw (sym p, sym r) (ap (λ (l : Text). x ∷ l) (last_split-eq c s a' b' e))
]

-- A prefix, and the slash behind it if it is not made of slashes.
pub record IsAbove (d p : Text) : Type 0 where
  pub rest : Text
  pub split : p ≡ d ++ rest
  pub slash : all_slashes d ≡ false → (t : Text) × (rest ≡ b'/' ∷ t)

rstrip_slashes-split :
    (a : Text) → (t : Text) × (a ++ (b'/' ∷ []) ≡ rstrip_slashes (a ++ (b'/' ∷ [])) ++ (b'/' ∷ t))
unfolding rstrip_slashes all_slashes
rstrip_slashes-split [] = ([], refl)
rstrip_slashes-split (x ∷ a) = elim (Bool-cases (all_slashes (x ∷ (a ++ (b'/' ∷ []))))) [
  | inl e ↦ (
    a ++ (b'/' ∷ []),
    rw e
        (ap (λ (k : ℕ). k ∷ (a ++ (b'/' ∷ []))) ((==_iff x b'/').0 (&&-eq-true (x == b'/') _ e).0)),
  )
  | inr e ↦ let (t, q) = rstrip_slashes-split a in (t, rw e (ap (λ (l : Text). x ∷ l) q))
]

trim_head-IsAbove : (a b : Text) → IsAbove (trim_head (a ++ (b'/' ∷ []))) (a ++ (b'/' ∷ b))
unfolding trim_head
trim_head-IsAbove a b = elim (Bool-cases (all_slashes (a ++ (b'/' ∷ [])))) [
  | inl e ↦ rw e (record {
    rest = b;
    split = sym (append_assoc a (b'/' ∷ []) b);
    slash = λ h. absurd (true-ne-false (sym e ∙ h));
  })
  | inr e ↦
      let (t, q) = rstrip_slashes-split a in
      rw e (record {
        rest = b'/' ∷ (t ++ b);
        split =
            sym (append_assoc a (b'/' ∷ []) b)
            ∙ ap (λ (l : Text). l ++ b) q
            ∙ append_assoc (rstrip_slashes (a ++ (b'/' ∷ []))) (b'/' ∷ t) b;
        slash = λ h. (t ++ b, refl);
      })
]

-- The directory of a path is above it.
pub dirname-IsAbove : (p : Text) → IsAbove (dirname p) p
unfolding dirname
dirname-IsAbove p = elim (Option-cases (last_split b'/' p)) [
  | inl e ↦ rw e (record { rest = p; split = refl; slash = λ h. absurd (true-ne-false h) })
  | inr ((a, b), e) ↦ rw (e, last_split-eq b'/' p a b e) (trim_head-IsAbove a b)
]

-- Directories over a path: the path itself, or one above it.
pub IsAbove-trans : {r d p : Text} → IsAbove r d → IsAbove d p → IsAbove r p
IsAbove-trans {r} {d} {p} a b = record {
  rest = a.rest ++ b.rest;
  split = b.split ∙ ap (λ (l : Text). l ++ b.rest) a.split ∙ append_assoc r a.rest b.rest;
  slash = λ h. let (t, q) = a.slash h in (t ++ b.rest, ap (λ (l : Text). l ++ b.rest) q);
}

pub dirname-le : (p : Text) → length (dirname p) ≤ length p
dirname-le p =
    let a = dirname-IsAbove p in
    omega (arith, ap (λ (l : Text). length l) a.split, length-append {0} (dirname p) a.rest)

nil_of_length : (l : Text) → length l ≤ 0 → l ≡ []
nil_of_length [] h = refl
nil_of_length (c ∷ l) h = absurd (omega arith)

pub dirname-eq : (p : Text) → length p ≤ length (dirname p) → dirname p ≡ p
dirname-eq p h =
    let a = dirname-IsAbove p in
    let short : length a.rest ≤ 0 =
      omega (arith, h, ap (λ (l : Text). length l) a.split, length-append {0} (dirname p) a.rest) in
    sym (
      a.split
      ∙ ap (λ (l : Text). dirname p ++ l) (nil_of_length a.rest short)
      ∙ append-nil (dirname p))
