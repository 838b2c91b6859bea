-- ===== src/Text/Laws.antt =====
-- Facts about the string operations that the components' proofs share.
use mathlib.Core.Logic.{◌↔◌}
use moohoorama.Base.{ℕ, ◌+◌, ◌-◌, ◌≤◌, true, ◌≡◌, refl, some, [], ◌∷◌, arith, length, ◌++◌}
use moohoorama.Text.{Text, replace_from, eq, starts_with, find, codes, replace}

pub eq_iff : (a b : Text) → (eq a b ≡ true) ↔ (a ≡ b)
unfolding eq
eq_iff (x ∷ a) (y ∷ b) = ground (arith, eq_iff a b)
eq_iff _ _ = ground arith

pub eq_refl : (a : Text) → eq a a ≡ true
eq_refl a = (eq_iff a a).1 refl

pub starts_with-length : (s p : Text) → starts_with s p ≡ true → length p ≤ length s
unfolding starts_with
starts_with-length s [] h = omega arith
starts_with-length [] (p ∷ ps) h = ground arith
starts_with-length (c ∷ s) (p ∷ ps) h = ground (arith, starts_with-length s ps)

pub starts_with-append : (p s : Text) → starts_with (p ++ s) p ≡ true
unfolding starts_with
starts_with-append [] s = refl
starts_with-append (c ∷ p) s = ground (arith, starts_with-append p s)

-- What `find` returns lies in the text.
pub find-le : (s p : Text) (i : ℕ) → find s p ≡ some i → i + length p ≤ length s
unfolding find
find-le [] p i h = ground (arith, starts_with-length [] p)
find-le (c ∷ s) p i h = ground (arith, starts_with-length (c ∷ s) p, find-le s p (i - 1))

replace_test : replace (codes "foo-inl.h") (codes "-inl.h") (codes ".h") ≡ codes "foo.h"
unfolding replace_from
replace_test = refl
