-- ===== src/FileInfo/Variable.antt =====
-- The characters of a header guard.
use moohoorama.Base.{
  ℕ, suc, ◌-◌, Bool, false, ◌||◌, ◌≡◌, refl, ap, inl, inr, Option, none, some, [], ◌∷◌, ◌++◌, map,
  length, arith, Bool-cases, if◌then◌else◌, ◌==◌, All, All-append,
}
use moohoorama.Text.{Text, codes}
use moohoorama.Regex.{set, replace_all, replace_all_from, match_at}
use moohoorama.Regex.Syntax.{space}
use moohoorama.FileInfo.{separator_pattern, variable_of}

-- A dash, a dot, a slash or white space.
abbrev pub is_separator : ℕ → Bool
is_separator c = ((c == b'-' || c == b'.') || c == b'/') || space c

separator_pattern-set : separator_pattern ≡ set is_separator
unfolding separator_pattern
separator_pattern-set = refl

abbrev pub underscored : ℕ → ℕ
underscored c = if is_separator c then b'_' else c

-- A set replaced by one character.
replace_set :
    (p : ℕ → Bool) (d : ℕ) (b : Option ℕ) (s : Text)
    → replace_all_from (set p) (λ m. d ∷ []) 0 b s ≡ map (λ c. if p c then d else c) s
unfolding replace_all_from match_at
replace_set p d b [] = refl
replace_set p d b (c ∷ s) =
    let one : suc (length s) - length s ≡ 1 = omega arith in
    elim (Bool-cases (p c)) [
      | inl e ↦ rw (e, one) (ap (λ (l : Text). d ∷ l) (replace_set p d (some c) s))
      | inr e ↦ rw e (ap (λ (l : Text). c ∷ l) (replace_set p d (some c) s))
    ]

underscored-ne : (c : ℕ) → is_separator (underscored c) ≡ false
underscored-ne c = ground arith

pub All-underscored : (s : Text) → All (λ c. is_separator c ≡ false) (map underscored s)
All-underscored [] = tt
All-underscored (c ∷ s) = (underscored-ne c, All-underscored s)

-- The variable of a path is the path with its separators as underscores, in upper case, with an
-- underscore behind. If upper case keeps it so, no dash, dot, slash or white space is in the
-- variable of any path.
pub variable_of-map :
    (upper : Text → Text) (path : Text)
    → ((s : Text)
        → All (λ c. is_separator c ≡ false) s
        → All (λ c. is_separator c ≡ false) (upper s))
    → (variable_of upper path ≡ upper (map underscored path) ++ codes "_")
      × All (λ c. is_separator c ≡ false) (variable_of upper path)
unfolding variable_of replace_all
variable_of-map upper path keeps =
    let same = replace_set is_separator b'_' none path in
    let clean = keeps (map underscored path) (All-underscored path) in
    rw (separator_pattern-set, same)
      (
        refl,
        All-append (λ c. is_separator c ≡ false) (upper (map underscored path)) (codes "_") clean
            (refl, tt),
      )
