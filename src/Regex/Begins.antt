-- ===== src/Regex/Begins.antt =====
-- Where a search for an expression that begins with fixed characters passes on.
use moohoorama.Base.{
  ℕ, suc, Bool, false, ◌≡◌, refl, sym, ◌∙◌, Option, none, some, [], ◌∷◌, ◌++◌, ◌==◌, List,
  Bool-cases, inl, inr, true-ne-false, none-ne-some, Option-cases, All, append-nil,
}
use moohoorama.Text.{Text, starts_with, find}
use moohoorama.Regex.{Re, set, seq, assertion, outcomes, match_at, search_from}
use moohoorama.Regex.Syntax.{only}

-- An expression that matches only at the characters of `p`.
pub data Begins : Text → Re → Type 0 where
  anywhere : {r : Re} → Begins [] r
  item : {c : ℕ} {p : Text} {r : Re} → Begins p r → Begins (c ∷ p) (seq (set (only c)) r)
  test :
      {q : Option ℕ → Text → Bool} {p : Text} {r : Re} → Begins p r → Begins p (seq (assertion q) r)

outcomes-Begins :
    {p : Text} {r : Re}
    → Begins p r
    → (b : Option ℕ) (s : Text) (gs : List (ℕ × Text)) → starts_with s p ≡ false
    → outcomes r (record { before = b; rest = s; groups = gs }) ≡ []
unfolding outcomes starts_with
outcomes-Begins anywhere b s gs h = absurd (true-ne-false h)
outcomes-Begins (item {c} {p} {r} z) b [] gs h = refl
outcomes-Begins (item {c} {p} {r} z) b (x ∷ s) gs h = elim (Bool-cases (x == c)) [
  | inl e ↦ rw e (append-nil _ ∙ outcomes-Begins z (some x) s gs (rw e at h))
  | inr e ↦ rw e refl
]
outcomes-Begins (test {q} {p} {r} z) b s gs h = elim (Bool-cases (q b s)) [
  | inl e ↦ rw e (append-nil _ ∙ outcomes-Begins z b s gs h)
  | inr e ↦ rw e refl
]

module _ {p : Text} {r : Re} (z : Begins p r) where
  pub search_from-step :
      (i : ℕ) (b : Option ℕ) (c : ℕ) (s : Text)
      → starts_with (c ∷ s) p ≡ false
      → search_from r i b (c ∷ s) ≡ search_from r (suc i) (some c) s
  unfolding search_from match_at
  search_from-step i b c s h = rw (outcomes-Begins z b (c ∷ s) [] h, search_from, match_at) refl

starts_with-append_other :
    (s : Text) (c : ℕ) (t p : Text)
    → All (λ x. (c == x) ≡ false) p
    → starts_with s p ≡ false
    → starts_with (s ++ (c ∷ t)) p ≡ false
unfolding starts_with
starts_with-append_other s c t [] o h = absurd (true-ne-false h)
starts_with-append_other [] c t (x ∷ p) (e, o) h = rw e refl
starts_with-append_other (y ∷ s) c t (x ∷ p) (e, o) h = elim (Bool-cases (y == x)) [
  | inl f ↦ rw f (starts_with-append_other s c t p o (rw f at h))
  | inr f ↦ rw f refl
]

find-none :
    (c : ℕ) (s p : Text)
    → find (c ∷ s) p ≡ none
    → (starts_with (c ∷ s) p ≡ false) × (find s p ≡ none)
unfolding find
find-none c s p h = elim (Bool-cases (starts_with (c ∷ s) p)) [
  | inl e ↦ absurd (none-ne-some (sym (rw (e, find) at h)))
  | inr e ↦ elim (Option-cases (find s p)) [
    | inl f ↦ (e, f)
    | inr (i, f) ↦ absurd (none-ne-some (sym (rw (e, f, find) at h)))
  ]
]

module _ {p : Text} {r : Re} (z : Begins p r) where
  -- A search passes over a text in which `p` does not occur, if a character that is not in `p` follows.
  pub search_from-skip :
      (code : Text) (c : ℕ) (t : Text) (i : ℕ) (b : Option ℕ)
      → All (λ x. (c == x) ≡ false) p
      → find code p ≡ none
      → (j : ℕ) × (d : Option ℕ) × (search_from r i b (code ++ (c ∷ t)) ≡ search_from r j d (c ∷ t))
  search_from-skip [] c t i b o h = (i, b, refl)
  search_from-skip (x ∷ code) c t i b o h =
      let (s, f) = find-none x code p h in
      let (j, d, e) = search_from-skip code c t (suc i) (some x) o f in
      (
        j,
        d,
        search_from-step z i b x (code ++ (c ∷ t)) (starts_with-append_other (x ∷ code) c t p o s)
            ∙ e,
      )
