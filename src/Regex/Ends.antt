-- ===== src/Regex/Ends.antt =====
-- The character that ends a match.
use moohoorama.Base.{
  ℕ, suc, ◌-◌, Bool, true, ◌≡◌, refl, sym, ap, ◌∙◌, Option, none, some, List, [], ◌∷◌, ◌++◌,
  append_assoc, arith, length, length-append, length-take, All, All-append, All-mono, All-flat_map,
  All-map, Bool-cases, ◌⊎◌, inl, inr, drop, some-inj, none-ne-some, Option-cases,
}
use moohoorama.Text.{Text}
use moohoorama.Regex.{
  Re, eps, set, seq, alt, star, group, ahead, ahead_not, assertion, Cursor, advance, close,
  outcomes, Found, to_found, at_cursor, lookup, same, match_at, search_from, search_re, end_pos,
}
use moohoorama.Regex.Laws.{All-peek, All-deny, All-recall, repeat_inv}

-- What is left at a cursor is the end of `s`.
Suffix : Text → Cursor → Type 0
Suffix s k = (front : Text) × (s ≡ front ++ k.rest)

one_further :
    (s front : Text) (c : ℕ) (t : Text) → s ≡ front ++ (c ∷ t) → s ≡ (front ++ (c ∷ [])) ++ t
one_further s front c t e = e ∙ sym (append_assoc front (c ∷ []) t)

drop-Suffix : (s front t : Text) (m : ℕ) → s ≡ front ++ t → (back : Text) × (s ≡ back ++ drop m t)
drop-Suffix s front t ℕ.zero e = (front, e)
drop-Suffix s front [] (ℕ.suc m) e = (front, e)
drop-Suffix s front (c ∷ t) (ℕ.suc m) e =
    drop-Suffix s (front ++ (c ∷ [])) t m (one_further s front c t e)

module _ (s : Text) where
  advance-Suffix :
      (p : ℕ → Bool) (k : Cursor) (t : Text)
      → ((front : Text) × (s ≡ front ++ t))
      → All (Suffix s) (advance p k t)
  unfolding Suffix
  advance-Suffix p k [] h = tt
  advance-Suffix p k (c ∷ t) (front, e) = elim (Bool-cases (p c)) [
    | inl q ↦ rw q ((front ++ (c ∷ []), one_further s front c t e), tt)
    | inr q ↦ rw q tt
  ]

  outcomes-Suffix : (r : Re) (k : Cursor) → Suffix s k → All (Suffix s) (outcomes r k)
  unfolding outcomes Suffix
  outcomes-Suffix eps k h = (h, tt)
  outcomes-Suffix (set p) k h = advance-Suffix p k k.rest h
  outcomes-Suffix (seq a b) k h =
      All-flat_map _ (outcomes b) (outcomes a k)
        (All-mono (λ l p. outcomes-Suffix b l p) _ (outcomes-Suffix a k h))
  outcomes-Suffix (alt a b) k h = All-append _ _ _ (outcomes-Suffix a k h) (outcomes-Suffix b k h)
  outcomes-Suffix (star greedy r) k h =
      repeat_inv (Suffix s) greedy (outcomes r) (λ l p. outcomes-Suffix r l p) (length k.rest) k h
  outcomes-Suffix (group n r) k h = All-map _ (close n k) (outcomes r k) (outcomes-Suffix r k h)
  outcomes-Suffix (ahead r) k h = All-peek (Suffix s) k (outcomes r k) (λ gs. h)
  outcomes-Suffix (ahead_not r) k h = All-deny (Suffix s) k (outcomes r k) h
  outcomes-Suffix (same n) k h =
      All-recall (Suffix s) k (lookup n k.groups) (λ b m. drop-Suffix s h.0 k.rest m h.1)
  outcomes-Suffix (assertion p) k h = elim (Bool-cases (p k.before k.rest)) [
    | inl t ↦ rw t (h, tt)
    | inr t ↦ rw t tt
  ]

-- An expression whose last item is a character of which `P` holds.
pub data EndsBy (P : ℕ → Type 0) : Re → Type 0 where
  last : {p : ℕ → Bool} → ((c : ℕ) → p c ≡ true → P c) → EndsBy P (set p)
  behind : {a b : Re} → EndsBy P b → EndsBy P (seq a b)

-- A position of a text behind a character of which `P` holds.
abbrev pub Behind : (ℕ → Type 0) → Text → ℕ → Type 0
Behind P s e =
    (front : Text) × (c : ℕ) × (back : Text) × (s ≡ front ++ (c ∷ back))
    × P c
    × (e ≡ suc (length front))

search_from_cases :
    (r : Re) (i : ℕ) (b : Option ℕ) (c : ℕ) (s : Text) (m : Found)
    → search_from r i b (c ∷ s) ≡ some m
    → (match_at r i b (c ∷ s) ≡ some m) ⊎ (search_from r (suc i) (some c) s ≡ some m)
unfolding search_from
search_from_cases r i b c s m q = elim (Option-cases (match_at r i b (c ∷ s))) [
  | inl f ↦ inr (rw (f, search_from) at q)
  | inr (n, f) ↦ inl (f ∙ rw (f, search_from) at q)
]

module _ (P : ℕ → Type 0) where
  module _ (s : Text) where
    IsBehind : Cursor → Type 0
    IsBehind k = (front : Text) × (c : ℕ) × (s ≡ front ++ (c ∷ k.rest)) × P c

    advance-IsBehind :
        (p : ℕ → Bool) (k : Cursor) (t : Text)
        → ((c : ℕ) → p c ≡ true → P c)
        → ((front : Text) × (s ≡ front ++ t))
        → All IsBehind (advance p k t)
    unfolding IsBehind
    advance-IsBehind p k [] f h = tt
    advance-IsBehind p k (c ∷ t) f (front, e) = elim (Bool-cases (p c)) [
      | inl q ↦ rw q ((front, c, e, f c q), tt)
      | inr q ↦ rw q tt
    ]

    outcomes-IsBehind :
        {r : Re} → EndsBy P r → (k : Cursor) → Suffix s k → All IsBehind (outcomes r k)
    unfolding outcomes Suffix
    outcomes-IsBehind (last {p} f) k h = advance-IsBehind p k k.rest f h
    outcomes-IsBehind (behind {a} {b} e) k h =
        All-flat_map _ (outcomes b) (outcomes a k)
          (All-mono (λ l p. outcomes-IsBehind e l p) _ (outcomes-Suffix s a k h))

  module _ (text : Text) (m : Found) where
    to_found-Behind :
        (front s : Text) (i : ℕ) (b : Option ℕ) (ls : List Cursor)
        → text ≡ front ++ s
        → i ≡ length front
        → All (IsBehind s) ls
        → to_found i (at_cursor b s) ls ≡ some m
        → Behind P text (end_pos m)
    unfolding IsBehind
    to_found-Behind front s i b [] e l h q = absurd (none-ne-some q)
    to_found-Behind front s i b (k ∷ ls) e l ((u, c, v, x), hs) q = (
      front ++ u,
      c,
      k.rest,
      e ∙ (ap (λ (t : Text). front ++ t) v ∙ sym (append_assoc front u (c ∷ k.rest))),
      x,
      sym (ap (λ (f : Found). end_pos f) (some-inj q))
          ∙ omega (
            arith,
            length-take {0} (length s - length k.rest) s,
            ap (λ (t : Text). length t) v,
            length-append {0} u (c ∷ k.rest),
            length-append {0} front u,
          ),
    )

    search_from-Behind :
        {r : Re}
        → EndsBy P r
        → (front s : Text) (i : ℕ) (b : Option ℕ) → text ≡ front ++ s
        → i ≡ length front
        → search_from r i b s ≡ some m
        → Behind P text (end_pos m)
    unfolding search_from match_at Suffix
    search_from-Behind {r} z front [] i b e l q =
        to_found-Behind front [] i b (outcomes r (at_cursor b [])) e l
          (outcomes-IsBehind [] z (at_cursor b []) ([], refl)) q
    search_from-Behind {r} z front (c ∷ s) i b e l q = elim (search_from_cases r i b c s m q) [
      | inl f ↦
          to_found-Behind front (c ∷ s) i b (outcomes r (at_cursor b (c ∷ s))) e l
            (outcomes-IsBehind (c ∷ s) z (at_cursor b (c ∷ s)) ([], refl)) f
      | inr f ↦
          search_from-Behind z (front ++ (c ∷ [])) s (suc i) (some c) (one_further text front c s e)
            (omega (arith, length-append {0} front (c ∷ []))) f
    ]

-- A match of such an expression ends behind such a character.
pub search_re-Behind :
    (P : ℕ → Type 0) {r : Re} (text : Text) (m : Found)
    → EndsBy P r
    → search_re r text ≡ some m
    → Behind P text (end_pos m)
unfolding search_re
search_re-Behind P text m z q = search_from-Behind P text m z [] text 0 none refl refl q
