-- ===== src/Regex/Laws.antt =====
-- Facts about matching that hold for every expression.
use moohoorama.Base.{
  ℕ, zero, suc, ◌+◌, ◌-◌, ◌≤◌, min, Bool, true, false, not, ◌&&◌, ◌||◌, ◌≡◌, refl, Option, none,
  some, List, [], ◌∷◌, ◌++◌, arith, length, All, All-append, All-mono, All-flat_map, All-map, ltb,
  ◌==◌, Bool-cases, &&-eq-true, inl, inr, length-take, if◌then◌else◌, drop, length-drop,
}
use moohoorama.Text.{Text, starts_with}
use moohoorama.Regex.{
  Re, eps, set, seq, alt, star, group, ahead, ahead_not, deny, assertion, Cursor, advance, shorter,
  repeat, close, between, peek, outcomes, match, Found, to_found, at_cursor, group_text, lookup,
  or_empty, recall, same,
}

-- How many characters every match of an expression has at least.
abbrev pub min_length : Re → ℕ
min_length (set p) = 1
min_length (seq a b) = min_length a + min_length b
min_length (alt a b) = min (min_length a) (min_length b)
min_length (group n r) = min_length r
min_length _ = 0

abbrev AtMost : ℕ → Cursor → Type 0
AtMost n k = length k.rest ≤ n

shorter-AtMost : (k : Cursor) (ls : List Cursor) → All (AtMost (length k.rest - 1)) (shorter k ls)
shorter-AtMost k [] = tt
shorter-AtMost k (l ∷ ls) = elim (Bool-cases (ltb (length l.rest) (length k.rest))) [
  | inl e ↦ rw e (ground arith, shorter-AtMost k ls)
  | inr e ↦ rw e (shorter-AtMost k ls)
]

AtMost-mono : (m n : ℕ) → m ≤ n → (ls : List Cursor) → All (AtMost m) ls → All (AtMost n) ls
AtMost-mono m n h = All-mono (λ l p. omega arith)

All-both :
    (b : Bool) (P : Cursor → Type 0) (k : Cursor) (ls : List Cursor)
    → P k
    → All P ls
    → All P (if b then ls ++ k ∷ [] else k ∷ ls)
All-both true P k ls h hs = All-append P ls (k ∷ []) hs (h, tt)
All-both false P k ls h hs = (h, hs)

repeat-AtMost :
    (greedy : Bool) (body : Cursor → List Cursor) (n : ℕ) (k : Cursor)
    → All (AtMost (length k.rest)) (repeat greedy body n k)
unfolding repeat
repeat-AtMost greedy body zero k = (omega arith, tt)
repeat-AtMost greedy body (suc n) k = All-both greedy (AtMost (length k.rest)) k _ (omega arith) (
    All-flat_map (AtMost (length k.rest)) (repeat greedy body n) (shorter k (body k)) (
      All-mono (λ l p. AtMost-mono _ _ (omega arith) _ (repeat-AtMost greedy body n l)) _
        (shorter-AtMost k (body k))))

advance-AtMost :
    (p : ℕ → Bool) (k : Cursor) (s : Text) → All (λ l. length l.rest + 1 ≤ length s) (advance p k s)
advance-AtMost p k [] = tt
advance-AtMost p k (c ∷ s) = elim (Bool-cases (p c)) [
  | inl e ↦ rw e (omega arith, tt)
  | inr e ↦ rw e tt
]

pub All-peek :
    (P : Cursor → Type 0) (k : Cursor) (ls : List Cursor)
    → ((gs : List (ℕ × Text)) → P (record k { groups = gs }))
    → All P (peek k ls)
All-peek P k [] h = tt
All-peek P k (l ∷ ls) h = (h l.groups, tt)

pub All-deny : (P : Cursor → Type 0) (k : Cursor) (ls : List Cursor) → P k → All P (deny k ls)
All-deny P k [] h = (h, tt)
All-deny P k (l ∷ ls) h = tt

pub All-recall :
    (P : Cursor → Type 0) (k : Cursor) (o : Option Text)
    → ((b : Option ℕ) (m : ℕ) → P (record k { before = b; rest = drop m k.rest }))
    → All P (recall k o)
All-recall P k none h = tt
All-recall P k (some t) h = elim (Bool-cases (starts_with k.rest t)) [
  | inl e ↦ rw e (h _ (length t), tt)
  | inr e ↦ rw e tt
]

-- An outcome has consumed at least the least length of the expression.
pub outcomes-min_length :
    (r : Re) (k : Cursor) → All (λ l. length l.rest + min_length r ≤ length k.rest) (outcomes r k)
unfolding outcomes
outcomes-min_length eps k = (omega arith, tt)
outcomes-min_length (set p) k = advance-AtMost p k k.rest
outcomes-min_length (seq a b) k = All-flat_map _ (outcomes b) (outcomes a k) (
    All-mono (λ l p. All-mono (λ j q. omega arith) _ (outcomes-min_length b l)) _
      (outcomes-min_length a k))
outcomes-min_length (alt a b) k =
    All-append _ _ _ (All-mono (λ l p. omega arith) _ (outcomes-min_length a k))
      (All-mono (λ l p. omega arith) _ (outcomes-min_length b k))
outcomes-min_length (star greedy r) k =
    All-mono (λ l p. omega arith) _ (repeat-AtMost greedy (outcomes r) (length k.rest) k)
outcomes-min_length (group n r) k = All-map _ (close n k) (outcomes r k) (outcomes-min_length r k)
outcomes-min_length (ahead r) k = All-peek _ k (outcomes r k) (λ gs. omega arith)
outcomes-min_length (ahead_not r) k = All-deny _ k (outcomes r k) (omega arith)
outcomes-min_length (same n) k =
    All-recall _ k (lookup n k.groups) (λ b m. omega (arith, length-drop m k.rest))
outcomes-min_length (assertion p) k = elim (Bool-cases (p k.before k.rest)) [
  | inl e ↦ rw e (omega arith, tt)
  | inr e ↦ rw e tt
]

All-shorter :
    (P : Cursor → Type 0) (k : Cursor) (ls : List Cursor) → All P ls → All P (shorter k ls)
All-shorter P k [] h = tt
All-shorter P k (l ∷ ls) h = elim (Bool-cases (ltb (length l.rest) (length k.rest))) [
  | inl e ↦ rw e (h.0, All-shorter P k ls h.1)
  | inr e ↦ rw e (All-shorter P k ls h.1)
]

-- What the body of a repetition keeps, the repetition keeps.
pub repeat_inv :
    (P : Cursor → Type 0) (greedy : Bool) (body : Cursor → List Cursor)
    → ((k : Cursor) → P k → All P (body k))
    → (n : ℕ) (k : Cursor) → P k
    → All P (repeat greedy body n k)
unfolding repeat
repeat_inv P greedy body keep zero k h = (h, tt)
repeat_inv P greedy body keep (suc n) k h = All-both greedy P k _ h (
    All-flat_map P (repeat greedy body n) (shorter k (body k)) (
      All-mono (λ l p. repeat_inv P greedy body keep n l p) _
        (All-shorter P k (body k) (keep k h))))

-- Whether group `n` occurs in an expression.
abbrev pub mentions : ℕ → Re → Bool
mentions n (seq a b) = mentions n a || mentions n b
mentions n (alt a b) = mentions n a || mentions n b
mentions n (star g r) = mentions n r
mentions n (group i r) = i == n || mentions n r
mentions n (ahead r) = mentions n r
mentions n _ = false

abbrev HasGroup : ℕ → Option Text → Cursor → Type 0
HasGroup n o k = lookup n k.groups ≡ o

||-eq-false : (a b : Bool) → a || b ≡ false → (a ≡ false) × (b ≡ false)
||-eq-false a b h = ground arith

advance-HasGroup :
    (n : ℕ) (o : Option Text) (p : ℕ → Bool) (k : Cursor) (s : Text)
    → HasGroup n o k
    → All (HasGroup n o) (advance p k s)
advance-HasGroup n o p k [] h = tt
advance-HasGroup n o p k (c ∷ s) h = elim (Bool-cases (p c)) [
  | inl e ↦ rw e (h, tt)
  | inr e ↦ rw e tt
]

peek-HasGroup :
    (n : ℕ) (o : Option Text) (k : Cursor) (ls : List Cursor)
    → All (HasGroup n o) ls
    → All (HasGroup n o) (peek k ls)
peek-HasGroup n o k [] h = tt
peek-HasGroup n o k (l ∷ ls) h = (h.0, tt)

close-HasGroup :
    (n i : ℕ) (o : Option Text) (k l : Cursor)
    → (i == n) ≡ false
    → HasGroup n o l
    → HasGroup n o (close i k l)
close-HasGroup n i o k l e h = rw e h

-- An expression without group `n` leaves what that group holds.
outcomes-HasGroup :
    (n : ℕ) (o : Option Text) (r : Re) (k : Cursor)
    → mentions n r ≡ false
    → HasGroup n o k
    → All (HasGroup n o) (outcomes r k)
unfolding outcomes
outcomes-HasGroup n o eps k e h = (h, tt)
outcomes-HasGroup n o (set p) k e h = advance-HasGroup n o p k k.rest h
outcomes-HasGroup n o (seq a b) k e h =
    let (ea, eb) = ||-eq-false (mentions n a) (mentions n b) e in
    All-flat_map _ (outcomes b) (outcomes a k)
      (All-mono (λ l p. outcomes-HasGroup n o b l eb p) _ (outcomes-HasGroup n o a k ea h))
outcomes-HasGroup n o (alt a b) k e h =
    let (ea, eb) = ||-eq-false (mentions n a) (mentions n b) e in
    All-append _ _ _ (outcomes-HasGroup n o a k ea h) (outcomes-HasGroup n o b k eb h)
outcomes-HasGroup n o (star greedy r) k e h =
    repeat_inv (HasGroup n o) greedy (outcomes r) (λ l p. outcomes-HasGroup n o r l e p)
      (length k.rest) k h
outcomes-HasGroup n o (group i r) k e h =
    let (ei, er) = ||-eq-false (i == n) (mentions n r) e in
    All-map _ (close i k) (outcomes r k)
      (All-mono (λ l p. close-HasGroup n i o k l ei p) _ (outcomes-HasGroup n o r k er h))
outcomes-HasGroup n o (ahead r) k e h =
    peek-HasGroup n o k (outcomes r k) (outcomes-HasGroup n o r k e h)
outcomes-HasGroup n o (ahead_not r) k e h = All-deny (HasGroup n o) k (outcomes r k) h
outcomes-HasGroup n o (same i) k e h = All-recall (HasGroup n o) k (lookup i k.groups) (λ b m. h)
outcomes-HasGroup n o (assertion p) k e h = elim (Bool-cases (p k.before k.rest)) [
  | inl t ↦ rw t (h, tt)
  | inr t ↦ rw t tt
]

-- The text of group `n`, and what is left, have at most `b` characters.
abbrev pub Fits : ℕ → ℕ → Cursor → Type 0
Fits n b k = (length k.rest ≤ b) × (length (or_empty (lookup n k.groups)) ≤ b)

advance-Fits :
    (n b : ℕ) (p : ℕ → Bool) (k : Cursor) (s : Text)
    → length s ≤ b
    → Fits n b k
    → All (Fits n b) (advance p k s)
advance-Fits n b p k [] m h = tt
advance-Fits n b p k (c ∷ s) m h = elim (Bool-cases (p c)) [
  | inl e ↦ rw e ((omega arith, h.1), tt)
  | inr e ↦ rw e tt
]

peek-Fits :
    (n b : ℕ) (k : Cursor) (ls : List Cursor)
    → Fits n b k
    → All (Fits n b) ls
    → All (Fits n b) (peek k ls)
peek-Fits n b k [] m h = tt
peek-Fits n b k (l ∷ ls) m h = ((m.0, h.0.1), tt)

close-Fits : (n i b : ℕ) (k l : Cursor) → Fits n b k → Fits n b l → Fits n b (close i k l)
close-Fits n i b k l m h = elim (Bool-cases (i == n)) [
  | inl e ↦ rw e (h.0, omega (arith, length-take {0} (length k.rest - length l.rest) k.rest))
  | inr e ↦ rw e h
]

outcomes-Fits : (n b : ℕ) (r : Re) (k : Cursor) → Fits n b k → All (Fits n b) (outcomes r k)
unfolding outcomes
outcomes-Fits n b eps k h = (h, tt)
outcomes-Fits n b (set p) k h = advance-Fits n b p k k.rest h.0 h
outcomes-Fits n b (seq x y) k h =
    All-flat_map _ (outcomes y) (outcomes x k)
      (All-mono (λ l p. outcomes-Fits n b y l p) _ (outcomes-Fits n b x k h))
outcomes-Fits n b (alt x y) k h =
    All-append _ _ _ (outcomes-Fits n b x k h) (outcomes-Fits n b y k h)
outcomes-Fits n b (star greedy r) k h =
    repeat_inv (Fits n b) greedy (outcomes r) (λ l p. outcomes-Fits n b r l p) (length k.rest) k h
outcomes-Fits n b (group i r) k h =
    All-map _ (close i k) (outcomes r k)
      (All-mono (λ l p. close-Fits n i b k l h p) _ (outcomes-Fits n b r k h))
outcomes-Fits n b (ahead r) k h = peek-Fits n b k (outcomes r k) h (outcomes-Fits n b r k h)
outcomes-Fits n b (ahead_not r) k h = All-deny (Fits n b) k (outcomes r k) h
outcomes-Fits n b (same i) k h =
    All-recall (Fits n b) k (lookup i k.groups)
      (λ c m. (omega (arith, length-drop m k.rest, h.0), h.1))
outcomes-Fits n b (assertion p) k h = elim (Bool-cases (p k.before k.rest)) [
  | inl t ↦ rw t (h, tt)
  | inr t ↦ rw t tt
]

-- Group `n` is opened only after something has been consumed.
abbrev pub late : ℕ → Re → Bool
late n (seq a b) = not (mentions n a) && (ltb 0 (min_length a) || late n b)
late n _ = false

not-eq-true : (b : Bool) → not b ≡ true → b ≡ false
not-eq-true b h = ground arith

abbrev ShorterGroup : ℕ → Cursor → Cursor → Type 0
ShorterGroup n k l = length (or_empty (lookup n l.groups)) + 1 ≤ length k.rest

All-both-of :
    {P Q R : Cursor → Type 0}
    → ((l : Cursor) → P l → Q l → R l)
    → (ls : List Cursor) → All P ls
    → All Q ls
    → All R ls
All-both-of f [] p q = tt
All-both-of f (l ∷ ls) p q = (f l p.0 q.0, All-both-of f ls p.1 q.1)

consumed : (m a b : ℕ) → ltb 0 m ≡ true → a + m ≤ b → a + 1 ≤ b
consumed m a b h k = ground arith

opened_late :
    (n : ℕ) (r : Re) (k l : Cursor)
    → length l.rest + 1 ≤ length k.rest
    → HasGroup n none l
    → All (ShorterGroup n k) (outcomes r l)
opened_late n r k l p q =
    All-mono (λ j w. omega (arith, w.1)) _
      (outcomes-Fits n (length k.rest - 1) r l (omega arith, rw q (omega arith)))

late-outcomes :
    (n : ℕ) (r : Re) (k : Cursor)
    → late n r ≡ true
    → HasGroup n none k
    → All (ShorterGroup n k) (outcomes r k)
unfolding outcomes
late-outcomes n (seq a b) k e h =
    let (free, rest) = &&-eq-true (not (mentions n a)) _ e in
    let kept = outcomes-HasGroup n none a k (not-eq-true _ free) h in
    All-flat_map _ (outcomes b) (outcomes a k) (elim (Bool-cases (ltb 0 (min_length a))) [
      | inl some_read ↦
          All-both-of (λ l p q. opened_late n b k l (consumed _ _ _ some_read p) q) _
            (outcomes-min_length a k) kept
      | inr unread ↦
          All-both-of
            (λ l p q. All-mono (λ j w. omega arith) _ (late-outcomes n b l (rw unread at rest) q)) _
            (outcomes-min_length a k) kept
    ])
late-outcomes n eps k e h = cc
late-outcomes n _ k e h = cc

to_found-eq-some :
    (i : ℕ) (k : Cursor) (ls : List Cursor) {m : Found} (P : Cursor → Type 0)
    → to_found i k ls ≡ some m
    → All P ls
    → (l : Cursor) × (m
        ≡ (record { start = i; matched = between k l; after = l.rest; groups = l.groups }))
      × P l
to_found-eq-some i k [] P e h = cc
to_found-eq-some i k (l ∷ ls) P e h = (l, cc, h.0)

-- The text of such a group is shorter than the string.
pub late-group_text :
    (n : ℕ) (r : Re) (s : Text) {m : Found}
    → late n r ≡ true
    → match r s ≡ some m
    → length (group_text n m) + 1 ≤ length s
unfolding match group_text
late-group_text n r s l e =
    let (k, p, h) =
      to_found-eq-some 0 (at_cursor none s) _ (ShorterGroup n (at_cursor none s)) e
        (late-outcomes n r (at_cursor none s) l refl) in
    rw p h
