-- ===== src/Includes/Order.antt =====
-- The order of includes that `CheckNextIncludeOrder` accepts, and what it does to its state.
use moohoorama.Base.{
  ℕ, ◌≤◌, Bool, true, false, ◌&&◌, ◌≡◌, ◌≢◌, refl, sym, ==_iff, Option, none, some, Option-cases,
  inl, inr, List, [], ◌∷◌, arith, leb, ◌==◌, if◌then◌else◌, subst,
}
use moohoorama.Text.{Text}
use moohoorama.Includes.State.{
  HeaderType, c_sys, cpp_sys, likely_my, possible_my, other, Section, initial, rank, IncludeState,
  init, next_section, check_next_include_order, refuse, enter, checked,
}

-- What a call does to the state.
pub record Ordered (t : HeaderType) (s : IncludeState) (r : IncludeState × Text) : Type 0 where
  pub monotone : rank s.section ≤ rank r.0.section
  pub dictionary : r.0.included ≡ s.included
  pub refused : r.1 ≢ [] → (rank r.0.section ≡ rank s.section) × (r.0.last_header ≡ [])
  pub same_section : r.1 ≡ [] → rank r.0.section ≡ rank s.section → r.0.last_header ≡ s.last_header
  pub new_section : rank r.0.section ≢ rank s.section → r.0.last_header ≡ []

-- One call, by the section that it leads to.
refused_lem :
    (t : HeaderType) (s : IncludeState)
    → next_section t s.section ≡ none
    → check_next_include_order t s ≡ refuse t s
unfolding check_next_include_order
refused_lem t s e = rw (e, checked)

accepted_lem :
    (t : HeaderType) (s : IncludeState) {new : Section}
    → next_section t s.section ≡ some new
    → check_next_include_order t s ≡ (enter new s, [])
unfolding check_next_include_order
accepted_lem t s e = rw (e, checked)

abbrev pub is_empty : Text → Bool
is_empty [] = true
is_empty (c ∷ t) = false

-- A run over the headers of a file: whether none is refused.
pub accepts : IncludeState → List HeaderType → Bool
accepts s [] = true
accepts s (t ∷ ts) = let r = check_next_include_order t s in is_empty r.1 && accepts r.0 ts

-- The place of a header in the order 1) its own header, 2) C system headers, 3) C++ system headers,
-- 4) other headers. A header that may be the file's own counts as such only in front of all others.
abbrev pub place : Bool → HeaderType → ℕ
place in_front c_sys = 2
place in_front cpp_sys = 3
place in_front likely_my = if in_front then 1 else 4
place in_front possible_my = if in_front then 1 else 4
place in_front other = 4

pub places : Bool → List HeaderType → List ℕ
places in_front [] = []
places in_front (t ∷ ts) = place in_front t ∷ places (in_front && place in_front t == 1) ts

pub ascending : ℕ → List ℕ → Bool
ascending n [] = true
ascending n (m ∷ ms) = leb n m && ascending m ms

-- The section that a header leads to has the header's place; a header is refused exactly if its
-- place is before the section.
abbrev Placed : HeaderType → Section → Option Section → Type 0
Placed t a none = leb (rank a) (place (leb (rank a) 1) t) ≡ false
Placed t a (some new) =
    (rank new ≡ place (leb (rank a) 1) t)
    × (leb (rank a) (place (leb (rank a) 1) t) ≡ true)
    × (leb (rank new) 1 ≡ (leb (rank a) 1 && place (leb (rank a) 1) t == 1))

next_section-Placed : (t : HeaderType) (a : Section) → Placed t a (next_section t a)
unfolding next_section
next_section-Placed c_sys initial = (refl, refl, refl)
next_section-Placed _ _ = ground arith

next_section-le :
    (t : HeaderType) (a : Section) {new : Section} → next_section t a ≡ some new → rank a ≤ rank new
next_section-le t a {new} e =
    let (p, q, r) = subst (Placed t a) e (next_section-Placed t a) in ground arith

-- A call never moves the section back and leaves the dictionary alone. A refused header leaves the
-- section and forgets the last header. An accepted header keeps the last header if it stays in the
-- section, and forgets it if it enters another one.
pub check_next_include_order-Ordered :
    (t : HeaderType) (s : IncludeState) → Ordered t s (check_next_include_order t s)
check_next_include_order-Ordered t s = elim (Option-cases (next_section t s.section)) [
  | inl e ↦ rw (refused_lem t s e) (record {
    monotone = omega arith;
    dictionary = refl;
    refused = λ h. (refl, refl);
    same_section = λ h k. cc;
    new_section = λ h. refl;
  })
  | inr (new, e) ↦ rw (accepted_lem t s e) (record {
    monotone = next_section-le t s.section e;
    dictionary = refl;
    refused = λ h. absurd (h refl);
    same_section = λ h k. rw ((==_iff _ _).1 (sym k));
    new_section = λ h. ground arith;
  })
]

refuse-is_empty : (t : HeaderType) (s : IncludeState) → is_empty (refuse t s).1 ≡ false
refuse-is_empty t s = refl

-- The headers of a file are all accepted exactly if their places ascend.
accepts_from :
    (ts : List HeaderType) (s : IncludeState)
    → accepts s ts ≡ ascending (rank s.section) (places (leb (rank s.section) 1) ts)
unfolding accepts places ascending
accepts_from [] s = refl
accepts_from (t ∷ ts) s = elim (Option-cases (next_section t s.section)) [
  | inl e ↦
      let late = subst (Placed t s.section) e (next_section-Placed t s.section) in
      rw (refused_lem t s e, late)
  | inr (new, e) ↦
      let (p, q, r) = subst (Placed t s.section) e (next_section-Placed t s.section) in
      rw (accepted_lem t s e, q, ← r, ← p) (accepts_from ts (enter new s))
]

-- From the start of a file, no header is refused exactly if the places of the headers ascend: 1) its
-- own header, 2) C system headers, 3) C++ system headers, 4) all others. Behind the first header of
-- another kind, its own header counts as one of the others, so it may stand behind them.
pub accepts-ascending : (ts : List HeaderType) → accepts init ts ≡ ascending 0 (places true ts)
unfolding init
accepts-ascending ts = accepts_from ts init
