-- ===== src/FileInfo/Laws.antt =====
-- The directory that `RepositoryName` cuts off.
use Prim.Native.Nat.add
use moohoorama.Base.{
  ℕ, zero, suc, ◌+◌, ◌<◌, true, false, ◌≡◌, refl, sym, ap, ◌∙◌, ◌⊎◌, inl, inr, none, some, [], ◌∷◌,
  ◌++◌, drop, length, length-append, arith, Bool-cases, true-ne-false,
}
use moohoorama.Text.{Text, codes, eq}
use moohoorama.Text.Laws.{eq_iff}
use moohoorama.FilePath.{all_slashes, dirname, common_prefix}
use moohoorama.FilePath.Laws.{IsAbove, IsAbove-trans, dirname-IsAbove, dirname-le, dirname-eq}
use moohoorama.FileInfo.{FileSystem, holds, svn_root, has_marker, marked_root, below, repository_of}
use native.Mathlib.Decide.{dec_lt}

dirname-lt : (d : Text) → eq d (dirname d) ≡ false → length (dirname d) < length d
dirname-lt d h = elim (dec_lt (length (dirname d)) (length d)) [
  | yes l ↦ l
  | no l ↦
      absurd (true-ne-false (sym ((eq_iff d (dirname d)).1 (sym (dirname-eq d (omega arith)))) ∙ h))
]

-- A directory that is not made of slashes is longer than its own directory.
dirname-lt_of_name : (d : Text) → all_slashes d ≡ false → length (dirname d) < length d
dirname-lt_of_name d h = elim (dec_lt (length (dirname d)) (length d)) [
  | yes l ↦ l
  | no l ↦
      let same = dirname-eq d (omega arith) in
      let a = dirname-IsAbove d in
      let (t, q) = a.slash (rw same h) in
      omega (
        arith,
        ap (λ (l : Text). length l) (a.split ∙ ap (λ (l : Text). dirname d ++ l) q),
        length-append {0} (dirname d) (b'/' ∷ t),
      )
]

-- A directory, or one above it.
abbrev pub Over : Text → Text → Type 0
Over r d = (r ≡ d) ⊎ IsAbove r d

Over-dirname : (r d : Text) → Over r (dirname d) → Over r d
Over-dirname r d (inl e) = inr (rw e (dirname-IsAbove d))
Over-dirname r d (inr a) = inr (IsAbove-trans a (dirname-IsAbove d))

Over-IsAbove : {r d p : Text} → Over r d → IsAbove d p → IsAbove r p
Over-IsAbove (inl e) a = rw e a
Over-IsAbove (inr b) a = IsAbove-trans b a

common_prefix-append : (a b : Text) → common_prefix a (a ++ b) ≡ a
unfolding common_prefix
common_prefix-append [] b = refl
common_prefix-append (x ∷ a) b = ground (arith, common_prefix-append a b)

common_prefix_self : (a : Text) → common_prefix a a ≡ a
unfolding common_prefix
common_prefix_self [] = refl
common_prefix_self (x ∷ a) = ground (arith, common_prefix_self a)

common_prefix-Over : (r d : Text) → Over r d → common_prefix r d ≡ r
common_prefix-Over r d (inl e) = rw e (common_prefix_self d)
common_prefix-Over r d (inr a) = rw a.split (common_prefix-append r a.rest)

-- The directory `k` levels above.
abbrev pub levels_up : ℕ → Text → Text
levels_up zero d = d
levels_up (suc k) d = levels_up k (dirname d)

module _ (fs : FileSystem) where
  -- The way up to the nearest directory that holds .git, .hg or .svn, or to one that has none above.
  pub data Climb : Text → Text → Type 0 where
    stop : {d : Text} → (has_marker fs d ≡ true) ⊎ (d ≡ dirname d) → Climb d d
    up : {d r : Text} → has_marker fs d ≡ false → Climb (dirname d) r → Climb d r

  Climb-Over : {d r : Text} → Climb d r → Over r d
  Climb-Over (stop h) = inl refl
  Climb-Over (up {d} {r} h c) = Over-dirname r d (Climb-Over c)

  marked_root-Climb :
      (fuel : ℕ) (d : Text)
      → length d < fuel
      → (r : Text) × (marked_root fuel fs d ≡ some r) × Climb d r
  unfolding marked_root
  marked_root-Climb zero d h = absurd (omega arith)
  marked_root-Climb (suc fuel) d h = elim (Bool-cases (eq d (dirname d))) [
    | inl e ↦ (d, rw e refl, stop (inr ((eq_iff d (dirname d)).0 e)))
    | inr e ↦ elim (Bool-cases (has_marker fs d)) [
      | inl m ↦ (d, rw (e, m) refl, stop (inl m))
      | inr m ↦
          let (r, q, c) = marked_root-Climb fuel (dirname d) (omega (arith, dirname-lt d e)) in
          (r, rw (e, m) q, up m c)
    ]
  ]

  -- The way up through directories that hold .svn, each in the next, to the first whose own
  -- directory holds none.
  pub data Chain : Text → Text → Type 0 where
    top : {d : Text} → holds fs (codes ".svn") (dirname d) ≡ false → Chain d d
    within :
        {d r : Text} → holds fs (codes ".svn") (dirname d) ≡ true → Chain (dirname d) r → Chain d r

  Chain-Over : {d r : Text} → Chain d r → Over r d
  Chain-Over (top h) = inl refl
  Chain-Over (within {d} {r} h c) = Over-dirname r d (Chain-Over c)

  -- No directory that is made of slashes holds .svn, of those above `d`.
  abbrev pub EndsBelowRoot : Text → Type 0
  EndsBelowRoot d =
      (k : ℕ) → all_slashes (levels_up k d) ≡ true → holds fs (codes ".svn") (levels_up k d) ≡ false

  svn_root-Chain :
      (fuel : ℕ) (d : Text)
      → length (dirname d) < fuel
      → EndsBelowRoot (dirname d)
      → (r : Text) × (svn_root fuel fs d (dirname d) ≡ some r) × Chain d r
  unfolding svn_root
  svn_root-Chain zero d h ends = absurd (omega arith)
  svn_root-Chain (suc fuel) d h ends = elim (Bool-cases (holds fs (codes ".svn") (dirname d))) [
    | inr e ↦ (d, rw e refl, top e)
    | inl e ↦ elim (Bool-cases (all_slashes (dirname d))) [
      | inl k ↦ absurd (true-ne-false (sym e ∙ ends 0 k))
      | inr k ↦
          let (r, q, c) =
            svn_root-Chain fuel (dirname d) (omega (arith, dirname-lt_of_name (dirname d) k))
              (λ n. ends (suc n)) in
          (r, rw e q, within e c)
    ]
  ]

drop_behind : (r : Text) (c : ℕ) (t : Text) → drop (length r + 1) (r ++ (c ∷ t)) ≡ t
drop_behind [] c t = refl
drop_behind (x ∷ r) c t = rw add.suc (drop_behind r c t)

below_lem :
    (full r : Text)
    → Over r (dirname full)
    → (below full r ≡ drop (length r + 1) full)
      × (all_slashes r ≡ false → full ≡ r ++ (b'/' ∷ drop (length r + 1) full))
unfolding below
below_lem full r o =
    let a = Over-IsAbove o (dirname-IsAbove full) in
    (
      rw (common_prefix-Over r (dirname full) o) refl,
      λ h.
          let (t, q) = a.slash h in
          let whole : full ≡ r ++ (b'/' ∷ t) = a.split ∙ ap (λ (l : Text). r ++ l) q in
          whole
          ∙ ap (λ (l : Text). r ++ (b'/' ∷ l))
              (sym (ap (drop (length r + 1)) whole ∙ drop_behind r b'/' t)),
    )

module _ (fs : FileSystem) (full : Text) where
  -- The directory that a name is relative to, of a file that exists.
  abbrev pub IsRoot : Text → Type 0
  IsRoot r =
      ((holds fs (codes ".svn") (dirname full) ≡ true) × Chain fs (dirname full) r)
      ⊎ ((holds fs (codes ".svn") (dirname full) ≡ false)
          × Climb fs (dirname full) r
          × (has_marker fs r ≡ true))

  IsRoot-Over : (r : Text) → IsRoot r → Over r (dirname full)
  IsRoot-Over r (inl (s, c)) = Chain-Over fs c
  IsRoot-Over r (inr (s, c, m)) = Climb-Over fs c

  -- A name relative to such a directory, or the full name of a file that has none or does not exist.
  abbrev pub Located : Text → Type 0
  Located name =
      ((fs.exists full ≡ true)
        × (r : Text) × IsRoot r
        × (name ≡ drop (length r + 1) full)
        × (all_slashes r ≡ false → full ≡ r ++ (b'/' ∷ name)))
      ⊎ ((name ≡ full)
          × ((fs.exists full ≡ false)
              ⊎ ((holds fs (codes ".svn") (dirname full) ≡ false)
                  × ((r : Text) × Climb fs (dirname full) r × (has_marker fs r ≡ false)))))

  relative : fs.exists full ≡ true → (r : Text) → IsRoot r → Located (below full r)
  relative x r i = let (e, w) = below_lem full r (IsRoot-Over r i) in inl (x, r, i, e, rw e w)

  dirname-fuel : length (dirname full) < suc (length full)
  dirname-fuel = omega (arith, dirname-le full)

  -- If no directory made of slashes, of those two levels or more above the file, holds .svn,
  -- `RepositoryName` ends. For a file that exists it cuts off a directory: if the file's own directory
  -- holds .svn, the first one from there upwards, through directories that all hold .svn, whose own
  -- directory holds none; otherwise the nearest directory that holds .git, .hg or .svn. The rest
  -- starts behind the slash, unless that directory is made of slashes. Otherwise it returns the full
  -- name, and then the file does not exist or there is no such directory.
  pub repository_of-Located :
      EndsBelowRoot fs (dirname (dirname full))
      → (name : Text) × (repository_of fs full ≡ some name) × Located name
  unfolding repository_of
  repository_of-Located ends = elim (Bool-cases (fs.exists full)) [
    | inr x ↦ (full, rw x refl, inr (refl, inl x))
    | inl x ↦ elim (Bool-cases (holds fs (codes ".svn") (dirname full))) [
      | inl s ↦
          let (r, q, t) =
            svn_root-Chain fs (suc (length full)) (dirname full)
              (omega (arith, dirname-le full, dirname-le (dirname full))) ends in
          (below full r, rw (x, s, q) refl, relative x r (inl (s, t)))
      | inr s ↦
          let (r, q, c) = marked_root-Climb fs (suc (length full)) (dirname full) dirname-fuel in
          elim (Bool-cases (has_marker fs r)) [
            | inl m ↦ (below full r, rw (x, s, q, m) refl, relative x r (inr (s, c, m)))
            | inr m ↦ (full, rw (x, s, q, m) refl, inr (refl, inr (s, (r, c, m))))
          ]
    ]
  ]

module _ (fs : FileSystem) where
  -- If all directories from `one_up_dir` upwards hold .svn, the loop for SVN never ends.
  pub svn_root_never :
      (fuel : ℕ) (root_dir one_up_dir : Text)
      → ((k : ℕ) → holds fs (codes ".svn") (levels_up k one_up_dir) ≡ true)
      → svn_root fuel fs root_dir one_up_dir ≡ none
  unfolding svn_root
  svn_root_never zero root_dir one_up_dir h = refl
  svn_root_never (suc fuel) root_dir one_up_dir h =
      rw (h 0) (svn_root_never fuel (dirname root_dir) (dirname one_up_dir) (λ k. h (suc k)))
