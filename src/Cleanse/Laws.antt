-- ===== src/Cleanse/Laws.antt =====
-- Raw strings over several lines.
use moohoorama.Base.{ℕ, ◌≡◌, refl, ap, ◌++◌, none, some, List, [], ◌∷◌, length, drop, All, ◌+◌}
use moohoorama.Text.{Text, codes, find}
use moohoorama.Regex.{match, Found, group_text}
use moohoorama.Cleanse.RawStrings.{
  cleanse_line, cleanse_raw_from, cleanse_raw_strings, leading_space, leading_space_pattern,
  raw_string_pattern, delimiter_of,
}

-- The lines of a raw string that a line opens: `body` without the delimiter, and `final` with it.
abbrev pub blanks : List Text → List Text
blanks [] = []
blanks (l ∷ ls) = [] ∷ blanks ls

inside_raw :
    (d : Text) (body : List Text) (final : Text) (rest : List Text) (i : ℕ)
    → All (λ l. find l d ≡ none) body
    → find final d ≡ some i
    → cleanse_raw_from (some d) (body ++ (final ∷ rest))
      ≡ blanks body
        ++ ((leading_space (match leading_space_pattern final)
              ++ (codes "\"\"" ++ drop (i + length d) final))
            ∷ cleanse_raw_from none rest)
unfolding cleanse_raw_from cleanse_line
inside_raw d [] final rest i h e = rw e
inside_raw d (l ∷ body) final rest i h e =
    rw h.0 (ap (◌∷◌ []) (inside_raw d body final rest i h.1 e))

-- A raw string over several lines: the line that opens it keeps what stands before it, followed by
-- an empty string; the lines inside become blank; the line with the delimiter becomes its leading
-- space, an empty string, and what stands behind the delimiter. The lines behind are cleansed as if
-- they stood alone.
pub cleanse_raw_strings-multi_line :
    (opener final : Text) (body rest : List Text) (m : Found) (i : ℕ)
    → match raw_string_pattern opener ≡ some m
    → find (group_text 3 m) (delimiter_of m) ≡ none
    → All (λ l. find l (delimiter_of m) ≡ none) body
    → find final (delimiter_of m) ≡ some i
    → cleanse_raw_strings (opener ∷ (body ++ (final ∷ rest)))
      ≡ (group_text 1 m ++ codes "\"\"")
        ∷ (blanks body
            ++ ((leading_space (match leading_space_pattern final)
                  ++ (codes "\"\"" ++ drop (i + length (delimiter_of m)) final))
                ∷ cleanse_raw_strings rest))
unfolding cleanse_raw_strings
cleanse_raw_strings-multi_line opener final body rest m i found opened inside closed =
    rw (found, opened)
      (ap (◌∷◌ (group_text 1 m ++ codes "\"\""))
        (inside_raw (delimiter_of m) body final rest i inside closed))

-- Lines in which no raw string begins stay as they are.
pub cleanse_raw_strings-none :
    (lines : List Text)
    → All (λ l. match raw_string_pattern l ≡ none) lines
    → cleanse_raw_strings lines ≡ lines
unfolding cleanse_raw_strings
cleanse_raw_strings-none [] h = refl
cleanse_raw_strings-none (l ∷ ls) h = rw h.0 (ap (◌∷◌ l) (cleanse_raw_strings-none ls h.1))
