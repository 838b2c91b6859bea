-- ===== src/CommandLine/Laws.antt =====
-- Arguments that are accepted leave a valid state.
use moohoorama.Base.{
  ℕ, Bool, true, false, not, ◌≡◌, ◌≢◌, refl, ◌⊎◌, inl, inr, Bool-cases, Option, none, some,
  Option-cases, List, [], ◌∷◌, if◌then◌else◌,
}
use moohoorama.Text.{Text, contains, split_at}
use moohoorama.Lint.State.{LintState, set_output_format, set_verbose_level, set_filters}
use moohoorama.Lint.Filters.{AllSigned, set_filters-AllSigned}
use moohoorama.CommandLine.{
  Exit, Options, Step, go_on, leave, output_formats, counting_styles, with_verbosity,
  with_line_length, with_filters, take_option, resume, take_options, initial_options, Parsed, exits,
  runs, set_options, after_loop, parse_arguments,
}

-- A known output format, and a known counting style or none.
pub record IsValid (format style : Text) : Type 0 where
  pub formatted : contains output_formats format ≡ true
  pub counted : (style ≡ []) ⊎ (contains counting_styles style ≡ true)

HoldsNext : Step → Type 0
HoldsNext (go_on o) = IsValid o.output_format o.counting_style
HoldsNext (leave e) = Unit

leave-HoldsNext : (e : Exit) → HoldsNext (leave e)
unfolding HoldsNext
leave-HoldsNext e = tt

go_on-HoldsNext : (o : Options) → IsValid o.output_format o.counting_style → HoldsNext (go_on o)
unfolding HoldsNext
go_on-HoldsNext o h = h

take_format :
    (o : Options) (val : Text) (e : Exit)
    → IsValid o.output_format o.counting_style
    → HoldsNext (
        if not (contains output_formats val)
        then leave e
        else go_on (record o { output_format = val }))
unfolding HoldsNext
take_format o val e h = elim (Bool-cases (contains output_formats val)) [
  | inl q ↦ rw q (record { formatted = q; counted = h.counted })
  | inr q ↦ rw q tt
]

take_style :
    (o : Options) (val : Text) (e : Exit)
    → IsValid o.output_format o.counting_style
    → HoldsNext (
        if not (contains counting_styles val)
        then leave e
        else go_on (record o { counting_style = val }))
unfolding HoldsNext
take_style o val e h = elim (Bool-cases (contains counting_styles val)) [
  | inl q ↦ rw q (record { formatted = h.formatted; counted = inr q })
  | inr q ↦ rw q tt
]

verbosity-HoldsNext :
    (o : Options) (n : Option ℕ)
    → IsValid o.output_format o.counting_style
    → HoldsNext (with_verbosity o n)
unfolding HoldsNext
verbosity-HoldsNext o none h = tt
verbosity-HoldsNext o (some n) h = h

line_length-HoldsNext :
    (o : Options) (n : Option ℕ)
    → IsValid o.output_format o.counting_style
    → HoldsNext (with_line_length o n)
unfolding HoldsNext
line_length-HoldsNext o none h = tt
line_length-HoldsNext o (some n) h = h

filters-HoldsNext :
    (o : Options) (val : Text)
    → IsValid o.output_format o.counting_style
    → HoldsNext (with_filters o val)
unfolding HoldsNext
filters-HoldsNext o [] h = tt
filters-HoldsNext o (c ∷ val) h = h

HoldsNext-if : (b : Bool) (s t : Step) → HoldsNext s → HoldsNext t → HoldsNext (if b then s else t)
HoldsNext-if true s t h k = h
HoldsNext-if false s t h k = k

take_option-HoldsNext :
    (int : Text → Option ℕ) (o : Options) (opt val : Text)
    → IsValid o.output_format o.counting_style
    → HoldsNext (take_option int o opt val)
unfolding take_option
take_option-HoldsNext int o opt val h = HoldsNext-if _ _ _ (leave-HoldsNext _) (
    HoldsNext-if _ _ _ (take_format o val _ h) (
      HoldsNext-if _ _ _ (verbosity-HoldsNext o (int val) h) (
        HoldsNext-if _ _ _ (filters-HoldsNext o val h) (
          HoldsNext-if _ _ _ (take_style o val _ h) (
            HoldsNext-if _ _ _ (go_on-HoldsNext (record o { root = some val }) h) (
              HoldsNext-if _ _ _ (line_length-HoldsNext o (int val) h) (
                HoldsNext-if _ _ _
                  (go_on-HoldsNext (record o { valid_extensions = split_at b',' val }) h)
                  (go_on-HoldsNext o h))))))))

resume-HoldsNext :
    (f : Options → Step) (s : Step)
    → HoldsNext s
    → ((o : Options) → IsValid o.output_format o.counting_style → HoldsNext (f o))
    → HoldsNext (resume f s)
unfolding HoldsNext
resume-HoldsNext f (go_on o) h k = k o h
resume-HoldsNext f (leave e) h k = tt

take_options-HoldsNext :
    (int : Text → Option ℕ) (opts : List (Text × Text)) (o : Options)
    → IsValid o.output_format o.counting_style
    → HoldsNext (take_options int opts o)
unfolding take_options
take_options-HoldsNext int [] o h = go_on-HoldsNext o h
take_options-HoldsNext int ((opt, val) ∷ opts) o h =
    resume-HoldsNext (take_options int opts) (take_option int o opt val)
      (take_option-HoldsNext int o opt val h) (λ p k. take_options-HoldsNext int opts p k)

-- An early end, or files to check, with a state that is valid and whose filters have signs.
abbrev pub IsParsed : Parsed → Type 0
IsParsed (exits e) = Unit
IsParsed (runs o s filenames) =
    (filenames ≢ [])
    × IsValid s.output_format s.counting
    × AllSigned s.filters
    × (s.verbose_level ≡ o.verbosity)

cons-ne-nil : (f : Text) (fs : List Text) → f ∷ fs ≢ []
cons-ne-nil f fs h = cc

set_options-IsParsed :
    (o : Options) (s : LintState) (filenames : List Text)
    → IsValid o.output_format o.counting_style
    → IsParsed (set_options o s filenames)
unfolding set_options set_filters
set_options-IsParsed o s [] h = tt
set_options-IsParsed o s (f ∷ fs) h =
    let start = (set_verbose_level o.verbosity (set_output_format o.output_format s)).0 in
    elim (Option-cases (set_filters o.filters start).1) [
      | inr (x, e) ↦ rw e tt
      | inl e ↦ rw e (
        cons-ne-nil f fs,
        record { formatted = h.formatted; counted = h.counted },
        set_filters-AllSigned o.filters start e,
        refl,
      )
    ]

after_loop-IsParsed :
    (s : LintState) (filenames : List Text) (r : Step)
    → HoldsNext r
    → IsParsed (after_loop s filenames r)
unfolding HoldsNext
after_loop-IsParsed s filenames (leave e) h = tt
after_loop-IsParsed s filenames (go_on o) h = set_options-IsParsed o s filenames h

-- If `ParseArguments` returns, there are files to check, the output format is one of the three, the
-- counting style is one of the three or empty, every filter has a sign, and the verbosity level is
-- set; the output format before has to be one of the three.
pub parse_arguments-IsParsed :
    (int : Text → Option ℕ) (args : Option (List (Text × Text) × List Text)) (s : LintState)
    → contains output_formats s.output_format ≡ true
    → IsParsed (parse_arguments int args s)
unfolding parse_arguments
parse_arguments-IsParsed int none s h = tt
parse_arguments-IsParsed int (some (opts, filenames)) s h = after_loop-IsParsed s filenames _ (
    take_options-HoldsNext int opts (initial_options s)
      (record { formatted = h; counted = inl refl }))
