-- ===== src/Nesting/Conditionals.antt =====
-- What `#if`, `#else` and `#endif` do to the stack of blocks.
use moohoorama.Base.{
  true, false, ◌≡◌, refl, ap, ◌∙◌, List, [], ◌∷◌, ◌++◌, is_some, arith, if◌then◌else◌,
}
use moohoorama.Text.{Text}
use moohoorama.Regex.{match}
use moohoorama.Nesting.Blocks.{Block}
use moohoorama.Nesting.Preprocessor.{
  PreprocessorInfo, NestingState, if_pattern, else_pattern, endif_pattern, before_if,
  update_preprocessor,
}

-- The lines of a file, as far as the stacks go: a line that `UpdatePreprocessor` reads, and what
-- the rest of `Update` makes of the stack of blocks.
pub data Event : Type 0 where
  line : Text → Event
  blocks : (List Block → List Block) → Event

abbrev pub run_event : Event → NestingState → NestingState
run_event (line l) s = update_preprocessor l s
run_event (blocks f) s = record s { stack = f s.stack }

abbrev pub run_events : List Event → NestingState → NestingState
run_events [] s = s
run_events (e ∷ es) s = run_events es (run_event e s)

abbrev pub IsIf : Text → Type 0
IsIf l = is_some (match if_pattern l) ≡ true

abbrev pub IsElse : Text → Type 0
IsElse l = (is_some (match if_pattern l) ≡ false) × (is_some (match else_pattern l) ≡ true)

abbrev pub IsEndif : Text → Type 0
IsEndif l =
    (is_some (match if_pattern l) ≡ false)
    × (is_some (match else_pattern l) ≡ false)
    × (is_some (match endif_pattern l) ≡ true)

abbrev pub IsOther : Text → Type 0
IsOther l =
    (is_some (match if_pattern l) ≡ false)
    × (is_some (match else_pattern l) ≡ false)
    × (is_some (match endif_pattern l) ≡ false)

-- Sequences of events in which conditionals are well nested. `Branches` are the further branches
-- of a conditional, each behind its `#else` or `#elif`.
mutual
  pub data Nested : List Event → Type 0 where
    nil : Nested []
    edit : {es : List Event} (f : List Block → List Block) → Nested es → Nested (blocks f ∷ es)
    other : {es : List Event} (l : Text) → IsOther l → Nested es → Nested (line l ∷ es)
    conditional :
        {body rest es : List Event} (l m : Text)
        → IsIf l
        → Nested body
        → Branches rest
        → IsEndif m
        → Nested es
        → Nested (line l ∷ (body ++ (rest ++ (line m ∷ es))))

  pub data Branches : List Event → Type 0 where
    no_branch : Branches []
    branch :
        {body rest : List Event} (l : Text)
        → IsElse l
        → Nested body
        → Branches rest
        → Branches (line l ∷ (body ++ rest))

-- What the events do to the stack of blocks if the code between the first `#else` of a conditional
-- and its `#endif` is left out.
abbrev pub first_branches : {es : List Event} → Nested es → List Block → List Block
first_branches nil s = s
first_branches (edit f n) s = first_branches n (f s)
first_branches (other l o n) s = first_branches n s
first_branches (conditional l m i body rest e n) s = first_branches n (first_branches body s)

run_events-append :
    (es fs : List Event) (s : NestingState)
    → run_events (es ++ fs) s ≡ run_events fs (run_events es s)
run_events-append [] fs s = refl
run_events-append (e ∷ es) fs s = run_events-append es fs (run_event e s)

abbrev state : List Block → List PreprocessorInfo → NestingState
state b ps = record { stack = b; pp_stack = ps }

abbrev kept : PreprocessorInfo → List Block → List Block
kept p b = if p.seen_else then p.stack_before_else else b

abbrev marked : PreprocessorInfo → List Block → PreprocessorInfo
marked p b = if p.seen_else then p else record p { seen_else = true; stack_before_else = b }

update-IsIf :
    (l : Text) (b : List Block) (ps : List PreprocessorInfo)
    → IsIf l
    → update_preprocessor l (state b ps) ≡ state b (before_if b ∷ ps)
unfolding update_preprocessor
update-IsIf l b ps h = rw h

update-IsElse :
    (l : Text) (b : List Block) (p : PreprocessorInfo) (ps : List PreprocessorInfo)
    → IsElse l
    → update_preprocessor l (state b (p ∷ ps)) ≡ state p.stack_before_if (marked p b ∷ ps)
unfolding update_preprocessor
update-IsElse l b p ps h = rw (h.0, h.1)

update-IsEndif :
    (l : Text) (b : List Block) (p : PreprocessorInfo) (ps : List PreprocessorInfo)
    → IsEndif l
    → update_preprocessor l (state b (p ∷ ps)) ≡ state (kept p b) ps
unfolding update_preprocessor
update-IsEndif l b p ps h = rw (h.0, h.1, h.2)

update-IsOther : (l : Text) (s : NestingState) → IsOther l → update_preprocessor l s ≡ s
unfolding update_preprocessor
update-IsOther l s h = rw (h.0, h.1, h.2)

kept-marked : (p : PreprocessorInfo) (b c : List Block) → kept (marked p b) c ≡ kept p b
kept-marked p b c = ground arith

mutual
  run-Nested :
      {es : List Event} (n : Nested es) (b : List Block) (ps : List PreprocessorInfo)
      → run_events es (state b ps) ≡ state (first_branches n b) ps
  run-Nested nil b ps = refl
  run-Nested (edit f n) b ps = run-Nested n (f b) ps
  run-Nested (other {es} l o n) b ps =
      ap (run_events es) (update-IsOther l (state b ps) o) ∙ run-Nested n b ps
  run-Nested (conditional {body} {rest} {es} l m i nb br e n) b ps =
      let body_run = run-Nested nb b (before_if b ∷ ps) in
      let (c, q, rest_run, k) = run-Branches br (first_branches nb b) (before_if b) ps in
      ap (run_events (body ++ (rest ++ (line m ∷ es)))) (update-IsIf l b ps i)
      ∙ run_events-append body (rest ++ (line m ∷ es)) (state b (before_if b ∷ ps))
      ∙ ap (run_events (rest ++ (line m ∷ es))) body_run
      ∙ run_events-append rest (line m ∷ es) (state (first_branches nb b) (before_if b ∷ ps))
      ∙ ap (run_events (line m ∷ es)) rest_run
      ∙ ap (run_events es) (update-IsEndif m c q ps e)
      ∙ ap (λ x. run_events es (state x ps)) k
      ∙ run-Nested n (first_branches nb b) ps

  run-Branches :
      {es : List Event} (br : Branches es) (b : List Block) (p : PreprocessorInfo)
      (ps : List PreprocessorInfo)
      → (c : List Block) × (q : PreprocessorInfo) × (run_events es (state b (p ∷ ps))
          ≡ state c (q ∷ ps))
        × (kept q c ≡ kept p b)
  run-Branches no_branch b p ps = (b, p, refl, refl)
  run-Branches (branch {body} {rest} l i nb br) b p ps =
      let body_run = run-Nested nb p.stack_before_if (marked p b ∷ ps) in
      let (c, q, rest_run, k) =
        run-Branches br (first_branches nb p.stack_before_if) (marked p b) ps in
      (
        c,
        q,
        ap (run_events (body ++ rest)) (update-IsElse l b p ps i)
            ∙ run_events-append body rest (state p.stack_before_if (marked p b ∷ ps))
            ∙ ap (run_events rest) body_run
            ∙ rest_run,
        k ∙ kept-marked p b (first_branches nb p.stack_before_if),
      )

-- Over any well-nested sequence of conditionals, the stack of blocks ends as if the code between
-- the first `#else` or `#elif` of each conditional and its `#endif` were not there, and the stack
-- of conditionals is what it was before.
pub run_events-Nested :
    {es : List Event} (n : Nested es) (s : NestingState)
    → run_events es s ≡ record s { stack = first_branches n s.stack }
run_events-Nested n s = run-Nested n s.stack s.pp_stack
