-- ===== src/Nesting/Completed.antt =====
-- What `CheckCompletedBlocks` reports.
use mathlib.Core.List.{reverse, reverse_aux}
use moohoorama.Base.{◌≡◌, refl, ◌↔◌, List, [], ◌∷◌, ◌++◌, All, arith}
use moohoorama.Lint.Suppressions.{Effect}
use moohoorama.Nesting.Blocks.{Block, Kind, plain, class_info, namespace_info}
use moohoorama.Nesting.Preprocessor.{NestingState}
use moohoorama.Nesting.Update.{incomplete, completed_from, check_completed_blocks}

-- A block that is neither a class nor a namespace.
abbrev pub IsPlain : Block → Type 0
IsPlain b = b.kind ≡ plain

reverse_aux-All :
    (bs done : List Block) → All IsPlain (reverse_aux bs done) ↔ (All IsPlain bs × All IsPlain done)
reverse_aux-All [] done = (λ h. (tt, h), λ h. h.1)
reverse_aux-All (b ∷ bs) done =
    let rest = reverse_aux-All bs (b ∷ done) in
    (λ h. let (a, (p, d)) = rest.0 h in ((p, a), d), λ ((p, a), d). rest.1 (a, (p, d)))

incomplete_iff :
    (k : Kind) (es : List Effect) → (incomplete k ++ es ≡ []) ↔ ((k ≡ plain) × (es ≡ []))
incomplete_iff plain es = (λ h. (refl, h), λ h. h.1)
incomplete_iff (class_info c) es = (λ h. ground arith, λ h. ground arith)
incomplete_iff (namespace_info n) es = (λ h. ground arith, λ h. ground arith)

completed_from_iff : (bs : List Block) → (completed_from bs ≡ []) ↔ All IsPlain bs
unfolding completed_from
completed_from_iff [] = (λ _. tt, λ _. refl)
completed_from_iff (b ∷ bs) =
    let here = incomplete_iff b.kind (completed_from bs) in
    let rest = completed_from_iff bs in
    (λ h. let (p, q) = here.0 h in (p, rest.0 q), λ (p, a). here.1 (p, rest.1 a))

-- `CheckCompletedBlocks` reports nothing exactly if no class and no namespace is on the stack.
pub check_completed_blocks_iff :
    (s : NestingState) → (check_completed_blocks s ≡ []) ↔ All IsPlain s.stack
unfolding check_completed_blocks
check_completed_blocks_iff s =
    let order = reverse_aux-All s.stack [] in
    let whole = completed_from_iff (reverse s.stack) in
    (λ h. (order.0 (whole.0 h)).0, λ a. whole.1 (order.1 (a, tt)))
