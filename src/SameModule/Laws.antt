-- ===== src/SameModule/Laws.antt =====
-- What `FilesBelongToSameModule` decides.
use moohoorama.Base.{
  Bool, true, false, ◌≡◌, refl, sym, ap, ◌∙◌, ◌⊎◌, inl, inr, none, some, Option-cases, [], ◌++◌,
  length, Bool-cases, some-inj, none-ne-some, true-ne-false, if◌then◌else◌, ◌==◌,
}
use moohoorama.Text.{Text, ends_with, drop_last}
use moohoorama.SameModule.{module_of_cc, module_of_h, same_module, files_belong_to_same_module}
use moohoorama.SameModule.Paths.{
  SourcePath, HeaderPath, ends_with_sound, ends_with_complete, module_of_cc-SourcePath,
  SourcePath-module_of_cc, module_of_h-HeaderPath, HeaderPath-module_of_h,
}

-- The path of a source file is `prefix` followed by the path of a header.
pub record Joins (filename_cc filename_h prefix : Text) : Type 0 where
  pub cc : Text
  pub h : Text
  pub cc_is : SourcePath filename_cc cc
  pub h_is : HeaderPath filename_h h
  pub joined : cc ≡ prefix ++ h

-- The result for a pair of names.
abbrev pub Decided : Text → Text → Bool × Text → Type 0
Decided filename_cc filename_h r =
    ((prefix : Text) × (j : Joins filename_cc filename_h prefix) × (r
        ≡ (true, if length j.h == 0 then [] else prefix)))
    ⊎ ((r ≡ (false, [])) × ((prefix : Text) → Joins filename_cc filename_h prefix → ⊥))

module _ (filename_cc filename_h : Text) where
  no_source :
      module_of_cc filename_cc ≡ none → (prefix : Text) → Joins filename_cc filename_h prefix → ⊥
  no_source e prefix j = none-ne-some (sym e ∙ SourcePath-module_of_cc filename_cc j.cc j.cc_is)

  no_header :
      module_of_h filename_h ≡ none → (prefix : Text) → Joins filename_cc filename_h prefix → ⊥
  no_header e prefix j = none-ne-some (sym e ∙ HeaderPath-module_of_h filename_h j.h j.h_is)

  not_joined :
      (c h : Text)
      → module_of_cc filename_cc ≡ some c
      → module_of_h filename_h ≡ some h
      → ends_with c h ≡ false
      → (prefix : Text) → Joins filename_cc filename_h prefix
      → ⊥
  not_joined c h p q e prefix j =
      let same_cc : j.cc ≡ c =
        some-inj (sym (SourcePath-module_of_cc filename_cc j.cc j.cc_is) ∙ p) in
      let same_h : j.h ≡ h = some-inj (sym (HeaderPath-module_of_h filename_h j.h j.h_is) ∙ q) in
      let whole : c ≡ prefix ++ h =
        sym same_cc ∙ (j.joined ∙ ap (λ (t : Text). prefix ++ t) same_h) in
      true-ne-false
        (sym (ends_with_complete prefix h) ∙ ap (λ (t : Text). ends_with t h) (sym whole) ∙ e)

  -- `FilesBelongToSameModule` says yes exactly if the path of the source file is some prefix followed by
  -- the path of the header. The first is the name without `.cc`, then without `_unittest` or else
  -- `_test` at its end, the second is the name without `.h`, then without `-inl` at its end, both with
  -- every `/public/`, and then every `/internal/`, replaced by a slash; a name with another extension
  -- has no such path. With yes it returns the prefix, or the empty string if the path of the header is
  -- empty; with no it returns the empty string.
  pub files_belong_to_same_module-Decided :
      Decided filename_cc filename_h (files_belong_to_same_module filename_cc filename_h)
  unfolding files_belong_to_same_module same_module
  files_belong_to_same_module-Decided = elim (Option-cases (module_of_cc filename_cc)) [
    | inl p ↦ inr (rw p refl, no_source p)
    | inr (c, p) ↦ elim (Option-cases (module_of_h filename_h)) [
      | inl q ↦ inr (rw (p, q) refl, no_header q)
      | inr (h, q) ↦ elim (Bool-cases (ends_with c h)) [
        | inr e ↦ inr (rw (p, q, e) refl, not_joined c h p q e)
        | inl e ↦ inl (
          drop_last (length h) c,
          record {
            cc = c;
            h = h;
            cc_is = module_of_cc-SourcePath filename_cc c p;
            h_is = module_of_h-HeaderPath filename_h h q;
            joined = sym (ends_with_sound c h e);
          },
          rw (p, q, e) refl,
        )
      ]
    ]
  ]
