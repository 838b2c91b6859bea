-- ===== src/Tests/Files.antt =====
-- The checks on whole files.
use moohoorama.Base.{◌≡◌, refl, ◌↔◌, true, false, some, List, [], ◌∷◌, All}
use moohoorama.Text.{Text, codes}
use moohoorama.HeaderGuard.{check_for_header_guard, endif_line}
use moohoorama.HeaderGuard.Laws.{first_argument, last_starting, check_for_header_guard_iff}
use moohoorama.FileChecks.{check_for_bad_characters, check_for_newline_at_eof}
use moohoorama.FileChecks.Laws.{
  IsClean, check_for_bad_characters_iff, EndsInNewline, check_for_newline_at_eof_iff,
}
use moohoorama.SameModule.{files_belong_to_same_module}
use moohoorama.SameModule.Laws.{Decided, files_belong_to_same_module-Decided}

abbrev header : List Text
header =
    codes "#ifndef A_H_" ∷ codes "#define A_H_" ∷ codes "#endif  // A_H_" ∷ [] ∷ codes "// end" ∷ []

header_passes : check_for_header_guard (codes "A_H_") header ≡ []
unfolding check_for_header_guard
header_passes = refl

check_for_header_guard_iff_example :
    (check_for_header_guard (codes "A_H_") header ≡ [])
    ↔ (first_argument (codes "#ifndef") header ≡ some (codes "A_H_"))
      × (first_argument (codes "#define") header ≡ some (codes "A_H_"))
      × (last_starting (codes "#endif") header ≡ some (endif_line (codes "A_H_")))
check_for_header_guard_iff_example = check_for_header_guard_iff (codes "A_H_") header

check_for_bad_characters_iff_example : (check_for_bad_characters header ≡ []) ↔ All IsClean header
check_for_bad_characters_iff_example = check_for_bad_characters_iff header

check_for_newline_at_eof_iff_example : (check_for_newline_at_eof header ≡ []) ↔ EndsInNewline header
check_for_newline_at_eof_iff_example = check_for_newline_at_eof_iff header

same_module_found :
    files_belong_to_same_module (codes "/a/base/public/x_test.cc") (codes "base/x-inl.h")
    ≡ (true, codes "/a/")
unfolding files_belong_to_same_module
same_module_found = refl

same_module_refused : files_belong_to_same_module (codes "a/x.cc") (codes "a/y.h") ≡ (false, [])
unfolding files_belong_to_same_module
same_module_refused = refl

files_belong_to_same_module-Decided_example :
    Decided
      (codes "/a/base/public/x_test.cc")
      (codes "base/x-inl.h")
      (files_belong_to_same_module (codes "/a/base/public/x_test.cc") (codes "base/x-inl.h"))
files_belong_to_same_module-Decided_example =
    files_belong_to_same_module-Decided (codes "/a/base/public/x_test.cc") (codes "base/x-inl.h")
