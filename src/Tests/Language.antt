-- ===== src/Tests/Language.antt =====
-- The checks of language use, missing includes, and whole runs.
use moohoorama.Base.{
  true, false, ◌||◌, ◌≡◌, refl, Option, none, some, List, [], ◌∷◌, length, map, pos,
}
use moohoorama.Text.{Text, codes, eq, contains, ascii_lower, strip}
use moohoorama.Regex.{search_re, group_text}
use moohoorama.Regex.Syntax.{re}
use moohoorama.Lint.Suppressions.{reports}
use moohoorama.Cleanse.Lines.{CleansedLines}
use moohoorama.Includes.Required.{read_headers}
use moohoorama.Includes.Required.Laws.{any_brings, read_headers-contains}
use moohoorama.Language.Functions.{check_posix_threading}
use moohoorama.Language.Constructs.{check_constructor, last_part}
use moohoorama.Language.Casts.{check_c_style_cast}
use moohoorama.Language.Arrays.{check_arrays, size_separator_pattern}
use moohoorama.Language.Printf.{check_memset, check_format, printf_pattern, printf_name_pattern}
use moohoorama.Language.Types.{check_types}
use moohoorama.Processing.{Environment}
use moohoorama.Processing.Files.{Input, extension_of, rstrip_returns}

abbrev lines_of : List Text → CleansedLines
lines_of lines = record {
  elided = lines;
  lines = lines;
  raw_lines = lines;
  lines_without_raw_strings = lines;
  num_lines = length lines;
}

member_with_itself :
    check_types (codes "  : x_(x_) {") 3
    ≡ reports
        (pos 3)
        (codes "runtime/init")
        4
        (codes "You seem to be initializing a member variable with itself.")
unfolding check_types re
member_with_itself = refl

other_member : check_types (codes "  : x_(y_) {") 3 ≡ []
unfolding check_types re
other_member = refl

constant_size : check_arrays (codes "  int a[kSize + 2];") 3 ≡ []
unfolding check_arrays re size_separator_pattern group_text
constant_size = refl

-- `>>` is no separator, because of the bracket in the pattern.
shifted_size :
    check_arrays (codes "  int a[kSize >> 2];") 3
    ≡ reports (pos 3) (codes "runtime/arrays") 1 (
        codes
          "Do not use variable-length arrays.  Use an appropriately named ('k' followed by CamelCase) compile-time constant for the size.")
unfolding check_arrays re size_separator_pattern group_text
shifted_size = refl

swapped_memset :
    check_memset (codes "memset(b, sizeof(b), 0)") 3
    ≡ reports (pos 3) (codes "runtime/memset") 4 (codes "Did you mean \"memset(b, 0, sizeof(b))\"?")
unfolding check_memset re group_text
swapped_memset = refl

format_of_text :
    check_format (codes "Printf(text);") 3
    ≡ some (
        reports
          (pos 3)
          (codes "runtime/printf")
          4
          (codes "Potential format string bug. Do Printf(\"%s\", text) instead."))
unfolding check_format printf_pattern printf_name_pattern re group_text
format_of_text = refl

one_argument :
    check_constructor (codes "Foo") (codes "  Foo(int x);") 3
    ≡ reports
        (pos 3)
        (codes "runtime/explicit")
        5
        (codes "Single-argument constructors should be marked explicit.")
unfolding check_constructor group_text strip
one_argument = refl

copy_constructor : check_constructor (codes "Foo") (codes "  Foo(const Foo& x);") 3 ≡ []
unfolding check_constructor group_text strip
copy_constructor = refl

qualified_name : last_part 0 [] (codes "a::b::C") ≡ codes "C"
unfolding last_part
qualified_name = refl

unsafe_call :
    check_posix_threading (λ c. false) (lines_of (codes "x = rand();" ∷ [])) 0
    ≡ reports
        (pos 0)
        (codes "runtime/threadsafe_fn")
        2
        (codes "Consider using rand_r(...) instead of rand(...) for improved thread safety.")
unfolding check_posix_threading
unsafe_call = refl

cast_of_int :
    check_c_style_cast 3
      (codes "x = (int)y;")
      (codes "x = (int)y;")
      (codes "static_cast")
      (re "\\((int)\\)")
    ≡ (
      true,
      reports
          (pos 3)
          (codes "readability/casting")
          4
          (codes "Using C-style cast.  Use static_cast<int>(...) instead"),
    )
unfolding check_c_style_cast re search_re group_text
cast_of_int = refl

returns_cut : rstrip_returns (codes "a\r\r") ≡ codes "a"
unfolding rstrip_returns
returns_cut = refl

whole_name : extension_of (codes "Makefile") ≡ codes "Makefile"
unfolding extension_of
whole_name = refl

-- The header of a file includes <map>.
abbrev headers_on_disk : Text → Option (List Text)
headers_on_disk path = elim (eq path (codes "/r/a.h")) [
  | true ↦ some (codes "#include <map>\n" ∷ [])
  | false ↦ none
]

read_headers-contains_example :
    contains
      (read_headers headers_on_disk (codes "/r/a.cc") (codes "a.h" ∷ []) (codes "a.h" ∷ [])).0
      (codes "map")
    ≡ contains (codes "a.h" ∷ []) (codes "map")
      || (any_brings headers_on_disk (codes "/r/a.cc") (codes "map") (codes "a.h" ∷ []))
read_headers-contains_example =
    read_headers-contains headers_on_disk (codes "/r/a.cc") (codes "a.h" ∷ []) (codes "a.h" ∷ [])
      (codes "map")

abbrev pub environment : Environment
environment = record {
  unicode = record {
    isdigit = λ s. false;
    normalize = λ s. s;
    is_wide = λ c. false;
    is_combining = λ c. false;
  };
  isalnum = λ c. false;
  lower = map ascii_lower;
  read_lines = headers_on_disk;
  line_length = 80;
}

abbrev pub file : Input
file = (
  record {
    filename = codes "a.cc";
    file_extension = codes "cc";
    full = codes "/r/a.cc";
    repository = codes "a.cc";
    cppvar = codes "A_CC_";
  },
  some (codes "int x;" ∷ [] ∷ []),
)
