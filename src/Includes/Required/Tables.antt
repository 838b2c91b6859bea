-- ===== src/Includes/Required/Tables.antt =====
-- `_HEADERS_CONTAINING_TEMPLATES` and the expressions made from it.
use moohoorama.Base.{List, [], ◌∷◌, ◌++◌, map, flat_map}
use moohoorama.Text.{Text, codes}
use moohoorama.Regex.{Re}
use moohoorama.Regex.Syntax.{re, compile}

-- An expression, what it stands for in a message, and the header.
pub record Entity : Type 0 where
  pub pattern : Re
  pub template : Text
  pub header : Text

-- `_HEADERS_CONTAINING_TEMPLATES`
unfoldable pub headers_containing_templates : List (Text × List Text)
headers_containing_templates =
    (codes "<deque>", codes "deque" ∷ [])
    ∷ (
      codes "<functional>",
      map codes (
          "unary_function" ∷ "binary_function" ∷ "plus" ∷ "minus" ∷ "multiplies" ∷ "divides"
          ∷ "modulus" ∷ "negate" ∷ "equal_to" ∷ "not_equal_to" ∷ "greater" ∷ "less"
          ∷ "greater_equal" ∷ "less_equal" ∷ "logical_and" ∷ "logical_or" ∷ "logical_not"
          ∷ "unary_negate" ∷ "not1" ∷ "binary_negate" ∷ "not2" ∷ "bind1st" ∷ "bind2nd"
          ∷ "pointer_to_unary_function" ∷ "pointer_to_binary_function" ∷ "ptr_fun" ∷ "mem_fun_t"
          ∷ "mem_fun" ∷ "mem_fun1_t" ∷ "mem_fun1_ref_t" ∷ "mem_fun_ref_t" ∷ "const_mem_fun_t"
          ∷ "const_mem_fun1_t" ∷ "const_mem_fun_ref_t" ∷ "const_mem_fun1_ref_t" ∷ "mem_fun_ref"
          ∷ []),
    )
    ∷ (codes "<limits>", codes "numeric_limits" ∷ [])
    ∷ (codes "<list>", codes "list" ∷ [])
    ∷ (codes "<map>", codes "map" ∷ codes "multimap" ∷ [])
    ∷ (codes "<memory>", codes "allocator" ∷ [])
    ∷ (codes "<queue>", codes "queue" ∷ codes "priority_queue" ∷ [])
    ∷ (codes "<set>", codes "set" ∷ codes "multiset" ∷ [])
    ∷ (codes "<stack>", codes "stack" ∷ [])
    ∷ (codes "<string>", codes "char_traits" ∷ codes "basic_string" ∷ [])
    ∷ (codes "<utility>", codes "pair" ∷ [])
    ∷ (codes "<vector>", codes "vector" ∷ [])
    ∷ (codes "<hash_map>", codes "hash_map" ∷ codes "hash_multimap" ∷ [])
    ∷ (codes "<hash_set>", codes "hash_set" ∷ codes "hash_multiset" ∷ [])
    ∷ (codes "<slist>", codes "slist" ∷ [])
    ∷ []

-- `_RE_PATTERN_STRING`
unfoldable pub string_pattern : Re
unfolding re
string_pattern = re "\\bstring\\b"

algorithm_entity : Text → Entity
unfolding compile
algorithm_entity template = record {
  pattern = compile (codes "[^>.]\\b" ++ (template ++ codes "(<.*?>)?\\([^\\)]"));
  template = template;
  header = codes "<algorithm>";
}

-- `_re_pattern_algorithm_header`
unfoldable pub algorithm_entities : List Entity
unfolding algorithm_entity
algorithm_entities = map algorithm_entity (
    codes "copy"
    ∷ codes "max"
    ∷ codes "min"
    ∷ codes "min_element"
    ∷ codes "sort"
    ∷ codes "swap"
    ∷ codes "transform"
    ∷ [])

template_entity : Text → Text → Entity
unfolding compile
template_entity header template = record {
  pattern = compile (codes "(\\<|\\b)" ++ (template ++ codes "\\s*\\<"));
  template = template ++ codes "<>";
  header = header;
}

-- `_re_pattern_templates`
unfoldable pub template_entities : List Entity
unfolding template_entity headers_containing_templates
template_entities =
    flat_map (λ (entry : Text × List Text). map (template_entity entry.0) entry.1)
      headers_containing_templates
