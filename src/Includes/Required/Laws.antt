-- ===== src/Includes/Required/Laws.antt =====
-- The headers that count as included.
use moohoorama.Base.{
  Bool, true, false, ◌||◌, ◌&&◌, ◌≡◌, refl, sym, ap, ◌∙◌, inl, inr, Bool-cases, Option, none, some,
  Option-cases, List, [], ◌∷◌, ◌++◌,
}
use moohoorama.Text.{Text, eq, contains}
use moohoorama.Text.Laws.{eq_iff}
use moohoorama.Regex.{Found, search_re, group_text}
use moohoorama.Cleanse.Lines.{include_pattern, cleanse_comments}
use moohoorama.SameModule.{files_belong_to_same_module}
use moohoorama.Includes.Dictionary.{includes, found_include}
use moohoorama.Includes.Required.{
  add_key, add_found, add_includes, update_include_state, update_if, read_headers,
}

||-assoc : (a b c : Bool) → (a || b) || c ≡ a || (b || c)
||-assoc true b c = refl
||-assoc false b c = refl

||-false : (a : Bool) → a ≡ a || false
||-false true = refl
||-false false = refl

contains-append :
    (keys : List Text) (k g : Text) → contains (keys ++ k ∷ []) g ≡ contains keys g || eq k g
unfolding contains
contains-append [] k g = sym (||-false (eq k g))
contains-append (x ∷ keys) k g =
    ap (λ (b : Bool). eq x g || b) (contains-append keys k g)
    ∙ sym (||-assoc (eq x g) (contains keys g) (eq k g))

absorbed : (a b : Bool) → (b ≡ true → a ≡ true) → a ≡ a || b
absorbed true b h = refl
absorbed false true h = h refl
absorbed false false h = refl

contains-add_key :
    (k : Text) (keys : List Text) (g : Text)
    → contains (add_key k keys) g ≡ contains keys g || eq k g
contains-add_key k keys g = elim (Bool-cases (contains keys k)) [
  | inr e ↦ rw e (contains-append keys k g)
  | inl e ↦ rw e (absorbed (contains keys g) (eq k g) (λ h. rw (sym ((eq_iff k g).0 h)) e))
]

contains-add_found :
    (o : Option Found) (keys : List Text) (g : Text)
    → contains (add_found o keys) g ≡ contains keys g || found_include g o
contains-add_found none keys g = ||-false (contains keys g)
contains-add_found (some m) keys g = contains-add_key (group_text 2 m) keys g

-- A header that some of the lines include.
abbrev pub any_includes : Text → List Text → Bool
any_includes g [] = false
any_includes g (line ∷ lines) = includes g (cleanse_comments line) || any_includes g lines

contains-add_includes :
    (lines keys : List Text) (g : Text)
    → contains (add_includes lines keys) g ≡ contains keys g || any_includes g lines
unfolding add_includes includes
contains-add_includes [] keys g = ||-false (contains keys g)
contains-add_includes (line ∷ lines) keys g =
    let o = search_re include_pattern (cleanse_comments line) in
    contains-add_includes lines (add_found o keys) g
    ∙ ap (λ (b : Bool). b || any_includes g lines) (contains-add_found o keys g)
    ∙ ||-assoc (contains keys g) (found_include g o) (any_includes g lines)

module _ (read : Text → Option (List Text)) (file : Text) where
  abbrev pub lines_include : Text → Option (List Text) → Bool
  lines_include g none = false
  lines_include g (some lines) = any_includes g lines

  -- A header of the file's module that can be read and includes `g`.
  abbrev pub brings : Text → Text → Bool
  brings g header =
      let (same, common_path) = files_belong_to_same_module file header in
      same && lines_include g (read (common_path ++ header))

  abbrev pub any_brings : Text → List Text → Bool
  any_brings g [] = false
  any_brings g (header ∷ headers) = brings g header || any_brings g headers

  update_include_state-contains :
      (path g : Text) (keys : List Text)
      → contains (update_include_state read path keys).0 g
        ≡ contains keys g || lines_include g (read path)
  unfolding update_include_state
  update_include_state-contains path g keys = elim (Option-cases (read path)) [
    | inl e ↦ rw e (||-false (contains keys g))
    | inr (lines, e) ↦ rw e (contains-add_includes lines keys g)
  ]

  update_if-contains :
      (r : Bool × Text) (header g : Text) (keys : List Text)
      → contains (update_if read r header keys).0 g
        ≡ contains keys g || (r.0 && lines_include g (read (r.1 ++ header)))
  update_if-contains (true, path) header g keys =
      update_include_state-contains (path ++ header) g keys
  update_if-contains (false, path) header g keys = ||-false (contains keys g)

  -- Behind the loop of `CheckForIncludeWhatYouUse` over the headers, a header counts as included
  -- exactly if it did before, or if one of the headers that belong to the module of the file can be
  -- read and includes it.
  pub read_headers-contains :
      (headers keys : List Text) (g : Text)
      → contains (read_headers read file headers keys).0 g ≡ contains keys g || any_brings g headers
  unfolding read_headers
  read_headers-contains [] keys g = ||-false (contains keys g)
  read_headers-contains (header ∷ headers) keys g =
      let r = files_belong_to_same_module file header in
      read_headers-contains headers (update_if read r header keys).0 g
      ∙ ap (λ (b : Bool). b || any_brings g headers) (update_if-contains r header g keys)
      ∙ ||-assoc (contains keys g) (brings g header) (any_brings g headers)
