-- ===== src/WhatYouUse/Modules.antt =====
-- Which headers of its own module a file is credited with. About `UpdateIncludeState` and the loop
-- over the headers in `CheckForIncludeWhatYouUse`.
use power_judge.Prelude.{
  Bool, true, false, ◌&&◌, ◌||◌, Option, none, some, List, [], ◌∷◌, ◌++◌, ◌≡◌, refl, subst, ap, sym,
  ◌∙◌, arith, any, Bool-cases, Option-cases, inl, inr,
}
use power_judge.Text.{Text, text_eq, text_in}
use power_judge.Text.Laws.{text_eq_iff}
use power_judge.Regex.Scan.{Match, group_text}
use power_judge.Patterns.{re_search, is_some}
use power_judge.Cleanse.{include_pattern, cleanse_comments}
use power_judge.Includes.Line.{files_belong_to_same_module}
use power_judge.WhatYouUse.{
  add_include, include_of, add_includes, add_module_header, add_module_headers,
}

-- Whether a line of another file includes a header.
abbrev pub names : Text → Option Match → Bool
names x none = false
names x (some m) = text_eq x (group_text 2 m)

abbrev pub line_includes : Text → Text → Bool
line_includes x line = names x (re_search include_pattern (cleanse_comments line))

-- Whether a header is of the module of the file, and where it is then looked for.
abbrev pub is_own : Text → Text → Bool
is_own file header = (files_belong_to_same_module file header).0

abbrev pub own_lines : (Text → Option (List Text)) → Text → Text → Option (List Text)
own_lines read_lines file header =
    read_lines ((files_belong_to_same_module file header).1 ++ header)

-- Whether a header that is read includes `x`.
abbrev pub includes : Text → Option (List Text) → Bool
includes x none = false
includes x (some lines) = any (line_includes x) lines

or_false : (a : Bool) → a ≡ (a || false)
or_false a = ground arith

or_assoc : (a b c : Bool) → ((a || b) || c) ≡ (a || (b || c))
or_assoc a b c = ground arith

or_step : (a b c : Bool) → ((a || (b || false)) || c) ≡ (a || (b || c))
or_step a b c = ground arith

absorbs : (a b : Bool) → (b ≡ true → a ≡ true) → a ≡ (a || b)
absorbs a true h = h refl ∙ rw (h refl) refl
absorbs a false h = or_false a

text_in-append : (x : Text) (a b : List Text) → text_in x (a ++ b) ≡ (text_in x a || text_in x b)
unfolding text_in
text_in-append x [] b = refl
text_in-append x (c ∷ a) b = ground (arith, text_in-append x a b)

text_in-add_include :
    (x i : Text) (hs : List Text) → text_in x (add_include i hs) ≡ (text_in x hs || text_eq x i)
unfolding add_include
text_in-add_include x i hs = elim (Bool-cases (text_in i hs)) [
  | inl there ↦ rw there (
      absorbs (text_in x hs) (text_eq x i)
        (λ e. subst (λ y. text_in y hs ≡ true) (sym ((text_eq_iff x i).0 e)) there))
  | inr new ↦
      rw new
        (text_in-append x hs (i ∷ []) ∙ ap (λ b. text_in x hs || b) (sym (or_false (text_eq x i))))
]

text_in-include_of :
    (x : Text) (m : Option Match) (hs : List Text)
    → text_in x (include_of m hs) ≡ (text_in x hs || names x m)
unfolding include_of
text_in-include_of x none hs = or_false _
text_in-include_of x (some m) hs = text_in-add_include x (group_text 2 m) hs

text_in-add_includes :
    (x : Text) (lines hs : List Text)
    → text_in x (add_includes lines hs) ≡ (text_in x hs || any (line_includes x) lines)
unfolding add_includes
text_in-add_includes x [] hs = or_false _
text_in-add_includes x (l ∷ ls) hs =
    text_in-add_includes x ls (include_of (re_search include_pattern (cleanse_comments l)) hs)
    ∙ rw (text_in-include_of x (re_search include_pattern (cleanse_comments l)) hs)
        (or_assoc (text_in x hs) (line_includes x l) (any (line_includes x) ls))

-- What the loop over the headers comes to: whether a header was read, and what is included then.
pub record Credits (read_lines : Text → Option (List Text)) (file : Text) (headers : List Text)
    (st st' : Bool × List Text) : Type 0 where
  pub found :
      st'.0 ≡ (st.0 || any (λ h. is_own file h && is_some (own_lines read_lines file h)) headers)
  pub included :
      (x : Text)
      → text_in x st'.1 ≡ (
          text_in x st.1
          || any (λ h. is_own file h && includes x (own_lines read_lines file h)) headers)

add_module_header-Credits :
    (read_lines : Text → Option (List Text)) (file header : Text) (st : Bool × List Text)
    → Credits read_lines file (header ∷ []) st (add_module_header read_lines file header st)
unfolding add_module_header
add_module_header-Credits read_lines file header st = elim (Bool-cases (is_own file header)) [
  | inl own ↦ elim (Option-cases (own_lines read_lines file header)) [
    | inl unread ↦ record {
      found = rw (own, unread) refl;
      included = λ x. rw (own, unread) (or_false _);
    }
    | inr (lines, read) ↦ record {
      found = rw (own, read) refl;
      included = λ x.
          rw (own, read)
            (text_in-add_includes x lines st.1 ∙ ap (λ b. text_in x st.1 || b) (or_false _));
    }
  ]
  | inr foreign ↦ record {
    found = rw foreign (or_false _);
    included = λ x. rw foreign (or_false _);
  }
]

-- The loop over the headers finds a header if and only if it did before or one of the headers is of
-- the module of the file and can be read where the common path puts it; and a header counts as
-- included behind it exactly if it did before or a line of one of these headers includes it. The
-- order of the headers does not matter.
pub add_module_headers-Credits :
    (read_lines : Text → Option (List Text)) (file : Text) (headers : List Text)
    (st : Bool × List Text)
    → Credits read_lines file headers st (add_module_headers read_lines file headers st)
unfolding add_module_headers
add_module_headers-Credits read_lines file [] st = record {
  found = or_false _;
  included = λ x. or_false _;
}
add_module_headers-Credits read_lines file (h ∷ hs) st =
    let one = add_module_header-Credits read_lines file h st in
    let rest =
      add_module_headers-Credits read_lines file hs (add_module_header read_lines file h st) in
    record {
      found =
          rest.found
          ∙ rw one.found (
              or_step st.0 (is_own file h && is_some (own_lines read_lines file h))
                (any (λ g. is_own file g && is_some (own_lines read_lines file g)) hs));
      included = λ x.
          rest.included x
          ∙ rw (one.included x) (
              or_step (text_in x st.1) (is_own file h && includes x (own_lines read_lines file h))
                (any (λ g. is_own file g && includes x (own_lines read_lines file g)) hs));
    }
