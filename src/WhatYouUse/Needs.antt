-- ===== src/WhatYouUse/Needs.antt =====
-- Which headers a file requires, and for which line. About the loop over the lines in
-- `CheckForIncludeWhatYouUse`.
use power_judge.Prelude.{
  ℕ, suc, Bool, true, false, ◌||◌, not, Option, none, some, List, [], ◌∷◌, ◌++◌, ◌≡◌, refl, sym, ap,
  ◌∙◌, take, if◌then◌else◌, is_nil, Bool-cases, inl, inr,
}
use power_judge.Text.{Text, codes, text_eq, starts_with, ends_with, has}
use power_judge.Text.Laws.{text_eq_iff}
use power_judge.Regex.Scan.{Match, search, match_from}
use power_judge.Patterns.{re_search, is_some}
use power_judge.WhatYouUse.{
  TemplatePattern, Required, require, require_matching, require_string, require_line, required_from,
  algorithm_header, template_patterns,
}

-- required.get(header)
pub lookup : Text → Required → Option (ℕ × Text)
lookup header [] = none
lookup header ((h, n, t) ∷ req) = if text_eq h header then some (n, t) else lookup header req

-- A header, and the template that wants it.
abbrev Need : Type 0
Need = Text × Text

string_needs : Text → Option Match → List Need
string_needs line none = []
string_needs line (some m) =
    let prefix = take (match_from m) line in
    if ends_with prefix (codes "std::") || not (ends_with prefix (codes "::"))
    then (codes "<string>", codes "string") ∷ []
    else []

pattern_needs : List TemplatePattern → Text → List Need
pattern_needs [] line = []
pattern_needs (p ∷ ps) line =
    if is_some (search p.pattern line)
    then (p.header, p.template) ∷ pattern_needs ps line
    else pattern_needs ps line

-- All that a line needs, in the order in which the source looks for it: `string`, the functions of
-- <algorithm>, and the templates in the order of their table, wherever on the line they stand.
pub needs : Text → List Need
needs line =
    if is_nil line || starts_with line (codes "#")
    then []
    else string_needs line (re_search "\\bstring\\b" line)
      ++ (pattern_needs algorithm_header line
          ++ (if has line (codes "<") then pattern_needs template_patterns line else []))

-- The template of the last need of a header.
pub last_need : Text → List Need → Option Text
last_need header [] = none
last_need header ((h, t) ∷ ns) = elim (last_need header ns) [
  | some later ↦ some later
  | none ↦ if text_eq h header then some t else none
]

at_line : ℕ → Option Text → Option (ℕ × Text) → Option (ℕ × Text)
at_line n none otherwise = otherwise
at_line n (some t) otherwise = some (n, t)

-- The last line, from `n` on, that needs a header, with the last of its needs of the header.
pub last_use : Text → ℕ → List Text → Option (ℕ × Text) → Option (ℕ × Text)
last_use header n [] before = before
last_use header n (l ∷ ls) before =
    last_use header (suc n) ls (at_line n (last_need header (needs l)) before)

add_needs : ℕ → List Need → Required → Required
add_needs n [] req = req
add_needs n ((h, t) ∷ ns) req = add_needs n ns (require h n t req)

lookup-require :
    (header h : Text) (n : ℕ) (t : Text) (req : Required)
    → lookup header (require h n t req)
      ≡ (if text_eq h header then some (n, t) else lookup header req)
unfolding lookup require
lookup-require header h n t [] = refl
lookup-require header h n t ((k, m, u) ∷ req) = elim (Bool-cases (text_eq k h)) [
  | inl same ↦
      let alike : text_eq k header ≡ text_eq h header =
        ap (λ x. text_eq x header) ((text_eq_iff k h).0 same) in
      elim (Bool-cases (text_eq h header)) [
        | inl here ↦ rw (same, alike, here) refl
        | inr there ↦ rw (same, alike, there) refl
      ]
  | inr other ↦ elim (Bool-cases (text_eq k header)) [
    | inl mine ↦ elim (Bool-cases (text_eq h header)) [
      | inl both ↦
          let e = (text_eq_iff k header).0 mine in
          let f = (text_eq_iff h header).0 both in
          let g = (text_eq_iff k h).1 (e ∙ sym f) in absurd (cc)
      | inr only ↦ rw (other, mine, only) refl
    ]
    | inr foreign ↦ rw (other, foreign) (lookup-require header h n t req)
  ]
]

lookup-add_needs :
    (header : Text) (n : ℕ) (ns : List Need) (req : Required)
    → lookup header (add_needs n ns req) ≡ at_line n (last_need header ns) (lookup header req)
unfolding add_needs last_need at_line
lookup-add_needs header n [] req = refl
lookup-add_needs header n ((h, t) ∷ ns) req =
    lookup-add_needs header n ns (require h n t req)
    ∙ rw (lookup-require header h n t req) (later (last_need header ns) (text_eq h header))
  where
    later :
        (o : Option Text) (b : Bool)
        → at_line n o (if b then some (n, t) else lookup header req)
          ≡ at_line n
              (elim o [ some later ↦ some later | none ↦ if b then some t else none ])
              (lookup header req)
    later (some x) b = refl
    later none true = refl
    later none false = refl

add_needs-append :
    (n : ℕ) (a b : List Need) (req : Required)
    → add_needs n (a ++ b) req ≡ add_needs n b (add_needs n a req)
unfolding add_needs
add_needs-append n [] b req = refl
add_needs-append n (x ∷ a) b req = add_needs-append n a b (require x.0 n x.1 req)

in_order :
    (n : ℕ) (a b c : List Need) (req : Required)
    → add_needs n c (add_needs n b (add_needs n a req)) ≡ add_needs n (a ++ (b ++ c)) req
in_order n a b c req =
    sym (add_needs-append n a (b ++ c) req ∙ add_needs-append n b c (add_needs n a req))

require_matching-needs :
    (ps : List TemplatePattern) (n : ℕ) (line : Text) (req : Required)
    → require_matching ps n line req ≡ add_needs n (pattern_needs ps line) req
unfolding require_matching pattern_needs add_needs
require_matching-needs [] n line req = refl
require_matching-needs (p ∷ ps) n line req = elim (Bool-cases (is_some (search p.pattern line))) [
  | inl yes_found ↦
      rw yes_found (require_matching-needs ps n line (require p.header n p.template req))
  | inr not_found ↦ rw not_found (require_matching-needs ps n line req)
]

require_string-needs :
    (m : Option Match) (n : ℕ) (line : Text) (req : Required)
    → require_string m n line req ≡ add_needs n (string_needs line m) req
unfolding require_string string_needs add_needs
require_string-needs none n line req = refl
require_string-needs (some m) n line req =
    elim (Bool-cases (
      ends_with (take (match_from m) line) (codes "std::")
      || not (ends_with (take (match_from m) line) (codes "::")))) [
        | inl counts ↦ rw counts refl
        | inr foreign ↦ rw foreign refl
      ]

require_line-needs :
    (n : ℕ) (line : Text) (req : Required) → require_line n line req ≡ add_needs n (needs line) req
unfolding require_line needs add_needs
require_line-needs n line req = elim (Bool-cases (is_nil line || starts_with line (codes "#"))) [
  | inl skipped ↦ rw skipped refl
  | inr read ↦
      let named = string_needs line (re_search "\\bstring\\b" line) in
      let called = pattern_needs algorithm_header line in
      let noted =
        require_matching-needs algorithm_header n line
          (require_string (re_search "\\bstring\\b" line) n line req)
        ∙ ap (add_needs n called)
            (require_string-needs (re_search "\\bstring\\b" line) n line req) in
      elim (Bool-cases (has line (codes "<"))) [
        | inl templates ↦
            rw (read, templates)
              (require_matching-needs template_patterns n line _
                ∙ ap (add_needs n (pattern_needs template_patterns line)) noted
                ∙ in_order n named called (pattern_needs template_patterns line) req)
        | inr plain ↦ rw (read, plain) (noted ∙ in_order n named called [] req)
      ]
]

-- For every header, what the loop over the lines has noted at its end is the last line that needs the
-- header, with the one of the templates on that line that the source looks for last, which is the last
-- one in its table and not the last one on the line; and nothing is noted for a header that no line
-- needs.
pub required_from-last_use :
    (header : Text) (n : ℕ) (lines : List Text) (req : Required)
    → lookup header (required_from n lines req) ≡ last_use header n lines (lookup header req)
unfolding required_from last_use
required_from-last_use header n [] req = refl
required_from-last_use header n (l ∷ ls) req =
    required_from-last_use header (suc n) ls (require_line n l req)
    ∙ ap (last_use header (suc n) ls)
        (ap (lookup header) (require_line-needs n l req) ∙ lookup-add_needs header n (needs l) req)
