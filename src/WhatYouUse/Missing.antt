-- ===== src/WhatYouUse/Missing.antt =====
-- When a file misses no include. About the end of `CheckForIncludeWhatYouUse`.
use power_judge.Prelude.{
  ℕ, Bool, true, false, ◌&&◌, ◌||◌, not, Option, List, [], ◌∷◌, ◌≡◌, ◌↔◌, ◌⊎◌, refl, sym, ◌∙◌, inl,
  inr, any, All, Bool-cases,
}
use power_judge.Text.{Text, codes, text_in, ends_with}
use power_judge.Regex.Parse.{re}
use power_judge.Regex.Scan.{Match, sub}
use power_judge.Patterns.{is_some}
use power_judge.Cleanse.{CleansedLines}
use power_judge.FileNames.{FileSystem, full_name}
use power_judge.WhatYouUse.{
  Required, required_from, strip_brackets, missing_includes, add_module_headers,
  check_for_include_what_you_use,
}
use power_judge.WhatYouUse.Modules.{is_own, own_lines, includes, add_module_headers-Credits}

-- The name under which the headers of the own module are looked for.
abbrev pub file_in_module : FileSystem → Text → Text
file_in_module fs filename =
    sub (re "_flymake\\.cc$") (λ (m : Match). codes ".cc") (full_name fs filename)

module _ (read_lines : Text → Option (List Text)) (file : Text) (keys : List Text) where
  -- Included by the file itself or by a header of its module.
  abbrev pub is_included : Text → Bool
  is_included x =
      text_in x keys || any (λ h. is_own file h && includes x (own_lines read_lines file h)) keys

  abbrev pub has_own_header : Bool
  has_own_header = any (λ h. is_own file h && is_some (own_lines read_lines file h)) keys

  pub AllIncluded : Required → Type 0
  AllIncluded = All (λ (use_of : Text × ℕ × Text). is_included (strip_brackets use_of.0) ≡ true)

missing_includes_iff :
    (req : Required) (headers : List Text)
    → (missing_includes req headers ≡ [])
      ↔ All (λ (r : Text × ℕ × Text). text_in (strip_brackets r.0) headers ≡ true) req
unfolding missing_includes
missing_includes_iff [] headers = (λ e. tt, λ h. refl)
missing_includes_iff ((header, n, t) ∷ req) headers =
    elim (Bool-cases (text_in (strip_brackets header) headers)) [
      | inl there ↦ (
        λ e. (there, (missing_includes_iff req headers).0 (rw (there, missing_includes) at e)),
        λ h. rw there ((missing_includes_iff req headers).1 h.1),
      )
      | inr missing ↦
          (λ e. absurd (cc (rw (missing, missing_includes) at e)), λ h. absurd (cc (h.0)))
    ]

All-change :
    (P Q : Text × ℕ × Text → Type 0) (req : Required)
    → ((r : Text × ℕ × Text) → P r ↔ Q r)
    → All P req ↔ All Q req
All-change P Q [] h = (λ a. a, λ a. a)
All-change P Q (r ∷ req) h =
    let rest = All-change P Q req h in
    (λ a. ((h r).0 a.0, rest.0 a.1), λ a. ((h r).1 a.0, rest.1 a.1))

same_test : {a b : Bool} → a ≡ b → (a ≡ true) ↔ (b ≡ true)
same_test e = (λ h. sym e ∙ h, λ h. e ∙ h)

-- `CheckForIncludeWhatYouUse` reports nothing if and only if the file is a .cc file for which no
-- header of its own module can be read, or each header that its lines require is included by the file
-- itself or by such a header.
pub check_for_include_what_you_use-AllIncluded :
    (fs : FileSystem) (read_lines : Text → Option (List Text)) (filename : Text)
    (clean_lines : CleansedLines) (keys : List Text)
    → (check_for_include_what_you_use fs read_lines filename clean_lines keys ≡ []) ↔ (
        ((ends_with filename (codes ".cc")
            && not (has_own_header read_lines (file_in_module fs filename) keys))
          ≡ true)
        ⊎ AllIncluded read_lines
            (file_in_module fs filename)
            keys
            (required_from 0 clean_lines.elided []))
unfolding check_for_include_what_you_use AllIncluded
check_for_include_what_you_use-AllIncluded fs read_lines filename clean_lines keys =
    let file = file_in_module fs filename in
    let c = add_module_headers-Credits read_lines file keys (false, keys) in
    let required = required_from 0 clean_lines.elided [] in
    let st = add_module_headers read_lines file keys (false, keys) in
    let change =
      All-change (λ (r : Text × ℕ × Text). text_in (strip_brackets r.0) st.1 ≡ true)
        (λ (r : Text × ℕ × Text). is_included read_lines file keys (strip_brackets r.0) ≡ true)
        required (λ r. same_test (c.included (strip_brackets r.0))) in
    elim (Bool-cases
      (ends_with filename (codes ".cc") && not (has_own_header read_lines file keys))) [
        | inl unread ↦ (λ e. inl unread, λ h. rw (c.found, unread) refl)
        | inr read ↦ (
          λ e. inr (change.0 ((missing_includes_iff required st.1).0 (rw (c.found, read) at e))),
          λ h. elim h [
            | inl unread ↦ absurd (cc)
            | inr included ↦
                rw (c.found, read) ((missing_includes_iff required st.1).1 (change.1 included))
          ],
        )
      ]
