-- ===== src/FileChecks/Guard.antt =====
-- bin/cpplint.py, `CheckForHeaderGuard`.

use power_judge.Prelude.{
  ℕ, suc, Bool, true, false, Option, none, some, List, [], ◌∷◌, ◌++◌, if◌then◌else◌, get_or,
}
use power_judge.Text.{Text, codes, text_eq, starts_with, words}
use power_judge.Lint.{Diagnostic, Suppressions, parse_nolint_suppressions}

-- What the loop over the lines collects.
pub record Guard : Type 0 where
  pub ifndef : Option Text
  pub ifndef_linenum : ℕ
  pub define : Option Text
  pub endif : Option Text
  pub endif_linenum : ℕ

unfoldable pub no_guard : Guard
no_guard = record {
  ifndef = none;
  ifndef_linenum = 0;
  define = none;
  endif = none;
  endif_linenum = 0;
}

-- The first `#ifndef` and `#define` with an argument.
unfoldable pub note_directive : ℕ → List Text → Guard → Guard
note_directive linenum (w ∷ arg ∷ ws) g =
    let g' : Guard = elim g.ifndef [
      | some _ ↦ g
      | none ↦
          if text_eq w (codes "#ifndef")
          then record g { ifndef = some arg; ifndef_linenum = linenum }
          else g
    ] in
    elim g.define [
      | some _ ↦ g'
      | none ↦ if text_eq w (codes "#define") then record g' { define = some arg } else g'
    ]
note_directive linenum _ g = g

-- The last `#endif`.
unfoldable pub note_endif : ℕ → Text → Guard → Guard
note_endif linenum line g =
    if starts_with line (codes "#endif")
    then record g { endif = some line; endif_linenum = linenum }
    else g

unfoldable pub find_guard : ℕ → List Text → Guard → Guard
find_guard linenum [] g = g
find_guard linenum (line ∷ lines) g =
    find_guard (suc linenum) lines (note_endif linenum line (note_directive linenum (words line) g))

unfoldable pub guard_error : ℕ → ℕ → Text → Diagnostic
guard_error linenum level message = record {
  linenum = linenum;
  category = codes "build/header_guard";
  confidence = level;
  message = message;
}

unfoldable pub endif_text : Text → Text
endif_text cppvar = codes "#endif  // " ++ cppvar

unfoldable pub is_text : Option Text → Text → Bool
is_text none t = false
is_text (some s) t = text_eq s t

-- The level of an error: 0 for the older form with one more underscore.
unfoldable pub level_for : Bool → ℕ
level_for true = 0
level_for false = 5

-- The check of `#endif`.
unfoldable pub check_endif :
    Text → List Text → Guard → Suppressions → Suppressions × List Diagnostic
check_endif cppvar lines g sup =
    if is_text g.endif (endif_text cppvar)
    then (sup, [])
    else (let level = level_for (is_text g.endif (endif_text (cppvar ++ codes "_"))) in
        let (sup', ds) =
          parse_nolint_suppressions (get_or lines g.endif_linenum []) g.endif_linenum sup in
        (
          sup',
          ds
              ++ guard_error g.endif_linenum level
                  (codes "#endif line should be \"" ++ (endif_text cppvar ++ codes "\""))
                ∷ [],
        ))

-- The check of the name behind `#ifndef`.
unfoldable pub check_ifndef :
    Text → Text → List Text → Guard → Suppressions → Suppressions × List Diagnostic
check_ifndef ifndef cppvar lines g sup =
    if text_eq ifndef cppvar
    then (sup, [])
    else (let level = level_for (text_eq ifndef (cppvar ++ codes "_")) in
        let (sup', ds) =
          parse_nolint_suppressions (get_or lines g.ifndef_linenum []) g.ifndef_linenum sup in
        (
          sup',
          ds
              ++ guard_error g.ifndef_linenum level
                  (codes "#ifndef header guard has wrong style, please use: " ++ cppvar)
                ∷ [],
        ))

unfoldable pub missing_directive : Text → Text → List Diagnostic
unfolding guard_error
missing_directive what cppvar =
    guard_error 0 5 (what ++ (codes ", suggested CPP variable is: " ++ cppvar)) ∷ []

-- The part of `CheckForHeaderGuard` behind the loop.
unfoldable pub check_guard :
    Option Text
    → Option Text
    → Text
    → List Text
    → Guard
    → Suppressions
    → Suppressions × List Diagnostic
check_guard none define cppvar lines g sup =
    (sup, missing_directive (codes "No #ifndef header guard found") cppvar)
check_guard (some ifndef) none cppvar lines g sup =
    (sup, missing_directive (codes "No #define header guard found") cppvar)
check_guard (some ifndef) (some define) cppvar lines g sup =
    let (sup', ds) = check_ifndef ifndef cppvar lines g sup in
    if text_eq define ifndef
    then (let (sup'', es) = check_endif cppvar lines g sup' in (sup'', ds ++ es))
    else (sup', ds ++ missing_directive (codes "#ifndef and #define don't match") cppvar)

-- `CheckForHeaderGuard`, for the variable that `GetHeaderGuardCPPVariable` gives: the suppressions
-- and the errors.
unfoldable pub check_for_header_guard :
    Text → List Text → Suppressions → Suppressions × List Diagnostic
unfolding find_guard no_guard
check_for_header_guard cppvar lines sup =
    let g = find_guard 0 lines no_guard in check_guard g.ifndef g.define cppvar lines g sup
