-- ===== src/LineChecks/Calls.antt =====
-- bin/cpplint.py, `CheckSpacingForFunctionCall`.

use power_judge.Prelude.{
  ℕ, Bool, ◌&&◌, ◌||◌, not, none, some, List, [], ◌∷◌, ◌++◌, String, if◌then◌else◌,
}
use power_judge.Text.{Text, codes}
use power_judge.Regex.Scan.{group_text}
use power_judge.Patterns.{re_search, searches}
use power_judge.Lint.{Diagnostic}
use power_judge.FileChecks.{diagnostic}

abbrev pub control_patterns : List String
control_patterns =
    "\\bif\\s*\\((.*)\\)\\s*{" ∷ "\\bfor\\s*\\((.*)\\)\\s*{" ∷ "\\bwhile\\s*\\((.*)\\)\\s*[{;]"
    ∷ "\\bswitch\\s*\\((.*)\\)\\s*{" ∷ []

-- The text inside the first control structure that matches, or the whole line.
unfoldable pub call_text : List String → Text → Text
unfolding re_search group_text
call_text [] line = line
call_text (p ∷ ps) line = elim (re_search p line) [
  | some m ↦ group_text 1 m
  | none ↦ call_text ps line
]

unfoldable pub ignores_call : Text → Bool
unfolding searches
ignores_call fncall =
    searches "\\b(if|for|while|switch|return|new|delete|catch|sizeof)\\b" fncall
    || searches " \\([^)]+\\)\\([^)]*(\\)|,$)" fncall
    || searches " \\([^)]+\\)\\[[^\\]]+\\]" fncall

parens_error : ℕ → ℕ → String → List Diagnostic
parens_error linenum confidence message =
    diagnostic linenum "whitespace/parens" confidence (codes message) ∷ []

unfoldable pub after_paren : ℕ → Text → List Diagnostic
unfolding searches parens_error
after_paren linenum fncall =
    if searches "\\w\\s*\\(\\s(?!\\s*\\\\$)" fncall
    then parens_error linenum 4 "Extra space after ( in function call"
    else if searches "\\(\\s+(?!(\\s*\\\\)|\\()" fncall
    then parens_error linenum 2 "Extra space after ("
    else []

unfoldable pub before_open_paren : ℕ → Text → List Diagnostic
unfolding searches parens_error
before_open_paren linenum fncall =
    if searches "\\w\\s+\\(" fncall
      && not (searches "#\\s*define|typedef" fncall)
      && not (searches "\\w\\s+\\((\\w+::)*\\*\\w+\\)\\(" fncall)
    then parens_error linenum 4 "Extra space before ( in function call"
    else []

unfoldable pub before_close_paren : ℕ → Text → List Diagnostic
unfolding searches parens_error
before_close_paren linenum fncall =
    if searches "[^)]\\s+\\)\\s*[^{\\s]" fncall
    then (if searches "^\\s+\\)" fncall
        then parens_error linenum 2 "Closing ) should be moved to the previous line"
        else parens_error linenum 2 "Extra space before )")
    else []

-- `CheckSpacingForFunctionCall`
unfoldable pub check_spacing_for_function_call : ℕ → Text → List Diagnostic
unfolding call_text ignores_call after_paren before_open_paren before_close_paren
check_spacing_for_function_call linenum line =
    let fncall = call_text control_patterns line in
    if ignores_call fncall
    then []
    else after_paren linenum fncall
      ++ (before_open_paren linenum fncall ++ before_close_paren linenum fncall)
