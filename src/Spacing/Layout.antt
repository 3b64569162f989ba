-- ===== src/Spacing/Layout.antt =====
-- bin/cpplint.py, `CheckSpacing`: the part on commas, braces, brackets, semicolons and the colon of
-- a range-based `for`.

use power_judge.Prelude.{
  ℕ, ◌+◌, ◌-◌, true, ◌&&◌, ◌||◌, not, Option, none, some, List, [], ◌∷◌, ◌++◌, if◌then◌else◌,
  length, take, drop, flatten, min,
}
use power_judge.Prelude.Maybe.{◌>>=◌}
use power_judge.Text.{Text, concat}
use power_judge.Regex.Scan.{Match, group_text}
use power_judge.Patterns.{re_match, matches, searches}
use power_judge.Lint.{Diagnostic}
use power_judge.Brackets.{Place, close_expression}
use power_judge.FileChecks.{report_if}

unfoldable pub comma_errors : ℕ → Text → Text → List Diagnostic
unfolding searches
comma_errors linenum line raw_line =
    report_if (searches ",[^,\\s]" line && searches ",[^,\\s]" raw_line) linenum "whitespace/comma"
      3 "Missing space after ,"
    ++ report_if (searches ";[^\\s};\\\\)/]" line) linenum "whitespace/semicolon" 3
        "Missing space after ;"

text_behind : Place → Option ℕ → Text
text_behind p none = []
text_behind p (some endpos) = drop endpos p.line

-- What follows the expression, on its last line and on at most two further ones.
unfoldable pub trailing_text : List Text → Place → Text
unfolding text_behind
trailing_text elided p =
    let last = min (p.linenum + 3) (length elided - 1) in
    text_behind p p.column ++ concat (take (last - (p.linenum + 1)) (drop (p.linenum + 1) elided))

brace_errors : List Text → ℕ → Option Match → Option (List Diagnostic)
unfolding close_expression group_text trailing_text matches
brace_errors elided linenum none = some []
brace_errors elided linenum (some m) = do
  place ← close_expression elided linenum (length (group_text 1 m))
  some (
      report_if (not (matches "^[\\s}]*[{.;,)<\\]]" (trailing_text elided place))) linenum
        "whitespace/braces" 5 "Missing space before {")

unfoldable pub last_semicolon_errors : ℕ → Text → List Diagnostic
unfolding searches
last_semicolon_errors linenum line =
    if searches ":\\s*;\\s*$" line
    then report_if true linenum "whitespace/semicolon" 5
        "Semicolon defining empty statement. Use {} instead."
    else if searches "^\\s*;\\s*$" line
    then report_if true linenum "whitespace/semicolon" 5
        "Line contains only semicolon. If this should be an empty statement, use {} instead."
    else report_if (searches "\\s+;\\s*$" line && not (searches "\\bfor\\b" line)) linenum
        "whitespace/semicolon" 5
        "Extra space before last semicolon. If this should be an empty statement, use {} instead."

-- The part behind the checks of function calls; `none` would be an `IndexError`.
unfoldable pub check_layout : List Text → ℕ → Text → Option (List Diagnostic)
unfolding brace_errors re_match searches last_semicolon_errors
check_layout elided linenum line = do
  ds ← brace_errors elided linenum (re_match "^(.*[^ ({]){" line)
  some (
      flatten (
        ds
        ∷ report_if (searches "}else" line) linenum "whitespace/braces" 5
            "Missing space before else"
        ∷ report_if (searches "\\w\\s+\\[" line && not (searches "delete\\s+\\[" line)) linenum
            "whitespace/braces" 5 "Extra space before ["
        ∷ last_semicolon_errors linenum line
        ∷ report_if (searches "for *\\(.*[^:]:[^: ]" line || searches "for *\\(.*[^: ]:[^:]" line)
            linenum "whitespace/forcolon" 2 "Missing space around colon in range-based for loop"
        ∷ []))
