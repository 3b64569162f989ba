-- ===== src/Braces.antt =====
-- bin/cpplint.py, `CheckBraces`. A result is `none` where `CloseExpression` or
-- `ReverseCloseExpression` would raise an `IndexError`.
use mathlib.Core.Option
use power_judge.Prelude.{
  ℕ, ◌-◌, Bool, true, false, ◌&&◌, ◌||◌, not, Option, none, some, List, [], ◌∷◌, ◌++◌, ltb,
  if◌then◌else◌, length, take, drop, get_or, flatten, is_nil,
}
use power_judge.Prelude.Maybe.{◌>>=◌}
use power_judge.Text.{Text, codes, text_in, has, find, find_from, rfind}
use power_judge.Regex.Scan.{Match, group_text}
use power_judge.Patterns.{re_match, re_search, matches, searches}
use power_judge.Lint.{Diagnostic}
use power_judge.Brackets.{Place, close_expression, reverse_close_expression}
use power_judge.FileChecks.{report_if}
use power_judge.Blocks.{get_previous_non_blank_line}

-- GetPreviousNonBlankLine(clean_lines, linenum)[0]
unfoldable pub previous_line : List Text → ℕ → Text
unfolding get_previous_non_blank_line
previous_line elided linenum = elim (get_previous_non_blank_line elided linenum) [
  | none ↦ []
  | some (line, _) ↦ line
]

-- line[pos:], where -1 is for the last character
from_column : Text → Option ℕ → Text
from_column line none = drop (length line - 1) line
from_column line (some pos) = drop pos line

one_sided : ℕ → List Diagnostic
one_sided linenum =
    report_if true linenum "readability/braces" 5
      "If an else has a brace on one side, it should have it on both"

-- The `(` behind `else if`, found at a position; nothing is checked at position 0 or without one.
else_if_errors : List Text → ℕ → Option ℕ → Option (List Diagnostic)
unfolding close_expression has from_column one_sided
else_if_errors elided linenum none = some []
else_if_errors elided linenum (some pos) =
    if ltb 0 pos
    then (do
      place ← close_expression elided linenum pos
      some
          (if has (from_column place.line place.column) (codes "{") then [] else one_sided linenum))
    else some []

-- The braces on the two sides of an `else`.
unfoldable pub else_errors : List Text → ℕ → Text → Option (List Diagnostic)
unfolding searches matches else_if_errors one_sided find find_from
else_errors elided linenum line =
    if searches "}\\s*else[^{]*$" line || matches "[^}]*else\\s*{" line
    then (if searches "}\\s*else if([^{]*)$" line
        then else_if_errors elided linenum (
            find_from line (codes "(")
              (Option.get_or (find line (codes "else if")) (length line - 1)))
        else some (one_sided linenum))
    else some []

abbrev pub safe_macros : List Text
safe_macros =
    codes "TEST"
    ∷ codes "TEST_F"
    ∷ codes "MATCHER"
    ∷ codes "MATCHER_P"
    ∷ codes "TYPED_TEST"
    ∷ codes "EXCLUSIVE_LOCKS_REQUIRED"
    ∷ codes "SHARED_LOCKS_REQUIRED"
    ∷ codes "LOCKS_EXCLUDED"
    ∷ codes "INTERFACE_DEF"
    ∷ []

is_unknown_macro : Option Match → Bool
unfolding text_in group_text
is_unknown_macro none = false
is_unknown_macro (some m) = not (text_in (group_text 1 m) safe_macros)

-- The text before the parenthesis is a macro that is not known, or an assignment.
unfoldable pub is_no_block : Text → Bool
unfolding is_unknown_macro re_search searches
is_no_block line_prefix =
    is_unknown_macro (re_search "\\b([A-Z_]+)\\s*$" line_prefix)
    || searches "\\s+=\\s*$" line_prefix

opens_block : Place → Option ℕ → Bool
unfolding is_no_block
opens_block p none = true
opens_block p (some column) = not (is_no_block (take column p.line))

-- Case 1: a block behind a closing parenthesis, which the pattern puts into the group.
unfoldable pub behind_parenthesis : List Text → ℕ → Match → Option (Option Match)
unfolding rfind group_text reverse_close_expression opens_block
behind_parenthesis elided linenum m = do
  closing_brace_pos ← rfind (group_text 1 m) b')'
  place ← reverse_close_expression elided linenum closing_brace_pos
  some (if opens_block place place.column then some m else none)

-- Cases 2 to 6.
unfoldable pub other_block : List Text → ℕ → Text → Option Match
unfolding re_match searches previous_line
other_block elided linenum line = elim (re_match "^(.*(?:else|\\)\\s*const)\\s*)\\{" line) [
  | some m ↦ some m
  | none ↦
      let prevline = previous_line elided linenum in
      if not (is_nil prevline) && searches "[;{}]\\s*$" prevline
      then re_match "^(\\s*)\\{" line
      else none
]

-- The block whose `}` needs no semicolon, as the match of its `{`.
unfoldable pub find_block : List Text → ℕ → Text → Option (Option Match)
unfolding re_match behind_parenthesis other_block
find_block elided linenum line = elim (re_match "^(.*\\)\\s*)\\{" line) [
  | some m ↦ behind_parenthesis elided linenum m
  | none ↦ some (other_block elided linenum line)
]

semicolon_errors : Place → Option ℕ → List Diagnostic
unfolding matches
semicolon_errors p none = []
semicolon_errors p (some endpos) =
    report_if (matches "^\\s*;" (drop endpos p.line)) p.linenum "readability/braces" 4
      "You don't need a ; after a }"

block_errors : List Text → ℕ → Option Match → Option (List Diagnostic)
unfolding group_text close_expression semicolon_errors
block_errors elided linenum none = some []
block_errors elided linenum (some m) = do
  place ← close_expression elided linenum (length (group_text 1 m))
  some (semicolon_errors place place.column)

-- The lone `{`, and the `else` behind a lone `}`.
unfoldable pub lone_brace_errors : List Text → ℕ → Text → List Diagnostic
unfolding matches searches previous_line
lone_brace_errors elided linenum line =
    let prevline = previous_line elided linenum in
    report_if
      (matches "\\s*{\\s*$" line
        && (not (searches "[,;:}{(]\\s*$" prevline) && not (matches "\\s*#" prevline)))
      linenum "whitespace/braces" 4 "{ should almost always be at the end of the previous line"
    ++ report_if (matches "\\s*else\\s*" line && matches "\\s*}\\s*$" prevline) linenum
        "whitespace/newline" 4 "An else should appear on the same line as the preceding }"

-- `CheckBraces`, over the elided lines
unfoldable pub check_braces : List Text → ℕ → Option (List Diagnostic)
unfolding lone_brace_errors else_errors searches matches find_block block_errors
check_braces elided linenum =
    let line = get_or elided linenum [] in
    do
      ds ← else_errors elided linenum line
      block ← find_block elided linenum line
      es ← block_errors elided linenum block
      some (
          flatten (
            lone_brace_errors elided linenum line
            ∷ ds
            ∷ report_if (searches "\\belse [^\\s{]" line && not (searches "\\belse if\\b" line))
                linenum "whitespace/newline" 4
                "Else clause should never be on same line as else (use 2 lines)"
            ∷ report_if (matches "\\s*do [^\\s{]" line) linenum "whitespace/newline" 4
                "do/while clauses should not be on a single line"
            ∷ es
            ∷ []))
