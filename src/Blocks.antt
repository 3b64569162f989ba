-- ===== src/Blocks.antt =====
-- bin/cpplint.py, checks that look at several lines: `IsBlankLine`, `GetPreviousNonBlankLine`,
-- `CheckEmptyBlockBody`, `CheckAccess` and `CheckSectionSpacing`.
pub mod Previous
pub mod Bodies
use power_judge.Prelude.{
  ℕ, zero, suc, ◌+◌, ◌-◌, Bool, true, false, ◌||◌, Option, none, some, List, [], ◌∷◌, ◌++◌, leb,
  ltb, if◌then◌else◌, get_or, get_elem?, drop, take, is_nil, all,
}
use power_judge.Prelude.Maybe.{◌>>=◌}
use power_judge.Text.{Text, codes, text_eq, find, is_space}
use power_judge.Regex.Scan.{Match, group_text}
use power_judge.Patterns.{re_match, matches, searches}
use power_judge.Lint.{Diagnostic}
use power_judge.Cleanse.{CleansedLines}
use power_judge.Brackets.{Place, close_expression}
use power_judge.FileChecks.{diagnostic}
use power_judge.Nesting.{ClassInfo, Block, class_of}

-- `IsBlankLine`: `isspace` is false for the empty text, which the source tests first.
unfoldable pub is_blank_line : Text → Bool
unfolding is_space
is_blank_line line = is_nil line || all is_space line

-- The loop of `GetPreviousNonBlankLine`, from the line before the given number down.
unfoldable pub get_previous_non_blank_line : List Text → ℕ → Option (Text × ℕ)
unfolding is_blank_line
get_previous_non_blank_line elided zero = none
get_previous_non_blank_line elided (suc prev) =
    let line = get_or elided prev [] in
    let earlier = get_previous_non_blank_line elided prev in
    if is_blank_line line then earlier else some (line, prev)

empty_body : ℕ → Bool → List Diagnostic
empty_body linenum true =
    diagnostic linenum "whitespace/empty_conditional_body" 5
      (codes "Empty conditional bodies should use {}")
    ∷ []
empty_body linenum false =
    diagnostic linenum "whitespace/empty_loop_body" 5
      (codes "Empty loop bodies should use {} or continue")
    ∷ []

body_errors : Bool → Place → Option ℕ → List Diagnostic
unfolding matches empty_body
body_errors is_if p none = []
body_errors is_if p (some end) =
    if matches ";" (drop end p.line) then empty_body p.linenum is_if else []

unfoldable pub block_errors : List Text → ℕ → Text → Option Match → Option (List Diagnostic)
unfolding find close_expression body_errors text_eq group_text
block_errors elided linenum line none = some []
block_errors elided linenum line (some m) = do
  start ← find line (codes "(")
  place ← close_expression elided linenum start
  some (body_errors (text_eq (group_text 1 m) (codes "if")) place place.column)

-- `CheckEmptyBlockBody`; `none` is an `IndexError`, of the line number or in `CloseExpression`.
unfoldable pub check_empty_block_body : List Text → ℕ → Option (List Diagnostic)
unfolding block_errors re_match
check_empty_block_body elided linenum = do
  line ← get_elem? elided linenum
  block_errors elided linenum line (re_match "\\s*(for|while|if)\\s*\\(" line)

access_error : ℕ → Option ClassInfo → Match → List Diagnostic
unfolding text_eq group_text
access_error linenum none m = []
access_error linenum (some c) m =
    if text_eq c.access (codes "private")
    then []
    else diagnostic linenum "readability/constructors" 3
        (group_text 1 m ++ codes " must be in the private: section")
      ∷ []

innermost_kind : List Block → Option ClassInfo
unfolding class_of
innermost_kind [] = none
innermost_kind (b ∷ _) = class_of b.kind

-- `CheckAccess`
unfoldable pub check_access : ℕ → Text → List Block → List Diagnostic
unfolding access_error innermost_kind re_match
check_access linenum line stack =
    elim (re_match
      "\\s*(DISALLOW_COPY_AND_ASSIGN|DISALLOW_EVIL_CONSTRUCTORS|DISALLOW_IMPLICIT_CONSTRUCTORS)"
      line) [ none ↦ [] | some m ↦ access_error linenum (innermost_kind stack) m ]

-- The first line of a range that ends in `{`, or `otherwise`.
unfoldable pub end_of_class_head : ℕ → ℕ → List Text → ℕ
unfolding searches
end_of_class_head otherwise i [] = otherwise
end_of_class_head otherwise i (line ∷ lines) =
    let later = end_of_class_head otherwise (suc i) lines in
    if searches "\\{\\s*$" line then i else later

section_errors : CleansedLines → ClassInfo → ℕ → Option Match → List Diagnostic
unfolding is_blank_line searches end_of_class_head group_text
section_errors clean_lines c linenum none = []
section_errors clean_lines c linenum (some m) =
    let prev_line = get_or clean_lines.lines (linenum - 1) [] in
    let head =
      end_of_class_head c.starting_linenum c.starting_linenum
        (take (linenum - c.starting_linenum) (drop c.starting_linenum clean_lines.lines)) in
    if is_blank_line prev_line
      || searches "\\b(class|struct)\\b" prev_line
      || searches "\\\\$" prev_line
    then []
    else if ltb head (linenum - 1)
    then diagnostic linenum "whitespace/blank_line" 3
        (codes "\"" ++ (group_text 1 m ++ codes ":\" should be preceded by a blank line"))
      ∷ []
    else []

-- `CheckSectionSpacing`
unfoldable pub check_section_spacing : CleansedLines → ClassInfo → ℕ → List Diagnostic
unfolding section_errors re_match
check_section_spacing clean_lines c linenum =
    if leb c.last_line (c.starting_linenum + 24) || leb linenum c.starting_linenum
    then []
    else section_errors clean_lines c linenum
        (re_match "\\s*(public|protected|private):" (get_or clean_lines.lines linenum []))
