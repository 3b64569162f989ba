-- ===== src/Spacing/BlankLines.antt =====
-- bin/cpplint.py, `CheckSpacing`: the part on blank lines.
use power_judge.Prelude.{
  ℕ, ◌+◌, ◌-◌, Bool, false, ◌&&◌, ◌||◌, not, Option, none, some, List, [], ◌∷◌, ◌++◌, ltb,
  if◌then◌else◌, take, drop, get_or, reverse, is_nil,
}
use power_judge.Text.{Text, codes, text_eq, has, rfind}
use power_judge.Regex.Scan.{Match, group_text}
use power_judge.Patterns.{re_match, matches}
use power_judge.Lint.{Diagnostic}
use power_judge.Cleanse.{CleansedLines}
use power_judge.FileChecks.{diagnostic, report_if}
use power_judge.Nesting.{Block, in_namespace_body}
use power_judge.Includes.{line_before}
use power_judge.Blocks.{is_blank_line}

-- The lines above an initializer list, nearest first: whether the first that is no part of it
-- begins the list.
unfoldable pub begins_initializers : List Text → Bool
unfolding matches text_eq
begins_initializers [] = false
begins_initializers (line ∷ lines) =
    let above = begins_initializers lines in
    if matches " {6}\\w" line then above else text_eq (take 5 line) (codes "    :")

-- The exceptions to the rule on a blank line behind an opening brace.
unfoldable pub is_header_end : List Text → ℕ → Text → Bool
unfolding matches begins_initializers
is_header_end elided linenum prev_line =
    if matches " {6}\\w" prev_line
    then begins_initializers (reverse (take (linenum - 1) elided))
    else matches " {4}\\w[^\\(]*\\)\\s*(const\\s*)?(\\{\\s*$|:)" prev_line
      || matches " {4}:" prev_line

-- prevbrace != -1 and prev_line[prevbrace:].find('}') == -1
opens_block : Text → Option ℕ → Bool
unfolding has
opens_block prev_line none = false
opens_block prev_line (some prevbrace) = not (has (drop prevbrace prev_line) (codes "}"))

-- The line behind, if there is one, ends a block.
unfoldable pub ends_block : Text → Bool
unfolding matches has
ends_block next_line =
    not (is_nil next_line) && (matches "\\s*}" next_line && not (has next_line (codes "} else ")))

section_error : ℕ → Option Match → List Diagnostic
unfolding group_text
section_error linenum none = []
section_error linenum (some m) =
    diagnostic linenum "whitespace/blank_line" 3
      (codes "Do not leave a blank line after \"" ++ (group_text 1 m ++ codes ":\""))
    ∷ []

-- The errors of a blank line.
unfoldable pub blank_line_errors : CleansedLines → ℕ → List Diagnostic
unfolding line_before rfind opens_block is_header_end ends_block section_error re_match
blank_line_errors clean_lines linenum =
    let prev_line = line_before clean_lines.elided linenum in
    report_if
      (opens_block prev_line (rfind prev_line b'{')
        && not (is_header_end clean_lines.elided linenum prev_line))
      linenum "whitespace/blank_line" 2
      "Redundant blank line at the start of a code block should be deleted."
    ++ (report_if
          (ltb (linenum + 1) clean_lines.num_lines
            && ends_block (get_or clean_lines.lines_without_raw_strings (linenum + 1) []))
          linenum "whitespace/blank_line" 3
          "Redundant blank line at the end of a code block should be deleted."
        ++ section_error linenum (re_match "\\s*(public|protected|private):" prev_line))

-- The whole part, for a line that may not be blank.
unfoldable pub check_blank_line : CleansedLines → ℕ → List Block → List Diagnostic
unfolding is_blank_line in_namespace_body blank_line_errors
check_blank_line clean_lines linenum stack =
    if is_blank_line (get_or clean_lines.lines_without_raw_strings linenum [])
      && not (in_namespace_body stack)
    then blank_line_errors clean_lines linenum
    else []
