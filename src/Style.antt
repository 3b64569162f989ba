-- ===== src/Style.antt =====
-- bin/cpplint.py, `GetLineWidth` and `CheckStyle`. Every line is taken for a unicode object; of the
-- lines that are not (the markers, the dummies, what is left of a raw string) all are ASCII, for
-- which the two branches of `GetLineWidth` agree.
pub mod Widths
use mathlib.Core.Option
use power_judge.Prelude.{
  ℕ, suc, ◌+◌, ◌*◌, ◌/◌, Bool, true, false, ◌&&◌, ◌||◌, not, Option, none, some, List, [], ◌∷◌,
  ◌++◌, ltb, ◌==◌, if◌then◌else◌, length, get_or, flatten, last?,
}
use power_judge.Prelude.Maybe.{◌>>=◌}
use power_judge.Text.{Text, codes, text_eq, starts_with, has, count, decimal, is_space}
use power_judge.Patterns.{matches}
use power_judge.Lint.{Diagnostic}
use power_judge.Cleanse.{CleansedLines}
use power_judge.FileNames.{FileSystem, get_header_guard_cpp_variable}
use power_judge.FileChecks.{report_if, report_text}
use power_judge.LineChecks.{check_alt_tokens}
use power_judge.Nesting.{Block, ClassInfo, innermost_class}
use power_judge.Blocks.{check_empty_block_body, check_access, check_section_spacing}
use power_judge.Spacing.{check_spacing}
use power_judge.Braces.{previous_line, check_braces}
use power_judge.CheckMacros.{check_check}

-- Python's `unicodedata`: NFC, and whether a character is wide (`W` or `F`) or combining.
pub record UnicodeData : Type 0 where
  pub normalize : Text → Text
  pub is_wide : ℕ → Bool
  pub is_combining : ℕ → Bool

-- What the checks read besides the file: the file system, the character data, and the globals
-- `_root` and `_line_length`.
pub record Settings : Type 0 where
  pub files : FileSystem
  pub unicode : UnicodeData
  pub root : Option Text
  pub line_length : ℕ

unfoldable pub width_of : UnicodeData → Text → ℕ
width_of u [] = 0
width_of u (c ∷ s) = (if u.is_wide c then 2 else if u.is_combining c then 0 else 1) + width_of u s

-- `GetLineWidth`
unfoldable pub get_line_width : UnicodeData → Text → ℕ
unfolding width_of
get_line_width u line = width_of u (u.normalize line)

unfoldable pub initial_spaces : Text → ℕ
initial_spaces [] = 0
initial_spaces (c ∷ s) = let more = suc (initial_spaces s) in if c == b' ' then more else 0

ends_in_space : Option ℕ → Bool
unfolding is_space
ends_in_space none = false
ends_in_space (some c) = is_space c

-- The spaces at the two ends of a line.
unfoldable pub indent_errors : ℕ → Text → Text → List Diagnostic
unfolding ends_in_space initial_spaces matches
indent_errors linenum line cleansed_line =
    if ends_in_space (last? line)
    then report_if true linenum "whitespace/end_of_line" 4
        "Line ends in whitespace.  Consider deleting these extra spaces."
    else report_if
        ((initial_spaces line == 1 || initial_spaces line == 3)
          && not (matches "\\s*\\w+\\s*:\\s*$" cleansed_line))
        linenum "whitespace/indent" 3
        "Weird number of spaces at line-start.  Are you using a 2-space indent?"

unfoldable pub is_guard_line : Text → Text → Bool
unfolding starts_with
is_guard_line line cppvar =
    starts_with line (codes "#ifndef " ++ cppvar)
    || starts_with line (codes "#define " ++ cppvar)
    || starts_with line (codes "#endif  // " ++ cppvar)

-- Whether the line is part of the header guard of the file.
unfoldable pub is_header_guard : Settings → Text → Text → Text → Option Bool
unfolding text_eq get_header_guard_cpp_variable is_guard_line
is_header_guard st filename file_extension line =
    if text_eq file_extension (codes "h")
    then (do
      cppvar ← get_header_guard_cpp_variable st.files st.root filename
      some (is_guard_line line cppvar))
    else some false

-- The lines that may be long.
unfoldable pub may_be_long : Text → Bool → Bool
unfolding starts_with matches
may_be_long line is_guard =
    starts_with line (codes "#include")
    || is_guard
    || matches "^\\s*//.*http(s?)://\\S*$" line
    || matches "^// \\$Id:.*#[0-9]+ \\$$" line

-- int(_line_length * 1.25)
abbrev pub extended_length : ℕ → ℕ
extended_length line_length = line_length * 5 / 4

unfoldable pub length_errors : ℕ → ℕ → ℕ → List Diagnostic
unfolding decimal
length_errors linenum line_length width =
    if ltb (extended_length line_length) width
    then report_text true linenum "whitespace/line_length" 4 (
        codes "Lines should very rarely be longer than "
        ++ (decimal (extended_length line_length) ++ codes " characters"))
    else report_text (ltb line_length width) linenum "whitespace/line_length" 2
        (codes "Lines should be <= " ++ (decimal line_length ++ codes " characters long"))

-- More than one command on a line.
unfoldable pub has_commands : Text → Text → Bool
unfolding count has
has_commands cleansed_line prevline =
    ltb 1 (count cleansed_line (codes ";"))
    && not (has cleansed_line (codes "for"))
    && (not (has prevline (codes "for")) || has prevline (codes ";"))
    && not (
        (has cleansed_line (codes "case ") || has cleansed_line (codes "default:"))
        && has cleansed_line (codes "break;"))

section_errors : CleansedLines → ℕ → Option ClassInfo → List Diagnostic
unfolding check_section_spacing
section_errors clean_lines linenum none = []
section_errors clean_lines linenum (some c) = check_section_spacing clean_lines c linenum

-- `CheckStyle`
unfoldable pub check_style :
    Settings → Text → CleansedLines → ℕ → Text → List Block → Option (List Diagnostic)
unfolding has indent_errors is_header_guard may_be_long length_errors get_line_width has_commands
    previous_line check_braces check_empty_block_body check_access check_spacing check_check
    check_alt_tokens section_errors innermost_class
check_style st filename clean_lines linenum file_extension stack =
    let line = get_or clean_lines.lines_without_raw_strings linenum [] in
    let elided = clean_lines.elided in
    let cleansed_line = get_or elided linenum [] in
    do
      is_guard ← is_header_guard st filename file_extension line
      braces ← check_braces elided linenum
      bodies ← check_empty_block_body elided linenum
      spacing ← check_spacing clean_lines linenum stack
      checks ← check_check elided linenum
      some (
          flatten (
            report_if (has line (codes "\t")) linenum "whitespace/tab" 1
              "Tab found; better to use spaces"
            ∷ indent_errors linenum line cleansed_line
            ∷ (if may_be_long line is_guard
                then []
                else length_errors linenum st.line_length (get_line_width st.unicode line))
            ∷ report_if (has_commands cleansed_line (previous_line elided linenum)) linenum
                "whitespace/newline" 0 "More than one command on the same line"
            ∷ braces
            ∷ bodies
            ∷ check_access linenum cleansed_line stack
            ∷ spacing
            ∷ checks
            ∷ check_alt_tokens linenum cleansed_line
            ∷ section_errors clean_lines linenum (innermost_class stack)
            ∷ []))
