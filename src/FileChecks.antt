-- ===== src/FileChecks.antt =====
-- bin/cpplint.py, the checks of a whole file: `CheckForCopyright`, `CheckForBadCharacters` and
-- `CheckForNewlineAtEOF`, over the lines with the marker lines at both ends. `CheckForHeaderGuard`
-- is in Guard.
pub mod Guard
pub mod Guarded
pub mod Older
use mathlib.Core.Option
use power_judge.Prelude.{
  ℕ, suc, ◌+◌, ◌-◌, Bool, true, false, ◌&&◌, ◌||◌, not, Option, none, some, List, [], ◌∷◌, ◌++◌,
  String, min, ltb, ◌==◌, if◌then◌else◌, length, take, drop, get_or, is_nil, any,
}
use power_judge.Text.{Text, codes, lower}
use power_judge.Patterns.{searches}
use power_judge.Lint.{Diagnostic}

abbrev pub diagnostic : ℕ → String → ℕ → Text → Diagnostic
diagnostic linenum category confidence message = record {
  linenum = linenum;
  category = codes category;
  confidence = confidence;
  message = message;
}

-- An error that is reported if a test holds; `report_text` for a message that is put together.
abbrev pub report_text : Bool → ℕ → String → ℕ → Text → List Diagnostic
report_text holds linenum category confidence message =
    if holds then diagnostic linenum category confidence message ∷ [] else []

abbrev pub report_if : Bool → ℕ → String → ℕ → String → List Diagnostic
report_if holds linenum category confidence message =
    report_text holds linenum category confidence (codes message)

-- re.search(r'Copyright', line, re.I)
unfoldable pub has_copyright : Text → Bool
unfolding searches lower
has_copyright line = searches "copyright" (lower line)

-- `CheckForCopyright`: one of the lines 1 to 10 has to hold the word.
unfoldable pub check_for_copyright : List Text → List Diagnostic
unfolding has_copyright
check_for_copyright lines =
    if any has_copyright (take 10 (drop 1 lines))
    then []
    else diagnostic 0 "legal/copyright" 5 (
        codes
          "No copyright message found.  You should have a line: \"Copyright [year] <Copyright Owner>\"")
      ∷ []

has_char : ℕ → Text → Bool
has_char c line = any (◌==◌ c) line

bad_characters : ℕ → Text → List Diagnostic
unfolding has_char
bad_characters linenum line =
    (if has_char 0xfffd line
      then diagnostic linenum "readability/utf8" 5
          (codes "Line contains invalid UTF-8 (or Unicode replacement character).")
        ∷ []
      else [])
    ++ (if has_char 0 line
        then diagnostic linenum "readability/nul" 5 (codes "Line contains NUL byte.") ∷ []
        else [])

unfoldable pub bad_characters_from : ℕ → List Text → List Diagnostic
unfolding bad_characters
bad_characters_from linenum [] = []
bad_characters_from linenum (line ∷ lines) =
    bad_characters linenum line ++ bad_characters_from (suc linenum) lines

-- `CheckForBadCharacters`
unfoldable pub check_for_bad_characters : List Text → List Diagnostic
unfolding bad_characters_from
check_for_bad_characters lines = bad_characters_from 0 lines

-- `CheckForNewlineAtEOF`. (With fewer than two lines the source reports a negative line number;
-- the two marker lines rule that out.)
unfoldable pub check_for_newline_at_eof : List Text → List Diagnostic
check_for_newline_at_eof lines =
    if ltb (length lines) 3 || not (is_nil (get_or lines (length lines - 2) []))
    then diagnostic (length lines - 2) "whitespace/ending_newline" 5
        (codes "Could not find a newline character at the end of the file.")
      ∷ []
    else []
