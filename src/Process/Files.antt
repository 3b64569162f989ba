-- ===== src/Process/Files.antt =====
-- bin/cpplint.py, `ProcessFileData` and `ProcessFile`. What a file or the standard input holds is a
-- parameter.
use power_judge.Prelude.{
  ℕ, suc, ◌&&◌, not, Option, none, some, List, [], ◌∷◌, ◌++◌, map, reverse, if◌then◌else◌, drop,
  any,
}
use power_judge.Prelude.Maybe.{◌>>=◌}
use power_judge.Text.{Text, codes, text_eq, text_in, ends_with, rfind, split, join, rstrip_char}
use power_judge.Lint.{Linter, reset_nolint_suppressions, set_verbose_level}
use power_judge.Lint.Report.{report, error}
use power_judge.Cleanse.{cleansed_lines}
use power_judge.Cleanse.MultiLine.{remove_multi_line_comments}
use power_judge.FileNames.{get_header_guard_cpp_variable}
use power_judge.FileChecks.{
  diagnostic, check_for_copyright, check_for_bad_characters, check_for_newline_at_eof,
}
use power_judge.FileChecks.Guard.{check_for_header_guard}
use power_judge.Nesting.{check_completed_blocks}
use power_judge.Style.{Settings}
use power_judge.WhatYouUse.{check_for_include_what_you_use}
use power_judge.Process.{new_file_state, process_lines}

-- The decoded text of a file (`none` for an `IOError`), of the standard input, the lines over which
-- an open file iterates, and `os.linesep`.
pub record Machine : Type 0 where
  pub read : Text → Option Text
  pub stdin : Text
  pub read_lines : Text → Option (List Text)
  pub linesep : Text

-- The lines of a file between the two markers.
unfoldable pub with_markers : List Text → List Text
with_markers lines =
    codes "// marker so line numbers and indices both start at 1"
    ∷ (lines ++ codes "// marker so line numbers end in a known way" ∷ [])

-- `if file_extension == 'h': CheckForHeaderGuard(…)`
unfoldable pub header_guard : Settings → Text → Text → List Text → Linter → Option Linter
header_guard settings filename file_extension lines linter =
    if text_eq file_extension (codes "h")
    then (do
      cppvar ← get_header_guard_cpp_variable settings.files settings.root filename
      let (suppressions, ds) = check_for_header_guard cppvar lines linter.suppressions
      report filename ds (record linter { suppressions = suppressions }))
    else some linter

-- `ProcessFileData` behind `RemoveMultiLineComments`.
unfoldable pub process_clean_lines :
    Settings → Machine → Text → Text → List Text → Linter → Option Linter
process_clean_lines settings machine filename file_extension lines linter =
    let clean_lines = cleansed_lines lines in
    do
      (st, linter1) ←
          process_lines settings filename file_extension clean_lines 0 clean_lines.num_lines
            (new_file_state, linter)
      linter2 ← report filename (check_completed_blocks st.nesting.stack) linter1
      linter3 ←
          report filename
            (check_for_include_what_you_use settings.files machine.read_lines filename clean_lines
              (reverse (map (λ (h : Text × ℕ). h.0) st.includes.headers)))
            linter2
      linter4 ← report filename (check_for_bad_characters lines) linter3
      report filename (check_for_newline_at_eof lines) linter4

-- `ProcessFileData`
unfoldable pub process_file_data :
    Settings → Machine → Text → Text → List Text → Linter → Option Linter
process_file_data settings machine filename file_extension lines linter =
    let marked = with_markers lines in
    do
      linter1 ← report filename (check_for_copyright marked) (reset_nolint_suppressions linter)
      linter2 ← header_guard settings filename file_extension marked linter1
      (uncommented, ds) ← remove_multi_line_comments marked
      linter3 ← report filename ds linter2
      process_clean_lines settings machine filename file_extension uncommented linter3

-- sys.stderr.write(text)
unfoldable pub write_error : Text → Linter → Linter
write_error text linter = record linter { stderr = text ∷ linter.stderr }

-- filename[filename.rfind('.') + 1:]
unfoldable pub file_extension_of : Text → Text
unfolding rfind
file_extension_of filename = elim (rfind filename b'.') [
  | none ↦ filename
  | some n ↦ drop (suc n) filename
]

-- One round of the loop that removes trailing '\r'.
unfoldable pub without_return : Text → Text
unfolding ends_with rstrip_char
without_return line = if ends_with line (codes "\r") then rstrip_char 13 line else line

-- The contents of the file, or of the standard input for `-`.
unfoldable pub input_of : Machine → Text → Option Text
unfolding text_eq
input_of machine filename =
    if text_eq filename (codes "-") then some machine.stdin else machine.read filename

-- The part of `ProcessFile` behind the reading of the file.
unfoldable pub process_text : Settings → Machine → List Text → Text → Text → Linter → Option Linter
process_text settings machine valid_extensions filename text linter =
    let lines = split text 10 in
    let carriage_return_found = any (λ l. ends_with l (codes "\r")) lines in
    let file_extension = file_extension_of filename in
    if not (text_eq filename (codes "-")) && not (text_in file_extension valid_extensions)
    then some (
        write_error
          (codes "Ignoring "
            ++ (filename
                ++ (codes "; not a valid file name ("
                    ++ (join (codes ", ") valid_extensions ++ codes ")\n"))))
          linter)
    else (do
      linter1 ←
          process_file_data settings machine filename file_extension (map without_return lines)
            linter
      if carriage_return_found && not (text_eq machine.linesep (codes "\r\n"))
          then error filename
              (diagnostic 0 "whitespace/newline" 1
                (codes "One or more unexpected \\r (^M) found;better to use only a \\n"))
              linter1
          else some linter1)

-- `ProcessFile`
unfoldable pub process_file : Settings → Machine → List Text → Text → ℕ → Linter → Option Linter
process_file settings machine valid_extensions filename vlevel linter =
    let linter' = (set_verbose_level vlevel linter).1 in
    elim (input_of machine filename) [
      | none ↦ some (
          write_error
            (codes "Skipping input '" ++ (filename ++ codes "': Can't open for reading\n")) linter')
      | some text ↦ do
        linter'' ← process_text settings machine valid_extensions filename text linter'
        some (write_error (codes "Done processing " ++ (filename ++ codes "\n")) linter'')
    ]
