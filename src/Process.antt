-- ===== src/Process.antt =====
-- bin/cpplint.py, `ProcessLine`, `ProcessFileData` and `ProcessFile`: how the checks are put
-- together (`ProcessFileData` and `ProcessFile` in Files). A result is `none` where a check has
-- none; `report` carries out the calls of `Error`.
-- No caller in the repository passes extra check functions, so there are none here.
pub mod Files
pub mod Progress
pub mod Lines
pub mod Code
pub mod Found
pub mod Nolint
pub mod RoundTrip
pub mod Whole
use power_judge.Prelude.{
  ℕ, zero, suc, ◌+◌, ◌-◌, Bool, true, false, ◌&&◌, ◌||◌, not, Option, none, some, List, [], ◌∷◌,
  ◌++◌, map, if◌then◌else◌, length, drop, get_or, any,
}
use power_judge.Prelude.Maybe.{◌>>=◌}
use power_judge.Text.{Text, codes, text_eq, text_in, ends_with, rfind, split, join, rstrip_char}
use power_judge.Lint.{
  Diagnostic, Linter, Suppressions, parse_nolint_suppressions, reset_nolint_suppressions,
  set_verbose_level,
}
use power_judge.Lint.Report.{report}
use power_judge.Cleanse.{CleansedLines, cleansed_lines}
use power_judge.Cleanse.MultiLine.{remove_multi_line_comments}
use power_judge.FileNames.{get_header_guard_cpp_variable}
use power_judge.FileChecks.{
  diagnostic, check_for_copyright, check_for_bad_characters, check_for_newline_at_eof,
}
use power_judge.FileChecks.Guard.{check_for_header_guard}
use power_judge.LineChecks.{
  check_for_multiline_comments_and_strings, check_vlog_arguments, check_posix_threading,
  check_invalid_increment, check_make_pair_uses_deduction,
}
use power_judge.LineChecks.NonStandard.{check_for_non_standard_constructs}
use power_judge.Functions.{FunctionState, new_function_state}
use power_judge.Functions.Lengths.{check_for_function_lengths}
use power_judge.Includes.{IncludeState, new_include_state}
use power_judge.Nesting.{
  Asm, no_asm, Block, NestingState, new_nesting_state, check_completed_blocks,
}
use power_judge.Nesting.Update.{update}
use power_judge.Style.{Settings, check_style}
use power_judge.Language.{check_language}
use power_judge.References.{check_for_non_const_reference}
use power_judge.WhatYouUse.{check_for_include_what_you_use}

-- What `ProcessFileData` hands from line to line.
pub record FileState : Type 0 where
  pub includes : IncludeState
  pub functions : FunctionState
  pub nesting : NestingState

-- Where the states of a file begin.
unfoldable pub new_file_state : FileState
unfolding new_include_state new_function_state new_nesting_state
new_file_state = record {
  includes = new_include_state;
  functions = new_function_state;
  nesting = new_nesting_state;
}

is_asm : Asm → Bool
is_asm no_asm = false
is_asm _ = true

-- nesting_state.stack and nesting_state.stack[-1].inline_asm != _NO_ASM
unfoldable pub in_asm : List Block → Bool
unfolding is_asm
in_asm [] = false
in_asm (b ∷ _) = is_asm b.inline_asm

-- The checks of `ProcessLine` behind its early return, in their order.
unfoldable pub code_checks :
    Settings
    → ℕ
    → Text
    → Text
    → CleansedLines
    → ℕ
    → FileState
    → Option (FileState × List Diagnostic)
code_checks settings verbosity filename file_extension clean_lines line st =
    let elided = get_or clean_lines.elided line [] in
    let stack = st.nesting.stack in
    do
      (functions, lengths) ← check_for_function_lengths verbosity clean_lines line st.functions
      style ← check_style settings filename clean_lines line file_extension stack
      (includes, language) ←
          check_language settings.files filename clean_lines line file_extension st.includes
      references ← check_for_non_const_reference clean_lines.elided line stack
      some (
        record { includes = includes; functions = functions; nesting = st.nesting },
        lengths
            ++ (check_for_multiline_comments_and_strings line elided
                ++ (style
                    ++ (language
                        ++ (references
                            ++ (check_for_non_standard_constructs clean_lines line stack
                                ++ (check_vlog_arguments line elided
                                    ++ (check_posix_threading line elided
                                        ++ (check_invalid_increment line elided
                                            ++ check_make_pair_uses_deduction line elided)))))))),
      )

-- The checks of `ProcessLine`: the states behind them, and the calls of `error`.
unfoldable pub line_checks :
    Settings
    → ℕ
    → Text
    → Text
    → CleansedLines
    → ℕ
    → FileState
    → Option (FileState × List Diagnostic)
line_checks settings verbosity filename file_extension clean_lines line st =
    let (nesting, ds) = update clean_lines line st.nesting in
    let st' = record st { nesting = nesting } in
    if in_asm nesting.stack then some (st', ds) else (do
      (st'', es) ← code_checks settings verbosity filename file_extension clean_lines line st'
      some (st'', ds ++ es))

-- `ProcessLine`
unfoldable pub process_line :
    Settings → Text → Text → CleansedLines → ℕ → FileState × Linter → Option (FileState × Linter)
process_line settings filename file_extension clean_lines line (st, linter) =
    let (suppressions, nolint) =
      parse_nolint_suppressions (get_or clean_lines.raw_lines line []) line linter.suppressions in
    do
      (st', ds) ←
          line_checks settings linter.verbose_level filename file_extension clean_lines line st
      linter' ← report filename (nolint ++ ds) (record linter { suppressions = suppressions })
      some (st', linter')

-- The loop of `ProcessFileData` over `count` lines from `line` on.
unfoldable pub process_lines :
    Settings
    → Text
    → Text
    → CleansedLines
    → ℕ
    → ℕ
    → FileState × Linter
    → Option (FileState × Linter)
process_lines settings filename file_extension clean_lines line zero st = some st
process_lines settings filename file_extension clean_lines line (suc count) st = do
  st' ← process_line settings filename file_extension clean_lines line st
  process_lines settings filename file_extension clean_lines (suc line) count st'
