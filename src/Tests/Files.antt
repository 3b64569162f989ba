-- ===== src/Tests/Files.antt =====
-- Small files, and what `ProcessLine`, `ProcessFileData` and `ProcessFile` make of them.
use power_judge.Prelude.{ℕ, Option, false, none, some, List, [], ◌∷◌, ◌≡◌, refl, if◌then◌else◌}
use power_judge.Text.{Text, codes, text_eq}
use power_judge.Lint.{Diagnostic}
use power_judge.Cleanse.{CleansedLines}
use power_judge.Style.{Settings, check_style}
use power_judge.Functions.Lengths.{check_for_function_lengths}
use power_judge.Language.{check_language}
use power_judge.References.{check_for_non_const_reference}
use power_judge.LineChecks.{
  check_for_multiline_comments_and_strings, check_vlog_arguments, check_posix_threading,
  check_invalid_increment, check_make_pair_uses_deduction,
}
use power_judge.LineChecks.NonStandard.{check_for_non_standard_constructs}
use power_judge.Nesting.Update.{update}
use power_judge.Process.{
  FileState, new_file_state, line_checks, code_checks, in_asm, process_line, process_lines,
}
use power_judge.Process.Files.{
  Machine, process_clean_lines, process_file_data, process_text, process_file, header_guard,
  write_error, with_markers, file_extension_of, without_return, input_of,
}
use power_judge.Lint.{
  set_counting_style, Linter, initial_linter, by_category, set_filters, reset_error_counts,
  print_error_counts, parse_nolint_suppressions, reset_nolint_suppressions, set_verbose_level,
}
use power_judge.Lint.Report.{report, error}
use power_judge.Cleanse.{cleansed_lines}
use power_judge.Cleanse.MultiLine.{remove_multi_line_comments, lines_until, starts_comment}
use power_judge.FileChecks.{check_for_copyright, check_for_bad_characters, check_for_newline_at_eof}
use power_judge.FileChecks.Guard.{
  check_for_header_guard, check_guard, note_endif, note_directive, missing_directive,
}
use power_judge.Nesting.{check_completed_blocks}
use power_judge.WhatYouUse.{
  check_for_include_what_you_use, require_matching, algorithm_header, template_patterns,
  require_string, add_module_headers, missing_includes, required_from,
}
use power_judge.CommandLine.{
  going, Globals, parse_arguments, parse_options, parse_option, apply_arguments, set_filter,
  set_output, filters_set, process_files, main, new_arguments,
}
use power_judge.Regex.Scan.{search}
use power_judge.Text.{split, rfind, join, ends_with, text_in}

abbrev pub plain_settings : Settings
plain_settings = record {
  files = record { cwd = codes "/src"; exists = λ p. false };
  unicode = record { normalize = λ s. s; is_wide = λ c. false; is_combining = λ c. false };
  root = none;
  line_length = 80;
}

abbrev pub one_line : CleansedLines
one_line = record {
  elided = codes "if(x) strcpy(a,b);" ∷ [];
  lines = codes "if(x) strcpy(a,b);" ∷ [];
  raw_lines = codes "if(x) strcpy(a,b);  // NOLINT" ∷ [];
  num_lines = 1;
  lines_without_raw_strings = codes "if(x) strcpy(a,b);  // NOLINT" ∷ [];
}

pub one_line_checked :
    (r : FileState × List Diagnostic) × (line_checks plain_settings 1
        (codes "a.cc")
        (codes "cc")
        one_line
        0
        new_file_state
      ≡ some r)
unfolding line_checks update in_asm code_checks new_file_state check_for_function_lengths
    check_style check_language check_for_non_const_reference
    check_for_multiline_comments_and_strings check_vlog_arguments check_posix_threading
    check_invalid_increment check_make_pair_uses_deduction check_for_non_standard_constructs
one_line_checked = (_, refl)

pub one_line_styled :
    (ds : List Diagnostic) × (check_style plain_settings (codes "a.cc") one_line 0 (codes "cc") []
      ≡ some ds)
unfolding check_style search
one_line_styled = (_, refl)

-- A file that cannot be opened, and one with two lines.
abbrev pub one_file : Machine
one_file = record {
  read = λ name.
      if text_eq name (codes "a.cc") then some (codes "// Copyright me\r\nif(x) y;\n") else none;
  stdin = [];
  read_lines = λ name. none;
  linesep = codes "\n";
}

pub one_file_processed :
    (l : Linter) × (process_file plain_settings one_file
        (codes "cc" ∷ [])
        (codes "a.cc")
        1
        initial_linter
      ≡ some l)
unfolding line_checks update in_asm code_checks new_file_state check_for_function_lengths
    check_style check_language check_for_non_const_reference
    check_for_multiline_comments_and_strings check_vlog_arguments check_posix_threading
    check_invalid_increment check_make_pair_uses_deduction check_for_non_standard_constructs
    process_line process_lines process_clean_lines process_file_data process_text process_file
    header_guard write_error with_markers file_extension_of without_return input_of
    parse_nolint_suppressions reset_nolint_suppressions set_verbose_level report error
    cleansed_lines remove_multi_line_comments check_for_copyright check_for_bad_characters
    check_for_newline_at_eof check_completed_blocks check_for_include_what_you_use
    add_module_headers missing_includes required_from split rfind join ends_with text_eq text_in
    initial_linter lines_until starts_comment by_category
one_file_processed = (_, refl)

pub two_lines_processed :
    (l : Linter) × (process_file_data plain_settings one_file
        (codes "a.h")
        (codes "h")
        (codes "int x;" ∷ [] ∷ [])
        initial_linter
      ≡ some l)
unfolding line_checks update in_asm code_checks new_file_state check_for_function_lengths
    check_style check_language check_for_non_const_reference
    check_for_multiline_comments_and_strings check_vlog_arguments check_posix_threading
    check_invalid_increment check_make_pair_uses_deduction check_for_non_standard_constructs
    process_line process_lines process_clean_lines process_file_data process_text process_file
    header_guard write_error with_markers file_extension_of without_return input_of
    parse_nolint_suppressions reset_nolint_suppressions set_verbose_level report error
    cleansed_lines remove_multi_line_comments check_for_copyright check_for_bad_characters
    check_for_newline_at_eof check_completed_blocks check_for_include_what_you_use
    add_module_headers missing_includes required_from split rfind join ends_with text_eq text_in
    initial_linter lines_until starts_comment by_category check_for_header_guard check_guard
    note_endif note_directive missing_directive require_matching algorithm_header template_patterns
    require_string
two_lines_processed = (_, refl)

abbrev pub globals : Globals
globals = record {
  linter = initial_linter;
  root = none;
  line_length = 80;
  valid_extensions = codes "cc" ∷ codes "h" ∷ [];
}

abbrev pub arguments : Option (List (Text × Text) × List Text)
arguments = some (
  (codes "--filter", codes "-whitespace,+build") ∷ (codes "--output", codes "vs7") ∷ [],
  codes "a.cc" ∷ codes "b.cc" ∷ [],
)

pub main_run :
    (l : Linter) × (status : ℕ) × (main (λ s. none) arguments plain_settings one_file globals
      ≡ going (some (l, status)))
unfolding line_checks update in_asm code_checks new_file_state check_for_function_lengths
    check_style check_language check_for_non_const_reference
    check_for_multiline_comments_and_strings check_vlog_arguments check_posix_threading
    check_invalid_increment check_make_pair_uses_deduction check_for_non_standard_constructs
    process_line process_lines process_clean_lines process_file_data process_text process_file
    header_guard write_error with_markers file_extension_of without_return input_of
    parse_nolint_suppressions reset_nolint_suppressions set_verbose_level report error
    cleansed_lines remove_multi_line_comments check_for_copyright check_for_bad_characters
    check_for_newline_at_eof check_completed_blocks check_for_include_what_you_use
    add_module_headers missing_includes required_from split rfind join ends_with text_eq text_in
    initial_linter lines_until starts_comment by_category main parse_arguments parse_options
    parse_option apply_arguments set_filter set_output filters_set set_filters process_files
    reset_error_counts print_error_counts set_counting_style new_arguments
main_run = (_, _, refl)
