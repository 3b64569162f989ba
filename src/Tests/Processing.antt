-- ===== src/Tests/Processing.antt =====
-- The theorems on whole lines, files and command lines, applied at concrete inputs.
use power_judge.Prelude.{
  length, ◌≤◌, not, ◌&&◌, ◌⊎◌, ◌↔◌, drop, some, none, ◌++◌, true, false, none, some, [], ◌∷◌, ◌++◌,
  ◌≡◌, inl, refl, is_nil, arith,
}
use power_judge.Text.{ends_with, Text, codes, text_eq, text_in}
use power_judge.Regex.Parse.{re}
use power_judge.Regex.Scan.{search, group?}
use power_judge.Patterns.{re_search}
use power_judge.Lint.{Linter, initial_linter, has_sign, set_filters}
use power_judge.Lint.Filters.{AllSigned}
use power_judge.Process.{FileState, new_file_state, process_line}
use power_judge.Process.Progress.{Progress}
use power_judge.Process.Lines.{process_line-Outcome}
use power_judge.Process.Nolint.{SilencesAll, Silent, process_line-Silent}
use power_judge.Process.Whole.{FileRun, process_file_data-Progress, process_file-FileRun}
use power_judge.Process.RoundTrip.{Rejoins, without_return-Rejoins}
use power_judge.Blocks.{check_empty_block_body}
use power_judge.Blocks.Bodies.{check_empty_block_body-none_iff}
use power_judge.Style.Widths.{LengthChecked, check_style-LengthChecked}
use power_judge.Process.Found.{Spoken, process_line-Spoken}
use power_judge.WhatYouUse.{add_module_headers}
use power_judge.WhatYouUse.Modules.{Credits, add_module_headers-Credits}
use power_judge.CommandLine.{
  going, Globals, parse_arguments, parse_options, parse_option, apply_arguments, output_formats,
  set_filter, set_output, filters_set,
}
use power_judge.CommandLine.Checked.{IsConfigured, parse_arguments-IsConfigured}
use power_judge.CommandLine.Status.{Finished, main-Finished}
use power_judge.Cleanse.{cleansed_lines}
use power_judge.Nesting.Update.{consume_tokens}
use power_judge.Nesting.Braces.{run_tokens}
use power_judge.Nesting.Loop.{tokens_from, consume_tokens-run_tokens}
use power_judge.Regex.Scan.{Match, position, match_to}
use power_judge.Language.Calls.{matching_punctuation, get_text_inside}
use power_judge.Language.Calls.Nested.{Nested}
use power_judge.Language.Calls.Inside.{get_text_inside-Nested}
use power_judge.WhatYouUse.{required_from, check_for_include_what_you_use}
use power_judge.WhatYouUse.Missing.{
  has_own_header, file_in_module, AllIncluded, check_for_include_what_you_use-AllIncluded,
}
use power_judge.WhatYouUse.Needs.{lookup, last_use, required_from-last_use}
use power_judge.Tests.Files.{
  plain_settings, one_line, one_line_checked, one_line_styled, one_file, one_file_processed,
  globals, arguments, main_run, two_lines_processed,
}

initial-AllSigned : AllSigned initial_linter.filters
unfolding initial_linter has_sign
initial-AllSigned = (refl, tt)

one_line_processed :
    (r : FileState × Linter) × (process_line plain_settings
        (codes "a.cc")
        (codes "cc")
        one_line
        0
        (new_file_state, initial_linter)
      ≡ some r)
unfolding initial_linter
one_line_processed =
    let (o, runs) =
      process_line-Outcome plain_settings (codes "a.cc") (codes "cc") one_line 0 new_file_state
        initial_linter initial-AllSigned one_line_checked.1 in
    ((one_line_checked.0.0, o.final), runs)

process_line-Spoken_example :
    Spoken plain_settings
      (codes "a.cc")
      (codes "cc")
      one_line
      0
      new_file_state
      initial_linter
      one_line_processed.0.1
process_line-Spoken_example =
    process_line-Spoken plain_settings (codes "a.cc") (codes "cc") one_line 0 new_file_state
      initial_linter initial-AllSigned one_line_processed.1

one_line-SilencesAll : SilencesAll (codes "if(x) strcpy(a,b);  // NOLINT")
unfolding re_search search re group?
one_line-SilencesAll = record { found = _; comment = refl; all_categories = inl refl }

process_line-Silent_example :
    Silent plain_settings (codes "a.cc") (codes "cc") one_line 0 new_file_state initial_linter
unfolding initial_linter
process_line-Silent_example =
    process_line-Silent plain_settings (codes "a.cc") (codes "cc") one_line 0 new_file_state
      initial_linter one_line-SilencesAll initial-AllSigned one_line_checked.1

process_file_data-Progress_example : Progress (codes "a.h") initial_linter two_lines_processed.0
process_file_data-Progress_example =
    process_file_data-Progress plain_settings one_file (codes "a.h") (codes "h")
      (codes "int x;" ∷ [] ∷ []) initial_linter two_lines_processed.1

process_file-FileRun_example :
    FileRun one_file (codes "cc" ∷ []) (codes "a.cc") 1 initial_linter one_file_processed.0
process_file-FileRun_example =
    process_file-FileRun plain_settings one_file (codes "cc" ∷ []) (codes "a.cc") 1 initial_linter
      one_file_processed.1

without_return-Rejoins_example : Rejoins (codes "a\r\nb\n")
without_return-Rejoins_example = without_return-Rejoins (codes "a\r\nb\n")

add_module_headers-Credits_example :
    Credits
      (λ name. some (codes "#include <vector>\n" ∷ []))
      (codes "/src/a.cc")
      (codes "a.h" ∷ codes "b.h" ∷ [])
      (false, codes "a.h" ∷ [])
      (add_module_headers
        (λ name. some (codes "#include <vector>\n" ∷ []))
        (codes "/src/a.cc")
        (codes "a.h" ∷ codes "b.h" ∷ [])
        (false, codes "a.h" ∷ []))
add_module_headers-Credits_example =
    add_module_headers-Credits (λ name. some (codes "#include <vector>\n" ∷ [])) (codes "/src/a.cc")
      (codes "a.h" ∷ codes "b.h" ∷ []) (false, codes "a.h" ∷ [])

check_style-LengthChecked_example :
    LengthChecked plain_settings
      (codes "a.cc")
      one_line
      0
      (codes "cc")
      []
      (codes "if(x) strcpy(a,b);  // NOLINT")
check_style-LengthChecked_example =
    check_style-LengthChecked plain_settings (codes "a.cc") one_line 0 (codes "cc") []
      one_line_styled.1

parsed :
    (g : Globals) × (parse_arguments (λ s. none) arguments globals
      ≡ going (codes "a.cc" ∷ codes "b.cc" ∷ [], g))
unfolding parse_arguments parse_options parse_option apply_arguments text_eq set_filter set_output
    text_in filters_set set_filters
parsed = (_, refl)

known_format : text_in globals.linter.output_format output_formats ≡ true
unfolding text_in initial_linter
known_format = refl

parse_arguments-IsConfigured_example :
    (is_nil (codes "a.cc" ∷ codes "b.cc" ∷ []) ≡ false) × IsConfigured parsed.0.linter
parse_arguments-IsConfigured_example =
    parse_arguments-IsConfigured (λ s. none) arguments globals (codes "a.cc" ∷ codes "b.cc" ∷ [])
      parsed.0 known_format parsed.1

main-Finished_example : Finished (λ s. none) arguments one_file globals main_run.0 main_run.1
main-Finished_example =
    main-Finished (λ s. none) arguments plain_settings one_file globals main_run.2

abbrev call : Text
call = codes "f(a[1], b) c"

abbrev call_match : Match
call_match = record { from = position 0 call; to = position 2 call }

get_text_inside-Nested_example : (get_text_inside call call_match ≡ some (codes "a[1], b")) ↔ (
    Nested (codes "a[1], b")
    × ((rest : Text) × (drop (match_to call_match) call ≡ codes "a[1], b" ++ b')' ∷ rest)))
unfolding matching_punctuation match_to
get_text_inside-Nested_example = get_text_inside-Nested call call_match b')' (codes "a[1], b") refl

consume_tokens-run_tokens_example :
    consume_tokens (cleansed_lines []) 0 4 (codes "{;}") []
    ≡ run_tokens (cleansed_lines []) 0 (tokens_from (codes "{;}") (codes "{;}")) []
consume_tokens-run_tokens_example =
    consume_tokens-run_tokens (cleansed_lines []) 0 4 (codes "{;}") [] (omega arith)
      ((λ e. omega (arith, e)), ((λ e. omega (arith, e)), ((λ e. omega (arith, e)), tt)))

required_from-last_use_example :
    lookup (codes "<vector>") (required_from 0 (codes "vector<int> x;" ∷ []) [])
    ≡ last_use (codes "<vector>") 0 (codes "vector<int> x;" ∷ []) (lookup (codes "<vector>") [])
required_from-last_use_example =
    required_from-last_use (codes "<vector>") 0 (codes "vector<int> x;" ∷ []) []

check_for_include_what_you_use-AllIncluded_example :
    (check_for_include_what_you_use plain_settings.files one_file.read_lines
        (codes "a.h")
        one_line
        (codes "string" ∷ [])
      ≡ [])
    ↔ (((ends_with (codes "a.h") (codes ".cc")
            && not (
                has_own_header one_file.read_lines
                  (file_in_module plain_settings.files (codes "a.h"))
                  (codes "string" ∷ [])))
          ≡ true)
        ⊎ AllIncluded one_file.read_lines
            (file_in_module plain_settings.files (codes "a.h"))
            (codes "string" ∷ [])
            (required_from 0 one_line.elided []))
check_for_include_what_you_use-AllIncluded_example =
    check_for_include_what_you_use-AllIncluded plain_settings.files one_file.read_lines
      (codes "a.h") one_line (codes "string" ∷ [])

check_empty_block_body-none_iff_example :
    (check_empty_block_body (codes "  while (f(" ∷ codes "      1));" ∷ []) 2 ≡ none)
    ↔ (length (codes "  while (f(" ∷ codes "      1));" ∷ []) ≤ 2)
check_empty_block_body-none_iff_example =
    check_empty_block_body-none_iff (codes "  while (f(" ∷ codes "      1));" ∷ []) 2
