-- ===== src/Tests.antt =====
-- Runs of the model on small inputs. The theorems applied at concrete inputs are in Witnesses.
mod Files
mod Processing
mod Witnesses
use power_judge.Prelude.{
  Bool, true, false, List, [], ◌∷◌, ◌++◌, none, some, ◌≡◌, ◌↔◌, ◌⊎◌, refl, arith, inl, drop, length,
}
use power_judge.Text.{Text, codes, decimal, split, concat, text_eq}
use power_judge.Regex.Parse.{re, compile}
use power_judge.Regex.Scan.{search, match_start, group?, sub, IsFirstMatch}
use power_judge.Patterns.{
  re_search, re_match, searches, cache_transparent, search_cached-FirstMatch, search_cached, match,
  replace_all, IsCoherent, empty-IsCoherent,
}
use power_judge.Lint.Categories.{default_filters}
use power_judge.Lint.{Diagnostic, initial_linter, has_sign, set_filters, clean_filters}
use power_judge.Lint.Report.{should_print_error, run_filters, filter_step, error, print_error}
use power_judge.Lint.Filters.{AllSigned}
use power_judge.Lint.Reporting.{IsReported, should_print_error-IsReported}
use power_judge.Lint.Counts.{Outcome, report-Outcome}
use power_judge.Cleanse.MultiLine.{starts_comment, remove_multi_line_comments}
use power_judge.Cleanse.Removal.{Fails, Removed}
use power_judge.Cleanse.OnePass.{remove_multi_line_comments-Removed}
use power_judge.Brackets.{Place, closer, close_expression}
use power_judge.Brackets.Close.{IsClosing, close_expression-IsClosing}
use power_judge.Includes.{c_sys_header, check_next_include_order}
use power_judge.Includes.Order.{Ordered, check_next_include_order-Ordered}
use power_judge.Functions.{FunctionState, check}
use power_judge.Functions.Level.{IsLevelled, check-IsLevelled}
use power_judge.Nesting.{Block, plain_block, new_block, new_nesting_state}
use power_judge.Nesting.Preprocessor.{begin_if, begin_else, end_if}
use power_judge.Nesting.Conditionals.{
  Event, meets, changes, Section, nothing, change, conditional, other, none_left, run_events,
  run_events-Section,
}
use power_judge.FileChecks.Guard.{check_for_header_guard}
use power_judge.FileChecks.Guarded.{first_arg, last_endif, check_for_header_guard-nil}
use power_judge.Nesting.{namespace_block, class_block, check_end}
use power_judge.FileChecks.{diagnostic}
use power_judge.FileChecks.{report_if, report_text}
use power_judge.Cleanse.{cleansed_lines}
use power_judge.CheckMacros.{check_check}
use power_judge.Braces.{check_braces}
use power_judge.Spacing.{check_spacing}
use power_judge.Patterns.{matches}
use power_judge.LineChecks.NonStandard.{
  check_for_non_standard_constructs, construct_errors, format_errors,
}
use power_judge.Nesting.Braces.{Token, Balanced, run_tokens, run_tokens-Balanced}
use power_judge.Lint.{parse_nolint_suppressions}
use power_judge.Lint.Nolint.{IsLocal, parse_nolint_suppressions-IsLocal}
use power_judge.Cleanse.{CleansedLines, cleansed_lines}
use power_judge.Cleanse.SameLines.{IsAligned, cleansed_lines-IsAligned}
use power_judge.Blocks.{get_previous_non_blank_line}
use power_judge.Blocks.Previous.{IsPrevious, get_previous_non_blank_line-IsPrevious}
use power_judge.Angles.{is_operator, find_next_matching_angle_bracket}
use power_judge.Angles.Template.{Part, Says, find_next_matching_angle_bracket-Says}
use power_judge.FileNames.{FileSystem, svn_root, repository_root}
use power_judge.FileNames.Root.{Upward, repository_root-Upward, svn_root-slash}
use mathlib.Core.Option

nolint_group :
    Option.map
      (group? 1)
      (re_search "\\bNOLINT\\b(\\([^)]*\\))?" (codes "x; // NOLINT(build/class)"))
    ≡ some (some (codes "(build/class)"))
unfolding re_search re search group?
nolint_group = refl

nolint_no_word : searches "\\bNOLINT\\b(\\([^)]*\\))?" (codes "x; // NOLINTX") ≡ false
unfolding searches re search
nolint_no_word = refl

class_header :
    Option.map (group? 4) (
      re_match
        "\\s*(template\\s*<[\\w\\s<>,:]*>\\s*)?(class|struct)\\s+([A-Z_]+\\s+)*(\\w+(?:::\\w+)*)(([^=>]|<[^<>]*>|<[^<>]*<[^<>]*>\\s*>)*)$"
        (codes "class LOCKABLE Foo::Bar : public Base {"))
    ≡ some (some (codes "Foo::Bar"))
unfolding re_match re match_start group?
class_header = refl

comment_stripped :
    sub
      (re "(\\s*/\\*.*\\*/\\s*$|/\\*.*\\*/\\s+|\\s+/\\*.*\\*/(?=\\W)|/\\*.*\\*/)")
      (λ _. [])
      (codes "f(a /* b */ , c) /* d */")
    ≡ codes "f(a"
unfolding sub re
comment_stripped = refl

-- A constructor with one argument, and a storage class behind the type.
non_standard :
    check_for_non_standard_constructs
      (record {
        elided = codes "  const static int x; " ∷ codes " Judge(int n);" ∷ [];
        lines = codes "  const static int x; " ∷ codes " Judge(int n);" ∷ [];
        raw_lines = [];
        num_lines = 2;
        lines_without_raw_strings = [];
      })
      1
      (new_block true (
          class_block (record {
            name = codes "a::Judge";
            starting_linenum = 0;
            is_derived = false;
            access = codes "private";
            is_struct = false;
            class_indent = 0;
            last_line = 9;
          }))
        ∷ [])
    ≡ diagnostic 1 "runtime/explicit" 5
        (codes "Single-argument constructors should be marked explicit.")
      ∷ []
unfolding check_for_non_standard_constructs new_block search re
non_standard = refl

late_storage_class :
    construct_errors 0 (codes "  const static int x;")
    ≡ diagnostic 0 "build/storage_class" 5
        (codes "Storage class (static, extern, typedef, etc) should be first.")
      ∷ []
unfolding construct_errors search re match_start
late_storage_class = refl

format_string :
    format_errors 0 (codes "printf(\"%5qd\", n);")
    ≡ diagnostic 0 "runtime/printf_format" 3
        (codes "%q in format strings is deprecated.  Use %ll instead.")
      ∷ []
unfolding format_errors search re
format_string = refl

constants :
    matches "^([-+]?(\\d+|0[xX][0-9a-fA-F]+)[lLuU]{0,3}|\".*\"|'.*')$" (codes "0x1FuL") ≡ true
unfolding matches re_match re match_start
constants = refl

check_eq :
    check_check (codes "" ∷ codes "  EXPECT_FALSE((a + 1)" ∷ codes "   >= 42);" ∷ []) 1
    ≡ some (
        report_text true 1 "readability/check" 2
          (codes "Consider using EXPECT_LT instead of EXPECT_FALSE(a >= b)"))
unfolding check_check matches re_match re match_start
check_eq = refl

block_semicolon :
    check_braces (codes "  if (x) {" ∷ codes "    y();" ∷ codes "  };" ∷ []) 0
    ≡ some (report_if true 2 "readability/braces" 4 "You don't need a ; after a }")
unfolding check_braces matches searches search re_match re match_start
block_semicolon = refl

spacing :
    check_spacing (cleansed_lines (codes "// marker" ∷ codes "  if(a==b){ //comment" ∷ [])) 1 []
    ≡ some (
        report_if true 1 "whitespace/comments" 2
          "At least two spaces is best between code and comments"
        ++ (report_if true 1 "whitespace/comments" 4 "Should have a space between // and comment"
            ++ (report_if true 1 "whitespace/operators" 3 "Missing spaces around =="
                ++ (report_if true 1 "whitespace/parens" 5 "Missing space before ( in if("
                    ++ report_if true 1 "whitespace/braces" 5 "Missing space before {"))))
unfolding check_spacing cleansed_lines matches searches search re_match re match_start
spacing = refl

decimals : decimal 2048 ≡ codes "2048"
unfolding decimal
decimals = refl
