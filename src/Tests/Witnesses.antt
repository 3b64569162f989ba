-- ===== src/Tests/Witnesses.antt =====
-- The theorems applied at concrete inputs, with these inputs.
use power_judge.Prelude.{
  Bool, true, false, List, [], ◌∷◌, ◌++◌, none, some, ◌≡◌, ◌↔◌, refl, arith, inl, drop, length,
}
use power_judge.Text.{Text, codes, concat, text_eq}
use power_judge.Regex.Parse.{compile}
use power_judge.Regex.Scan.{search, match_start, sub, IsFirstMatch}
use power_judge.Patterns.{
  cache_transparent, search_cached-FirstMatch, search_cached, match, replace_all, IsCoherent,
  empty-IsCoherent,
}
use power_judge.Lint.{Diagnostic, initial_linter, has_sign, set_filters}
use power_judge.Lint.Report.{should_print_error, run_filters, filter_step, error}
use power_judge.Lint.Filters.{AllSigned}
use power_judge.Lint.Reporting.{IsReported, should_print_error-IsReported}
use power_judge.Lint.Counts.{Outcome, report-Outcome}
use power_judge.Cleanse.MultiLine.{starts_comment, remove_multi_line_comments}
use power_judge.Cleanse.Removal.{Fails, Removed}
use power_judge.Cleanse.OnePass.{remove_multi_line_comments-Removed}
use power_judge.Brackets.{Place, closer, close_expression}
use power_judge.Brackets.Close.{IsClosing, close_expression-IsClosing}
use power_judge.Includes.{c_sys_header, check_next_include_order}
use power_judge.Includes.Order.{Ordered, check_next_include_order-Ordered}
use power_judge.Functions.{FunctionState, check}
use power_judge.Functions.Level.{IsLevelled, check-IsLevelled}
use power_judge.Nesting.{Block, plain_block, new_block, new_nesting_state}
use power_judge.Nesting.Preprocessor.{begin_if, begin_else, end_if}
use power_judge.Nesting.Conditionals.{
  Event, meets, changes, Section, nothing, change, conditional, other, none_left, run_events,
  run_events-Section,
}
use power_judge.FileChecks.Guard.{check_for_header_guard}
use power_judge.FileChecks.Older.{Guarded, check_for_header_guard-Guarded}
use power_judge.Lint.Flags.{FiltersSet, set_filters-FiltersSet}
use power_judge.Nesting.{namespace_block, check_end}
use power_judge.Nesting.Braces.{Token, Balanced, run_tokens, run_tokens-Balanced}
use power_judge.Lint.{parse_nolint_suppressions}
use power_judge.Lint.Nolint.{IsLocal, parse_nolint_suppressions-IsLocal}
use power_judge.Cleanse.{CleansedLines, cleansed_lines}
use power_judge.Cleanse.SameLines.{IsAligned, cleansed_lines-IsAligned}
use power_judge.Blocks.{get_previous_non_blank_line}
use power_judge.Blocks.Previous.{IsPrevious, get_previous_non_blank_line-IsPrevious}
use power_judge.Angles.{is_operator, find_next_matching_angle_bracket}
use power_judge.Angles.Template.{Part, Says, find_next_matching_angle_bracket-Says}
use power_judge.FileNames.{FileSystem, svn_root, repository_root}
use power_judge.FileNames.Root.{Upward, repository_root-Upward, svn_root-slash}

abbrev one_error : Diagnostic
one_error = record {
  linenum = 3;
  category = codes "build/include_alpha";
  confidence = 4;
  message = codes "Include not in alphabetical order";
}

abbrev other_error : Diagnostic
other_error = record {
  linenum = 7;
  category = codes "whitespace/tab";
  confidence = 1;
  message = codes "Tab found; better to use spaces";
}

initial-AllSigned : AllSigned initial_linter.filters
unfolding initial_linter has_sign
initial-AllSigned = (refl, tt)

-- The `#include` order is filtered out at first, the tab is reported.
filtered : error (codes "a.cc") one_error initial_linter ≡ some initial_linter
unfolding error should_print_error run_filters filter_step initial_linter
filtered = refl

abbrev long_function : FunctionState
long_function = record {
  in_a_function = true;
  lines_in_function = 1200;
  current_function = codes "main()";
}

-- f(a, and the rest of the call on the line behind
abbrev call_lines : List Text
call_lines = codes "" ∷ codes "f(a," ∷ codes "  g(b));" ∷ []

abbrev guarded : List Text
guarded =
    codes "// marker"
    ∷ codes "#ifndef A_H_"
    ∷ codes "#define A_H_"
    ∷ codes "#endif  // A_H_"
    ∷ codes ""
    ∷ []

abbrev comment_lines : List Text
comment_lines = codes "int x;" ∷ codes "/* a" ∷ codes "b" ∷ codes "c */" ∷ codes "int y;" ∷ []

abbrev plain : Block
plain = new_block true plain_block

-- A class head in both branches of an `#if`.
abbrev two_heads : List Event
two_heads =
    meets begin_if
    ∷ changes (◌∷◌ plain)
    ∷ meets begin_else
    ∷ changes (λ s. plain ∷ plain ∷ s)
    ∷ meets end_if
    ∷ []

push_plain-Section : Section (changes (◌∷◌ plain) ∷ []) (◌∷◌ plain)
push_plain-Section = change (◌∷◌ plain) (λ s. s) [] (nothing refl refl) refl refl

push_two-Section : Section (changes (λ s. plain ∷ plain ∷ s) ∷ []) (λ s. plain ∷ plain ∷ s)
push_two-Section = change (λ s. plain ∷ plain ∷ s) (λ s. s) [] (nothing refl refl) refl refl

two_heads-Section : Section two_heads (◌∷◌ plain)
two_heads-Section =
    conditional (◌∷◌ plain) (λ s. s) (changes (◌∷◌ plain) ∷ [])
      (meets begin_else ∷ changes (λ s. plain ∷ plain ∷ s) ∷ []) [] push_plain-Section
      (other (λ s. plain ∷ plain ∷ s) (changes (λ s. plain ∷ plain ∷ s) ∷ []) [] push_two-Section
        (none_left refl) refl)
      (nothing refl refl) refl refl

search_cached-FirstMatch_example :
    IsFirstMatch
      (compile (codes "a+$"))
      (codes "baa")
      (search_cached (codes "a+$") (codes "baa") []).0
search_cached-FirstMatch_example =
    search_cached-FirstMatch (codes "a+$") (codes "baa") [] empty-IsCoherent

cache_transparent_example :
    ((match (codes "a+$") (codes "baa") []).0 ≡ match_start (compile (codes "a+$")) (codes "baa"))
    × ((search_cached (codes "a+$") (codes "baa") []).0
        ≡ search (compile (codes "a+$")) (codes "baa"))
    × ((replace_all (codes "a+$") (λ _. codes "c") (codes "baa") []).0
        ≡ sub (compile (codes "a+$")) (λ _. codes "c") (codes "baa"))
    × IsCoherent (match (codes "a+$") (codes "baa") []).1
    × IsCoherent (search_cached (codes "a+$") (codes "baa") []).1
    × IsCoherent (replace_all (codes "a+$") (λ _. codes "c") (codes "baa") []).1
cache_transparent_example =
    cache_transparent (codes "a+$") (codes "baa") (λ _. codes "c") [] empty-IsCoherent

should_print_error-IsReported_example :
    (b : Bool) × (should_print_error (codes "whitespace/tab") 1 7 initial_linter ≡ some b)
    × ((b ≡ true) ↔ IsReported initial_linter other_error)
should_print_error-IsReported_example =
    should_print_error-IsReported other_error initial_linter initial-AllSigned

set_filters-FiltersSet_example :
    FiltersSet
      (codes "-whitespace, bad,")
      initial_linter
      (set_filters (codes "-whitespace, bad,") initial_linter).0
      (set_filters (codes "-whitespace, bad,") initial_linter).1
set_filters-FiltersSet_example = set_filters-FiltersSet (codes "-whitespace, bad,") initial_linter

report-Outcome_example : Outcome (codes "a.cc") (one_error ∷ other_error ∷ []) initial_linter
report-Outcome_example =
    report-Outcome (codes "a.cc") (one_error ∷ other_error ∷ []) initial_linter initial-AllSigned

remove_multi_line_comments-Removed_example :
    (out : List Text) × (ds : List Diagnostic) × (remove_multi_line_comments comment_lines
      ≡ some (out, ds))
    × Removed 0 comment_lines out ds
    × (length out ≡ 5)
    × (ds ≡ [] → Fails starts_comment out)
remove_multi_line_comments-Removed_example = remove_multi_line_comments-Removed comment_lines

close_expression-IsClosing_example :
    (r : Place) × (close_expression call_lines 1 1 ≡ some r) × IsClosing b'(' b')' 1 1 call_lines r
unfolding closer
close_expression-IsClosing_example = close_expression-IsClosing call_lines 1 1 b'(' b')' refl refl

check_next_include_order-Ordered_example :
    Ordered c_sys_header
      (record { headers = []; section = 3; last_header = codes "vector" })
      (check_next_include_order c_sys_header
        (record { headers = []; section = 3; last_header = codes "vector" })).0
      (check_next_include_order c_sys_header
        (record { headers = []; section = 3; last_header = codes "vector" })).1
check_next_include_order-Ordered_example =
    check_next_include_order-Ordered c_sys_header
      (record { headers = []; section = 3; last_header = codes "vector" }) (omega arith)

check-IsLevelled_example : IsLevelled 1 long_function (check 1 40 long_function)
check-IsLevelled_example = check-IsLevelled 1 40 long_function (omega arith)

run_events-Section_example :
    run_events two_heads new_nesting_state ≡ record new_nesting_state { stack = plain ∷ [] }
unfolding new_nesting_state
run_events-Section_example =
    run_events-Section two_heads (◌∷◌ plain) new_nesting_state two_heads-Section

check_for_header_guard-Guarded_example :
    Guarded (codes "A_H_") guarded (check_for_header_guard (codes "A_H_") guarded []).1
check_for_header_guard-Guarded_example = check_for_header_guard-Guarded (codes "A_H_") guarded []

-- `{ ; }` and the block of a namespace
abbrev namespace_head : Block
namespace_head = new_block false (namespace_block (codes "judge") 3)

abbrev no_lines : CleansedLines
no_lines = record {
  elided = [];
  lines = [];
  raw_lines = [];
  num_lines = 0;
  lines_without_raw_strings = [];
}

abbrev body_tokens : List Token
body_tokens = (codes "{", false) ∷ (codes ";", false) ∷ (codes "}", false) ∷ []

body_tokens-Balanced : Balanced body_tokens
body_tokens-Balanced =
    Balanced.braces false false ((codes ";", false) ∷ []) []
      (Balanced.statement (codes ";", false) [] (inl refl) (Balanced.nothing refl) refl)
      (Balanced.nothing refl) refl

run_tokens-Balanced_example :
    (run_tokens no_lines 5 body_tokens (record namespace_head { seen_open_brace = true } ∷ [])
      ≡ (record namespace_head { seen_open_brace = true } ∷ [], []))
    × (run_tokens no_lines 5
          ((codes "{", false) ∷ (body_tokens ++ (codes "}", false) ∷ []))
          (namespace_head ∷ [])
        ≡ ([], check_end no_lines 5 (record namespace_head { seen_open_brace = true })))
unfolding new_block
run_tokens-Balanced_example =
    run_tokens-Balanced no_lines 5 body_tokens false false namespace_head [] body_tokens-Balanced
      refl

parse_nolint_suppressions-IsLocal_example :
    IsLocal 8 [] (parse_nolint_suppressions (codes "f();  // NOLINT(build/class)") 8 []).0
parse_nolint_suppressions-IsLocal_example =
    parse_nolint_suppressions-IsLocal (codes "f();  // NOLINT(build/class)") 8 []

cleansed_lines-IsAligned_example : IsAligned comment_lines (cleansed_lines comment_lines)
cleansed_lines-IsAligned_example = cleansed_lines-IsAligned comment_lines

get_previous_non_blank_line-IsPrevious_example :
    IsPrevious guarded 4 (get_previous_non_blank_line guarded 4)
get_previous_non_blank_line-IsPrevious_example = get_previous_non_blank_line-IsPrevious guarded 4

-- `a<b>`, behind its `<`
suffix-Says : Says (codes "b>" ++ concat (drop 1 (codes "a<b>" ∷ []))) true
unfolding is_operator
suffix-Says =
    Says.closes (codes "b") [] b'>' (Part.plain b'b' [] refl (Part.nothing refl) refl) (inl refl)
      refl refl

find_next_matching_angle_bracket-Says_example :
    find_next_matching_angle_bracket (codes "a<b>" ∷ []) 0 (codes "b>") ≡ true
find_next_matching_angle_bracket-Says_example =
    find_next_matching_angle_bracket-Says (codes "a<b>" ∷ []) 0 (codes "b>") true suffix-Says

-- A file system with a repository in one directory, and one with `/.svn`.
abbrev with_git : FileSystem
with_git = record { cwd = codes "/"; exists = text_eq (codes "/home/.git") }

abbrev with_svn : FileSystem
with_svn = record { cwd = codes "/"; exists = text_eq (codes "/.svn") }

repository_root-Upward_example :
    (r : Text) × (repository_root with_git 20 (codes "/home/src") ≡ some r)
    × Upward with_git (codes "/home/src") r
repository_root-Upward_example =
    repository_root-Upward with_git 20 (codes "/home/src") (omega arith)

svn_root-slash_example : svn_root with_svn 50 (codes "/usr") (codes "/") ≡ none
unfolding text_eq
svn_root-slash_example = svn_root-slash with_svn 50 (codes "/usr") refl
