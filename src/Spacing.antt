-- ===== src/Spacing.antt =====
-- bin/cpplint.py, `CheckSpacing`. Its parts are the children, in the order of the source.
pub mod BlankLines
pub mod Comments
pub mod Operators
pub mod Layout
use power_judge.Prelude.{ℕ, Option, none, some, List, [], ◌∷◌, flatten, get_or}
use power_judge.Prelude.Maybe.{◌>>=◌}
use power_judge.Lint.{Diagnostic}
use power_judge.Cleanse.{CleansedLines}
use power_judge.Nesting.{Block}
use power_judge.LineChecks.Calls.{check_spacing_for_function_call}
use power_judge.Spacing.BlankLines.{check_blank_line}
use power_judge.Spacing.Comments.{check_comment_spacing}
use power_judge.Spacing.Operators.{without_operator_methods, check_operators}
use power_judge.Spacing.Layout.{comma_errors, check_layout}

-- `CheckSpacing`; `none` would be an `IndexError` of `CloseExpression`.
unfoldable pub check_spacing : CleansedLines → ℕ → List Block → Option (List Diagnostic)
unfolding check_blank_line check_comment_spacing without_operator_methods check_operators
    comma_errors check_layout check_spacing_for_function_call
check_spacing clean_lines linenum stack =
    let raw_line = get_or clean_lines.lines_without_raw_strings linenum [] in
    let line = without_operator_methods (get_or clean_lines.elided linenum []) in
    do
      ds ← check_layout clean_lines.elided linenum line
      some (
          flatten (
            check_blank_line clean_lines linenum stack
            ∷ check_comment_spacing linenum raw_line
            ∷ check_operators clean_lines.elided linenum line
            ∷ comma_errors linenum line raw_line
            ∷ check_spacing_for_function_call linenum line
            ∷ ds
            ∷ []))
