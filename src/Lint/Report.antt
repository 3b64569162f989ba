-- ===== src/Lint/Report.antt =====
-- bin/cpplint.py, `_ShouldPrintError` and `Error`. The parent module holds the state; `none` is
-- the `assert False` of a filter with no sign.
use power_judge.Prelude.{
  ℕ, Bool, true, false, not, Option, none, some, List, [], ◌∷◌, ◌++◌, ltb, if◌then◌else◌, drop,
}
use power_judge.Text.{Text, codes, text_eq, starts_with, decimal}
use power_judge.Lint.{Diagnostic, Linter, is_error_suppressed_by_nolint, increment_error_count}

-- Whether a filter speaks of a category.
unfoldable pub applies : Text → Text → Bool
unfolding starts_with
applies category filter = starts_with category (drop 1 filter)

-- One round of the loop over the filters.
unfoldable pub filter_step : Text → Text → Bool → Option Bool
unfolding applies starts_with
filter_step category filter is_filtered =
    if starts_with filter (codes "-")
    then some (if applies category filter then true else is_filtered)
    else if starts_with filter (codes "+")
    then some (if applies category filter then false else is_filtered)
    else none

unfoldable pub run_filters : Text → List Text → Bool → Option Bool
unfolding filter_step
run_filters category [] is_filtered = some is_filtered
run_filters category (f ∷ fs) is_filtered = elim (filter_step category f is_filtered) [
  | none ↦ none
  | some b ↦ run_filters category fs b
]

negate_flag : Option Bool → Option Bool
negate_flag none = none
negate_flag (some b) = some (not b)

-- `_ShouldPrintError`
unfoldable pub should_print_error : Text → ℕ → ℕ → Linter → Option Bool
unfolding run_filters is_error_suppressed_by_nolint negate_flag
should_print_error category confidence linenum st =
    if is_error_suppressed_by_nolint category linenum st.suppressions
    then some false
    else if ltb confidence st.verbose_level
    then some false
    else negate_flag (run_filters category st.filters false)

-- The line that is printed, in the output format.
unfoldable pub error_line : Text → Text → Diagnostic → Text
unfolding decimal text_eq
error_line output_format filename d =
    let tail =
      d.message
      ++ (codes "  [" ++ (d.category ++ (codes "] [" ++ (decimal d.confidence ++ codes "]\n")))) in
    if text_eq output_format (codes "vs7")
    then filename ++ (codes "(" ++ (decimal d.linenum ++ (codes "):  " ++ tail)))
    else if text_eq output_format (codes "eclipse")
    then filename ++ (codes ":" ++ (decimal d.linenum ++ (codes ": warning: " ++ tail)))
    else filename ++ (codes ":" ++ (decimal d.linenum ++ (codes ":  " ++ tail)))

-- The body of the `if` in `Error`.
unfoldable pub print_error : Text → Diagnostic → Linter → Linter
unfolding increment_error_count
print_error filename d st =
    let st' = increment_error_count d.category st in
    record st' { stderr = error_line st'.output_format filename d ∷ st'.stderr }

when_printed : Option Bool → Text → Diagnostic → Linter → Option Linter
unfolding print_error
when_printed none filename d st = none
when_printed (some true) filename d st = some (print_error filename d st)
when_printed (some false) filename d st = some st

-- `Error`
unfoldable pub error : Text → Diagnostic → Linter → Option Linter
unfolding should_print_error when_printed
error filename d st =
    when_printed (should_print_error d.category d.confidence d.linenum st) filename d st

-- The calls that a check makes, in their order.
unfoldable pub report : Text → List Diagnostic → Linter → Option Linter
unfolding error
report filename [] st = some st
report filename (d ∷ ds) st = elim (error filename d st) [
  | none ↦ none
  | some st' ↦ report filename ds st'
]
