-- ===== src/CommandLine.antt =====
-- bin/cpplint.py, `PrintUsage`, `PrintCategories`, `ParseArguments` and `main`, with the globals
-- that the flags set. What `getopt.getopt` and `int` give are parameters; a negative number is
-- outside of the model, whose levels and lengths are natural numbers.
pub mod Usage
pub mod Checked
pub mod Status
use power_judge.Prelude.{
  ℕ, Bool, true, false, ◌||◌, not, Option, none, some, List, [], ◌∷◌, ◌++◌, if◌then◌else◌, is_nil,
  ltb,
}
use power_judge.Text.{Text, codes, text_eq, text_in, concat, split}
use power_judge.Lint.Categories.{error_categories}
use power_judge.Lint.{
  Linter, set_output_format, set_verbose_level, set_filters, set_counting_style, reset_error_counts,
  print_error_counts,
}
use power_judge.Style.{Settings}
use power_judge.Process.Files.{Machine, process_file}
use power_judge.CommandLine.Usage.{usage}

-- How a run ends early: `sys.exit` with what went to stderr and the exit status, or a `ValueError`
-- with the message, where the source gives one.
pub data Stop : Type 0 where
  exits : Text → ℕ → Stop
  raises : Option Text → Stop

-- A result, or an early end.
pub data Run {ℓ} (A : Type ℓ) : Type ℓ where
  stopped : Stop → Run A
  going : A → Run A

infixl 5 ◌>>=◌
abbrev pub ◌>>=◌ {ℓ κ} : {A : Type ℓ} {B : Type κ} → Run A → (A → Run B) → Run B
stopped s >>= f = stopped s
going a >>= f = f a

-- `PrintUsage`
unfoldable pub print_usage : Option Text → Stop
unfolding usage
print_usage none = exits usage 1
print_usage (some message) = exits (usage ++ (codes "\nFATAL ERROR: " ++ (message ++ codes "\n"))) 1

category_lines : List Text → Text
category_lines [] = []
category_lines (c ∷ cs) = codes "  " ++ (c ++ (codes "\n" ++ category_lines cs))

-- `PrintCategories`
unfoldable pub print_categories : Stop
unfolding category_lines
print_categories = exits (category_lines error_categories) 0

-- `_cpplint_state`, `_root`, `_line_length` and `_valid_extensions`
pub record Globals : Type 0 where
  pub linter : Linter
  pub root : Option Text
  pub line_length : ℕ
  pub valid_extensions : List Text

-- The local variables of `ParseArguments`.
pub record Arguments : Type 0 where
  pub verbosity : ℕ
  pub output_format : Text
  pub filters : Text
  pub counting_style : Text

abbrev pub output_formats : List Text
output_formats = codes "emacs" ∷ codes "vs7" ∷ codes "eclipse" ∷ []

abbrev pub counting_styles : List Text
counting_styles = codes "total" ∷ codes "toplevel" ∷ codes "detailed" ∷ []

unfoldable pub set_output : Text → Arguments → Run Arguments
set_output val args =
    if text_in val output_formats
    then going (record args { output_format = val })
    else stopped
        (print_usage (some (codes "The only allowed output formats are emacs, vs7 and eclipse.")))

unfoldable pub set_verbosity : Option ℕ → Arguments → Run Arguments
set_verbosity none args = stopped (raises none)
set_verbosity (some level) args = going (record args { verbosity = level })

unfoldable pub set_filter : Text → Arguments → Run Arguments
set_filter val args =
    if is_nil val then stopped print_categories else going (record args { filters = val })

unfoldable pub set_counting : Text → Arguments → Run Arguments
set_counting val args =
    if text_in val counting_styles
    then going (record args { counting_style = val })
    else stopped
        (print_usage (some (codes "Valid counting options are total, toplevel, and detailed")))

unfoldable pub set_line_length : Option ℕ → Globals → Run Globals
set_line_length none globals = stopped (print_usage (some (codes "Line length must be digits.")))
set_line_length (some n) globals = going (record globals { line_length = n })

-- set(ws), in the order of insertion
without_text : Text → List Text → List Text
unfolding text_eq
without_text w [] = []
without_text w (v ∷ ws) = let rest = without_text w ws in if text_eq w v then rest else v ∷ rest

unfoldable pub as_set : List Text → List Text
unfolding without_text
as_set [] = []
as_set (w ∷ ws) = w ∷ without_text w (as_set ws)

-- One round of the loop over the flags. (`val.split` raises no `ValueError`.)
unfoldable pub parse_option :
    (Text → Option ℕ) → Text → Text → Globals × Arguments → Run (Globals × Arguments)
parse_option int opt val (globals, args) =
    if text_eq opt (codes "--help")
    then stopped (print_usage none)
    else if text_eq opt (codes "--output")
    then (do args' ← set_output val args; going (globals, args'))
    else if text_eq opt (codes "--verbose")
    then (do args' ← set_verbosity (int val) args; going (globals, args'))
    else if text_eq opt (codes "--filter")
    then (do args' ← set_filter val args; going (globals, args'))
    else if text_eq opt (codes "--counting")
    then (do args' ← set_counting val args; going (globals, args'))
    else if text_eq opt (codes "--root")
    then going (record globals { root = some val }, args)
    else if text_eq opt (codes "--linelength")
    then (do globals' ← set_line_length (int val) globals; going (globals', args))
    else if text_eq opt (codes "--extensions")
    then going (record globals { valid_extensions = as_set (split val b',') }, args)
    else going (globals, args)

unfoldable pub parse_options :
    (Text → Option ℕ) → List (Text × Text) → Globals × Arguments → Run (Globals × Arguments)
parse_options int [] st = going st
parse_options int ((opt, val) ∷ opts) st = do
  st' ← parse_option int opt val st
  parse_options int opts st'

unfoldable pub filters_set : Linter × Option Text → Run Linter
filters_set (linter, none) = going linter
filters_set (linter, some message) = stopped (raises (some message))

-- What `ParseArguments` sets at its end.
unfoldable pub apply_arguments : Arguments → Linter → Run Linter
apply_arguments args linter = do
  linter' ← filters_set (
      set_filters args.filters
        (set_verbose_level args.verbosity (set_output_format args.output_format linter)).1)
  going (set_counting_style args.counting_style linter')

-- The local variables before the loop.
unfoldable pub new_arguments : Linter → Arguments
new_arguments linter = record {
  verbosity = linter.verbose_level;
  output_format = linter.output_format;
  filters = [];
  counting_style = [];
}

-- `ParseArguments`, for what `getopt` gives (`none` for a `GetoptError`): the names of the files,
-- and the globals.
unfoldable pub parse_arguments :
    (Text → Option ℕ)
    → Option (List (Text × Text) × List Text)
    → Globals
    → Run (List Text × Globals)
parse_arguments int none globals = stopped (print_usage (some (codes "Invalid arguments.")))
parse_arguments int (some (opts, filenames)) globals = do
  (globals', args) ← parse_options int opts (globals, new_arguments globals.linter)
  if is_nil filenames then stopped (print_usage (some (codes "No files were specified."))) else (do
    linter ← apply_arguments args globals'.linter
    going (filenames, record globals' { linter = linter }))

unfoldable pub process_files : Settings → Machine → List Text → List Text → Linter → Option Linter
process_files settings machine valid_extensions [] linter = some linter
process_files settings machine valid_extensions (f ∷ fs) linter =
    elim (process_file settings machine valid_extensions f linter.verbose_level linter) [
      | none ↦ none
      | some linter' ↦ process_files settings machine valid_extensions fs linter'
    ]

unfoldable pub reverse_onto : List Text → List Text → List Text
reverse_onto [] done = done
reverse_onto (l ∷ ls) done = reverse_onto ls (l ∷ done)

-- `main`: the final state and the exit status.
unfoldable pub main :
    (Text → Option ℕ)
    → Option (List (Text × Text) × List Text)
    → Settings
    → Machine
    → Globals
    → Run (Option (Linter × ℕ))
main int arguments settings machine globals = do
  (filenames, globals') ← parse_arguments int arguments globals
  let settings' = record settings { root = globals'.root; line_length = globals'.line_length }
  going
      (elim (process_files settings' machine globals'.valid_extensions filenames
        (reset_error_counts globals'.linter)) [
          | none ↦ none
          | some linter ↦ some (
            record linter { stderr = reverse_onto (print_error_counts linter) linter.stderr },
            if ltb 0 linter.error_count then 1 else 0,
          )
        ])
